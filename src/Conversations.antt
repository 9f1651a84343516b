-- ===== src/Conversations.antt =====
-- apps/api/src/conversations/conversations.service.ts: createOutboundMessage. Assignment and Changes
-- have the other operations that change a conversation.
pub mod Outgoing
pub mod Missing
pub mod Assignment
pub mod Changes
use Prim.Native.String.{◌++◌ as concat}
use unified_inbox.Prelude.{
  ℕ, String, Bool, true, false, ◌&&◌, ◌||◌, Option, none, some, List, [], ◌∷◌, if◌then◌else◌, ◌==◌,
  any, str_eq,
}
use unified_inbox.Prelude.Int.{pos}
use unified_inbox.Prelude.Text.{trim}
use unified_inbox.Prelude.Result.{
  Failure, http, internal_500, error, conflict, not_found, Exec, pure, throw, catching, ◌>>=◌, ◌>>◌,
}
use unified_inbox.Queues.{Mode, enqueue_outbound}
use unified_inbox.Schema.Enums.{
  ConversationStatus, opened, resolved, snoozed, MessageDirection, inbound, outbound, queued,
  DeliveryStatus,
}
use unified_inbox.Schema.Events.{MessageResponse, SseEvent, message_created}
use unified_inbox.Schema.Rows.{Conversation, Message, User}
use unified_inbox.Database.{Prisma, Store}
use unified_inbox.Database.Statements.{World, query, write, transaction, emit}

-- The relations of the database, by the names that prisma/schema.prisma maps its models to.
abbrev pub schema_relations : List String
schema_relations =
    "organizations" ∷ "users" ∷ "memberships" ∷ "channels" ∷ "conversations" ∷ "messages" ∷ "notes"
    ∷ "tags" ∷ "conversation_tags" ∷ "invitations" ∷ "password_reset_tokens"
    ∷ "email_verification_tokens" ∷ "audit_logs" ∷ "channel_accounts" ∷ "raw_webhook_events" ∷ []

abbrev pub is_resolved : ConversationStatus → Bool
is_resolved opened = false
is_resolved resolved = true
is_resolved snoozed = false

-- `{ id: conversationId, organizationId }`
abbrev pub is_conversation : ℕ → ℕ → Conversation → Bool
is_conversation org id c = c.id == id && c.organization_id == org

abbrev pub relation_missing : String → Failure
relation_missing name = error (concat "relation \"" (concat name "\" does not exist"))

-- The new row's id and time, and the time of a failed enqueueing.
pub record NewMessage : Type 0 where
  pub id : ℕ
  pub created_at : ℕ
  pub failed_at : ℕ

abbrev pub outbound_message : NewMessage → ℕ → ℕ → String → Message
outbound_message new user conversation_id text = record {
  id = new.id;
  direction = outbound;
  body = text;
  provider_message_id = none;
  delivery_status = some queued;
  delivery_status_updated_at = some (pos new.created_at);
  provider_error = none;
  sent_at = none;
  delivered_at = none;
  read_at = none;
  failed_at = none;
  conversation_id = conversation_id;
  sender_id = some user;
  created_at = new.created_at;
}

abbrev pub answered : NewMessage → String → Conversation → Conversation
answered new text c = record c {
  last_message_at = some new.created_at;
  last_message_text = some text;
  is_unread = false;
}

abbrev pub as_not_queued : ℕ → Message → Message
as_not_queued now m = record m {
  delivery_status = some DeliveryStatus.failed;
  delivery_status_updated_at = some (pos now);
  provider_error = some "Outbound queue enqueue failed";
  failed_at = some (pos now);
}

-- `toMessageResponse` of an outbound message.
abbrev pub response_of : Message → Option User → MessageResponse
response_of m sender = record {
  id = m.id;
  direction = m.direction;
  text = m.body;
  delivery_status = m.delivery_status;
  created_at = m.created_at;
  sender_display = elim sender [ none ↦ none | some u ↦ some u.name ];
}

module _ (prisma : Prisma) (relations : List String) (org : ℕ) where
  -- A `SELECT … FOR UPDATE` by name, which the database refuses where it has no such relation.
  abbrev pub select_from : {A : Type 0} → String → (Store → A) → Exec World A
  select_from name f =
      if any (λ r. str_eq r name) relations then query f else throw (relation_missing name)

  abbrev pub open_found : Option Conversation → Exec World Conversation
  open_found none = throw (not_found "Conversation not found")
  open_found (some c) =
      if is_resolved c.status
      then throw (conflict "Resolved conversations cannot send outbound messages")
      else pure c

  abbrev pub add_message : Message → Exec World Unit
  add_message m = write λ s. (record s { messages = m ∷ s.messages }, tt)

  abbrev pub answer : NewMessage → String → ℕ → Exec World Unit
  answer new text id = write λ s. (
    record s {
      conversations =
          (prisma.conversations.update_many (λ c. c.id == id) (answered new text)
            s.conversations).0;
    },
    tt,
  )

  -- The created message with its sender.
  abbrev pub store_message : NewMessage → ℕ → ℕ → String → Exec World (Message × Option User)
  store_message new user id text = transaction do
    found ←
        select_from "Conversation"
          λ s. prisma.conversations.find_first (is_conversation org id) s.conversations
    c ← open_found found
    add_message (outbound_message new user c.id text)
    sender ← query λ s. prisma.users.find_first (λ u. u.id == user) s.users
    answer new text c.id
    pure (outbound_message new user c.id text, sender)

  abbrev pub on_enqueue_error : NewMessage → Failure → Exec World Unit
  on_enqueue_error new failure = do
    write λ s. (
      record s {
        messages =
            (prisma.messages.update_many (λ m. m.id == new.id) (as_not_queued new.failed_at)
              s.messages).0;
      },
      tt,
    )
    throw (http internal_500 "Outbound message enqueue failed" none)

  -- `createOutboundMessage`
  unfoldable pub create_outbound_message :
      Mode → NewMessage → ℕ → ℕ → String → Exec World MessageResponse
  create_outbound_message mode new user id text = do
    stored ← store_message new user id (trim text)
    catching (enqueue_outbound mode stored.0.id) (on_enqueue_error new)
    emit org
        (record { event = message_created (response_of stored.0 stored.1); conversation_id = id })
    pure (response_of stored.0 stored.1)
