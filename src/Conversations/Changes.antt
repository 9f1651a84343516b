-- ===== src/Conversations/Changes.antt =====
-- apps/api/src/conversations/conversations.service.ts: updateConversationStatus,
-- createConversationNote, addTagToConversation and removeTagFromConversation.
pub mod Tagged
use unified_inbox.Prelude.{
  ℕ, String, Bool, true, false, ◌&&◌, ◌||◌, Option, none, some, List, [], ◌∷◌, if◌then◌else◌, ◌==◌,
  str_eq,
}
use unified_inbox.Prelude.Text.{trim}
use unified_inbox.Prelude.Result.{
  Failure, http, unique_violation, error, non_retryable, delivery_error, not_found, Exec, pure,
  throw, catching, ◌>>=◌, ◌>>◌,
}
use unified_inbox.Runtime.{Runtime}
use unified_inbox.Schema.Enums.{ConversationStatus, opened, resolved, snoozed}
use unified_inbox.Schema.Events.{status_changed, note_created, tag_added, tag_removed}
use unified_inbox.Schema.Rows.{Conversation, Note, Tag, ConversationTag, AuditLog, ref, text}
use unified_inbox.Database.{Prisma, Store}
use unified_inbox.Database.Statements.{World, query, write, insert, transaction, audit, emit}
use unified_inbox.Auth.Base.{normalized}
use unified_inbox.Conversations.{is_conversation, is_resolved}

abbrev pub is_status : ConversationStatus → ConversationStatus → Bool
is_status opened opened = true
is_status resolved resolved = true
is_status snoozed snoozed = true
is_status opened resolved = false
is_status opened snoozed = false
is_status resolved opened = false
is_status resolved snoozed = false
is_status snoozed opened = false
is_status snoozed resolved = false

abbrev status_name : ConversationStatus → String
status_name opened = "OPEN"
status_name resolved = "RESOLVED"
status_name snoozed = "SNOOZED"

abbrev pub with_status : ConversationStatus → Conversation → Conversation
with_status st c = record c { status = st }

-- `organizationId_name`
abbrev pub is_tag : ℕ → String → Tag → Bool
is_tag org name t = t.organization_id == org && str_eq t.name name

-- `conversationId_tagId`
abbrev pub is_link : ℕ → ℕ → ConversationTag → Bool
is_link conversation tag l = l.conversation_id == conversation && l.tag_id == tag

module _ (prisma : Prisma) (org actor : ℕ) where
  abbrev pub found_or_throw : Option Conversation → Exec World Conversation
  found_or_throw none = throw (not_found "Conversation not found")
  found_or_throw (some c) = pure c

  -- `getConversationInOrganization`
  abbrev pub get_conversation_in_organization : ℕ → Exec World Conversation
  get_conversation_in_organization id = do
    found ← query λ s. prisma.conversations.find_first (is_conversation org id) s.conversations
    found_or_throw found

  abbrev status_log : ℕ → ConversationStatus → ConversationStatus → AuditLog
  status_log id from to = record {
    action = if is_resolved to then "conversation.resolved" else "conversation.reopened";
    target_id = some id;
    metadata = ("fromStatus", text (status_name from)) ∷ ("toStatus", text (status_name to)) ∷ [];
    organization_id = org;
    actor_id = actor;
  }

  abbrev set_status : ℕ → ConversationStatus → Exec World Unit
  set_status id st = write λ s. (
    record s {
      conversations =
          (prisma.conversations.update_many (λ c. c.id == id) (with_status st) s.conversations).0;
    },
    tt,
  )

  abbrev change_status : ConversationStatus → Conversation → Exec World (ℕ × ConversationStatus)
  change_status st c =
      if is_status c.status st
      then pure (c.id, c.status)
      else do set_status c.id st; audit (status_log c.id c.status st); pure (c.id, st)

  -- `updateConversationStatus`
  unfoldable pub update_conversation_status :
      ℕ → ConversationStatus → Exec World (ℕ × ConversationStatus)
  update_conversation_status id st = do
    r ← transaction (get_conversation_in_organization id >>= change_status st)
    emit org (record { event = status_changed r.0 r.1; conversation_id = id })
    pure r

  abbrev new_note : ℕ → ℕ → ℕ → String → Note
  new_note note_id now conversation body = record {
    id = note_id;
    body = trim body;
    conversation_id = conversation;
    author_id = actor;
    created_at = now;
  }

  -- `createConversationNote`, given the new row's id and time.
  unfoldable pub create_conversation_note : ℕ → ℕ → ℕ → String → Exec World Note
  create_conversation_note note_id now id body = do
    c ← get_conversation_in_organization id
    write λ s. (record s { notes = new_note note_id now c.id body ∷ s.notes }, tt)
    emit org (record { event = note_created note_id; conversation_id = id })
    pure (new_note note_id now c.id body)

  abbrev pub new_tag : ℕ → String → Tag
  new_tag id name = record { id = id; name = name; organization_id = org }

  abbrev pub tags_stored : Store → Option (List Tag) → Option Store
  tags_stored s none = none
  tags_stored s (some rows) = some (record s { tags = rows })

  abbrev pub add_tag : Tag → Store → Option Store
  add_tag t s =
      tags_stored s (prisma.tags.create (λ x. is_tag org t.name x || x.id == t.id) t s.tags)

  abbrev pub upserted : ℕ → String → Option Tag → Exec World Tag
  upserted id name (some t) = pure t
  upserted id name none =
      insert prisma.aborts "organizationId,name" (add_tag (new_tag id name)) (new_tag id name)

  abbrev upsert_tag : ℕ → String → Exec World Tag
  upsert_tag id name = do
    found ← query λ s. prisma.tags.find_first (is_tag org name) s.tags
    upserted id name found

  abbrev pub add_link : ConversationTag → Store → Option Store
  add_link l s =
      elim (prisma.conversation_tags.create (is_link l.conversation_id l.tag_id) l
        s.conversation_tags) [
          | none ↦ none
          | some rows ↦ some (record s { conversation_tags = rows })
        ]

  abbrev tag_log : String → ℕ → Tag → AuditLog
  tag_log action id t = record {
    action = action;
    target_id = some id;
    metadata = ("tagId", ref t.id) ∷ ("tagName", text t.name) ∷ [];
    organization_id = org;
    actor_id = actor;
  }

  abbrev pub unless_linked : Failure → Exec World Unit
  unless_linked (unique_violation target) = pure tt
  unless_linked (http s m c) = throw (http s m c)
  unless_linked (error m) = throw (error m)
  unless_linked (non_retryable m) = throw (non_retryable m)
  unless_linked (delivery_error m) = throw (delivery_error m)

  abbrev pub link_tag : ℕ → ℕ → Tag → Exec World Unit
  link_tag now id t = do
    insert prisma.aborts "conversationId,tagId"
        (add_link (record { conversation_id = id; tag_id = t.id; created_at = now })) tt
    audit (tag_log "conversation.tag_added" id t)

  abbrev pub tag_conversation : ℕ → ℕ → String → Conversation → Exec World Tag
  tag_conversation tag_id now name c = do
    t ← upsert_tag tag_id name
    catching (link_tag now c.id t) unless_linked
    pure t

  abbrev pub add_in_transaction : ℕ → ℕ → ℕ → String → Exec World Tag
  add_in_transaction tag_id now id name = do
    c ← get_conversation_in_organization id
    tag_conversation tag_id now name c

  -- `addTagToConversation`, given the id of a new tag and the time of a new link.
  unfoldable pub add_tag_to_conversation : Runtime → ℕ → ℕ → ℕ → String → Exec World Tag
  add_tag_to_conversation rt tag_id now id name = do
    t ← transaction (add_in_transaction tag_id now id (normalized rt name))
    emit org (record { event = tag_added t.id t.name; conversation_id = id })
    pure t

  abbrev linked_tag : Store → Option ConversationTag → Option Tag
  linked_tag s none = none
  linked_tag s (some l) = prisma.tags.find_first (λ t. t.id == l.tag_id) s.tags

  abbrev link_found : Option Tag → Exec World Tag
  link_found none = throw (not_found "Tag not found on this conversation")
  link_found (some t) = pure t

  abbrev remove_in_transaction : ℕ → ℕ → Exec World Unit
  remove_in_transaction id tag = do
    c ← get_conversation_in_organization id
    found ← query λ s.
        linked_tag s (prisma.conversation_tags.find_first (is_link c.id tag) s.conversation_tags)
    t ← link_found found
    write λ s. (
      record s {
        conversation_tags =
            prisma.conversation_tags.delete_many (is_link c.id tag) s.conversation_tags;
      },
      tt,
    )
    audit (tag_log "conversation.tag_removed" c.id t)

  -- `removeTagFromConversation`
  unfoldable pub remove_tag_from_conversation : ℕ → ℕ → Exec World Unit
  remove_tag_from_conversation id tag = do
    transaction (remove_in_transaction id tag)
    emit org (record { event = tag_removed tag; conversation_id = id })
