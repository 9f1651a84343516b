-- ===== src/Webhooks/Worker.antt =====
-- apps/api/src/webhooks/webhooks.worker.service.ts: a raw webhook event becomes messages, delivery
-- statuses and events for the clients. Ids of new rows and the time are arguments.
pub mod Atomicity
pub mod Consistency
pub mod Duplicates
use mathlib.Core.Option
use unified_inbox.Prelude.{
  ℕ, String, Bool, true, false, ◌&&◌, Option, none, some, List, [], ◌∷◌, if◌then◌else◌, ◌==◌,
  str_eq, any, or_else,
}
use unified_inbox.Prelude.Text.{slice_to}
use unified_inbox.Prelude.Result.{
  Failure, http, unique_violation, error, non_retryable, delivery_error, Exec, ok, err, pure, throw,
  catching, ◌>>=◌, ◌>>◌,
}
use unified_inbox.Prelude.Int.{pos}
use unified_inbox.Json.{Json}
use unified_inbox.Runtime.{Runtime}
use unified_inbox.Schema.Enums.{
  ChannelType, whatsapp, instagram, MessageDirection, inbound, outbound, ProcessingStatus, pending,
  processed, DeliveryStatus, opened,
}
use unified_inbox.Schema.Rows.{Channel, Conversation, Message, RawWebhookEvent}
use unified_inbox.Schema.Events.{SseEvent, inbound_message_created, new_inbound_message}
use unified_inbox.Database.{Prisma, Store}
use unified_inbox.Database.Statements.{World, query, write, insert, transaction, emit}
use unified_inbox.Webhooks.WhatsAppPayload.{
  TextMessage, StatusUpdate, extract_whatsapp_text_message, extract_whatsapp_status_updates,
}
use unified_inbox.Webhooks.InstagramPayload.{extract_instagram_text_message}
use unified_inbox.Webhooks.Delivery.{should_apply_status_transition, update_data, apply_status}

-- What the database and the clock choose.
pub record Fresh : Type 0 where
  pub channel_id : ℕ
  pub conversation_id : ℕ
  pub message_id : ℕ
  pub now : ℕ

abbrev pub same_channel_type : ChannelType → ChannelType → Bool
same_channel_type whatsapp whatsapp = true
same_channel_type whatsapp instagram = false
same_channel_type instagram whatsapp = false
same_channel_type instagram instagram = true

-- Equality of a nullable column with a value.
abbrev pub is_text : Option String → String → Bool
is_text none s = false
is_text (some t) s = str_eq t s

abbrev pub is_outbound : MessageDirection → Bool
is_outbound outbound = true
is_outbound inbound = false

abbrev pub is_pending : ProcessingStatus → Bool
is_pending pending = true
is_pending processed = false
is_pending ProcessingStatus.failed = false

-- `isUniqueConstraintError`
abbrev pub is_unique_constraint_error : Failure → Bool
is_unique_constraint_error (unique_violation target) = true
is_unique_constraint_error (http s m c) = false
is_unique_constraint_error (error m) = false
is_unique_constraint_error (non_retryable m) = false
is_unique_constraint_error (delivery_error m) = false

abbrev pub is_non_retryable_error : Failure → Bool
is_non_retryable_error (non_retryable m) = true
is_non_retryable_error (delivery_error m) = false
is_non_retryable_error (http s m c) = false
is_non_retryable_error (error m) = false
is_non_retryable_error (unique_violation target) = false

-- `error.message`; a violated constraint is shown by its target.
abbrev pub message_of_failure : Failure → String
message_of_failure (http s m c) = m
message_of_failure (unique_violation target) = target
message_of_failure (error m) = m
message_of_failure (non_retryable m) = m
message_of_failure (delivery_error m) = m

-- `toErrorMessage`
unfoldable pub to_error_message : Failure → String
to_error_message e = slice_to 500 (message_of_failure e)

-- The tests of the queries.
abbrev pub is_channel : RawWebhookEvent → Channel → Bool
is_channel e c =
    c.organization_id == e.organization_id
    && (same_channel_type c.channel_type e.provider && is_text c.external_id e.external_account_id)

abbrev pub is_thread : RawWebhookEvent → ℕ → String → Conversation → Bool
is_thread e channel_id thread c =
    c.organization_id == e.organization_id
    && (c.channel_id == channel_id && is_text c.external_thread_id thread)

abbrev pub has_provider_id : String → Message → Bool
has_provider_id id m = is_text m.provider_message_id id

-- `conversation: { organizationId }`, a condition on the message's conversation.
abbrev pub in_organization : Store → ℕ → Message → Bool
in_organization s org m =
    any (λ c. c.id == m.conversation_id && c.organization_id == org) s.conversations

abbrev pub is_reported : Store → ℕ → String → Message → Bool
is_reported s org id m =
    has_provider_id id m && (is_outbound m.direction && in_organization s org m)

abbrev pub event_id_is : ℕ → RawWebhookEvent → Bool
event_id_is id e = e.id == id

-- The rows that are created, and what the updates do.
abbrev channel_name : ChannelType → String
channel_name instagram = "Instagram Business"
channel_name whatsapp = "WhatsApp Business"

abbrev new_channel : RawWebhookEvent → Fresh → Channel
new_channel e fresh = record {
  id = fresh.channel_id;
  channel_type = e.provider;
  name = channel_name e.provider;
  external_id = some e.external_account_id;
  organization_id = e.organization_id;
}

abbrev new_conversation : RawWebhookEvent → Fresh → ℕ → TextMessage → Conversation
new_conversation e fresh channel_id msg = record {
  id = fresh.conversation_id;
  status = opened;
  contact_name = msg.customer_display;
  contact_phone = some msg.from;
  external_thread_id = some msg.external_thread_id;
  last_message_at = none;
  last_message_text = none;
  is_unread = true;
  organization_id = e.organization_id;
  channel_id = channel_id;
  assigned_membership_id = none;
}

abbrev pub inbound_message : Fresh → ℕ → TextMessage → Message
inbound_message fresh conversation_id msg = record {
  id = fresh.message_id;
  direction = inbound;
  body = msg.text;
  provider_message_id = some msg.provider_message_id;
  delivery_status = none;
  delivery_status_updated_at = none;
  provider_error = none;
  sent_at = none;
  delivered_at = none;
  read_at = none;
  failed_at = none;
  conversation_id = conversation_id;
  sender_id = none;
  created_at = fresh.now;
}

abbrev with_inbound : Fresh → TextMessage → Conversation → Conversation
with_inbound fresh msg c = record c {
  contact_name = msg.customer_display;
  contact_phone = some msg.from;
  last_message_at = some fresh.now;
  last_message_text = some msg.text;
  is_unread = true;
}

abbrev pub as_processed : ℕ → RawWebhookEvent → RawWebhookEvent
as_processed now e = record e {
  processing_status = processed;
  processed_at = some now;
  error = none;
}

abbrev pub as_failed : ℕ → Failure → RawWebhookEvent → RawWebhookEvent
as_failed now failure e = record e {
  processing_status = ProcessingStatus.failed;
  processed_at = some now;
  error = some (to_error_message failure);
}

abbrev pub as_reported : ℕ → StatusUpdate → Message → Message
as_reported now u = update_data (or_else u.occurred_at (pos now)) u

-- The events of a new inbound message.
abbrev pub created_event : ℕ → TextMessage → SseEvent
created_event conversation_id msg = record {
  event = inbound_message_created msg.text msg.customer_display;
  conversation_id = conversation_id;
}

abbrev pub updated_event : ℕ → TextMessage → SseEvent
updated_event conversation_id msg = record {
  event = new_inbound_message msg.text;
  conversation_id = conversation_id;
}

module _ (prisma : Prisma) where
  abbrev pub set_events : (RawWebhookEvent → RawWebhookEvent) → ℕ → Exec World Unit
  set_events f id = write λ s. (
    record s {
      raw_webhook_events =
          (prisma.raw_webhook_events.update_many (event_id_is id) f s.raw_webhook_events).0;
    },
    tt,
  )

  -- `markRawEventAsProcessed`
  unfoldable pub mark_as_processed : ℕ → ℕ → Exec World Unit
  mark_as_processed now id = set_events (as_processed now) id

  -- `markRawEventAsFailed`
  unfoldable pub mark_as_failed : ℕ → Failure → ℕ → Exec World Unit
  mark_as_failed now failure id = set_events (as_failed now failure) id

  abbrev pub add_channel : RawWebhookEvent → Fresh → Store → Option Store
  add_channel e fresh s =
      Option.map (λ (rows : List Channel). record s { channels = rows })
        (prisma.channels.create (is_channel e) (new_channel e fresh) s.channels)

  abbrev pub found_channel : RawWebhookEvent → Fresh → Option Channel → Exec World ℕ
  found_channel e fresh (some c) = pure c.id
  found_channel e fresh none =
      insert prisma.aborts "channels_organizationId_type_externalId_key" (add_channel e fresh)
        fresh.channel_id

  -- `tx.channel.upsert`
  unfoldable pub upsert_channel : RawWebhookEvent → Fresh → Exec World ℕ
  upsert_channel e fresh = do
    found ← query (λ s. prisma.channels.find_first (is_channel e) s.channels)
    found_channel e fresh found

  abbrev pub add_conversation : RawWebhookEvent → Fresh → ℕ → TextMessage → Store → Option Store
  add_conversation e fresh channel_id msg s =
      Option.map (λ (rows : List Conversation). record s { conversations = rows })
        (prisma.conversations.create (is_thread e channel_id msg.external_thread_id)
          (new_conversation e fresh channel_id msg) s.conversations)

  abbrev pub find_thread : RawWebhookEvent → ℕ → TextMessage → Exec World (Option Conversation)
  find_thread e channel_id msg = query λ s.
      prisma.conversations.find_first (is_thread e channel_id msg.external_thread_id)
        s.conversations

  abbrev pub or_rethrow : Failure → Option Conversation → Exec World ℕ
  or_rethrow failure (some c) = pure c.id
  or_rethrow failure none = throw failure

  abbrev pub found_thread :
      RawWebhookEvent → Fresh → ℕ → TextMessage → Option Conversation → Exec World ℕ
  found_thread e fresh channel_id msg (some c) = pure c.id
  found_thread e fresh channel_id msg none =
      catching
        (insert prisma.aborts "conversations_organizationId_channelId_externalThreadId_key"
          (add_conversation e fresh channel_id msg) fresh.conversation_id)
        λ failure.
          if is_unique_constraint_error failure
          then (do again ← find_thread e channel_id msg; or_rethrow failure again)
          else throw failure

  unfoldable pub get_or_create_conversation :
      RawWebhookEvent → Fresh → ℕ → TextMessage → Exec World ℕ
  get_or_create_conversation e fresh channel_id msg = do
    found ← find_thread e channel_id msg
    found_thread e fresh channel_id msg found

  abbrev pub add_inbound : Fresh → ℕ → TextMessage → Store → Option Store
  add_inbound fresh conversation_id msg s =
      Option.map (λ (rows : List Message). record s { messages = rows })
        (prisma.messages.create (has_provider_id msg.provider_message_id)
          (inbound_message fresh conversation_id msg) s.messages)

  abbrev pub touch_conversation : Fresh → ℕ → TextMessage → Store → Store
  touch_conversation fresh conversation_id msg s = record s {
    conversations =
        (prisma.conversations.update_many (λ c. c.id == conversation_id) (with_inbound fresh msg)
          s.conversations).0;
  }

  -- The message and its conversation, none where the message is a duplicate.
  unfoldable pub add_message : Fresh → ℕ → TextMessage → Exec World (Option ℕ)
  add_message fresh conversation_id msg =
      catching
        (do
          insert prisma.aborts "messages_providerMessageId_key"
              (add_inbound fresh conversation_id msg) tt
          write (λ s. (touch_conversation fresh conversation_id msg s, tt))
          pure (some conversation_id))
        λ failure. if is_unique_constraint_error failure then pure none else throw failure

  unfoldable pub persist_inbound_message :
      RawWebhookEvent → Fresh → TextMessage → Exec World (Option ℕ)
  persist_inbound_message e fresh msg = do
    channel_id ← upsert_channel e fresh
    conversation_id ← get_or_create_conversation e fresh channel_id msg
    add_message fresh conversation_id msg

  abbrev pub reported : ℕ → StatusUpdate → Option Message → Exec World Unit
  reported now u none = pure tt
  reported now u (some m) =
      if should_apply_status_transition m.delivery_status u.delivery_status
      then write (λ s. (
        record s {
          messages =
              (prisma.messages.update_many (λ row. row.id == m.id) (as_reported now u)
                s.messages).0;
        },
        tt,
      ))
      else pure tt

  unfoldable pub apply_outbound_status_update : ℕ → ℕ → StatusUpdate → Exec World Unit
  apply_outbound_status_update org now u = do
    found ←
        query λ s. prisma.messages.find_first (is_reported s org u.provider_message_id) s.messages
    reported now u found

  -- `for (const statusUpdate of statusUpdates)`
  unfoldable pub apply_updates : ℕ → ℕ → List StatusUpdate → Exec World Unit
  apply_updates org now [] = pure tt
  apply_updates org now (u ∷ us) =
      apply_outbound_status_update org now u >> apply_updates org now us

  abbrev pub maybe_persist : RawWebhookEvent → Fresh → Option TextMessage → Exec World (Option ℕ)
  maybe_persist e fresh none = pure none
  maybe_persist e fresh (some msg) = persist_inbound_message e fresh msg

  -- The body of the transaction.
  unfoldable pub persist :
      RawWebhookEvent → Fresh → Option TextMessage → List StatusUpdate → Exec World (Option ℕ)
  persist e fresh msg updates = do
    conversation_id ← maybe_persist e fresh msg
    apply_updates e.organization_id fresh.now updates
    set_events (as_processed fresh.now) e.id
    pure conversation_id

  abbrev pub announce : RawWebhookEvent → Option TextMessage → Option ℕ → Exec World Unit
  announce e (some msg) (some id) =
      emit e.organization_id (created_event id msg) >> emit e.organization_id (updated_event id msg)
  announce e (some msg) none = pure tt
  announce e none id = pure tt

  -- The body of the `try`, once the payload is read.
  unfoldable pub process_read :
      RawWebhookEvent → Fresh → Option TextMessage → List StatusUpdate → Exec World Unit
  process_read e fresh none [] = mark_as_processed fresh.now e.id
  process_read e fresh msg updates = do
    conversation_id ← transaction (persist e fresh msg updates)
    announce e msg conversation_id

  module _ (rt : Runtime) where
    abbrev pub message_of : RawWebhookEvent → Option TextMessage
    message_of e = elim e.provider [
      | whatsapp ↦ extract_whatsapp_text_message e.payload
      | instagram ↦ extract_instagram_text_message e.payload
    ]

    abbrev pub updates_of : RawWebhookEvent → List StatusUpdate
    updates_of e = elim e.provider [
      | whatsapp ↦ extract_whatsapp_status_updates rt e.payload
      | instagram ↦ []
    ]

    -- The `catch`.
    unfoldable pub on_error : ℕ → Bool → Fresh → Failure → Exec World Unit
    on_error id final_attempt fresh failure =
        if is_non_retryable_error failure
        then mark_as_failed fresh.now failure id
        else if final_attempt
        then mark_as_failed fresh.now failure id >> throw failure
        else throw failure

    abbrev pub process_found : ℕ → Bool → Fresh → Option RawWebhookEvent → Exec World Unit
    process_found id final_attempt fresh none = pure tt
    process_found id final_attempt fresh (some e) =
        if is_pending e.processing_status
        then catching (process_read e fresh (message_of e) (updates_of e))
            (on_error id final_attempt fresh)
        else pure tt

    unfoldable pub process_raw_event : ℕ → Bool → Fresh → Exec World Unit
    process_raw_event id final_attempt fresh = do
      found ← query λ s. prisma.raw_webhook_events.find_first (event_id_is id) s.raw_webhook_events
      process_found id final_attempt fresh found
