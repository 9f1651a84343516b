-- ===== src/Schema/Events.antt =====
-- apps/api/src/events/event.types.ts: what the services publish to an organization's clients.
use unified_inbox.Prelude.{ℕ, String, Option}
use unified_inbox.Schema.Enums.{ConversationStatus, MessageDirection, DeliveryStatus}

-- A message as `toMessageResponse` shows it.
pub record MessageResponse : Type 0 where
  pub id : ℕ
  pub direction : MessageDirection
  pub text : String
  pub delivery_status : Option DeliveryStatus
  pub created_at : ℕ
  pub sender_display : Option String

-- The types with the payloads that the services give them.
pub data Event : Type 0 where
  message_created : MessageResponse → Event
  -- the webhook worker's: direction INBOUND, text, sender
  inbound_message_created : String → String → Event
  new_inbound_message : String → Event
  marked_read : ℕ → Event
  assignment_changed : ℕ → Option ℕ → Event
  status_changed : ℕ → ConversationStatus → Event
  tag_added : ℕ → String → Event
  tag_removed : ℕ → Event
  note_created : ℕ → Event

-- `SseEvent`: the event and its conversation.
pub record SseEvent : Type 0 where
  pub event : Event
  pub conversation_id : ℕ
