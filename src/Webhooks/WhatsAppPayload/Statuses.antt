-- ===== src/Webhooks/WhatsAppPayload/Statuses.antt =====
-- The status updates of whatsapp-payload.ts.
use unified_inbox.Prelude.{◌≡◌, true, Option, none, arith, All, Holds, to_list, All-collect, ◌≢◌}
use unified_inbox.Prelude.Int.{is_valid_time}
use unified_inbox.Json.{Json}
use unified_inbox.Json.Strings.{IsToken, reads-IsToken}
use unified_inbox.Schema.Enums.{DeliveryStatus, queued, sending}
use unified_inbox.Runtime.{Runtime}
use unified_inbox.Webhooks.WhatsAppPayload.{
  StatusUpdate, get_change_values, statuses_of, status_update_in, to_outbound_delivery_status,
  parse_status_timestamp, extract_whatsapp_status_updates,
}

-- What the worker may rely on in a status update.
pub record IsUpdate (u : StatusUpdate) : Type 0 where
  pub id : IsToken u.provider_message_id
  pub not_queued : u.delivery_status ≢ queued
  pub not_sending : u.delivery_status ≢ sending
  pub reason : u.delivery_status ≢ DeliveryStatus.failed → u.failed_reason ≡ none
  pub time : Holds (λ d. is_valid_time d ≡ true) u.occurred_at

module _ (rt : Runtime) where
  status-IsFinal :
      (v : Option Json)
      → Holds (λ s. (s ≢ queued) × (s ≢ sending)) (to_outbound_delivery_status rt v)
  unfolding to_outbound_delivery_status
  status-IsFinal v = ground arith

  time-IsValid :
      (v : Option Json) → Holds (λ d. is_valid_time d ≡ true) (parse_status_timestamp rt v)
  unfolding parse_status_timestamp
  time-IsValid v = ground arith

  status_update_in-IsUpdate : (v : Json) → All IsUpdate (to_list (status_update_in rt v))
  unfolding status_update_in
  status_update_in-IsUpdate v = grind (arith, reads-IsToken, status-IsFinal, time-IsValid)

  -- Every status update that is read from a payload has an id, is sent, delivered, read or failed, has a
  -- reason only if it failed, and a valid time if it has one.
  pub extract_whatsapp_status_updates-IsUpdate :
      (payload : Json) → All IsUpdate (extract_whatsapp_status_updates rt payload)
  unfolding extract_whatsapp_status_updates
  extract_whatsapp_status_updates-IsUpdate payload =
      All-collect IsUpdate _ (get_change_values payload)
        λ value. All-collect IsUpdate _ (statuses_of value) status_update_in-IsUpdate
