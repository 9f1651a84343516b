-- ===== src/Webhooks/Delivery.antt =====
-- The delivery status of an outbound message, as apps/api/src/webhooks/webhooks.worker.service.ts
-- moves it on a provider's status update.
pub mod Order
pub mod Timestamps
use unified_inbox.Prelude.{
  ℕ, String, Bool, true, false, not, ◌&&◌, Option, none, some, List, [], ◌∷◌, if◌then◌else◌,
  or_else, is_some,
}
use unified_inbox.Prelude.Int.{ℤ, pos, negsuc, Date, ltb_ℤ}
use unified_inbox.Schema.Enums.{DeliveryStatus, queued, sending, sent, delivered, read}
use unified_inbox.Schema.Rows.{Message}
use unified_inbox.Webhooks.WhatsAppPayload.{StatusUpdate}

abbrev pub status_rank : Option DeliveryStatus → ℤ
status_rank (some queued) = pos 0
status_rank (some sending) = pos 1
status_rank (some DeliveryStatus.failed) = pos 1
status_rank (some sent) = pos 2
status_rank (some delivered) = pos 3
status_rank (some read) = pos 4
status_rank none = negsuc 0

abbrev is_failed : Option DeliveryStatus → Bool
is_failed (some DeliveryStatus.failed) = true
is_failed (some _) = false
is_failed none = false

abbrev is_delivered : Option DeliveryStatus → Bool
is_delivered (some delivered) = true
is_delivered (some _) = false
is_delivered none = false

abbrev is_read : Option DeliveryStatus → Bool
is_read (some read) = true
is_read (some _) = false
is_read none = false

unfoldable pub should_apply_status_transition : Option DeliveryStatus → DeliveryStatus → Bool
should_apply_status_transition current DeliveryStatus.failed =
    not (is_failed current) && (not (is_delivered current) && not (is_read current))
should_apply_status_transition current incoming =
    if is_read current then false else ltb_ℤ (status_rank current) (status_rank (some incoming))

-- `field ?? occurredAt`, a timestamp that is written once.
abbrev or_now : Option Date → Date → Option Date
or_now none at = some at
or_now (some d) at = some d

-- The `updateData` of `applyOutboundStatusUpdate`.
unfoldable pub update_data : Date → StatusUpdate → Message → Message
update_data at u m = elim u.delivery_status [
  | DeliveryStatus.failed ↦ record m {
    delivery_status = some DeliveryStatus.failed;
    delivery_status_updated_at = some at;
    failed_at = some at;
    provider_error = some (or_else u.failed_reason "WhatsApp delivery failed");
  }
  | sent ↦ record m {
    delivery_status = some sent;
    delivery_status_updated_at = some at;
    failed_at = none;
    provider_error = none;
    sent_at = or_now m.sent_at at;
  }
  | delivered ↦ record m {
    delivery_status = some delivered;
    delivery_status_updated_at = some at;
    failed_at = none;
    provider_error = none;
    sent_at = or_now m.sent_at at;
    delivered_at = or_now m.delivered_at at;
  }
  | read ↦ record m {
    delivery_status = some read;
    delivery_status_updated_at = some at;
    failed_at = none;
    provider_error = none;
    sent_at = or_now m.sent_at at;
    delivered_at = or_now m.delivered_at at;
    read_at = or_now m.read_at at;
  }
  | other ↦ record m {
    delivery_status = some other;
    delivery_status_updated_at = some at;
    failed_at = none;
    provider_error = none;
  }
]

-- `applyOutboundStatusUpdate` on the message that it found, at the server's time `now`.
unfoldable pub apply_status : ℕ → StatusUpdate → Message → Message
unfolding should_apply_status_transition update_data
apply_status now u m =
    if should_apply_status_transition m.delivery_status u.delivery_status
    then update_data (or_else u.occurred_at (pos now)) u m
    else m

-- The updates of one message, in the order in which they arrive.
unfoldable pub apply_all : ℕ → List StatusUpdate → Message → Message
apply_all now [] m = m
apply_all now (u ∷ us) m = apply_all now us (apply_status now u m)
