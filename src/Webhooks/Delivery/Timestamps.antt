-- ===== src/Webhooks/Delivery/Timestamps.antt =====
-- The timestamps and the error that applyOutboundStatusUpdate writes (apps/api/src/webhooks).
use unified_inbox.Prelude.{ℕ, ◌≡◌, true, some, arith, is_some}
use unified_inbox.Schema.Enums.{DeliveryStatus, sent, delivered, read}
use unified_inbox.Schema.Rows.{Message}
use unified_inbox.Webhooks.WhatsAppPayload.{StatusUpdate}
use unified_inbox.Webhooks.Delivery.{apply_status}

-- The three milestones are reached in order, each status has its own, and an error stands exactly
-- at a failed message.
pub record IsConsistent (m : Message) : Type 0 where
  pub read_after_delivered : is_some m.read_at ≡ true → is_some m.delivered_at ≡ true
  pub delivered_after_sent : is_some m.delivered_at ≡ true → is_some m.sent_at ≡ true
  pub sent_mark : m.delivery_status ≡ some sent → is_some m.sent_at ≡ true
  pub delivered_mark : m.delivery_status ≡ some delivered → is_some m.delivered_at ≡ true
  pub read_mark : m.delivery_status ≡ some read → is_some m.read_at ≡ true
  pub failed_mark : m.delivery_status ≡ some DeliveryStatus.failed → is_some m.failed_at ≡ true
  pub failed_error :
      m.delivery_status ≡ some DeliveryStatus.failed → is_some m.provider_error ≡ true
  pub failed_only : is_some m.failed_at ≡ true → m.delivery_status ≡ some DeliveryStatus.failed
  pub error_only : is_some m.provider_error ≡ true → m.delivery_status ≡ some DeliveryStatus.failed

-- A delivery report, applied or not, keeps a consistent message consistent.
pub apply_status-IsConsistent :
    (now : ℕ) (u : StatusUpdate) (m : Message)
    → IsConsistent m
    → IsConsistent (apply_status now u m)
unfolding apply_status
apply_status-IsConsistent now u m v = ground arith
