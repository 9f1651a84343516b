-- ===== src/Tests/Delivery.antt =====
-- Delivery statuses at concrete updates.
use mathlib.Core.List.Perm
use unified_inbox.Prelude.{ℕ, ◌≡◌, refl, none, some, [], ◌∷◌, arith, ◌⊎◌}
use unified_inbox.Prelude.Int.{pos}
use unified_inbox.Schema.Enums.{DeliveryStatus, queued, sent, delivered, read, outbound}
use unified_inbox.Schema.Rows.{Message}
use unified_inbox.Webhooks.WhatsAppPayload.{StatusUpdate}
use unified_inbox.Webhooks.Delivery.{apply_all, apply_status}
use unified_inbox.Webhooks.Delivery.Order.{order_independent, delivered_stays}
use unified_inbox.Webhooks.Delivery.Timestamps.{IsConsistent}

abbrev pub queued_message : Message
queued_message = record {
  id = 7;
  direction = outbound;
  body = "Merhaba";
  provider_message_id = none;
  delivery_status = some queued;
  delivery_status_updated_at = some (pos 5);
  provider_error = none;
  sent_at = none;
  delivered_at = none;
  read_at = none;
  failed_at = none;
  conversation_id = 3;
  sender_id = some 1;
  created_at = 5;
}

abbrev pub report : DeliveryStatus → ℕ → StatusUpdate
report s at = record {
  provider_message_id = "wamid.9";
  delivery_status = s;
  failed_reason = none;
  occurred_at = some (pos at);
}

abbrev pub delivered_message : Message
delivered_message = record queued_message {
  delivery_status = some delivered;
  sent_at = some (pos 6);
  delivered_at = some (pos 8);
}

read_then_sent :
    (apply_all 9 (report read 8 ∷ report sent 6 ∷ []) queued_message).delivery_status ≡ some read
unfolding apply_all apply_status
read_then_sent = refl

order_independent_example :
    (apply_all 9 (report read 8 ∷ report sent 6 ∷ []) queued_message).delivery_status
    ≡ (apply_all 9 (report sent 6 ∷ report read 8 ∷ []) queued_message).delivery_status
order_independent_example =
    order_independent 9 (report read 8 ∷ report sent 6 ∷ []) (report sent 6 ∷ report read 8 ∷ [])
      queued_message (Perm.swap (report sent 6) (report read 8) []) ((λ e. cc), ((λ e. cc), tt))

delivered_stays_example :
    ((apply_all 9 (report DeliveryStatus.failed 9 ∷ []) delivered_message).delivery_status
      ≡ some delivered)
    ⊎ ((apply_all 9 (report DeliveryStatus.failed 9 ∷ []) delivered_message).delivery_status
        ≡ some read)
delivered_stays_example =
    (delivered_stays 9 (report DeliveryStatus.failed 9 ∷ []) delivered_message).1 refl

pub queued-IsConsistent : IsConsistent queued_message
queued-IsConsistent = ground arith
