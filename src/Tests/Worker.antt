-- ===== src/Tests/Worker.antt =====
-- The webhook worker on a redelivered message.
use unified_inbox.Prelude.{ℕ, ◌≡◌, refl, true, false, none, [], ◌∷◌, arith, map}
use unified_inbox.Prelude.Result.{ok, err}
use unified_inbox.Schema.Enums.{whatsapp, pending, processed}
use unified_inbox.Schema.Events.{SseEvent}
use unified_inbox.Schema.Rows.{RawWebhookEvent}
use unified_inbox.Database.{empty_store}
use unified_inbox.Database.Memory.{memory}
use unified_inbox.Database.Statements.{World, empty_world, aborted_error}
use unified_inbox.Webhooks.WhatsAppPayload.{
  extract_whatsapp_text_message, extract_whatsapp_status_updates,
}
use unified_inbox.Webhooks.Worker.{
  Fresh, process_raw_event, process_read, persist, persist_inbound_message, upsert_channel,
  get_or_create_conversation, add_message, apply_updates, inbound_message,
}
use unified_inbox.Webhooks.Worker.Atomicity.{SameButEvents, process_raw_event-SameButEvents}
use unified_inbox.Webhooks.Worker.Consistency.{AllConsistent, process_raw_event-consistent}
use unified_inbox.Webhooks.Worker.Duplicates.{duplicate_throws}
use unified_inbox.Tests.Payloads.{plain_runtime, text_payload, text_extracted, text_payload_lem}

abbrev pending_event : RawWebhookEvent
pending_event = record {
  id = 1;
  provider = whatsapp;
  provider_message_id = "wamid.0";
  external_account_id = "10101";
  payload = text_payload;
  processing_status = pending;
  processed_at = none;
  error = none;
  organization_id = 4;
}

abbrev fresh : Fresh
fresh = record { channel_id = 20; conversation_id = 30; message_id = 40; now = 1000 }

abbrev waiting : World
waiting = record empty_world {
  store = record empty_store { raw_webhook_events = pending_event ∷ [] };
}

-- The same event, with its message stored already.
abbrev redelivered : World
redelivered = record empty_world {
  store = record empty_store {
    raw_webhook_events = pending_event ∷ [];
    messages = inbound_message fresh 30 text_extracted ∷ [];
  };
}

first_delivery :
    let (r, w) = process_raw_event memory plain_runtime 1 false fresh waiting in
    (r ≡ ok tt)
    × (w.messages ≡ inbound_message fresh 30 text_extracted ∷ [])
    × (map (λ (e : RawWebhookEvent). e.processing_status) w.raw_webhook_events ≡ processed ∷ [])
    × (map (λ (x : ℕ × SseEvent). x.0) w.events ≡ 4 ∷ 4 ∷ [])
unfolding process_raw_event process_read persist persist_inbound_message upsert_channel
    get_or_create_conversation add_message apply_updates extract_whatsapp_text_message
    extract_whatsapp_status_updates
first_delivery = (refl, refl, refl, refl)

duplicate_throws_example :
    process_raw_event memory plain_runtime 1 false fresh redelivered
    ≡ (err aborted_error, redelivered)
duplicate_throws_example =
    duplicate_throws memory plain_runtime 1 fresh redelivered pending_event text_extracted refl refl
      refl refl text_payload_lem refl

process_raw_event-SameButEvents_example : SameButEvents redelivered redelivered
process_raw_event-SameButEvents_example =
    process_raw_event-SameButEvents memory plain_runtime 1 false fresh redelivered redelivered
      aborted_error duplicate_throws_example

process_raw_event-consistent_example :
    AllConsistent (process_raw_event memory plain_runtime 1 true fresh redelivered).1.store
process_raw_event-consistent_example =
    process_raw_event-consistent memory plain_runtime 1 true fresh redelivered (ground arith)
