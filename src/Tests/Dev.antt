-- ===== src/Tests/Dev.antt =====
-- A simulated message.
use unified_inbox.Prelude.{◌≡◌, refl, none, some, [], ◌∷◌}
use unified_inbox.Prelude.Text.{trim}
use unified_inbox.Prelude.Result.{ok, not_found, err}
use unified_inbox.Json.{read_non_empty_string}
use unified_inbox.Queues.{inline_fallback, enqueue}
use unified_inbox.Database.Memory.{memory}
use unified_inbox.Database.Statements.{empty_world}
use unified_inbox.Webhooks.WhatsAppPayload.{
  extract_whatsapp_text_message, extract_whatsapp_phone_number_id,
  extract_whatsapp_provider_message_id, extract_whatsapp_status_updates, text_message,
}
use unified_inbox.Dev.{build_whatsapp_payload, simulate_inbound, simulated, can_activate}
use unified_inbox.Dev.RoundTrip.{Reads, build-Reads}
use unified_inbox.Tests.Payloads.{plain_runtime}
use unified_inbox.Tests.Outbound.{empty_env}

Reads-phone : Reads "sim-dev-phone" "sim-dev-phone"
unfolding read_non_empty_string trim
Reads-phone = refl

Reads-id : Reads "sim:1" "sim:1"
unfolding read_non_empty_string trim
Reads-id = refl

Reads-text : Reads " Merhaba" "Merhaba"
unfolding read_non_empty_string trim
Reads-text = refl

build-Reads_example :
    let payload = build_whatsapp_payload "sim-dev-phone" "sim:1" "sim:1" " Merhaba" in
    (extract_whatsapp_phone_number_id payload ≡ some "sim-dev-phone")
    × (extract_whatsapp_provider_message_id plain_runtime payload ≡ some "sim:1")
    × (extract_whatsapp_text_message payload ≡ some (text_message "sim:1" "sim:1" "Merhaba"))
    × (extract_whatsapp_status_updates plain_runtime payload ≡ [])
build-Reads_example =
    build-Reads plain_runtime "sim-dev-phone" "sim:1" "sim:1" " Merhaba" "sim-dev-phone" "sim:1"
      "sim:1" "Merhaba" Reads-phone Reads-id Reads-id Reads-text

simulated_ok :
    let (r, w) = simulate_inbound memory inline_fallback 5 4 "1" none "Merhaba" empty_world in
    (r ≡ ok 5)
    × (w.raw_webhook_events ≡ simulated 5 4 "1" none "Merhaba" ∷ [])
    × (w.webhook_jobs ≡ 5 ∷ [])
unfolding simulate_inbound enqueue
simulated_ok = (refl, refl, refl)

-- The endpoints are off unless they are turned on.
off : can_activate empty_env empty_world ≡ (err (not_found "Not Found"), empty_world)
unfolding can_activate
off = refl
