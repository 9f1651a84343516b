-- ===== src/Tests/Service.antt =====
-- A signed webhook of a connected account, and the queue of a production process.
use unified_inbox.Prelude.{◌≡◌, refl, true, false, none, some, [], ◌∷◌}
use unified_inbox.Prelude.Text.{trim}
use unified_inbox.Prelude.Result.{ok, err, forbidden}
use unified_inbox.Runtime.{Env}
use unified_inbox.Schema.Enums.{whatsapp}
use unified_inbox.Database.{empty_store}
use unified_inbox.Database.Memory.{memory}
use unified_inbox.Database.Statements.{World, empty_world}
use unified_inbox.Queues.{bull_mq, inline_fallback, on_module_init, enqueue}
use unified_inbox.Webhooks.WhatsAppPayload.{
  extract_whatsapp_phone_number_id, extract_whatsapp_provider_message_id,
}
use unified_inbox.Webhooks.Service.{
  Digests, HandleWebhookOptions, handle_webhook, assert_valid_signature, resolve_organization_id,
  parse_signature_header,
}
use unified_inbox.Webhooks.Service.Signed.{IsSigned, handle_webhook-IsSigned}
use unified_inbox.Webhooks.Service.Stored.{IsQueued, handle_webhook-IsQueued, handle_webhook_once}
use unified_inbox.Tests.Payloads.{plain_runtime, text_payload, queue}
use unified_inbox.Tests.Outbound.{empty_env, account}

abbrev production : Env
production = record empty_env {
  redis_url = some " redis://cache ";
  node_env = some "production";
  whatsapp_app_secret = some "secret";
}

production_ok : on_module_init queue "webhook processing" production ≡ ok (bull_mq queue)
unfolding on_module_init trim
production_ok = refl

abbrev digests : Digests
digests = record {
  hmac = λ secret body. secret;
  from_hex = λ s. 7 ∷ [];
  sha256 = λ s. s;
  stringify = λ v. "{}";
}

abbrev signed : HandleWebhookOptions
signed = record {
  x_org_id = none;
  signature_header = some "SHA256=0123456789abcdef0123456789abcdef0123456789abcdef0123456789ABCDEF";
  raw_body = some [];
}

abbrev unsigned : HandleWebhookOptions
unsigned = record signed { signature_header = some "sha256=0123" }

abbrev connected : World
connected = record empty_world { store = record empty_store { channel_accounts = account ∷ [] } }

abbrev received : World
received =
    (handle_webhook memory plain_runtime digests production (bull_mq queue) 1 whatsapp text_payload
      signed connected).1

received_ok :
    handle_webhook memory plain_runtime digests production
      (bull_mq queue)
      1
      whatsapp
      text_payload
      signed
      connected
    ≡ (ok (record { duplicate = false }), received)
unfolding handle_webhook assert_valid_signature resolve_organization_id parse_signature_header
    enqueue trim extract_whatsapp_phone_number_id extract_whatsapp_provider_message_id
received_ok = refl

unsigned_refused :
    handle_webhook memory plain_runtime digests production
      (bull_mq queue)
      1
      whatsapp
      text_payload
      unsigned
      connected
    ≡ (err (forbidden "Invalid X-Hub-Signature-256 header"), connected)
unfolding handle_webhook assert_valid_signature parse_signature_header trim
unsigned_refused = refl

redelivered_ok :
    (handle_webhook memory plain_runtime digests production
      (bull_mq queue)
      2
      whatsapp
      text_payload
      signed
      received).0
    ≡ ok (record { duplicate = true })
unfolding handle_webhook assert_valid_signature resolve_organization_id parse_signature_header
    enqueue trim extract_whatsapp_phone_number_id extract_whatsapp_provider_message_id
redelivered_ok = refl

handle_webhook-IsSigned_example : IsSigned plain_runtime digests production whatsapp signed
handle_webhook-IsSigned_example =
    handle_webhook-IsSigned plain_runtime digests production whatsapp memory (bull_mq queue) 1
      text_payload signed connected received (record { duplicate = false }) refl received_ok

handle_webhook-IsQueued_example :
    IsQueued memory plain_runtime digests production whatsapp "wamid.0" received
unfolding extract_whatsapp_provider_message_id
handle_webhook-IsQueued_example =
    handle_webhook-IsQueued memory plain_runtime digests production (bull_mq queue) 1 whatsapp
      text_payload signed connected received (record { duplicate = false }) received_ok

handle_webhook_once_example :
    (handle_webhook memory plain_runtime digests production
      (bull_mq queue)
      2
      whatsapp
      text_payload
      unsigned
      received).1.raw_webhook_events
    ≡ received.raw_webhook_events
handle_webhook_once_example =
    handle_webhook_once memory plain_runtime digests production (bull_mq queue) (bull_mq queue) 1 2
      whatsapp text_payload signed unsigned connected received (record { duplicate = false })
      received_ok

-- Outside production, without a Redis URL, the developer endpoints bring the inline fallback.
inline_ok :
    on_module_init queue "webhook processing"
      (record empty_env { enable_dev_endpoints = some "true" })
    ≡ ok inline_fallback
unfolding on_module_init
inline_ok = refl
