-- ===== src/Dev.antt =====
-- apps/api/src/dev: a simulated inbound message, as the webhook of a WhatsApp account would store it.
pub mod RoundTrip
use Prim.Native.String.{◌++◌ as concat}
use unified_inbox.Prelude.{ℕ, String, Bool, true, false, Option, none, some, or_else, if◌then◌else◌}
use unified_inbox.Prelude.Result.{not_found, Exec, pure, throw, ◌>>=◌, ◌>>◌}
use unified_inbox.Json.{Json, str, arr, obj, Items, nil, cons, Fields, end, field}
use unified_inbox.Runtime.{Env, trimmed}
use unified_inbox.Queues.{Mode, enqueue}
use unified_inbox.Schema.Enums.{whatsapp, pending}
use unified_inbox.Schema.Rows.{RawWebhookEvent}
use unified_inbox.Database.{Prisma, Store}
use unified_inbox.Database.Statements.{World, insert}
use unified_inbox.Webhooks.Service.{is_event, is_dev_endpoints_enabled}

-- An object with one property, and an array with one item.
abbrev one : String → Json → Json
one key v = obj (field key v end)

abbrev only : Json → Json
only v = arr (cons v nil)

abbrev pub text_item : String → String → String → Json
text_item message_id from text = obj (
    field "id" (str message_id) (
      field "from" (str from)
        (field "type" (str "text") (field "text" (one "body" (str text)) end))))

-- `buildWhatsAppPayload`
abbrev pub build_whatsapp_payload : String → String → String → String → Json
build_whatsapp_payload phone_number_id message_id from text = one "entry" (
    only (
      one "changes" (
        only (
          one "value" (
            obj (
              field "metadata" (one "phone_number_id" (str phone_number_id))
                (field "messages" (only (text_item message_id from text)) end)))))))

abbrev pub sim_phone : String
sim_phone = "sim-dev-phone"

-- The event of a call, with its row's id and its random UUID.
abbrev pub simulated : ℕ → ℕ → String → Option String → String → RawWebhookEvent
simulated id org uuid customer text = record {
  id = id;
  provider = whatsapp;
  provider_message_id = concat "sim:" uuid;
  external_account_id = sim_phone;
  payload =
      build_whatsapp_payload sim_phone (concat "sim:" uuid)
        (or_else (trimmed customer) "905551234567") text;
  processing_status = pending;
  processed_at = none;
  error = none;
  organization_id = org;
}

-- `DevEndpointsGuard.canActivate`
unfoldable pub can_activate : Env → Exec World Unit
can_activate env = if is_dev_endpoints_enabled env then pure tt else throw (not_found "Not Found")

module _ (prisma : Prisma) where
  abbrev add_event : RawWebhookEvent → Store → Option Store
  add_event e s =
      elim (prisma.raw_webhook_events.create (is_event whatsapp e.provider_message_id) e
        s.raw_webhook_events) [
          | none ↦ none
          | some rows ↦ some (record s { raw_webhook_events = rows })
        ]

  -- `simulateInbound`, with the id of the new event.
  unfoldable pub simulate_inbound : Mode → ℕ → ℕ → String → Option String → String → Exec World ℕ
  simulate_inbound mode id org uuid customer text = do
    insert prisma.aborts "provider,providerMessageId"
        (add_event (simulated id org uuid customer text)) tt
    enqueue mode id
    pure id
