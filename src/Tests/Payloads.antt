-- ===== src/Tests/Payloads.antt =====
-- Webhook payloads as the providers send them (apps/api/src/webhooks/*.spec.ts).
use unified_inbox.Queues.{BullMq, is_queued}
use unified_inbox.Prelude.{if◌then◌else◌, sym, ap, or_else, String, ◌≡◌, refl, none, some, [], ◌∷◌}
use unified_inbox.Prelude.Int.{pos}
use unified_inbox.Json.{Json, null, str, arr, obj, nil, cons, end, field}
use unified_inbox.Runtime.{Runtime}
use unified_inbox.Schema.Enums.{sent}
use unified_inbox.Webhooks.WhatsAppPayload.{
  TextMessage, extract_whatsapp_text_message, extract_whatsapp_phone_number_id,
  extract_whatsapp_provider_message_id, extract_whatsapp_status_updates,
}
use unified_inbox.Webhooks.WhatsAppPayload.Messages.{
  IsMessage, extract_whatsapp_text_message-IsMessage,
}
use unified_inbox.Webhooks.WhatsAppPayload.Dedupe.{fallback_only_when_idle}
use unified_inbox.Webhooks.InstagramPayload.{
  extract_instagram_text_message, extract_instagram_provider_message_id,
}

-- A runtime for payloads that are in lower case already.
abbrev pub plain_runtime : Runtime
plain_runtime = record {
  to_lower_case = λ s. s;
  normalize_nfkd = λ s. s;
  trunc_number = λ s. some (pos 1700000000);
  parse_json = λ s. none;
}

abbrev one : String → Json → Json
one k v = obj (field k v end)

abbrev only : Json → Json
only v = arr (cons v nil)

abbrev pub whatsapp_payload : Json → Json
whatsapp_payload value = one "entry" (only (one "changes" (only (one "value" value))))

abbrev text_of : String → Json
text_of text = obj (
    field "id" (str " wamid.1 ") (
      field "from" (str "905551234567")
        (field "type" (str "text") (field "text" (one "body" (str text)) end))))

-- An image before the text: its id names the payload, and the text is the message.
abbrev pub text_payload : Json
text_payload = whatsapp_payload (
    obj (
      field "metadata" (one "phone_number_id" (str "10101")) (
        field "messages"
          (arr (
            cons (obj (field "id" (str "wamid.0") (field "type" (str "image") end)))
              (cons (text_of "Merhaba ") nil)))
          end)))

abbrev pub text_extracted : TextMessage
text_extracted = record {
  provider_message_id = "wamid.1";
  from = "905551234567";
  text = "Merhaba";
  external_thread_id = "wa:905551234567";
  customer_display = "905551234567";
}

pub text_payload_lem : extract_whatsapp_text_message text_payload ≡ some text_extracted
unfolding extract_whatsapp_text_message
text_payload_lem = refl

phone_number_lem : extract_whatsapp_phone_number_id text_payload ≡ some "10101"
unfolding extract_whatsapp_phone_number_id
phone_number_lem = refl

provider_id_lem : extract_whatsapp_provider_message_id plain_runtime text_payload ≡ some "wamid.0"
unfolding extract_whatsapp_provider_message_id
provider_id_lem = refl

abbrev status_payload : Json
status_payload = whatsapp_payload (
    one "statuses" (
      only (
        obj (
          field "id" (str "wamid.9")
            (field "status" (str "sent") (field "timestamp" (str "1700000000") end))))))

status_update_lem :
    extract_whatsapp_status_updates plain_runtime status_payload
    ≡ record {
      provider_message_id = "wamid.9";
      delivery_status = sent;
      failed_reason = none;
      occurred_at = some (pos 1700000000000);
    }
      ∷ []
unfolding extract_whatsapp_status_updates
status_update_lem = refl

status_id_lem :
    extract_whatsapp_provider_message_id plain_runtime status_payload ≡ some "status:wamid.9:sent"
unfolding extract_whatsapp_provider_message_id
status_id_lem = refl

empty_id_lem : extract_whatsapp_provider_message_id plain_runtime (whatsapp_payload null) ≡ none
unfolding extract_whatsapp_provider_message_id
empty_id_lem = refl

extract_whatsapp_text_message-IsMessage_example : IsMessage text_extracted
extract_whatsapp_text_message-IsMessage_example =
    extract_whatsapp_text_message-IsMessage text_payload text_extracted text_payload_lem

fallback_only_when_idle_example :
    (extract_whatsapp_text_message (whatsapp_payload null) ≡ none)
    × (extract_whatsapp_status_updates plain_runtime (whatsapp_payload null) ≡ [])
fallback_only_when_idle_example =
    fallback_only_when_idle plain_runtime (whatsapp_payload null) empty_id_lem

abbrev instagram_payload : Json → Json
instagram_payload message = one "entry" (
    only (
      one "messaging"
        (only (obj (field "sender" (one "id" (str "ig7")) (field "message" message end))))))

abbrev instagram_extracted : TextMessage
instagram_extracted = record {
  provider_message_id = "mid.1";
  from = "ig7";
  text = "Selam";
  external_thread_id = "ig:ig7";
  customer_display = "ig7";
}

abbrev instagram_text : Json
instagram_text =
    instagram_payload (obj (field "mid" (str "mid.1") (field "text" (str "Selam ") end)))

instagram_text_lem : extract_instagram_text_message instagram_text ≡ some instagram_extracted
unfolding extract_instagram_text_message
instagram_text_lem = refl

instagram_empty_id : extract_instagram_provider_message_id (instagram_payload null) ≡ none
unfolding extract_instagram_provider_message_id
instagram_empty_id = refl

-- A queue that never fails.
abbrev pub queue : BullMq
queue = record {
  add = λ id jobs. some (if is_queued id jobs then jobs else id ∷ jobs);
  failure = "";
  add_lem = λ id jobs after h. sym (ap (λ o. or_else o []) h);
}
