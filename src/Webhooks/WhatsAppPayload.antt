-- ===== src/Webhooks/WhatsAppPayload.antt =====
-- apps/api/src/webhooks/whatsapp-payload.ts: what a WhatsApp webhook payload says.
pub mod Messages
pub mod Dedupe
pub mod Statuses
use Prim.Native.String.{◌++◌ as concat}
use unified_inbox.Prelude.{
  String, Bool, true, false, Option, none, some, List, [], ◌∷◌, str_eq, if◌then◌else◌, first_some,
  collect, to_list, ◌or◌,
}
use unified_inbox.Prelude.Text.{trim}
use unified_inbox.Prelude.Chain.{◌>>=◌, ◌>>◌, guard}
use unified_inbox.Prelude.Int.{Date, times_1000, is_valid_time}
use unified_inbox.Json.{Json, prop, as_object, array_or_empty, read_non_empty_string}
use unified_inbox.Schema.Enums.{DeliveryStatus, sent, delivered, read}
use unified_inbox.Runtime.{Runtime}

pub record TextMessage : Type 0 where
  pub provider_message_id : String
  pub from : String
  pub text : String
  pub external_thread_id : String
  pub customer_display : String

pub record StatusUpdate : Type 0 where
  pub provider_message_id : String
  pub delivery_status : DeliveryStatus
  pub failed_reason : Option String
  pub occurred_at : Option Date

-- The bodies of the loops of `getChangeValues`.
unfoldable pub change_value : Json → Option Json
change_value change = do c ← as_object change; v ← prop "value" c; as_object v

unfoldable pub entry_values : Json → List Json
unfolding change_value
entry_values entry = elim (as_object entry) [
  | none ↦ []
  | some e ↦ collect (λ change. to_list (change_value change)) (array_or_empty (prop "changes" e))
]

unfoldable pub get_change_values : Json → List Json
unfolding entry_values as_object array_or_empty
get_change_values payload = elim (as_object payload) [
  | none ↦ []
  | some p ↦ collect entry_values (array_or_empty (prop "entry" p))
]

unfoldable pub phone_number_id_in : Json → Option String
phone_number_id_in value = do
  metadata ← prop "metadata" value
  m ← as_object metadata
  read_non_empty_string (prop "phone_number_id" m)

unfoldable pub extract_whatsapp_phone_number_id : Json → Option String
unfolding get_change_values prop trim phone_number_id_in read_non_empty_string
extract_whatsapp_phone_number_id payload = first_some phone_number_id_in (get_change_values payload)

abbrev pub messages_of : Json → List Json
messages_of value = array_or_empty (prop "messages" value)

abbrev pub statuses_of : Json → List Json
statuses_of value = array_or_empty (prop "statuses" value)

abbrev pub text_message : String → String → String → TextMessage
text_message id from text = record {
  provider_message_id = id;
  from = from;
  text = text;
  external_thread_id = concat "wa:" from;
  customer_display = from;
}

-- One round of the inner loop of `extractWhatsAppTextMessage`; none is `continue`.
unfoldable pub text_message_in : Json → Option TextMessage
text_message_in message = do
  m ← as_object message
  message_type ← read_non_empty_string (prop "type" m)
  guard (str_eq message_type "text")
  id ← read_non_empty_string (prop "id" m)
  from ← read_non_empty_string (prop "from" m)
  body ← prop "text" m >>= as_object
  text ← read_non_empty_string (prop "body" body)
  some (text_message id from text)

unfoldable pub extract_whatsapp_text_message : Json → Option TextMessage
unfolding get_change_values prop trim text_message_in read_non_empty_string
extract_whatsapp_text_message payload =
    first_some (λ value. first_some text_message_in (messages_of value)) (get_change_values payload)

unfoldable pub id_in : Json → Option String
id_in message = do m ← as_object message; read_non_empty_string (prop "id" m)

module _ (rt : Runtime) where
  pub status_key : String → Option String → String
  status_key id none = concat "status:" id
  status_key id (some status) = concat "status:" (concat id (concat ":" (rt.to_lower_case status)))

  unfoldable pub status_id_in : Json → Option String
  unfolding status_key
  status_id_in status = do
    s ← as_object status
    id ← read_non_empty_string (prop "id" s)
    some (status_key id (read_non_empty_string (prop "status" s)))

  -- One round of the outer loop: the messages of a change come before its statuses.
  unfoldable pub provider_message_id_in : Json → Option String
  provider_message_id_in value =
      first_some id_in (messages_of value) or first_some status_id_in (statuses_of value)

  unfoldable pub extract_whatsapp_provider_message_id : Json → Option String
  unfolding get_change_values prop trim provider_message_id_in id_in status_id_in
      read_non_empty_string
  extract_whatsapp_provider_message_id payload =
      first_some provider_message_id_in (get_change_values payload)

  abbrev status_named : String → Option DeliveryStatus
  status_named s =
      if str_eq s "sent"
      then some sent
      else if str_eq s "delivered"
      then some delivered
      else if str_eq s "read"
      then some read
      else if str_eq s "failed"
      then some DeliveryStatus.failed
      else none

  unfoldable pub to_outbound_delivery_status : Option Json → Option DeliveryStatus
  unfolding read_non_empty_string
  to_outbound_delivery_status status = do
    s ← read_non_empty_string status
    status_named (rt.to_lower_case s)

  abbrev error_message_in : Json → Option String
  error_message_in e = do o ← as_object e; read_non_empty_string (prop "message" o)

  unfoldable pub extract_failed_reason : Json → Option String
  unfolding read_non_empty_string as_object array_or_empty
  extract_failed_reason status = first_some error_message_in (array_or_empty (prop "errors" status))

  unfoldable pub parse_status_timestamp : Option Json → Option Date
  unfolding read_non_empty_string times_1000
  parse_status_timestamp value = do
    raw ← read_non_empty_string value
    seconds ← rt.trunc_number raw
    let date = times_1000 seconds
    guard (is_valid_time date)
    some date

  abbrev reason_of : DeliveryStatus → Json → Option String
  reason_of DeliveryStatus.failed status = extract_failed_reason status
  reason_of _ status = none

  -- One round of the inner loop of `extractWhatsAppStatusUpdates`; none is `continue`.
  unfoldable pub status_update_in : Json → Option StatusUpdate
  unfolding to_outbound_delivery_status extract_failed_reason parse_status_timestamp
  status_update_in status = do
    s ← as_object status
    id ← read_non_empty_string (prop "id" s)
    delivery_status ← to_outbound_delivery_status (prop "status" s)
    some (record {
      provider_message_id = id;
      delivery_status = delivery_status;
      failed_reason = reason_of delivery_status s;
      occurred_at = parse_status_timestamp (prop "timestamp" s);
    })

  unfoldable pub extract_whatsapp_status_updates : Json → List StatusUpdate
  unfolding get_change_values prop trim status_update_in
  extract_whatsapp_status_updates payload =
      collect (λ value. collect (λ status. to_list (status_update_in status)) (statuses_of value))
        (get_change_values payload)
