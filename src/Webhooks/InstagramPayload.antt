-- ===== src/Webhooks/InstagramPayload.antt =====
-- apps/api/src/webhooks/instagram-payload.ts: what an Instagram webhook payload says.
pub mod Laws
use Prim.Native.String.{◌++◌ as concat}
use unified_inbox.Prelude.{
  String, Bool, true, false, Option, none, some, List, [], first_some, collect, to_list, is_some,
  not,
}
use unified_inbox.Prelude.Text.{trim}
use unified_inbox.Prelude.Chain.{◌>>=◌}
use unified_inbox.Json.{Json, prop, as_object, array_or_empty, read_non_empty_string}
use unified_inbox.Webhooks.WhatsAppPayload.{TextMessage}

-- The messaging items of one entry.
pub messaging_in : Json → List Json
messaging_in entry = elim (as_object entry) [
  | none ↦ []
  | some e ↦ collect (λ item. to_list (as_object item)) (array_or_empty (prop "messaging" e))
]

unfoldable pub get_messaging_entries : Json → List Json
unfolding messaging_in as_object prop array_or_empty
get_messaging_entries payload = elim (as_object payload) [
  | none ↦ []
  | some p ↦ collect messaging_in (array_or_empty (prop "entry" p))
]

abbrev entry_id_in : Json → Option String
entry_id_in entry = do e ← as_object entry; read_non_empty_string (prop "id" e)

unfoldable pub extract_instagram_account_id : Json → Option String
unfolding as_object prop array_or_empty read_non_empty_string trim
extract_instagram_account_id payload = do
  p ← as_object payload
  first_some entry_id_in (array_or_empty (prop "entry" p))

-- `isPlainObject(value) ? value : null`, of a value that may be undefined.
abbrev pub object_or_null : Option Json → Option Json
object_or_null v = v >>= as_object

abbrev text_message : String → String → String → TextMessage
text_message mid sender_id text = record {
  provider_message_id = mid;
  from = sender_id;
  text = text;
  external_thread_id = concat "ig:" sender_id;
  customer_display = sender_id;
}

-- One round of the loop of `extractInstagramTextMessage`; none is `continue`.
pub text_message_in : Json → Option TextMessage
text_message_in item = do
  message ← object_or_null (prop "message" item)
  text ← read_non_empty_string (prop "text" message)
  mid ← read_non_empty_string (prop "mid" message)
  sender ← object_or_null (prop "sender" item)
  sender_id ← read_non_empty_string (prop "id" sender)
  some (text_message mid sender_id text)

unfoldable pub extract_instagram_text_message : Json → Option TextMessage
unfolding get_messaging_entries trim text_message_in read_non_empty_string
extract_instagram_text_message payload = first_some text_message_in (get_messaging_entries payload)

pub mid_in : Json → Option String
mid_in item = do
  message ← object_or_null (prop "message" item)
  read_non_empty_string (prop "mid" message)

unfoldable pub extract_instagram_provider_message_id : Json → Option String
unfolding get_messaging_entries trim mid_in read_non_empty_string
extract_instagram_provider_message_id payload = first_some mid_in (get_messaging_entries payload)

-- One round of the loop of `isInstagramNonTextMessage`; none is `continue`.
pub non_text_in : Json → Option Bool
non_text_in item = do
  message ← object_or_null (prop "message" item)
  elim (read_non_empty_string (prop "text" message)) [ none ↦ some true | some text ↦ none ]

unfoldable pub is_instagram_non_text_message : Json → Bool
unfolding get_messaging_entries trim non_text_in read_non_empty_string
is_instagram_non_text_message payload =
    elim (first_some non_text_in (get_messaging_entries payload)) [ none ↦ false | some b ↦ b ]
