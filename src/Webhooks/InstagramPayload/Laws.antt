-- ===== src/Webhooks/InstagramPayload/Laws.antt =====
-- What the readers of apps/api/src/webhooks/instagram-payload.ts return.
use Prim.Native.String.{◌++◌ as concat}
use unified_inbox.Prelude.{◌≡◌, none, some, arith, first_some-holds, first_some-none_of}
use unified_inbox.Json.{Json}
use unified_inbox.Json.Strings.{IsToken, reads-IsToken}
use unified_inbox.Webhooks.WhatsAppPayload.{TextMessage}
use unified_inbox.Webhooks.InstagramPayload.{
  get_messaging_entries, text_message_in, mid_in, extract_instagram_text_message,
  extract_instagram_provider_message_id,
}

pub record IsMessage (m : TextMessage) : Type 0 where
  pub id : IsToken m.provider_message_id
  pub from : IsToken m.from
  pub text : IsToken m.text
  pub thread : m.external_thread_id ≡ concat "ig:" m.from
  pub display : m.customer_display ≡ m.from

text_message_in-IsMessage : (v : Json) (m : TextMessage) → text_message_in v ≡ some m → IsMessage m
unfolding text_message_in
text_message_in-IsMessage v m h = grind (arith, reads-IsToken)

-- A text message that is read from a payload has trimmed fields that are not empty, and its thread
-- is named after its sender.
pub extract_instagram_text_message-IsMessage :
    (payload : Json) (m : TextMessage)
    → extract_instagram_text_message payload ≡ some m
    → IsMessage m
unfolding extract_instagram_text_message
extract_instagram_text_message-IsMessage payload =
    first_some-holds IsMessage text_message_in (get_messaging_entries payload)
      text_message_in-IsMessage

text_message-mid : (v : Json) → mid_in v ≡ none → text_message_in v ≡ none
unfolding text_message_in mid_in
text_message-mid v h = ground arith

-- A payload without a message id has no text message.
pub fallback_only_without_text :
    (payload : Json)
    → extract_instagram_provider_message_id payload ≡ none
    → extract_instagram_text_message payload ≡ none
unfolding extract_instagram_provider_message_id extract_instagram_text_message
fallback_only_without_text payload h =
    first_some-none_of mid_in text_message_in (get_messaging_entries payload) text_message-mid h
