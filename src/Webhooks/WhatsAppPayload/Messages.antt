-- ===== src/Webhooks/WhatsAppPayload/Messages.antt =====
-- The text messages of whatsapp-payload.ts.
use Prim.Native.String.{◌++◌ as concat}
use unified_inbox.Prelude.{◌≡◌, some, arith, first_some-holds}
use unified_inbox.Json.{Json}
use unified_inbox.Json.Strings.{IsToken, reads-IsToken}
use unified_inbox.Webhooks.WhatsAppPayload.{
  TextMessage, get_change_values, messages_of, text_message_in, extract_whatsapp_text_message,
}

-- What the worker may rely on in an extracted message.
pub record IsMessage (m : TextMessage) : Type 0 where
  pub id : IsToken m.provider_message_id
  pub from : IsToken m.from
  pub text : IsToken m.text
  pub thread : m.external_thread_id ≡ concat "wa:" m.from
  pub display : m.customer_display ≡ m.from

text_message_in-IsMessage : (v : Json) (m : TextMessage) → text_message_in v ≡ some m → IsMessage m
unfolding text_message_in
text_message_in-IsMessage v m h = grind (arith, reads-IsToken)

-- Ids, senders and texts of an extracted message are trimmed and not empty, and its thread is
-- the sender's.
pub extract_whatsapp_text_message-IsMessage :
    (payload : Json) (m : TextMessage)
    → extract_whatsapp_text_message payload ≡ some m
    → IsMessage m
unfolding extract_whatsapp_text_message
extract_whatsapp_text_message-IsMessage payload =
    first_some-holds IsMessage _ (get_change_values payload) λ value.
      first_some-holds IsMessage text_message_in (messages_of value) text_message_in-IsMessage
