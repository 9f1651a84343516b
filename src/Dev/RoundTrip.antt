-- ===== src/Dev/RoundTrip.antt =====
-- The webhook's readers on a simulated payload (apps/api/src/dev, apps/api/src/webhooks).
use unified_inbox.Prelude.{String, ◌≡◌, refl, some, []}
use unified_inbox.Json.{str, read_non_empty_string, as_object, prop, array_or_empty}
use unified_inbox.Prelude.Text.{trim}
use unified_inbox.Runtime.{Runtime}
use unified_inbox.Webhooks.WhatsAppPayload.{
  extract_whatsapp_text_message, extract_whatsapp_phone_number_id,
  extract_whatsapp_provider_message_id, extract_whatsapp_status_updates, text_message,
  text_message_in, get_change_values, entry_values, change_value, phone_number_id_in,
  provider_message_id_in, id_in,
}
use unified_inbox.Dev.{build_whatsapp_payload, text_item}

-- A text that has something but white space, and what is left of it.
abbrev pub Reads : String → String → Type 0
Reads s trimmed = read_non_empty_string (some (str s)) ≡ some trimmed

text_type : Reads "text" "text"
unfolding read_non_empty_string trim
text_type = refl

text_item-Reads :
    (message_id from text i f t : String)
    → Reads message_id i
    → Reads from f
    → Reads text t
    → text_message_in (text_item message_id from text) ≡ some (text_message i f t)
unfolding text_message_in as_object prop
text_item-Reads message_id from text i f t hi hf ht = rw (hi, hf, ht, text_type) refl

-- A simulated payload reads as the account, the message id and the text message that it was built
-- from, trimmed, with no delivery report, if each of the four texts has more than white space.
pub build-Reads :
    (rt : Runtime) (phone message_id from text p i f t : String)
    → Reads phone p
    → Reads message_id i
    → Reads from f
    → Reads text t
    → let payload = build_whatsapp_payload phone message_id from text in
      (extract_whatsapp_phone_number_id payload ≡ some p)
      × (extract_whatsapp_provider_message_id rt payload ≡ some i)
      × (extract_whatsapp_text_message payload ≡ some (text_message i f t))
      × (extract_whatsapp_status_updates rt payload ≡ [])
unfolding extract_whatsapp_phone_number_id extract_whatsapp_provider_message_id
    extract_whatsapp_text_message extract_whatsapp_status_updates get_change_values entry_values
    change_value phone_number_id_in provider_message_id_in id_in as_object prop array_or_empty
build-Reads rt phone message_id from text p i f t hp hi hf ht =
    (rw hp refl, rw hi refl, rw (text_item-Reads message_id from text i f t hi hf ht) refl, refl)
