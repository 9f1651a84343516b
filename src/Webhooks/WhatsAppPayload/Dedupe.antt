-- ===== src/Webhooks/WhatsAppPayload/Dedupe.antt =====
-- The id under which whatsapp-payload.ts lets the webhook service recognise a payload again.
use unified_inbox.Prelude.{
  ◌≡◌, none, [], arith, first_some, collect, to_list, first_some-none_of, collect-nil_of,
}
use unified_inbox.Json.{Json}
use unified_inbox.Runtime.{Runtime}
use unified_inbox.Webhooks.WhatsAppPayload.{
  get_change_values, messages_of, statuses_of, text_message_in, id_in, status_id_in,
  status_update_in, provider_message_id_in, extract_whatsapp_text_message,
  extract_whatsapp_provider_message_id, extract_whatsapp_status_updates,
}

text_message-id : (v : Json) → id_in v ≡ none → text_message_in v ≡ none
unfolding text_message_in id_in
text_message-id v h = ground arith

module _ (rt : Runtime) where
  status_update-id : (v : Json) → status_id_in rt v ≡ none → to_list (status_update_in rt v) ≡ []
  unfolding status_update_in status_id_in
  status_update-id v h = ground arith

  text_message-none :
      (value : Json)
      → provider_message_id_in rt value ≡ none
      → first_some text_message_in (messages_of value) ≡ none
  unfolding provider_message_id_in
  text_message-none value h =
      first_some-none_of id_in text_message_in (messages_of value) text_message-id (ground arith)

  updates-nil :
      (value : Json)
      → provider_message_id_in rt value ≡ none
      → collect (λ status. to_list (status_update_in rt status)) (statuses_of value) ≡ []
  unfolding provider_message_id_in
  updates-nil value h =
      collect-nil_of (status_id_in rt) (λ status. to_list (status_update_in rt status))
        (statuses_of value) status_update-id (ground arith)

  -- A payload without a provider message id has no text message and no status update, so the
  -- hash of the payload stands in only where the worker has nothing to do.
  pub fallback_only_when_idle :
      (payload : Json)
      → extract_whatsapp_provider_message_id rt payload ≡ none
      → (extract_whatsapp_text_message payload ≡ none)
        × (extract_whatsapp_status_updates rt payload ≡ [])
  unfolding extract_whatsapp_provider_message_id extract_whatsapp_text_message
      extract_whatsapp_status_updates
  fallback_only_when_idle payload h = (
    first_some-none_of (provider_message_id_in rt) _ (get_change_values payload) text_message-none
        h,
    collect-nil_of (provider_message_id_in rt) _ (get_change_values payload) updates-nil h,
  )
