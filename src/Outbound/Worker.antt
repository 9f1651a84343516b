-- ===== src/Outbound/Worker.antt =====
-- apps/api/src/outbound/outbound.worker.service.ts: a queued message is claimed, sent and marked.
pub mod Once
pub mod Marks
pub mod Retry
use unified_inbox.Prelude.{
  ℕ, suc, zero, String, Bool, true, false, ◌&&◌, ◌||◌, Option, none, some, List, [], ◌∷◌,
  if◌then◌else◌, ◌==◌, or_else,
}
use unified_inbox.Prelude.Text.{slice_to}
use unified_inbox.Prelude.Int.{pos}
use unified_inbox.Prelude.Result.{Failure, error, Exec, pure, throw, catching, ◌>>=◌, ◌>>◌}
use unified_inbox.Runtime.{trimmed}
use unified_inbox.Schema.Enums.{
  ChannelType, whatsapp, instagram, MessageDirection, inbound, outbound, DeliveryStatus, queued,
  sending, sent, delivered, read,
}
use unified_inbox.Schema.Rows.{Channel, Conversation, Message}
use unified_inbox.Database.{Prisma, Store}
use unified_inbox.Database.Statements.{World, query, write}
use unified_inbox.Webhooks.Worker.{is_outbound, message_of_failure}
use unified_inbox.Outbound.Adapters.{Provider, send_text_message}

-- `deliveryStatus: { in: [QUEUED, FAILED] }`
abbrev pub is_waiting : Option DeliveryStatus → Bool
is_waiting (some queued) = true
is_waiting (some DeliveryStatus.failed) = true
is_waiting (some sending) = false
is_waiting (some sent) = false
is_waiting (some delivered) = false
is_waiting (some read) = false
is_waiting none = false

-- The `where` of the claim.
abbrev pub is_claimable : ℕ → Message → Bool
is_claimable id m = m.id == id && (is_outbound m.direction && is_waiting m.delivery_status)

abbrev pub is_outbound_id : ℕ → Message → Bool
is_outbound_id id m = m.id == id && is_outbound m.direction

abbrev pub as_claimed : ℕ → Message → Message
as_claimed now m = record m {
  delivery_status = some sending;
  delivery_status_updated_at = some (pos now);
  provider_error = none;
  failed_at = none;
}

abbrev pub as_sent : ℕ → String → Message → Message
as_sent now provider_id m = record m {
  provider_message_id = some provider_id;
  delivery_status = some sent;
  delivery_status_updated_at = some (pos now);
  sent_at = some (pos now);
  provider_error = none;
  failed_at = none;
}

abbrev pub as_failed : ℕ → String → Message → Message
as_failed now reason m = record m {
  delivery_status = some DeliveryStatus.failed;
  delivery_status_updated_at = some (pos now);
  provider_error = some reason;
  failed_at = some (pos now);
}

-- The selected message with its conversation and its channel, which foreign keys tie to it.
pub record OutboundMessage : Type 0 where
  pub message : Message
  pub conversation : Conversation
  pub channel : Channel

-- The times at which a run claims the message and marks the outcome.
pub record Times : Type 0 where
  pub claimed_at : ℕ
  pub finished_at : ℕ

module _ (prisma : Prisma) where
  abbrev with_channel : Message → Conversation → Option Channel → Option OutboundMessage
  with_channel m c none = none
  with_channel m c (some ch) = some (record { message = m; conversation = c; channel = ch })

  abbrev with_conversation : Store → Message → Option Conversation → Option OutboundMessage
  with_conversation s m none = none
  with_conversation s m (some c) =
      with_channel m c (prisma.channels.find_first (λ ch. ch.id == c.channel_id) s.channels)

  abbrev joined : Store → Option Message → Option OutboundMessage
  joined s none = none
  joined s (some m) =
      with_conversation s m
        (prisma.conversations.find_first (λ c. c.id == m.conversation_id) s.conversations)

  unfoldable pub find_outbound : ℕ → Store → Option OutboundMessage
  find_outbound id s = joined s (prisma.messages.find_first (λ m. m.id == id) s.messages)

  abbrev pub update_messages : (Message → Bool) → (Message → Message) → Exec World Unit
  update_messages p f =
      write λ s. (record s { messages = (prisma.messages.update_many p f s.messages).0 }, tt)

  -- The claim, with the number of claimed messages.
  abbrev pub claim : ℕ → ℕ → Exec World ℕ
  claim id now = write λ s.
      let (rows, n) = prisma.messages.update_many (is_claimable id) (as_claimed now) s.messages in
      (record s { messages = rows }, n)

  -- `markMessageAsFailed`
  unfoldable pub mark_message_as_failed : ℕ → String → ℕ → Exec World Unit
  mark_message_as_failed now reason id = update_messages (is_outbound_id id) (as_failed now reason)

  module _ (p : Provider) where
    abbrev pub recipient_missing : ChannelType → String
    recipient_missing whatsapp = "Conversation contact phone is missing"
    recipient_missing instagram = "Conversation contact (Instagram recipient) is missing"

    abbrev pub send_to : OutboundMessage → String → Option String → Exec World String
    send_to o external_id none = throw (error (recipient_missing o.channel.channel_type))
    send_to o external_id (some to) =
        send_text_message prisma p o.channel.channel_type o.conversation.organization_id external_id
          to o.message.body

    abbrev pub send_from : OutboundMessage → Option String → Exec World String
    send_from o none = throw (error "Channel external id is missing")
    send_from o (some external_id) = send_to o external_id (trimmed o.conversation.contact_phone)

    unfoldable pub send_via_provider : ℕ → OutboundMessage → Exec World Unit
    send_via_provider now o = do
      provider_id ← send_from o (trimmed o.channel.external_id)
      update_messages (λ m. m.id == o.message.id) (as_sent now provider_id)

    abbrev pub on_send_error : ℕ → Times → Failure → Exec World Unit
    on_send_error id t failure =
        mark_message_as_failed t.finished_at (slice_to 500 (message_of_failure failure)) id
        >> throw failure

    abbrev pub send_claimed : ℕ → Times → Option OutboundMessage → Exec World Unit
    send_claimed id t none = pure tt
    send_claimed id t (some o) =
        if is_outbound o.message.direction
        then catching (send_via_provider t.finished_at o) (on_send_error id t)
        else pure tt

    abbrev pub after_claim : ℕ → Times → ℕ → Exec World Unit
    after_claim id t zero = pure tt
    after_claim id t (suc n) = do found ← query (find_outbound id); send_claimed id t found

    unfoldable pub process_outbound_message : ℕ → Times → Exec World Unit
    process_outbound_message id t = do claimed ← claim id t.claimed_at; after_claim id t claimed
