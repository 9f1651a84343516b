-- ===== src/Outbound/Worker/Marks.antt =====
-- The marks that processOutboundMessage writes (apps/api/src/outbound/outbound.worker.service.ts).
use unified_inbox.Prelude.{ℕ, zero, suc, String, Option, none, some, arith}
use unified_inbox.Prelude.Result.{Failure}
use unified_inbox.Schema.Rows.{Message}
use unified_inbox.Database.{Prisma}
use unified_inbox.Database.Statements.{World}
use unified_inbox.Database.Keeps.{Keeps, keeps_rules, Keeps-write, All-update_many}
use unified_inbox.Webhooks.Delivery.Timestamps.{IsConsistent}
use unified_inbox.Webhooks.Worker.Consistency.{AllConsistent}
use unified_inbox.Outbound.Adapters.{Provider}
use unified_inbox.Outbound.Adapters.Requests.{send_text_message-Keeps}
use unified_inbox.Outbound.Worker.{
  Times, OutboundMessage, is_claimable, as_claimed, as_sent, as_failed, send_via_provider,
  send_from, send_to, send_claimed, on_send_error, update_messages, after_claim, claim,
  process_outbound_message, mark_message_as_failed,
}
use unified_inbox.Runtime.{trimmed}

as_claimed-IsConsistent : (now : ℕ) (m : Message) → IsConsistent m → IsConsistent (as_claimed now m)
as_claimed-IsConsistent now m v = ground arith

as_sent-IsConsistent :
    (now : ℕ) (p : String) (m : Message) → IsConsistent m → IsConsistent (as_sent now p m)
as_sent-IsConsistent now p m v = ground arith

as_failed-IsConsistent :
    (now : ℕ) (e : String) (m : Message) → IsConsistent m → IsConsistent (as_failed now e m)
as_failed-IsConsistent now e m v = ground arith

module _ (prisma : Prisma) where
  update_messages-Keeps :
      (p : _) (f : Message → Message)
      → ((m : Message) → IsConsistent m → IsConsistent (f m))
      → Keeps AllConsistent (update_messages prisma p f)
  update_messages-Keeps p f k =
      Keeps-write _
        (λ s h. All-update_many prisma.messages IsConsistent p f s.messages (λ r _. k r) h)

  claim-Keeps : (id now : ℕ) → Keeps AllConsistent (claim prisma id now)
  claim-Keeps id now = Keeps-write _ (λ s h.
      All-update_many prisma.messages IsConsistent (is_claimable id) (as_claimed now) s.messages
        (λ r _. as_claimed-IsConsistent now r) h)

  module _ (p : Provider) where
    send_to-Keeps :
        (o : OutboundMessage) (x : String) (to : Option String)
        → Keeps AllConsistent (send_to prisma p o x to)
    send_to-Keeps o x none = search keeps_rules
    send_to-Keeps o x (some to) = send_text_message-Keeps prisma p _ _ x to _

    send_from-Keeps :
        (o : OutboundMessage) (x : Option String) → Keeps AllConsistent (send_from prisma p o x)
    send_from-Keeps o none = search keeps_rules
    send_from-Keeps o (some x) = send_to-Keeps o x (trimmed o.conversation.contact_phone)

    send_via_provider-Keeps :
        (now : ℕ) (o : OutboundMessage) → Keeps AllConsistent (send_via_provider prisma p now o)
    unfolding send_via_provider
    send_via_provider-Keeps now o =
        search (keeps_rules, send_from-Keeps, update_messages-Keeps, as_sent-IsConsistent) depth 8

    on_send_error-Keeps :
        (id : ℕ) (t : Times) (f : Failure) → Keeps AllConsistent (on_send_error prisma p id t f)
    unfolding mark_message_as_failed
    on_send_error-Keeps id t f =
        search (keeps_rules, update_messages-Keeps, as_failed-IsConsistent) depth 8

    send_claimed-Keeps :
        (id : ℕ) (t : Times) (o : Option OutboundMessage)
        → Keeps AllConsistent (send_claimed prisma p id t o)
    send_claimed-Keeps id t none = search keeps_rules
    send_claimed-Keeps id t (some o) =
        search (keeps_rules, send_via_provider-Keeps, on_send_error-Keeps) depth 8

    after_claim-Keeps :
        (id : ℕ) (t : Times) (n : ℕ) → Keeps AllConsistent (after_claim prisma p id t n)
    after_claim-Keeps id t zero = search keeps_rules
    after_claim-Keeps id t (suc n) = search (keeps_rules, send_claimed-Keeps)

    process_outbound_message-Keeps :
        (id : ℕ) (t : Times) → Keeps AllConsistent (process_outbound_message prisma p id t)
    unfolding process_outbound_message
    process_outbound_message-Keeps id t = search (keeps_rules, claim-Keeps, after_claim-Keeps)

    -- Whether the send succeeds or fails, the stored messages stay consistent, if all were.
    pub process_outbound_message-consistent :
        (id : ℕ) (t : Times) (w : World)
        → AllConsistent w.store
        → AllConsistent (process_outbound_message prisma p id t w).1.store
    process_outbound_message-consistent id t w = (process_outbound_message-Keeps id t).at w
