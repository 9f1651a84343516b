-- ===== src/Outbound/Worker/Retry.antt =====
-- Failed runs of processOutboundMessage (apps/api/src/outbound/outbound.worker.service.ts).
use unified_inbox.Prelude.{
  ℕ, zero, suc, String, ◌≡◌, refl, subst, true, false, Option, none, some, List, [], ◌∷◌, arith,
  count, ◌==◌,
}
use unified_inbox.Prelude.Result.{Failure, Result, ok, err, handle, continue}
use unified_inbox.Prelude.Text.{slice_to}
use unified_inbox.Runtime.{trimmed}
use unified_inbox.Webhooks.Worker.{message_of_failure}
use unified_inbox.Schema.Rows.{Message}
use unified_inbox.Database.{Prisma, map_where}
use unified_inbox.Database.Statements.{World, idle}
use unified_inbox.Outbound.Adapters.{Provider}
use unified_inbox.Outbound.Adapters.Requests.{SameButRequests}
use unified_inbox.Outbound.Worker.{
  Times, OutboundMessage, is_claimable, is_outbound_id, as_claimed, as_sent, as_failed,
  send_via_provider, send_claimed, on_send_error, update_messages, after_claim,
  process_outbound_message, mark_message_as_failed, find_outbound,
}
use unified_inbox.Outbound.Worker.Once.{send_from-SameButRequests}

module _ (id : ℕ) where
  failed-claimable :
      (now : ℕ) (e : String) (m : Message)
      → is_outbound_id id m ≡ true
      → is_claimable id (as_failed now e m) ≡ true
  failed-claimable now e m h = ground arith

  unaddressed-claimable : (m : Message) → is_outbound_id id m ≡ false → is_claimable id m ≡ false
  unaddressed-claimable m h = ground arith

  -- Once they are marked as failed, the outbound messages with the id can be claimed.
  count-failed :
      (now : ℕ) (e : String) (rows : List Message)
      → count (is_claimable id) (map_where (is_outbound_id id) (as_failed now e) rows)
        ≡ count (is_outbound_id id) rows
  count-failed now e [] = refl
  count-failed now e (m ∷ rows) =
      ground (arith, failed-claimable now e m, unaddressed-claimable m, count-failed now e rows)

  count-claimed :
      (now : ℕ) (rows : List Message)
      → count (is_outbound_id id) (map_where (is_claimable id) (as_claimed now) rows)
        ≡ count (is_outbound_id id) rows
  count-claimed now [] = refl
  count-claimed now (m ∷ rows) = ground (arith, count-claimed now rows)

module _ (prisma : Prisma) (p : Provider) (id : ℕ) where
  -- An error left the world as it was, but for the requests.
  abbrev Untouched : {A : Type 0} → World → Result A × World → Type 0
  Untouched w (ok a, v) = Unit
  Untouched w (err f, v) = SameButRequests w v

  Untouched-by_mark :
      (now : ℕ) (o : OutboundMessage) (w : World) (r : Result String × World)
      → w.session ≡ idle
      → SameButRequests w r.1
      → Untouched w (
          continue
            (λ provider_id.
              update_messages prisma (λ m. m.id == o.message.id) (as_sent now provider_id))
            r)
  Untouched-by_mark now o w (ok provider_id, v) h same = ground arith
  Untouched-by_mark now o w (err f, v) h same = same

  send_via_provider-Untouched :
      (now : ℕ) (o : OutboundMessage) (w : World)
      → w.session ≡ idle
      → Untouched w (send_via_provider prisma p now o w)
  unfolding send_via_provider
  send_via_provider-Untouched now o w h =
      Untouched-by_mark now o w _ h
        (send_from-SameButRequests prisma p id o (trimmed o.channel.external_id) w)

  -- An error left as many messages to claim as there are outbound messages with the id.
  abbrev Retries : ℕ → Result (Unit {0}) × World → Type 0
  Retries n (ok a, v) = Unit
  Retries n (err f, v) = count (is_claimable id) v.messages ≡ n

  handled-Retries :
      (t : Times) (w : World) (r : Result (Unit {0}) × World)
      → w.session ≡ idle
      → Untouched w r
      → Retries (count (is_outbound_id id) w.messages) (handle (on_send_error prisma p id t) r)
  unfolding mark_message_as_failed
  handled-Retries t w (ok a, v) h u = tt
  handled-Retries t w (err f, v) h u = ground (
    arith,
    prisma.messages.update_many_lem (is_outbound_id id)
        (as_failed t.finished_at (slice_to 500 (message_of_failure f))) v.messages,
    count-failed id t.finished_at (slice_to 500 (message_of_failure f)) w.messages,
  )

  send_claimed-Retries :
      (t : Times) (found : Option OutboundMessage) (w : World)
      → w.session ≡ idle
      → Retries (count (is_outbound_id id) w.messages) (send_claimed prisma p id t found w)
  send_claimed-Retries t none w h = tt
  send_claimed-Retries t (some o) w h = ground (
    arith,
    handled-Retries t w (send_via_provider prisma p t.finished_at o w) h
        (send_via_provider-Untouched t.finished_at o w h),
  )

  after_claim-Retries :
      (t : Times) (n : ℕ) (w : World)
      → w.session ≡ idle
      → Retries (count (is_outbound_id id) w.messages) (after_claim prisma p id t n w)
  after_claim-Retries t zero w h = tt
  after_claim-Retries t (suc n) w h =
      ground (arith, send_claimed-Retries t (find_outbound prisma id w.store) w h)

  abbrev claimed : Times → World → World
  claimed t w = record w {
    store = record w.store {
      messages = map_where (is_claimable id) (as_claimed t.claimed_at) w.messages;
    };
  }

  run-Retries :
      (t : Times) (w : World)
      → w.session ≡ idle
      → Retries (count (is_outbound_id id) w.messages) (process_outbound_message prisma p id t w)
  unfolding process_outbound_message
  run-Retries t w h = ground (
    arith,
    prisma.messages.update_many_lem (is_claimable id) (as_claimed t.claimed_at) w.messages,
    count-claimed id t.claimed_at w.messages,
    after_claim-Retries t (count (is_claimable id) w.messages) (claimed t w) h,
  )

  -- A run that throws, from a session outside a transaction, leaves as many messages to be claimed
  -- by the next attempt as there were outbound messages with the id.
  pub throw_retries :
      (t : Times) (w v : World) (f : Failure)
      → w.session ≡ idle
      → process_outbound_message prisma p id t w ≡ (err f, v)
      → count (is_claimable id) v.messages ≡ count (is_outbound_id id) w.messages
  throw_retries t w v f h e =
      subst (Retries (count (is_outbound_id id) w.messages)) e (run-Retries t w h)
