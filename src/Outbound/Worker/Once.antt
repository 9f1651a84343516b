-- ===== src/Outbound/Worker/Once.antt =====
-- Repeated runs of processOutboundMessage (apps/api/src/outbound/outbound.worker.service.ts).
use unified_inbox.Prelude.{
  ℕ, zero, suc, String, ◌≡◌, refl, subst, Bool, false, Option, none, some, List, [], ◌∷◌, arith,
  count, ◌==◌,
}
use unified_inbox.Prelude.Result.{Result, ok, err, handle, continue}
use unified_inbox.Schema.Rows.{Message}
use unified_inbox.Database.{Prisma, map_where}
use unified_inbox.Database.Statements.{World, idle}
use unified_inbox.Outbound.Adapters.{Provider}
use unified_inbox.Outbound.Adapters.Requests.{SameButRequests, send_text_message-SameButRequests}
use unified_inbox.Runtime.{trimmed}
use unified_inbox.Outbound.Worker.{
  Times, OutboundMessage, is_claimable, as_claimed, as_sent, send_via_provider, send_from, send_to,
  send_claimed, on_send_error, update_messages, after_claim, process_outbound_message,
  mark_message_as_failed, find_outbound,
}

module _ {Row : Type 0} (q : Row → Bool) where
  -- An update whose rows fail a test leaves none that passes it, if the others fail it too.
  count-map_where_zero :
      (p : Row → Bool) (f : Row → Row) (rows : List Row)
      → ((r : Row) → q (f r) ≡ false)
      → count q rows ≡ 0
      → count q (map_where p f rows) ≡ 0
  count-map_where_zero p f [] k h = refl
  count-map_where_zero p f (r ∷ rows) k h = ground (arith, k r, count-map_where_zero p f rows k)

  -- An update of the rows that pass a test, to rows that fail it, leaves none that passes it.
  count-map_where_self :
      (f : Row → Row) (rows : List Row)
      → ((r : Row) → q (f r) ≡ false)
      → count q (map_where q f rows) ≡ 0
  count-map_where_self f [] k = refl
  count-map_where_self f (r ∷ rows) k = ground (arith, k r, count-map_where_self f rows k)

map_where_none :
    {Row : Type 0} (p : Row → Bool) (f : Row → Row) (rows : List Row)
    → count p rows ≡ 0
    → map_where p f rows ≡ rows
map_where_none p f [] h = refl
map_where_none p f (r ∷ rows) h = ground (arith, map_where_none p f rows)

as_claimed-claimable : (id now : ℕ) (m : Message) → is_claimable id (as_claimed now m) ≡ false
as_claimed-claimable id now m = ground arith

as_sent-claimable :
    (id now : ℕ) (p : String) (m : Message) → is_claimable id (as_sent now p m) ≡ false
as_sent-claimable id now p m = ground arith

-- Nothing is left to claim for this id.
abbrev pub IsTaken : ℕ → World → Type 0
IsTaken id w = count (is_claimable id) w.messages ≡ 0

module _ (prisma : Prisma) (p : Provider) (id : ℕ) where
  -- A successful send ends in a session outside a transaction, with nothing left to claim.
  abbrev Settles : Result (Unit {0}) × World → Type 0
  Settles (ok a, v) = (v.session ≡ idle) × IsTaken id v
  Settles (err f, v) = Unit

  send_to-SameButRequests :
      (o : OutboundMessage) (external_id : String) (to : Option String) (w : World)
      → SameButRequests w (send_to prisma p o external_id to w).1
  send_to-SameButRequests o external_id none w = refl
  send_to-SameButRequests o external_id (some to) w =
      send_text_message-SameButRequests prisma p o.channel.channel_type
        o.conversation.organization_id external_id to o.message.body w

  pub send_from-SameButRequests :
      (o : OutboundMessage) (external_id : Option String) (w : World)
      → SameButRequests w (send_from prisma p o external_id w).1
  send_from-SameButRequests o none w = refl
  send_from-SameButRequests o (some external_id) w =
      send_to-SameButRequests o external_id (trimmed o.conversation.contact_phone) w

  marked-Settles :
      (now : ℕ) (o : OutboundMessage) (w : World) (r : Result String × World)
      → w.session ≡ idle
      → IsTaken id w
      → SameButRequests w r.1
      → Settles (
          continue
            (λ provider_id.
              update_messages prisma (λ m. m.id == o.message.id) (as_sent now provider_id))
            r)
  marked-Settles now o w (ok provider_id, v) h k same = ground (
    arith,
    prisma.messages.update_many_lem (λ m. m.id == o.message.id) (as_sent now provider_id)
        v.messages,
    count-map_where_zero (is_claimable id) (λ m. m.id == o.message.id) (as_sent now provider_id)
        v.messages (as_sent-claimable id now provider_id),
  )
  marked-Settles now o w (err f, v) h k same = tt

  send_via_provider-Settles :
      (now : ℕ) (o : OutboundMessage) (w : World)
      → w.session ≡ idle
      → IsTaken id w
      → Settles (send_via_provider prisma p now o w)
  unfolding send_via_provider
  send_via_provider-Settles now o w h k =
      marked-Settles now o w _ h k (send_from-SameButRequests o (trimmed o.channel.external_id) w)

  -- An error is thrown on.
  handled-Settles :
      (t : Times) (r : Result (Unit {0}) × World)
      → Settles r
      → Settles (handle (on_send_error prisma p id t) r)
  unfolding mark_message_as_failed
  handled-Settles t (ok a, v) k = k
  handled-Settles t (err f, v) k = ground arith

  send_claimed-Settles :
      (t : Times) (found : Option OutboundMessage) (w : World)
      → w.session ≡ idle
      → IsTaken id w
      → Settles (send_claimed prisma p id t found w)
  send_claimed-Settles t none w h k = (h, k)
  send_claimed-Settles t (some o) w h k = ground (
    arith,
    handled-Settles t (send_via_provider prisma p t.finished_at o w)
        (send_via_provider-Settles t.finished_at o w h k),
  )

  -- Where nothing can be claimed a run does nothing.
  taken_run :
      (t : Times) (w : World)
      → w.session ≡ idle
      → IsTaken id w
      → process_outbound_message prisma p id t w ≡ (ok tt, w)
  unfolding process_outbound_message
  taken_run t w h k = ground (
    arith,
    prisma.messages.update_many_lem (is_claimable id) (as_claimed t.claimed_at) w.messages,
    map_where_none (is_claimable id) (as_claimed t.claimed_at) w.messages k,
  )

  -- The world after the claim.
  abbrev claimed : Times → World → World
  claimed t w = record w {
    store = record w.store {
      messages = map_where (is_claimable id) (as_claimed t.claimed_at) w.messages;
    };
  }

  claimed-IsTaken : (t : Times) (w : World) → IsTaken id (claimed t w)
  claimed-IsTaken t w =
      count-map_where_self (is_claimable id) (as_claimed t.claimed_at) w.messages
        (as_claimed-claimable id t.claimed_at)

  after_claim-Settles :
      (t : Times) (n : ℕ) (w : World)
      → w.session ≡ idle
      → IsTaken id w
      → Settles (after_claim prisma p id t n w)
  after_claim-Settles t zero w h k = (h, k)
  after_claim-Settles t (suc n) w h k =
      ground (arith, send_claimed-Settles t (find_outbound prisma id w.store) w h k)

  run-Settles :
      (t : Times) (w : World)
      → w.session ≡ idle
      → Settles (process_outbound_message prisma p id t w)
  unfolding process_outbound_message
  run-Settles t w h = ground (
    arith,
    prisma.messages.update_many_lem (is_claimable id) (as_claimed t.claimed_at) w.messages,
    after_claim-Settles t (count (is_claimable id) w.messages) (claimed t w) h
        (claimed-IsTaken t w),
  )

  -- A run that did not throw, from a session outside a transaction, has done all there is to do:
  -- another run of the same job on what it left changes nothing and sends nothing.
  pub process_twice :
      (t t' : Times) (w v : World)
      → w.session ≡ idle
      → process_outbound_message prisma p id t w ≡ (ok tt, v)
      → process_outbound_message prisma p id t' v ≡ (ok tt, v)
  process_twice t t' w v h e = let k = subst Settles e (run-Settles t w h) in taken_run t' v k.0 k.1
