-- ===== src/Webhooks/Worker/Atomicity.antt =====
-- What a failed attempt of processRawEvent leaves
-- (apps/api/src/webhooks/webhooks.worker.service.ts).
use unified_inbox.Prelude.{ℕ, ◌≡◌, refl, ap, Bool, Option, none, some, List, [], ◌∷◌, arith}
use unified_inbox.Prelude.Result.{Failure, Result, ok, err, catching, handle}
use unified_inbox.Runtime.{Runtime}
use unified_inbox.Schema.Rows.{RawWebhookEvent}
use unified_inbox.Database.{Prisma}
use unified_inbox.Database.Statements.{World}
use unified_inbox.Webhooks.WhatsAppPayload.{TextMessage, StatusUpdate}
use unified_inbox.Webhooks.Worker.{
  Fresh, event_id_is, process_read, mark_as_processed, mark_as_failed, on_error, process_raw_event,
  process_found, message_of, updates_of,
}

-- Two worlds that differ in the raw webhook events at most.
abbrev pub SameButEvents : World → World → Type 0
SameButEvents w w' =
    w' ≡ record w { store = record w.store { raw_webhook_events = w'.raw_webhook_events } }

module _ (prisma : Prisma) where
  process_read-err :
      (e : RawWebhookEvent) (fresh : Fresh) (msg : Option TextMessage) (ups : List StatusUpdate)
      (w w' : World) (f : Failure)
      → process_read prisma e fresh msg ups w ≡ (err f, w')
      → w' ≡ w
  unfolding process_read mark_as_processed
  process_read-err e fresh none [] w w' f h = ground arith
  process_read-err e fresh none (u ∷ us) w w' f h = ground arith
  process_read-err e fresh (some m) ups w w' f h = ground arith

  mark_as_failed-SameButEvents :
      (now id : ℕ) (f : Failure) (w : World) → SameButEvents w (mark_as_failed prisma now f id w).1
  unfolding mark_as_failed
  mark_as_failed-SameButEvents now id f w = ground arith

  on_error-SameButEvents :
      (rt : Runtime) (id : ℕ) (final : Bool) (fresh : Fresh) (f : Failure) (w : World)
      → SameButEvents w (on_error prisma rt id final fresh f w).1
  unfolding on_error
  on_error-SameButEvents rt id final fresh f w =
      ground (arith, mark_as_failed-SameButEvents fresh.now id f w)

  after_error :
      (rt : Runtime) (id : ℕ) (final : Bool) (fresh : Fresh) (w v w' : World) (f g : Failure)
      → v ≡ w
      → on_error prisma rt id final fresh g v ≡ (err f, w')
      → SameButEvents w w'
  after_error rt id final fresh w v w' f g same h =
      cc (
        same,
        ap (λ (r : Result Unit × World). r.1) h,
        on_error-SameButEvents rt id final fresh g v,
      )

  attempt-SameButEvents :
      (rt : Runtime) (id : ℕ) (final : Bool) (fresh : Fresh) (w w' : World) (f : Failure)
      (e : RawWebhookEvent) (msg : Option TextMessage) (ups : List StatusUpdate)
      → catching (process_read prisma e fresh msg ups) (on_error prisma rt id final fresh) w
        ≡ (err f, w')
      → SameButEvents w w'
  attempt-SameButEvents rt id final fresh w w' f e msg ups =
      go (process_read prisma e fresh msg ups w) refl
    where
      go :
          (r : Result Unit × World)
          → process_read prisma e fresh msg ups w ≡ r
          → handle (on_error prisma rt id final fresh) r ≡ (err f, w')
          → SameButEvents w w'
      go (ok a, v) p h = cc
      go (err g, v) p h =
          after_error rt id final fresh w v w' f g (process_read-err e fresh msg ups w v g p) h

  process_found-SameButEvents :
      (rt : Runtime) (id : ℕ) (final : Bool) (fresh : Fresh) (w w' : World) (f : Failure)
      (found : Option RawWebhookEvent)
      → process_found prisma rt id final fresh found w ≡ (err f, w')
      → SameButEvents w w'
  process_found-SameButEvents rt id final fresh w w' f none h = cc
  process_found-SameButEvents rt id final fresh w w' f (some e) h = ground (
    arith,
    attempt-SameButEvents rt id final fresh w w' f e (message_of prisma rt e)
        (updates_of prisma rt e),
  )

  -- An attempt that throws has changed nothing but the raw webhook events, whatever statement
  -- failed: no message, conversation or channel is written and no event is published.
  pub process_raw_event-SameButEvents :
      (rt : Runtime) (id : ℕ) (final : Bool) (fresh : Fresh) (w w' : World) (f : Failure)
      → process_raw_event prisma rt id final fresh w ≡ (err f, w')
      → SameButEvents w w'
  unfolding process_raw_event
  process_raw_event-SameButEvents rt id final fresh w w' f h = ground (
    arith,
    process_found-SameButEvents rt id final fresh w w' f
        (prisma.raw_webhook_events.find_first (event_id_is id) w.raw_webhook_events),
  )
