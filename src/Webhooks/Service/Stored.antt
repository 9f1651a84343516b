-- ===== src/Webhooks/Service/Stored.antt =====
-- The stored events of accepted requests (apps/api/src/webhooks/webhooks.service.ts).
use unified_inbox.Prelude.{
  ap, ◌∙◌, ℕ, String, ◌≡◌, ◌≤◌, refl, Bool, true, false, Option, none, some, List, [], ◌∷◌, arith,
  any, if◌then◌else◌, count, keep, head?, eq_iff, Option-cases, Bool-cases, inl, inr,
}
use unified_inbox.Prelude.Result.{
  Failure, http, unique_violation, error, non_retryable, delivery_error, ok, continue-ok,
}
use unified_inbox.Json.{Json}
use unified_inbox.Runtime.{Runtime, Env}
use unified_inbox.Queues.{Mode, is_queued, uninitialized, bull_mq, inline_fallback, enqueue}
use unified_inbox.Schema.Enums.{ChannelType}
use unified_inbox.Schema.Rows.{RawWebhookEvent, Organization, ChannelAccount}
use unified_inbox.Database.{Prisma, Store}
use unified_inbox.Database.Statements.{World}
use unified_inbox.Database.Keeps.{Keeps, keeps_rules, Keeps-bind}
use unified_inbox.Crypto.{Bytes}
use unified_inbox.Webhooks.Worker.{is_pending}
use unified_inbox.Webhooks.Service.{
  Digests, HandleWebhookOptions, Reply, is_event, stored_id, new_event, add_event,
  store_or_reenqueue, reenqueue, on_store_error, handle_webhook, assert_valid_signature,
  resolve_organization_id, account_found, account_id, check_digest, check_header, check_secret,
  check_body, check_signature, organization_found, named_organization, account_organization,
  is_dev_endpoints_enabled, app_secret, parse_signature_header,
}

is_event_self : (e : RawWebhookEvent) → is_event e.provider e.provider_message_id e ≡ true
is_event_self e = ground (arith, (eq_iff e.provider_message_id e.provider_message_id).1 refl)

any-count : {Row : Type 0} (p : Row → Bool) (rows : List Row) → any p rows ≡ true → 1 ≤ count p rows
any-count p [] h = absurd (ground arith)
any-count p (r ∷ rows) h = ground (arith, any-count p rows)

none-count :
    {Row : Type 0} (p : Row → Bool) (rows : List Row) → any p rows ≡ false → count p rows ≡ 0
none-count p [] h = refl
none-count p (r ∷ rows) h = ground (arith, none-count p rows)

none-kept :
    {Row : Type 0} (p : Row → Bool) (rows : List Row)
    → any p rows ≡ false
    → head? (keep p rows) ≡ none
none-kept p [] h = refl
none-kept p (r ∷ rows) h = ground (arith, none-kept p rows)

module _ (prisma : Prisma) (rt : Runtime) (digests : Digests) (env : Env) where
  -- The stored event, which a job is to process if nothing did yet.
  abbrev pub IsQueued : ChannelType → String → World → Type 0
  IsQueued t id v =
      (e : RawWebhookEvent) × (prisma.raw_webhook_events.find_first (is_event t id)
          v.raw_webhook_events
        ≡ some e)
      × ((if is_pending e.processing_status then is_queued e.id v.webhook_jobs else true) ≡ true)

  created-found :
      (e : RawWebhookEvent) (rows : List RawWebhookEvent)
      → any (is_event e.provider e.provider_message_id) rows ≡ false
      → prisma.raw_webhook_events.find_first (is_event e.provider e.provider_message_id) (e ∷ rows)
        ≡ some e
  created-found e rows h = ground (
    arith,
    is_event_self e,
    none-count (is_event e.provider e.provider_message_id) rows h,
    prisma.raw_webhook_events.find_first_only (is_event e.provider e.provider_message_id)
        (e ∷ rows),
  )

  duplicate-found :
      (t : ChannelType) (id : String) (rows : List RawWebhookEvent)
      → any (is_event t id) rows ≡ true
      → (e : RawWebhookEvent) × (prisma.raw_webhook_events.find_first (is_event t id) rows ≡ some e)
  duplicate-found t id rows h =
      elim (Option-cases (prisma.raw_webhook_events.find_first (is_event t id) rows)) [
        | inl n ↦ absurd (
            ground (
              arith,
              any-count (is_event t id) rows h,
              prisma.raw_webhook_events.find_first_none (is_event t id) rows n,
            ))
        | inr (e, k) ↦ (e, k)
      ]

  -- A duplicate is the row that it is a duplicate of.
  duplicate-queued :
      (mode : Mode) (e x : RawWebhookEvent) (w v : World) (r : Reply)
      → prisma.raw_webhook_events.create
          (is_event e.provider e.provider_message_id)
          e
          w.raw_webhook_events
        ≡ none
      → prisma.raw_webhook_events.find_first
          (is_event e.provider e.provider_message_id)
          w.raw_webhook_events
        ≡ some x
      → store_or_reenqueue prisma rt digests env mode e w ≡ (ok r, v)
      → (v.raw_webhook_events ≡ w.raw_webhook_events)
        × ((if is_pending x.processing_status then is_queued x.id v.webhook_jobs else true) ≡ true)
  unfolding enqueue
  duplicate-queued uninitialized e x w v r c k h = (ground arith, ground arith)
  duplicate-queued (bull_mq queue) e x w v r c k h =
      elim (Option-cases (queue.add x.id w.webhook_jobs)) [
        | inl n ↦ (ground arith, ground arith)
        | inr (jobs, n) ↦
            let l = queue.add_lem x.id w.webhook_jobs jobs n in (ground arith, ground arith)
      ]
  duplicate-queued inline_fallback e x w v r c k h = (ground arith, ground arith)

  -- A new row is stored with its job.
  created-queued :
      (mode : Mode) (e : RawWebhookEvent) (w v : World) (r : Reply)
      → prisma.raw_webhook_events.create
          (is_event e.provider e.provider_message_id)
          e
          w.raw_webhook_events
        ≡ some (e ∷ w.raw_webhook_events)
      → store_or_reenqueue prisma rt digests env mode e w ≡ (ok r, v)
      → (v.raw_webhook_events ≡ e ∷ w.raw_webhook_events) × (is_queued e.id v.webhook_jobs ≡ true)
  unfolding enqueue
  created-queued uninitialized e w v r c h = (ground arith, ground arith)
  created-queued (bull_mq queue) e w v r c h = elim (Option-cases (queue.add e.id w.webhook_jobs)) [
    | inl n ↦ (ground arith, ground arith)
    | inr (jobs, n) ↦
        let l = queue.add_lem e.id w.webhook_jobs jobs n in (ground arith, ground arith)
  ]
  created-queued inline_fallback e w v r c h = (ground arith, ground arith)

  stored-IsQueued :
      (mode : Mode) (e : RawWebhookEvent) (w v : World) (r : Reply)
      → store_or_reenqueue prisma rt digests env mode e w ≡ (ok r, v)
      → IsQueued e.provider e.provider_message_id v
  stored-IsQueued mode e w v r h =
      let p = is_event e.provider e.provider_message_id in
      let c = prisma.raw_webhook_events.create_lem p e w.raw_webhook_events in
      elim (Bool-cases (any p w.raw_webhook_events)) [
        | inl d ↦
            let (x, k) = duplicate-found e.provider e.provider_message_id w.raw_webhook_events d in
            let (same, q) = duplicate-queued mode e x w v r (ground arith) k h in
            (x, ap (prisma.raw_webhook_events.find_first p) same ∙ k, q)
        | inr d ↦
            let (rows, q) = created-queued mode e w v r (ground arith) h in
            (
              e,
              ap (prisma.raw_webhook_events.find_first p) rows
                  ∙ created-found e w.raw_webhook_events d,
              ground arith,
            )
      ]

  -- A request that was accepted is stored under its provider's id, and if the stored event is
  -- pending, the queue has a job to process it.
  pub handle_webhook-IsQueued :
      (mode : Mode) (id : ℕ) (t : ChannelType) (payload : Json) (opts : HandleWebhookOptions)
      (w v : World) (r : Reply)
      → handle_webhook prisma rt digests env mode id t payload opts w ≡ (ok r, v)
      → IsQueued t (stored_id prisma rt digests env t payload) v
  unfolding handle_webhook
  handle_webhook-IsQueued mode id t payload opts w v r h =
      let (_, w1, _, h1) =
        continue-ok _ (assert_valid_signature prisma rt digests env t opts w) r v h in
      let (account, w2, _, h2) =
        continue-ok _ (account_found prisma rt digests env t (account_id t payload) w1) r v h1 in
      let (org, w3, _, h3) =
        continue-ok _ (resolve_organization_id prisma rt digests env t account opts.x_org_id w2) r v
          h2 in
      stored-IsQueued mode (new_event prisma rt digests env t id payload account org) w3 v r h3

  -- An event that is stored already.
  module _ (t : ChannelType) (id : String) (rows : List RawWebhookEvent)
      (stored : any (is_event t id) rows ≡ true) where
    abbrev Same : Store → Type 0
    Same s = s.raw_webhook_events ≡ rows

    the-any :
        (e : RawWebhookEvent) (s : Store)
        → e.provider ≡ t
        → e.provider_message_id ≡ id
        → Same s
        → any (is_event e.provider e.provider_message_id) s.raw_webhook_events ≡ true
    the-any e s p q h = rw (p, q, h) stored

    add_event-Same :
        (e : RawWebhookEvent) (s s' : Store)
        → e.provider ≡ t
        → e.provider_message_id ≡ id
        → Same s
        → add_event prisma rt digests env e s ≡ some s'
        → Same s'
    add_event-Same e s s' p q h k =
        let d = the-any e s p q h in
        absurd (
          ground (
            arith,
            prisma.raw_webhook_events.create_lem (is_event e.provider e.provider_message_id) e
                s.raw_webhook_events,
          ))

    enqueue-Keeps : (mode : Mode) (job : ℕ) → Keeps Same (enqueue mode job)
    unfolding enqueue
    enqueue-Keeps uninitialized job = record { at = λ w h. h }
    enqueue-Keeps (bull_mq queue) job = record {
      at = λ w h. elim (Option-cases (queue.add job w.webhook_jobs)) [
        | inl e ↦ rw e h
        | inr (jobs, e) ↦ rw e h
      ];
    }
    enqueue-Keeps inline_fallback job = record { at = λ w h. h }

    reenqueue-Keeps :
        (mode : Mode) (o : Option RawWebhookEvent)
        → Keeps Same (reenqueue prisma rt digests env mode o)
    reenqueue-Keeps mode none = search keeps_rules
    reenqueue-Keeps mode (some e) = search (keeps_rules, enqueue-Keeps)

    on_store_error-Keeps :
        (mode : Mode) (u : ChannelType) (i : String) (f : Failure)
        → Keeps Same (on_store_error prisma rt digests env mode u i f)
    on_store_error-Keeps mode u i (http s m c) = search keeps_rules
    on_store_error-Keeps mode u i (unique_violation target) =
        search (keeps_rules, reenqueue-Keeps) depth 8
    on_store_error-Keeps mode u i (error m) = search keeps_rules
    on_store_error-Keeps mode u i (non_retryable m) = search keeps_rules
    on_store_error-Keeps mode u i (delivery_error m) = search keeps_rules

    check_digest-Keeps : (a b : Bytes) → Keeps Same (check_digest prisma rt digests env a b)
    check_digest-Keeps a b = search keeps_rules

    check_header-Keeps :
        (secret : String) (body : Bytes) (o : Option String)
        → Keeps Same (check_header prisma rt digests env secret body o)
    check_header-Keeps secret body none = search keeps_rules
    check_header-Keeps secret body (some digest) =
        check_digest-Keeps (digests.from_hex digest) (digests.from_hex (digests.hmac secret body))

    check_secret-Keeps :
        (header : String) (body : Bytes) (o : Option String)
        → Keeps Same (check_secret prisma rt digests env t header body o)
    check_secret-Keeps header body none = search keeps_rules
    check_secret-Keeps header body (some secret) =
        check_header-Keeps secret body (parse_signature_header rt header)

    check_body-Keeps :
        (header : String) (o : Option Bytes)
        → Keeps Same (check_body prisma rt digests env t header o)
    check_body-Keeps header none = search keeps_rules
    check_body-Keeps header (some body) = check_secret-Keeps header body (app_secret t env)

    check_signature-Keeps :
        (h : Option String) (b : Option Bytes)
        → Keeps Same (check_signature prisma rt digests env t h b)
    check_signature-Keeps none b = search keeps_rules
    check_signature-Keeps (some header) b = search (keeps_rules, check_body-Keeps)

    assert_valid_signature-Keeps :
        (opts : HandleWebhookOptions)
        → Keeps Same (assert_valid_signature prisma rt digests env t opts)
    unfolding assert_valid_signature
    assert_valid_signature-Keeps opts = search (keeps_rules, check_signature-Keeps)

    account_found-Keeps : (o : Option String) → Keeps Same (account_found prisma rt digests env t o)
    account_found-Keeps none = search keeps_rules
    account_found-Keeps (some account) = search keeps_rules

    organization_found-Keeps :
        (o : Option Organization) → Keeps Same (organization_found prisma rt digests env o)
    organization_found-Keeps none = search keeps_rules
    organization_found-Keeps (some o) = search keeps_rules

    named_organization-Keeps :
        (b : Bool) (o : Option ℕ) → Keeps Same (named_organization prisma rt digests env t b o)
    named_organization-Keeps true none = search keeps_rules
    named_organization-Keeps true (some o) = search (keeps_rules, organization_found-Keeps)
    named_organization-Keeps false o = search keeps_rules

    account_organization-Keeps :
        (header : Option ℕ) (o : Option ChannelAccount)
        → Keeps Same (account_organization prisma rt digests env t header o)
    account_organization-Keeps header none =
        named_organization-Keeps (is_dev_endpoints_enabled env) header
    account_organization-Keeps header (some a) = search keeps_rules

    resolve_organization_id-Keeps :
        (account : String) (header : Option ℕ)
        → Keeps Same (resolve_organization_id prisma rt digests env t account header)
    unfolding resolve_organization_id
    resolve_organization_id-Keeps account header = search (keeps_rules, account_organization-Keeps)

    store_or_reenqueue-Keeps :
        (mode : Mode) (e : RawWebhookEvent)
        → e.provider ≡ t
        → e.provider_message_id ≡ id
        → Keeps Same (store_or_reenqueue prisma rt digests env mode e)
    store_or_reenqueue-Keeps mode e p q =
        search
          (
            keeps_rules,
            enqueue-Keeps,
            on_store_error-Keeps,
            λ (s s' : Store). add_event-Same e s s' p q,
          )
          depth 10

  handle_webhook-Keeps :
      (t : ChannelType) (payload : Json) (rows : List RawWebhookEvent)
      (stored : any (is_event t (stored_id prisma rt digests env t payload)) rows ≡ true)
      (mode : Mode) (id : ℕ) (opts : HandleWebhookOptions)
      → Keeps
          (Same t (stored_id prisma rt digests env t payload) rows stored)
          (handle_webhook prisma rt digests env mode id t payload opts)
  unfolding handle_webhook
  handle_webhook-Keeps t payload rows stored mode id opts =
      Keeps-bind _ _ (assert_valid_signature-Keeps t _ rows stored opts) λ _.
        Keeps-bind _ _ (account_found-Keeps t _ rows stored (account_id t payload)) λ account.
          Keeps-bind _ _ (resolve_organization_id-Keeps t _ rows stored account opts.x_org_id)
            λ org.
              store_or_reenqueue-Keeps t _ rows stored mode
                (new_event prisma rt digests env t id payload account org) refl refl

  found-any :
      (t : ChannelType) (id : String) (rows : List RawWebhookEvent) (e : RawWebhookEvent)
      → prisma.raw_webhook_events.find_first (is_event t id) rows ≡ some e
      → any (is_event t id) rows ≡ true
  found-any t id rows e h = elim (Bool-cases (any (is_event t id) rows)) [
    | inl d ↦ d
    | inr d ↦ absurd (
        ground (
          arith,
          prisma.raw_webhook_events.find_first_only (is_event t id) rows,
          none-count (is_event t id) rows d,
          none-kept (is_event t id) rows d,
        ))
  ]

  -- A payload that was accepted is stored once: another request with it, signed or not, for the
  -- same channel type, leaves the raw webhook events as they were.
  pub handle_webhook_once :
      (mode mode' : Mode) (id id' : ℕ) (t : ChannelType) (payload : Json)
      (opts opts' : HandleWebhookOptions) (w v : World) (r : Reply)
      → handle_webhook prisma rt digests env mode id t payload opts w ≡ (ok r, v)
      → (handle_webhook prisma rt digests env mode' id' t payload opts' v).1.raw_webhook_events
        ≡ v.raw_webhook_events
  handle_webhook_once mode mode' id id' t payload opts opts' w v r h =
      let (e, found, _) = handle_webhook-IsQueued mode id t payload opts w v r h in
      (handle_webhook-Keeps t payload v.raw_webhook_events
          (found-any t (stored_id prisma rt digests env t payload) v.raw_webhook_events e found)
          mode' id' opts').at
        v refl
