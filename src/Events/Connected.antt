-- ===== src/Events/Connected.antt =====
-- That an organization with clients stays connected or keeps trying
-- (apps/api/src/events/events.service.ts).
use unified_inbox.Prelude.{
  ℕ, zero, suc, ◌+◌, ◌-◌, ◌≡◌, ◌≤◌, refl, sym, subst, Bool, true, false, Option, none, some, List,
  [], ◌∷◌, arith, count, ◌==◌, Bool-cases, inl, inr, or_else, ltb, is_some,
}
use unified_inbox.Schema.Events.{SseEvent}
use unified_inbox.Events.{
  OrgState, TransportState, TransportStatus, idle, subscribing, subscribed, subscribe, finalize,
  emit, publish_locally, on_subscribed, on_failed, on_retry, on_module_destroy, remove_one,
  finalize_times, unsubscribe_transport, without_subject,
}
use unified_inbox.Events.Steps.{
  Step, client_comes, client_goes, event_emitted, event_received, call_succeeds, call_fails,
  timer_fires, process_ends, Reaches, start, then_step, calls, IsTrying, Agree, IsRecent,
  WellFormed,
}

removed-same :
    (g : ℕ) (hs : List ℕ)
    → 1 ≤ count (λ h. g == h) hs
    → count (λ h. g == h) (remove_one g hs) + 1 ≡ count (λ h. g == h) hs
removed-same g [] k = absurd omega arith
removed-same g (h ∷ hs) k = ground (arith, removed-same g hs)

removed-other :
    (g g' : ℕ) (hs : List ℕ)
    → (g == g') ≡ false
    → count (λ h. g' == h) (remove_one g hs) ≡ count (λ h. g' == h) hs
removed-other g g' [] k = refl
removed-other g g' (h ∷ hs) k = ground (arith, removed-other g g' hs)

removed-le :
    (g g' : ℕ) (hs : List ℕ) → count (λ h. g' == h) (remove_one g hs) ≤ count (λ h. g' == h) hs
removed-le g g' [] = omega arith
removed-le g g' (h ∷ hs) = ground (arith, removed-le g g' hs)

-- A state by its fields, of which the last three do not bear on the connection.
abbrev state :
    Bool
    → Option ℕ
    → Option ℕ
    → Option TransportState
    → List ℕ
    → ℕ × List SseEvent × List SseEvent
    → OrgState
state b n g t fs x = record {
  has_subject = b;
  ref_count = n;
  generation = g;
  transport = t;
  in_flight = fs;
  unsubscribes = x.0;
  delivered = x.1;
  published = x.2;
}

-- What a state is a state by fields of.
by_fields :
    (P : OrgState → Type 0)
    → ((b : Bool) (n g : Option ℕ) (t : Option TransportState) (fs : List ℕ)
          (x : ℕ × List SseEvent × List SseEvent)
        → P (state b n g t fs x))
    → (s : OrgState) → P s
by_fields P k s =
    k s.has_subject s.ref_count s.generation s.transport s.in_flight
      (s.unsubscribes, s.delivered, s.published)

subscribe-fields :
    (b : Bool) (n g : Option ℕ) (t : Option TransportState) (fs : List ℕ)
    (x : ℕ × List SseEvent × List SseEvent)
    → WellFormed (state b n g t fs x)
    → WellFormed (subscribe (state b n g t fs x))
unfolding subscribe
subscribe-fields false n g none fs x ((a, b), r) = (
  (refl, (0, refl), refl, (refl, ground (arith, r (or_else g 0 + 1)))),
  (λ h k. ground (arith, r h)),
)
subscribe-fields true n g none fs x ((a, b), r) = absurd cc
subscribe-fields false n g (some t) fs x ((a, b, c, d), r) = absurd cc
subscribe-fields true n g (some t) fs x ((a, (m, b), c, d), r) =
    ((refl, (suc m, ground arith), c, d), r)

-- The last client leaves.
finalize-last :
    (g : Option ℕ) (t : TransportState) (fs : List ℕ) (x : ℕ × List SseEvent × List SseEvent)
    → finalize (state true (some 1) g (some t) fs x)
      ≡ state false none g none fs (x.0 + 1, x.1, x.2)
unfolding finalize
finalize-last g t fs x = refl

-- A client leaves others.
finalize-others :
    (m : ℕ) (g : Option ℕ) (t : TransportState) (fs : List ℕ)
    (x : ℕ × List SseEvent × List SseEvent)
    → finalize (state true (some (suc (suc m))) g (some t) fs x)
      ≡ state true (some (suc m)) g (some t) fs x
unfolding finalize
finalize-others m g t fs x = rw (less (suc m)) refl
  where
    less : (k : ℕ) → suc k - 1 ≡ k
    less k = omega arith

finalize-WellFormed :
    (m : ℕ) (g : Option ℕ) (t : TransportState) (fs : List ℕ)
    (x : ℕ × List SseEvent × List SseEvent)
    → WellFormed (state true (some (suc m)) g (some t) fs x)
    → WellFormed (finalize (state true (some (suc m)) g (some t) fs x))
finalize-WellFormed zero g t fs x (h, r) =
    subst WellFormed (sym (finalize-last g t fs x)) ((refl, refl), r)
finalize-WellFormed (suc m) g t fs x ((p, n, q, d), r) =
    subst WellFormed (sym (finalize-others m g t fs x)) ((p, (m, refl), q, d), r)

finalize-fields :
    (k : ℕ) (b : Bool) (n g : Option ℕ) (t : Option TransportState) (fs : List ℕ)
    (x : ℕ × List SseEvent × List SseEvent)
    → n ≡ some (suc k)
    → WellFormed (state b n g t fs x)
    → WellFormed (finalize (state b n g t fs x))
finalize-fields k b n g none fs x e ((p, q), r) = absurd cc
finalize-fields k false n g (some t) fs x e ((p, m, q, d), r) = absurd cc
finalize-fields k true n g (some t) fs x e h =
    subst (λ n. WellFormed (finalize (state true n g (some t) fs x))) (sym e)
      (finalize-WellFormed k g t fs x (subst (λ n. WellFormed (state true n g (some t) fs x)) e h))

publish-fields :
    (e : SseEvent) (b : Bool) (n g : Option ℕ) (t : Option TransportState) (fs : List ℕ)
    (x : ℕ × List SseEvent × List SseEvent)
    → WellFormed (state b n g t fs x)
    → WellFormed (publish_locally e (state b n g t fs x))
unfolding publish_locally
publish-fields e false n g t fs x h = h
publish-fields e true n g none fs x h = h
publish-fields e true n g (some t) fs x h = h

emit-fields :
    (e : SseEvent) (b : Bool) (n g : Option ℕ) (t : Option TransportState) (fs : List ℕ)
    (x : ℕ × List SseEvent × List SseEvent)
    → WellFormed (state b n g t fs x)
    → WellFormed (emit e (state b n g t fs x))
unfolding emit publish_locally
emit-fields e false n g none fs x h = h
emit-fields e false n g (some t) fs x h = h
emit-fields e true n g none fs x h = h
emit-fields e true n g (some t) fs x h = h

-- A connection with a call under way is subscribing.
called :
    (st : TransportStatus) (retry : Option ℕ) (n : ℕ)
    → 1 ≤ n
    → IsTrying st retry n
    → (is_some retry ≡ false) × (n ≡ 1)
called idle retry n k h = absurd omega arith
called subscribing retry n k h = h
called subscribed retry n k h = absurd omega arith

-- No call of the generation is left after its only one.
none_left :
    (c g : ℕ) (fs : List ℕ)
    → c ≡ g
    → 1 ≤ count (λ h. c == h) fs
    → count (λ h. g == h) fs ≡ 1
    → count (λ h. g == h) (remove_one c fs) ≡ 0
none_left c g fs e k one =
    let one_c = subst (λ z. count (λ h. z == h) fs ≡ 1) (sym e) one in
    subst (λ z. count (λ h. z == h) (remove_one c fs) ≡ 0) e (omega (arith, removed-same c fs k))

subscribed-fields :
    (c : ℕ) (b : Bool) (n g : Option ℕ) (t : Option TransportState) (fs : List ℕ)
    (x : ℕ × List SseEvent × List SseEvent)
    → 1 ≤ count (λ h. c == h) fs
    → WellFormed (state b n g t fs x)
    → WellFormed (on_subscribed c (state b n g t fs x))
unfolding on_subscribed
subscribed-fields c b n g none fs x k ((p, q), r) =
    ((p, q), (λ h l. ground (arith, r h l, removed-le c h fs)))
subscribed-fields c b n g (some t) fs x k ((p, m, q, d), r) =
    elim (Bool-cases (t.generation == c)) [
      | inl e ↦
          let same : c ≡ t.generation = ground arith in
          let (quiet, one) =
            called t.status t.retry _ (subst (λ z. 1 ≤ count (λ h. z == h) fs) same k) d in
          rw e (
            (p, m, q, (quiet, none_left c t.generation fs same k one)),
            (λ h l. ground (arith, r h l, removed-le c h fs)),
          )
      | inr e ↦ rw e (
        (
          p,
          m,
          q,
          subst (IsTrying t.status t.retry) (sym (removed-other c t.generation fs (ground arith)))
              d,
        ),
        (λ h l. ground (arith, r h l, removed-le c h fs)),
      )
    ]

failed-current :
    (c m : ℕ) (g : Option ℕ) (t : TransportState) (fs : List ℕ)
    (x : ℕ × List SseEvent × List SseEvent)
    → 1 ≤ count (λ h. c == h) fs
    → (t.generation == c) ≡ true
    → WellFormed (state true (some (suc m)) g (some t) fs x)
    → WellFormed (on_failed c (state true (some (suc m)) g (some t) fs x))
unfolding on_failed
failed-current c m g t fs x k e ((p, n, q, d), r) =
    let same : c ≡ t.generation = ground arith in
    let (quiet, one) =
      called t.status t.retry _ (subst (λ z. 1 ≤ count (λ h. z == h) fs) same k) d in
    rw (e, active)
      (
        (refl, (m, refl), q, (refl, none_left c t.generation fs same k one)),
        (λ h l. ground (arith, r h l, removed-le c h fs)),
      )
  where
    active : ltb 0 (suc m) ≡ true
    active = ground arith

failed-fields :
    (c : ℕ) (b : Bool) (n g : Option ℕ) (t : Option TransportState) (fs : List ℕ)
    (x : ℕ × List SseEvent × List SseEvent)
    → 1 ≤ count (λ h. c == h) fs
    → WellFormed (state b n g t fs x)
    → WellFormed (on_failed c (state b n g t fs x))
unfolding on_failed
failed-fields c b n g none fs x k ((p, q), r) =
    ((p, q), (λ h l. ground (arith, r h l, removed-le c h fs)))
failed-fields c false n g (some t) fs x k ((p, m, q, d), r) = absurd cc
failed-fields c true n g (some t) fs x k ((p, (m, n'), q, d), r) =
    elim (Bool-cases (t.generation == c)) [
      | inl e ↦
          subst (λ n. WellFormed (on_failed c (state true n g (some t) fs x))) (sym n')
            (failed-current c m g t fs x k e ((p, (m, refl), q, d), r))
      | inr e ↦ rw e (
        (
          p,
          (m, n'),
          q,
          subst (IsTrying t.status t.retry) (sym (removed-other c t.generation fs (ground arith)))
              d,
        ),
        (λ h l. ground (arith, r h l, removed-le c h fs)),
      )
    ]

retry-at :
    (a c : ℕ) (st : TransportStatus) (b : Bool) (v n g : Option ℕ) (fs : List ℕ)
    (x : ℕ × List SseEvent × List SseEvent)
    → is_some v ≡ true
    → WellFormed
        (state b n g (some (record { attempt = a; status = st; retry = v; generation = c })) fs x)
    → WellFormed (
        on_retry (
          state b n g (some (record { attempt = a; status = st; retry = v; generation = c })) fs x))
unfolding on_retry
retry-at a c idle b v n g fs x e ((p, m, q, (y, z)), r) =
    ((p, m, q, (refl, ground arith)), (λ h l. ground (arith, r h l)))
retry-at a c subscribing b v n g fs x e ((p, m, q, (y, z)), r) = absurd cc
retry-at a c subscribed b v n g fs x e ((p, m, q, (y, z)), r) = absurd cc

-- What the clients of a state leave when they are all gone.
abbrev IsEnded : Option ℕ → List ℕ → OrgState → Type 0
IsEnded g fs s = (s.transport ≡ none) × (s.generation ≡ g) × (s.in_flight ≡ fs)

finalize_times-IsEnded :
    (m : ℕ) (g : Option ℕ) (t : TransportState) (fs : List ℕ)
    (x : ℕ × List SseEvent × List SseEvent)
    → IsEnded g fs (finalize_times (suc m) (state true (some (suc m)) g (some t) fs x))
finalize_times-IsEnded zero g t fs x =
    subst (IsEnded g fs) (sym (finalize-last g t fs x)) (refl, refl, refl)
finalize_times-IsEnded (suc m) g t fs x =
    subst (λ s. IsEnded g fs (finalize_times (suc m) s)) (sym (finalize-others m g t fs x))
      (finalize_times-IsEnded m g t fs x)

ended-WellFormed :
    (g : Option ℕ) (fs : List ℕ) (s : OrgState)
    → IsEnded g fs s
    → IsRecent (state false none g none fs (0, [], []))
    → WellFormed (unsubscribe_transport (without_subject s))
ended-WellFormed g fs s (t, e, f) r = (
  subst (λ o. Agree o (unsubscribe_transport (without_subject s))) (sym t) (refl, refl),
  (λ h l. ground (arith, r h)),
)

destroy-some :
    (m : ℕ) (g : Option ℕ) (t : TransportState) (fs : List ℕ)
    (x : ℕ × List SseEvent × List SseEvent)
    → IsRecent (state true (some (suc m)) g (some t) fs x)
    → WellFormed (on_module_destroy (state true (some (suc m)) g (some t) fs x))
unfolding on_module_destroy
destroy-some m g t fs x r =
    ended-WellFormed g fs
      (finalize_times (suc m) (state true (some (suc m)) g (some (record t { retry = none })) fs x))
      (finalize_times-IsEnded m g (record t { retry = none }) fs x) r

destroy-fields :
    (b : Bool) (n g : Option ℕ) (t : Option TransportState) (fs : List ℕ)
    (x : ℕ × List SseEvent × List SseEvent)
    → WellFormed (state b n g t fs x)
    → WellFormed (on_module_destroy (state b n g t fs x))
unfolding on_module_destroy
destroy-fields false n g none fs x h = h
destroy-fields true n g none fs x ((p, q), r) = absurd cc
destroy-fields false n g (some t) fs x ((p, m, q, d), r) = absurd cc
destroy-fields true n g (some t) fs x ((p, (m, e), q, d), r) =
    subst (λ n. WellFormed (on_module_destroy (state true n g (some t) fs x))) (sym e)
      (destroy-some m g t fs x r)

retry-fields :
    (b : Bool) (n g : Option ℕ) (o : Option TransportState) (t : TransportState) (fs : List ℕ)
    (x : ℕ × List SseEvent × List SseEvent)
    → o ≡ some t
    → is_some t.retry ≡ true
    → WellFormed (state b n g o fs x)
    → WellFormed (on_retry (state b n g o fs x))
retry-fields b n g o t fs x e k h =
    subst (λ o. WellFormed (on_retry (state b n g o fs x))) (sym e)
      (retry-at t.attempt t.generation t.status b t.retry n g fs x k
        (subst (λ o. WellFormed (state b n g o fs x)) e h))

Step-WellFormed : {s s' : OrgState} → Step s s' → WellFormed s → WellFormed s'
Step-WellFormed (client_comes s) h =
    subscribe-fields s.has_subject s.ref_count s.generation s.transport s.in_flight
      (s.unsubscribes, s.delivered, s.published) h
Step-WellFormed (client_goes s n e) h =
    finalize-fields n s.has_subject s.ref_count s.generation s.transport s.in_flight
      (s.unsubscribes, s.delivered, s.published) e h
Step-WellFormed (event_emitted s e) h =
    emit-fields e s.has_subject s.ref_count s.generation s.transport s.in_flight
      (s.unsubscribes, s.delivered, s.published) h
Step-WellFormed (event_received s e) h =
    publish-fields e s.has_subject s.ref_count s.generation s.transport s.in_flight
      (s.unsubscribes, s.delivered, s.published) h
Step-WellFormed (call_succeeds s g k) h =
    subscribed-fields g s.has_subject s.ref_count s.generation s.transport s.in_flight
      (s.unsubscribes, s.delivered, s.published) k h
Step-WellFormed (call_fails s g k) h =
    failed-fields g s.has_subject s.ref_count s.generation s.transport s.in_flight
      (s.unsubscribes, s.delivered, s.published) k h
Step-WellFormed (timer_fires s t e k) h =
    retry-fields s.has_subject s.ref_count s.generation s.transport t s.in_flight
      (s.unsubscribes, s.delivered, s.published) e k h
Step-WellFormed (process_ends s) h =
    destroy-fields s.has_subject s.ref_count s.generation s.transport s.in_flight
      (s.unsubscribes, s.delivered, s.published) h

-- In every state that the service reaches, the entries of its maps agree: an organization has a
-- subject, a count of at least one client and a connection, or none of them; and no call is of a
-- generation that is to come.
pub reached-WellFormed : {s : OrgState} → Reaches s → WellFormed s
reached-WellFormed start = ((refl, refl), (λ g h. refl))
reached-WellFormed (then_step r k) = Step-WellFormed k (reached-WellFormed r)

-- An organization with clients never stays unconnected: in every state that the service reaches in
-- which clients listen, its connection is subscribed, or one call to subscribe is under way, or a timer
-- is set for the next call. So a call that fails is always followed by another.
pub connected :
    (s : OrgState)
    → Reaches s
    → s.has_subject ≡ true
    → (t : TransportState) × (s.transport ≡ some t)
      × IsTrying t.status t.retry (calls t.generation s)
connected s r h = found s.transport refl (reached-WellFormed r).0
  where
    found :
        (o : Option TransportState)
        → s.transport ≡ o
        → Agree o s
        → (t : TransportState) × (s.transport ≡ some t)
          × IsTrying t.status t.retry (calls t.generation s)
    found none e (p, q) = absurd cc
    found (some t) e (p, m, q, d) = (t, e, d)
