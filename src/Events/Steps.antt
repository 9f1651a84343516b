-- ===== src/Events/Steps.antt =====
-- The steps of the events service for one organization (apps/api/src/events/events.service.ts): a
-- client comes or goes, an event is emitted or received, a call of the transport is settled, a timer
-- fires, or the process ends.
use unified_inbox.Prelude.{
  ℕ, suc, ◌≡◌, ◌≤◌, ◌<◌, true, false, Option, none, some, count, ◌==◌, or_else, is_some,
}
use unified_inbox.Schema.Events.{SseEvent}
use unified_inbox.Events.{
  OrgState, TransportState, TransportStatus, idle, subscribing, subscribed, no_clients, subscribe,
  finalize, emit, publish_locally, on_subscribed, on_failed, on_retry, on_module_destroy,
}

-- A client goes that came, a call is settled that was made, and a timer fires that was set.
pub data Step : OrgState → OrgState → Type 0 where
  client_comes : (s : OrgState) → Step s (subscribe s)
  client_goes : (s : OrgState) (n : ℕ) → s.ref_count ≡ some (suc n) → Step s (finalize s)
  event_emitted : (s : OrgState) (e : SseEvent) → Step s (emit e s)
  event_received : (s : OrgState) (e : SseEvent) → Step s (publish_locally e s)
  call_succeeds :
      (s : OrgState) (g : ℕ) → 1 ≤ count (λ h. g == h) s.in_flight → Step s (on_subscribed g s)
  call_fails : (s : OrgState) (g : ℕ) → 1 ≤ count (λ h. g == h) s.in_flight → Step s (on_failed g s)
  timer_fires :
      (s : OrgState) (t : TransportState)
      → s.transport ≡ some t
      → is_some t.retry ≡ true
      → Step s (on_retry s)
  process_ends : (s : OrgState) → Step s (on_module_destroy s)

pub data Reaches : OrgState → Type 0 where
  start : Reaches no_clients
  then_step : {s s' : OrgState} → Reaches s → Step s s' → Reaches s'

-- Calls that the transport has not settled, of a generation.
abbrev pub calls : ℕ → OrgState → ℕ
calls g s = count (λ h. g == h) s.in_flight

-- How the connection of an organization with clients stands: one call is under way, it is subscribed,
-- or a timer is set for another call.
abbrev pub IsTrying : TransportStatus → Option ℕ → ℕ → Type 0
IsTrying idle retry n = (is_some retry ≡ true) × (n ≡ 0)
IsTrying subscribing retry n = (is_some retry ≡ false) × (n ≡ 1)
IsTrying subscribed retry n = (is_some retry ≡ false) × (n ≡ 0)

-- The entries of the maps agree.
abbrev pub Agree : Option TransportState → OrgState → Type 0
Agree none s = (s.has_subject ≡ false) × (s.ref_count ≡ none)
Agree (some t) s =
    (s.has_subject ≡ true)
    × ((n : ℕ) × (s.ref_count ≡ some (suc n)))
    × (s.generation ≡ some t.generation)
    × IsTrying t.status t.retry (calls t.generation s)

-- No call is of a generation that is to come.
abbrev pub IsRecent : OrgState → Type 0
IsRecent s = (g : ℕ) → or_else s.generation 0 < g → calls g s ≡ 0

abbrev pub WellFormed : OrgState → Type 0
WellFormed s = Agree s.transport s × IsRecent s
