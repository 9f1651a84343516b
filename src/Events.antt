-- ===== src/Events.antt =====
-- apps/api/src/events/events.service.ts: the clients that listen to an organization's events, and the
-- subscription of this process to the events that other processes publish.
pub mod Steps
pub mod Connected
pub mod Transport
pub mod Delays
use unified_inbox.Prelude.{
  ℕ, zero, suc, ◌+◌, ◌-◌, ◌*◌, Bool, true, false, Option, none, some, List, [], ◌∷◌, if◌then◌else◌,
  ◌==◌, leb, ltb, or_else, not, ◌&&◌,
}
use unified_inbox.Schema.Events.{SseEvent}

pub data TransportStatus : Type 0 where
  idle subscribing subscribed : TransportStatus

-- An entry of `transportStates`. The retry is the delay of the timer, if one is set.
pub record TransportState : Type 0 where
  pub attempt : ℕ
  pub status : TransportStatus
  pub retry : Option ℕ
  pub generation : ℕ

-- The entries of the service's maps for one organization: no operation reads or writes the entries of
-- another. The last four fields are what the service did: calls of the transport that are not settled
-- yet, by the generation that they were made in, and its effects, newest first.
pub record OrgState : Type 0 where
  pub has_subject : Bool
  pub ref_count : Option ℕ
  pub generation : Option ℕ
  pub transport : Option TransportState
  pub in_flight : List ℕ
  pub unsubscribes : ℕ
  pub delivered : List SseEvent
  pub published : List SseEvent

abbrev pub no_clients : OrgState
no_clients = record {
  has_subject = false;
  ref_count = none;
  generation = none;
  transport = none;
  in_flight = [];
  unsubscribes = 0;
  delivered = [];
  published = [];
}

abbrev pub transport_retry_base_delay_ms : ℕ
transport_retry_base_delay_ms = 1000

abbrev pub transport_retry_max_delay_ms : ℕ
transport_retry_max_delay_ms = 5000

abbrev pub power_of_2 : ℕ → ℕ
power_of_2 zero = 1
power_of_2 (suc n) = 2 * power_of_2 n

-- The delay before a retry, in milliseconds.
unfoldable pub retry_delay_ms : ℕ → ℕ
retry_delay_ms attempt =
    let delay = transport_retry_base_delay_ms * power_of_2 (attempt - 1) in
    if ltb transport_retry_max_delay_ms delay then transport_retry_max_delay_ms else delay

-- `nextTransportGeneration`
abbrev pub next_transport_generation : OrgState → ℕ
next_transport_generation s = or_else s.generation 0 + 1

-- `getOrCreateTransportState`
abbrev pub created_transport : Option TransportState → OrgState → OrgState
created_transport (some t) s = s
created_transport none s = record s {
  generation = some (next_transport_generation s);
  transport = some (record {
    attempt = 0;
    status = idle;
    retry = none;
    generation = next_transport_generation s;
  });
}

abbrev pub get_or_create_transport_state : OrgState → OrgState
get_or_create_transport_state s = created_transport s.transport s

-- A timer is cleared, and the transport is called.
abbrev pub subscribing_from : TransportState → OrgState → OrgState
subscribing_from t s = record s {
  transport = some (record t { retry = none; status = subscribing; attempt = t.attempt + 1 });
  in_flight = t.generation ∷ s.in_flight;
}

abbrev pub ensure_in : TransportStatus → TransportState → OrgState → OrgState
ensure_in subscribed t s = s
ensure_in subscribing t s = s
ensure_in idle t s = subscribing_from t s

abbrev pub ensure_of : Option TransportState → OrgState → OrgState
ensure_of none s = s
ensure_of (some t) s = ensure_in t.status t s

-- `ensureTransportSubscription`, up to the call of the transport.
abbrev pub ensure_transport_subscription : OrgState → OrgState
ensure_transport_subscription s =
    let s' = get_or_create_transport_state s in ensure_of s'.transport s'

abbrev pub unsubscribe_transport : OrgState → OrgState
unsubscribe_transport s = record s { unsubscribes = s.unsubscribes + 1 }

abbrev pub with_subject : Bool → OrgState → OrgState
with_subject true s = s
with_subject false s =
    ensure_transport_subscription (record s { has_subject = true; ref_count = some 0 })

abbrev pub counted : OrgState → OrgState
counted s = record s { ref_count = some (or_else s.ref_count 0 + 1) }

-- `subscribe`: a client that listens from now on.
unfoldable pub subscribe : OrgState → OrgState
subscribe s = counted (with_subject s.has_subject s)

-- `teardownTransportSubscription`
abbrev pub teardown_transport_subscription : OrgState → OrgState
teardown_transport_subscription s = unsubscribe_transport (record s { transport = none })

abbrev pub without_subject : OrgState → OrgState
without_subject s = record s { has_subject = false; ref_count = none }

abbrev pub left_with : ℕ → OrgState → OrgState
left_with zero s = teardown_transport_subscription (without_subject s)
left_with (suc n) s = record s { ref_count = some (suc n) }

-- `finalize`: a client that listened is gone.
unfoldable pub finalize : OrgState → OrgState
finalize s = left_with (or_else s.ref_count 1 - 1) s

abbrev pub publish_to : Bool → SseEvent → OrgState → OrgState
publish_to false e s = s
publish_to true e s = record s { delivered = e ∷ s.delivered }

-- `publishLocally`, which is also what the transport calls with an event of another process.
unfoldable pub publish_locally : SseEvent → OrgState → OrgState
publish_locally e s = publish_to s.has_subject e s

-- `emit`
unfoldable pub emit : SseEvent → OrgState → OrgState
unfolding publish_locally
emit e s = let s' = publish_locally e s in record s' { published = e ∷ s'.published }

-- One call of the given generation is settled.
abbrev pub remove_one : ℕ → List ℕ → List ℕ
remove_one g [] = []
remove_one g (h ∷ hs) = if g == h then hs else h ∷ remove_one g hs

abbrev pub settled : ℕ → OrgState → OrgState
settled g s = record s { in_flight = remove_one g s.in_flight }

abbrev pub subscribed_in : ℕ → Option TransportState → OrgState → OrgState
subscribed_in g none s = unsubscribe_transport s
subscribed_in g (some t) s =
    if t.generation == g
    then record s { transport = some (record t { status = subscribed; attempt = 0 }) }
    else s

-- The `then` of a call of the transport.
unfoldable pub on_subscribed : ℕ → OrgState → OrgState
on_subscribed g s = let s' = settled g s in subscribed_in g s'.transport s'

-- `hasActiveSubscribers`
abbrev pub has_active_subscribers : OrgState → Bool
has_active_subscribers s = ltb 0 (or_else s.ref_count 0)

-- `scheduleTransportSubscriptionRetry`: the timer, if clients listen.
abbrev pub schedule_retry : TransportState → OrgState → OrgState
schedule_retry t s =
    if s.has_subject && has_active_subscribers s
    then record s { transport = some (record t { retry = some (retry_delay_ms t.attempt) }) }
    else s

abbrev pub failed_in : ℕ → Option TransportState → OrgState → OrgState
failed_in g none s = s
failed_in g (some t) s =
    if t.generation == g
    then schedule_retry (record t { status = idle })
        (record s { transport = some (record t { status = idle }) })
    else s

-- The `catch` of a call of the transport.
unfoldable pub on_failed : ℕ → OrgState → OrgState
on_failed g s = let s' = settled g s in failed_in g s'.transport s'

abbrev pub retry_of : Option TransportState → OrgState → OrgState
retry_of none s = s
retry_of (some t) s =
    ensure_transport_subscription (record s { transport = some (record t { retry = none }) })

-- The timer.
unfoldable pub on_retry : OrgState → OrgState
on_retry s = retry_of s.transport s

-- Completing a subject runs the `finalize` of each of its clients.
abbrev pub finalize_times : ℕ → OrgState → OrgState
finalize_times zero s = s
finalize_times (suc n) s = finalize_times n (finalize s)

abbrev pub without_timer : Option TransportState → OrgState → OrgState
without_timer none s = s
without_timer (some t) s = record s { transport = some (record t { retry = none }) }

abbrev pub destroyed : Bool → OrgState → OrgState
destroyed false s = s
destroyed true s =
    unsubscribe_transport (without_subject (finalize_times (or_else s.ref_count 0) s))

-- `onModuleDestroy`
unfoldable pub on_module_destroy : OrgState → OrgState
on_module_destroy s = destroyed s.has_subject (without_timer s.transport s)
