-- ===== src/Tests/Events.antt =====
-- Clients of an organization's events, and two processes
-- (apps/api/src/events/events.service.spec.ts, redis-pubsub-events.transport.spec.ts).
use unified_inbox.Prelude.{suc, ◌≡◌, ◌≤◌, refl, true, none, some, arith, if◌then◌else◌, str_eq}
use unified_inbox.Json.{Json, str, obj, field, end, prop}
use unified_inbox.Runtime.{Runtime}
use unified_inbox.Events.{
  OrgState, TransportState, idle, subscribed, no_clients, subscribe, on_failed, on_retry,
  on_subscribed, retry_delay_ms, transport_retry_base_delay_ms, transport_retry_max_delay_ms,
}
use unified_inbox.Events.Steps.{
  Reaches, start, then_step, client_comes, call_fails, IsTrying, calls,
}
use unified_inbox.Events.Connected.{connected}
use unified_inbox.Events.Delays.{retry_delay_ms-bounds}
use unified_inbox.Events.Transport.{Wire, publish, handle_message, envelope_json, is_sse_event}
use unified_inbox.Events.Transport.Fanout.{published-handled}
use unified_inbox.Tests.Payloads.{plain_runtime}

-- A client came and the first call failed.
abbrev waiting : OrgState
waiting = record no_clients {
  has_subject = true;
  ref_count = some 1;
  generation = some 1;
  transport = some (record { attempt = 1; status = idle; retry = some 1000; generation = 1 });
}

waiting_lem : on_failed 1 (subscribe no_clients) ≡ waiting
unfolding on_failed subscribe retry_delay_ms
waiting_lem = refl

waiting-Reaches : Reaches (on_failed 1 (subscribe no_clients))
unfolding subscribe
waiting-Reaches =
    then_step (then_step start (client_comes no_clients))
      (call_fails (subscribe no_clients) 1 (ground arith))

has_clients : (on_failed 1 (subscribe no_clients)).has_subject ≡ true
unfolding on_failed subscribe
has_clients = refl

connected_example :
    (t : TransportState) × ((on_failed 1 (subscribe no_clients)).transport ≡ some t)
    × IsTrying t.status t.retry (calls t.generation (on_failed 1 (subscribe no_clients)))
connected_example = connected (on_failed 1 (subscribe no_clients)) waiting-Reaches has_clients

-- The timer, and a call that succeeds.
back : on_subscribed 1 (on_retry waiting) ≡ record waiting {
  transport = some (record { attempt = 0; status = subscribed; retry = none; generation = 1 });
}
unfolding on_subscribed on_retry
back = refl

retry_delay_ms-bounds_example :
    (transport_retry_base_delay_ms ≤ retry_delay_ms 3)
    × (retry_delay_ms 3 ≤ transport_retry_max_delay_ms)
    × (retry_delay_ms 3 ≤ retry_delay_ms (suc 3))
retry_delay_ms-bounds_example = retry_delay_ms-bounds 3

abbrev event : Json
event = obj (
    field "type" (str "note.created")
      (field "conversationId" (str "k1") (field "payload" (obj end) end)))

abbrev wire : Wire
wire = record { stringify = λ j. "e1"; is_one = str_eq "1" }

abbrev rt : Runtime
rt = record plain_runtime {
  parse_json = λ s. some (envelope_json plain_runtime wire "o1" "p1" event);
}

event-is_sse_event : is_sse_event (some event) ≡ true
unfolding is_sse_event prop
event-is_sse_event = refl

published-handled_example :
    handle_message rt wire "p2"
      (λ o. true)
      (publish rt wire "p1" "o1" event).0
      (publish rt wire "p1" "o1" event).1
    ≡ (if str_eq "p1" "p2" then none else some event)
published-handled_example =
    published-handled rt wire "p1" "p2" "o1" event (λ o. true) refl refl event-is_sse_event refl
      refl
