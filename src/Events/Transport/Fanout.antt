-- ===== src/Events/Transport/Fanout.antt =====
-- What reaches the other processes
-- (apps/api/src/events/redis-pubsub-events.transport.ts).
use unified_inbox.Prelude.{
  String, Bool, true, false, none, some, if◌then◌else◌, str_eq, eq_iff, ◌≡◌, refl, ap,
}
use unified_inbox.Prelude.Text.{is_empty}
use unified_inbox.Prelude.Text.Append.{slice_from-append, starts-append}
use unified_inbox.Runtime.{Runtime}
use unified_inbox.Json.{Json, prop}
use unified_inbox.Events.Transport.{
  Wire, publish, handle_message, envelope_json, is_events_fanout_envelope, is_sse_event,
  get_events_redis_channel, get_organization_id_from_events_redis_channel,
  events_redis_channel_prefix,
}

channel_organization :
    (org : String)
    → get_organization_id_from_events_redis_channel (get_events_redis_channel org) ≡ some org
unfolding get_organization_id_from_events_redis_channel get_events_redis_channel
channel_organization org =
    rw (starts-append events_redis_channel_prefix org)
      (ap some (slice_from-append events_redis_channel_prefix org))

module _ (rt : Runtime) (wire : Wire) where
  -- The envelope that was published is accepted, with the fields that it was made of.
  envelope-accepted :
      (org source : String) (event : Json)
      → is_sse_event (some event) ≡ true
      → wire.is_one "1" ≡ true
      → is_events_fanout_envelope rt wire (envelope_json rt wire org source event)
        ≡ some (record { organization_id = org; source_id = source; event = event })
  unfolding is_events_fanout_envelope prop
  envelope-accepted org source event h one = rw (one, h) refl

  -- An event that a process publishes is given, as it was, to the handler of its organization in every
  -- other process that has one, and to none in its own. The event is well formed, JSON.parse reads what
  -- JSON.stringify gave, and the number 1 is written so.
  pub published-handled :
      (source receiver org : String) (event : Json) (has_handler : String → Bool)
      → is_empty org ≡ false
      → has_handler org ≡ true
      → is_sse_event (some event) ≡ true
      → wire.is_one "1" ≡ true
      → rt.parse_json (wire.stringify (envelope_json rt wire org source event))
        ≡ some (envelope_json rt wire org source event)
      → handle_message rt wire receiver has_handler
          (publish rt wire source org event).0
          (publish rt wire source org event).1
        ≡ (if str_eq source receiver then none else some event)
  unfolding handle_message publish
  published-handled source receiver org event has_handler named handled valid one parsed =
      rw
        (
          channel_organization org,
          named,
          handled,
          parsed,
          envelope-accepted org source event valid one,
          same org,
        )
        refl
    where
      same : (s : String) → str_eq s s ≡ true
      same s = (eq_iff s s).1 refl
