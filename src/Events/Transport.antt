-- ===== src/Events/Transport.antt =====
-- apps/api/src/events/events.transport.ts and redis-pubsub-events.transport.ts: what a process
-- publishes to the others, and what it takes from them; events.transport.factory.ts: which transport a
-- process uses. Ids of organizations are texts here, as in the channels' names.
pub mod Fanout
use Prim.Native.String.{◌++◌ as concat}
use Prim.Native.Char.{code}
use unified_inbox.Prelude.{
  ℕ, String, Bool, true, false, Option, none, some, List, [], ◌∷◌, if◌then◌else◌, ◌==◌, ◌&&◌, ◌||◌,
  str_eq, not, is_some, ◌≡◌, refl,
}
use unified_inbox.Prelude.Text.{is_empty, starts, slice_from, length}
use unified_inbox.Prelude.Result.{Result, ok, err, error}
use unified_inbox.Runtime.{Runtime, Env, trimmed, env_is}
use unified_inbox.Json.{Json, null, bool, num, str, arr, obj, nil, cons, end, field, prop}

abbrev pub events_redis_channel_prefix : String
events_redis_channel_prefix = "unified-inbox:events:org:"

-- `getEventsRedisChannel`
unfoldable pub get_events_redis_channel : String → String
get_events_redis_channel org = concat events_redis_channel_prefix org

-- `getOrganizationIdFromEventsRedisChannel`
unfoldable pub get_organization_id_from_events_redis_channel : String → Option String
unfolding slice_from
get_organization_id_from_events_redis_channel channel =
    if starts events_redis_channel_prefix channel then some (slice_from 25 channel) else none

abbrev is_object : Json → Bool
is_object null = false
is_object (bool b) = false
is_object (num n) = false
is_object (str s) = false
is_object (arr xs) = true
is_object (obj fs) = true

abbrev string_in : Option Json → Option String
string_in none = none
string_in (some null) = none
string_in (some (bool b)) = none
string_in (some (num n)) = none
string_in (some (str s)) = some s
string_in (some (arr xs)) = none
string_in (some (obj fs)) = none

abbrev valid_type : Option String → Bool
valid_type none = false
valid_type (some t) =
    str_eq t "message.created"
    || (str_eq t "conversation.updated"
        || (str_eq t "conversation.created" || str_eq t "note.created"))

-- An object that is not an array.
abbrev is_record : Option Json → Bool
is_record none = false
is_record (some null) = false
is_record (some (bool b)) = false
is_record (some (num n)) = false
is_record (some (str s)) = false
is_record (some (arr xs)) = false
is_record (some (obj fs)) = true

-- `isSseEvent`
unfoldable pub is_sse_event : Option Json → Bool
unfolding prop
is_sse_event none = false
is_sse_event (some j) =
    is_object j
    && (valid_type (string_in (prop "type" j))
        && (is_some (string_in (prop "conversationId" j)) && is_record (prop "payload" j)))

-- An envelope that was checked.
pub record EventsFanoutEnvelope : Type 0 where
  pub organization_id : String
  pub source_id : String
  pub event : Json

-- The parameters of the transport: `JSON.stringify`, and whether the text of a JSON number stands for
-- one.
pub record Wire : Type 0 where
  pub stringify : Json → String
  pub is_one : String → Bool

module _ (rt : Runtime) (wire : Wire) where
  abbrev is_version_1 : Option Json → Bool
  is_version_1 none = false
  is_version_1 (some null) = false
  is_version_1 (some (bool b)) = false
  is_version_1 (some (num n)) = wire.is_one n
  is_version_1 (some (str s)) = false
  is_version_1 (some (arr xs)) = false
  is_version_1 (some (obj fs)) = false

  abbrev pub envelope_of : Option String → Option String → Option Json → Option EventsFanoutEnvelope
  envelope_of (some org) (some source) (some event) =
      if is_sse_event (some event)
      then some (record { organization_id = org; source_id = source; event = event })
      else none
  envelope_of none source event = none
  envelope_of (some org) none event = none
  envelope_of (some org) (some source) none = none

  -- `isEventsFanoutEnvelope`, with the fields that it checked.
  unfoldable pub is_events_fanout_envelope : Json → Option EventsFanoutEnvelope
  is_events_fanout_envelope j =
      if is_object j && is_version_1 (prop "version" j)
      then envelope_of (string_in (prop "organizationId" j)) (string_in (prop "sourceId" j))
          (prop "event" j)
      else none

  abbrev pub parsed_envelope : Option Json → Option EventsFanoutEnvelope
  parsed_envelope none = none
  parsed_envelope (some j) = is_events_fanout_envelope j

  -- `parseEnvelope`
  abbrev pub parse_envelope : String → Option EventsFanoutEnvelope
  parse_envelope payload = parsed_envelope (rt.parse_json payload)

  abbrev pub envelope_json : String → String → Json → Json
  envelope_json org source event = obj (
      field "version" (num "1") (
        field "organizationId" (str org) (field "sourceId" (str source) (field "event" event end))))

  -- `publish`: the channel and the payload that Redis gets from the process of the given source.
  unfoldable pub publish : String → String → Json → String × String
  publish source org event =
      (get_events_redis_channel org, wire.stringify (envelope_json org source event))

  abbrev pub dispatch : String → String → Option EventsFanoutEnvelope → Option Json
  dispatch source org none = none
  dispatch source org (some e) =
      if not (str_eq e.organization_id org)
      then none
      else if str_eq e.source_id source
      then none
      else some e.event

  abbrev pub handle_for : String → (String → Bool) → Option String → String → Option Json
  handle_for source has_handler none payload = none
  handle_for source has_handler (some org) payload =
      if is_empty org
      then none
      else if has_handler org
      then dispatch source org (parse_envelope payload)
      else none

  -- `handleMessage` in the process of the given source: the event that the handler of the channel's
  -- organization gets, if it gets one.
  unfoldable pub handle_message : String → (String → Bool) → String → String → Option Json
  handle_message source has_handler channel payload =
      handle_for source has_handler (get_organization_id_from_events_redis_channel channel) payload

pub data EventsTransportMode : Type 0 where
  local redis : EventsTransportMode

abbrev default_transport : Option String → Env → Result EventsTransportMode
default_transport (some url) env = ok redis
default_transport none env =
    if env_is env.node_env "production"
    then err (error "REDIS_URL is required in production for realtime fanout")
    else ok local

-- `createDefaultEventsTransport`
unfoldable pub create_default_events_transport : Env → Result EventsTransportMode
create_default_events_transport env = default_transport (trimmed env.redis_url) env

prefix_lem : length events_redis_channel_prefix ≡ 25
prefix_lem = refl
