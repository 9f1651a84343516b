-- ===== src/AuditLogs.antt =====
-- apps/api/src/audit-logs/audit-logs.service.ts: listAuditLogs, a page of an organization's audit log.
pub mod Cursors
pub mod Sorted
pub mod Pages
pub mod Bounds
use unified_inbox.Prelude.{
  ℕ, String, Bool, true, false, ◌+◌, ◌-◌, ◌*◌, ◌&&◌, ◌||◌, Option, none, some, List, [], ◌∷◌, map,
  if◌then◌else◌, ◌==◌, leb, ltb, str_eq, or_else, is_some, ◌≡◌, length, take, last?, keep,
}
use unified_inbox.Prelude.Int.{ℤ, pos, negsuc}
use unified_inbox.Prelude.Text.{trim, is_empty}
use unified_inbox.Prelude.Result.{Result, ok, err, bad_request}
use unified_inbox.Runtime.{Runtime}
use unified_inbox.Json.{Json, str, obj, field, end, prop}
use unified_inbox.Schema.Rows.{AuditLog, User, Detail}
use unified_inbox.Auth.Base.{filled}

-- What the query selects of an entry: its columns and the actor that its foreign key names.
pub record AuditRow : Type 0 where
  pub id : String
  pub created_at : ℕ
  pub log : AuditLog
  pub actor : User

pub record AuditItem : Type 0 where
  pub id : String
  pub timestamp : ℕ
  pub action : String
  pub target_id : Option ℕ
  pub metadata : List (String × Detail)
  pub actor_id : ℕ
  pub actor_name : String
  pub actor_email : String

-- ListAuditLogsQueryDto, with its dates read.
pub record ListAuditLogsQuery : Type 0 where
  pub action : Option String
  pub actor_id : Option ℕ
  pub from : Option ℕ
  pub to : Option ℕ
  pub cursor : Option String
  pub limit : Option ℤ

pub record DecodedCursor : Type 0 where
  pub id : String
  pub created_at : ℕ

pub record Range : Type 0 where
  pub from : ℕ
  pub to : ℕ

pub record Page : Type 0 where
  pub items : List AuditItem
  pub limit : ℕ
  pub has_more : Bool
  pub next_cursor : Option String
  pub range : Range

-- JSON.stringify, Buffer's base64url, Date's toISOString and the Date constructor, none where that
-- gives an invalid date.
pub record Codec : Type 0 where
  pub stringify : Json → String
  pub to_base64url : String → String
  pub from_base64url : String → String
  pub to_iso : ℕ → String
  pub parse_date : String → Option ℕ

-- The table of the audit log. The order of ids is the database's collation.
pub record AuditTable : Type 0 where
  pub id_lt : String → String → Bool
  -- the rows by time and id, the latest first
  pub newest_first : List AuditRow → List AuditRow
  -- `findMany` with that order and a `take`
  pub find_page : (AuditRow → Bool) → ℕ → List AuditRow → List AuditRow
  pub find_page_lem :
      (p : AuditRow → Bool) (n : ℕ) (rows : List AuditRow)
      → find_page p n rows ≡ take n (keep p (newest_first rows))

abbrev pub default_limit : ℕ
default_limit = 25

abbrev pub max_limit : ℕ
max_limit = 100

abbrev pub last_90_days : ℕ
last_90_days = 90 * (24 * 3600000)

-- `normalizeLimit`; `none` is a missing limit or NaN.
unfoldable pub normalize_limit : Option ℤ → ℕ
normalize_limit none = default_limit
normalize_limit (some (negsuc n)) = 1
normalize_limit (some (pos n)) = if ltb n 1 then 1 else if ltb max_limit n then max_limit else n

abbrev pub check_range : ℕ → ℕ → Result Range
check_range from to =
    if ltb to from
    then err (bad_request "from must be before to")
    else ok (record { from = from; to = to })

-- The requested range within the last 90 days: not before `min_from` and not after now.
abbrev pub bounded_range : ℕ → ℕ → ℕ → ℕ → Result Range
bounded_range now min_from from to =
    let bounded_to = if ltb now to then now else to in
    check_range (if ltb from min_from then min_from else from)
      (if ltb bounded_to min_from then min_from else bounded_to)

-- The range of a query, for a clock later than 90 days after the epoch.
unfoldable pub range_of : ℕ → ListAuditLogsQuery → Result Range
range_of now q =
    let min_from = now - last_90_days in
    let from = or_else q.from min_from in
    let to = or_else q.to now in
    if is_some q.from && (is_some q.to && ltb to from)
    then err (bad_request "from must be before to")
    else bounded_range now min_from from to

abbrev pub to_item : AuditRow → AuditItem
to_item r = record {
  id = r.id;
  timestamp = r.created_at;
  action = r.log.action;
  target_id = r.log.target_id;
  metadata = r.log.metadata;
  actor_id = r.actor.id;
  actor_name = r.actor.name;
  actor_email = r.actor.email;
}

-- A condition that is left out holds.
abbrev pub unless_given : {A : Type 0} → (A → Bool) → Option A → Bool
unless_given p none = true
unless_given p (some a) = p a

module _ (codec : Codec) where
  abbrev pub cursor_json : String → ℕ → Json
  cursor_json id at = obj (field "id" (str id) (field "createdAt" (str (codec.to_iso at)) end))

  -- `encodeCursor`
  unfoldable pub encode_cursor : AuditRow → String
  encode_cursor r = codec.to_base64url (codec.stringify (cursor_json r.id r.created_at))

  abbrev string_of : Option Json → Option String
  string_of (some (str s)) = some s
  string_of none = none
  string_of (some Json.null) = none
  string_of (some (Json.bool b)) = none
  string_of (some (Json.num n)) = none
  string_of (some (Json.arr xs)) = none
  string_of (some (obj fs)) = none

  abbrev invalid_cursor : {A : Type 0} → Result A
  invalid_cursor = err (bad_request "Invalid cursor")

  abbrev pub dated_cursor : String → Option ℕ → Result DecodedCursor
  dated_cursor id none = invalid_cursor
  dated_cursor id (some at) = ok (record { id = id; created_at = at })

  abbrev pub read_cursor : Option String → Option String → Result DecodedCursor
  read_cursor none created = invalid_cursor
  read_cursor (some id) none = invalid_cursor
  read_cursor (some id) (some created) =
      if is_empty (trim id) then invalid_cursor else dated_cursor id (codec.parse_date created)

  abbrev pub parsed_cursor : Option Json → Result DecodedCursor
  parsed_cursor none = invalid_cursor
  parsed_cursor (some j) = read_cursor (string_of (prop "id" j)) (string_of (prop "createdAt" j))

  -- `decodeCursor`
  unfoldable pub decode_cursor : Runtime → String → Result DecodedCursor
  decode_cursor rt cursor = parsed_cursor (rt.parse_json (codec.from_base64url cursor))

  abbrev pub decoded : Result DecodedCursor → Result (Option DecodedCursor)
  decoded (ok c) = ok (some c)
  decoded (err e) = err e

  -- The cursor of a query, if it has one.
  abbrev pub cursor_of : Runtime → Option String → Result (Option DecodedCursor)
  cursor_of rt none = ok none
  cursor_of rt (some c) = decoded (decode_cursor rt c)

  module _ (rt : Runtime) (table : AuditTable) (org : ℕ) where
    -- After the cursor in the order of the page.
    abbrev pub is_after : DecodedCursor → AuditRow → Bool
    is_after c r =
        ltb r.created_at c.created_at || (r.created_at == c.created_at && table.id_lt r.id c.id)

    abbrev pub matches : ListAuditLogsQuery → Range → AuditRow → Bool
    matches q range r =
        r.log.organization_id == org
        && (unless_given (str_eq r.log.action) q.action
            && (unless_given (λ a. r.log.actor_id == a) q.actor_id
                && (leb range.from r.created_at && leb r.created_at range.to)))

    abbrev pub next_cursor : Bool → Option AuditRow → Option String
    next_cursor false last = none
    next_cursor true none = none
    next_cursor true (some r) = some (encode_cursor r)

    -- The page of the rows that were read, one more than its limit if there are more.
    abbrev pub to_page : ℕ → Range → List AuditRow → Page
    to_page limit range rows =
        let has_more = ltb limit (length rows) in
        let shown = if has_more then take limit rows else rows in
        record {
          items = map to_item shown;
          limit = limit;
          has_more = has_more;
          next_cursor = next_cursor has_more (last? shown);
          range = range;
        }

    abbrev pub page_after :
        ListAuditLogsQuery → Range → List AuditRow → Result (Option DecodedCursor) → Result Page
    page_after q range rows (err e) = err e
    page_after q range rows (ok c) =
        let limit = normalize_limit q.limit in
        ok (
          to_page limit range (
            table.find_page (λ r. matches q range r && unless_given (λ x. is_after x r) c)
              (limit + 1) rows))

    abbrev pub page_in : ListAuditLogsQuery → List AuditRow → Result Range → Result Page
    page_in q rows (err e) = err e
    page_in q rows (ok range) = page_after q range rows (cursor_of rt (filled q.cursor))

    -- `listAuditLogs`, at the given time.
    unfoldable pub list_audit_logs : ℕ → ListAuditLogsQuery → List AuditRow → Result Page
    list_audit_logs now q rows = page_in q rows (range_of now q)
