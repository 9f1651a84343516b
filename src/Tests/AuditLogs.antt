-- ===== src/Tests/AuditLogs.antt =====
-- Two entries of an audit log, read page by page
-- (apps/api/src/audit-logs/audit-logs.service.spec.ts).
use unified_inbox.Prelude.{
  ℕ, String, ◌≡◌, ◌≤◌, ◌-◌, refl, true, false, Option, none, some, ◌==◌, [], ◌∷◌, List, arith, map,
  str_eq, if◌then◌else◌, take, keep, length, All,
}
use unified_inbox.Prelude.Int.{pos}
use unified_inbox.Prelude.Text.{trim}
use unified_inbox.Prelude.Result.{ok}
use unified_inbox.Json.{Json, null, bool, num, arr, obj, field, str, end}
use unified_inbox.Runtime.{Runtime}
use unified_inbox.AuditLogs.{
  Codec, AuditTable, AuditRow, ListAuditLogsQuery, Page, Range, range_of, normalize_limit,
  list_audit_logs, encode_cursor, last_90_days, max_limit, to_item, cursor_json,
}
use unified_inbox.AuditLogs.Bounds.{list_audit_logs-bounds}
use unified_inbox.AuditLogs.Cursors.{CodecLaws}
use unified_inbox.AuditLogs.Pages.{later, asked_for, read_pages, read_pages-All}
use unified_inbox.AuditLogs.Sorted.{IsSorted}
use unified_inbox.Tests.Payloads.{plain_runtime}

abbrev entry : String → ℕ → AuditRow
entry id at = record {
  id = id;
  created_at = at;
  log = record {
    action = "member.removed";
    target_id = none;
    metadata = [];
    organization_id = 4;
    actor_id = 1;
  };
  actor = record {
    id = 1;
    email = "ada@x.io";
    name = "Ada";
    password_hash = none;
    session_version = 0;
    email_verified_at = none;
  };
}

abbrev rows : List AuditRow
rows = entry "c2" 8000000000 ∷ entry "c1" 7900000000 ∷ []

abbrev text_of : Option Json → String
text_of (some (str s)) = s
text_of none = ""
text_of (some null) = ""
text_of (some (bool b)) = ""
text_of (some (num n)) = ""
text_of (some (arr xs)) = ""
text_of (some (obj fs)) = ""

abbrev first_text : Json → String
first_text (obj (field k v fs)) = text_of (some v)
first_text (obj end) = ""
first_text null = ""
first_text (bool b) = ""
first_text (num n) = ""
first_text (str s) = ""
first_text (arr xs) = ""

-- A codec that knows the two cursors by their ids.
abbrev codec : Codec
codec = record {
  stringify = first_text;
  to_base64url = λ s. s;
  from_base64url = λ s. s;
  to_iso = λ t. if t == 8000000000 then "t2" else "t1";
  parse_date = λ s. if str_eq s "t2" then some 8000000000 else some 7900000000;
}

abbrev rt : Runtime
rt = record plain_runtime {
  parse_json = λ s.
      if str_eq s "c2"
      then some (cursor_json codec "c2" 8000000000)
      else some (cursor_json codec "c1" 7900000000);
}

abbrev table : AuditTable
table = record {
  id_lt = λ a b. false;
  newest_first = λ xs. xs;
  find_page = λ p n xs. take n (keep p xs);
  find_page_lem = λ p n xs. refl;
}

abbrev query : ListAuditLogsQuery
query = record {
  action = none;
  actor_id = none;
  from = some 7800000000;
  to = some 8000000000;
  cursor = none;
  limit = some (pos 1);
}

abbrev range : Range
range = record { from = 7800000000; to = 8000000000 }

first_page :
    list_audit_logs codec rt table 4 8100000000 query rows
    ≡ ok (record {
      items = to_item (entry "c2" 8000000000) ∷ [];
      limit = 1;
      has_more = true;
      next_cursor = some "c2";
      range = range;
    })
unfolding list_audit_logs range_of normalize_limit encode_cursor
first_page = refl

abbrev page : Page
page = record {
  items = to_item (entry "c2" 8000000000) ∷ [];
  limit = 1;
  has_more = true;
  next_cursor = some "c2";
  range = range;
}

list_audit_logs-bounds_example :
    ((1 ≤ page.limit) × (page.limit ≤ max_limit))
    × (length page.items ≤ page.limit)
    × ((8100000000 - last_90_days ≤ page.range.from)
        × (page.range.from ≤ page.range.to)
        × (page.range.to ≤ 8100000000))
list_audit_logs-bounds_example =
    list_audit_logs-bounds codec rt table 4 8100000000 query rows page first_page

rows-IsSorted : IsSorted (later codec rt table 4) rows
rows-IsSorted = ((refl, tt), (tt, tt))

rows-later :
    (x y : AuditRow) → later codec rt table 4 x y ≡ true → later codec rt table 4 y x ≡ false
rows-later x y h = ground arith

rows-laws : All (CodecLaws codec rt) rows
unfolding trim
rows-laws = (
  record {
    parse-stringify = refl;
    from-to_base64url = refl;
    parse-to_iso = refl;
    filled_cursor = refl;
    filled_id = refl;
  },
  (
    record {
      parse-stringify = refl;
      from-to_base64url = refl;
      parse-to_iso = refl;
      filled_cursor = refl;
      filled_id = refl;
    },
    tt,
  ),
)

query-range : range_of 8100000000 query ≡ ok range
unfolding range_of
query-range = refl

query-rows : asked_for codec rt table 4 query range rows ≡ rows
query-rows = refl

read_pages-All_example :
    read_pages codec rt table 4 3 (λ i. 8100000000) rows query ≡ some (map to_item rows)
read_pages-All_example =
    read_pages-All codec rt table 4 rows range query 3 (λ i. 8100000000) rows-later rows-IsSorted
      rows-laws (λ i. query-range) refl (ground arith)
