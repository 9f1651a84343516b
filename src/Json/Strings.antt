-- ===== src/Json/Strings.antt =====
-- What the payload readers' `readNonEmptyString` gives: trimmed texts that are not empty.
use unified_inbox.Prelude.{
  String, ◌≡◌, false, Option, none, some, arith, inl, inr, Option-cases, Holds,
}
use unified_inbox.Prelude.Text.{trim, is_empty}
use unified_inbox.Prelude.Text.Trim.{trim_idem}
use unified_inbox.Json.{Json, null, str, non_empty, read_non_empty_string}

-- A text that `readNonEmptyString` can give.
abbrev pub IsToken : String → Type 0
IsToken s = (is_empty s ≡ false) × (trim s ≡ s)

non_empty-IsToken : (s t : String) → non_empty (trim s) ≡ some t → IsToken t
non_empty-IsToken s t h = ground (arith, trim_idem s)

pub read_non_empty_string-IsToken :
    (v : Option Json) (t : String) → read_non_empty_string v ≡ some t → IsToken t
unfolding read_non_empty_string
read_non_empty_string-IsToken none t h = ground arith
read_non_empty_string-IsToken (some null) t h = ground arith
read_non_empty_string-IsToken (some (str s)) t h = non_empty-IsToken s t h
read_non_empty_string-IsToken (some _) t h = ground arith

-- The same, at whatever the reader gives.
pub reads-IsToken : (v : Option Json) → Holds IsToken (read_non_empty_string v)
reads-IsToken v = elim (Option-cases (read_non_empty_string v)) [
  | inl e ↦ rw e tt
  | inr (t, e) ↦ rw e (read_non_empty_string-IsToken v t e)
]
