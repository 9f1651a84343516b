-- ===== src/Json.antt =====
-- JSON values as `JSON.parse` returns them, and the guards that the payload readers of
-- apps/api/src/webhooks and apps/api/src/outbound share (each file there has its own copy).
pub mod Strings
use unified_inbox.Prelude.{
  ℕ, String, Bool, true, false, Option, none, some, List, [], ◌∷◌, str_eq, if◌then◌else◌,
}
use unified_inbox.Prelude.Text.{trim, is_empty}

-- A number is kept as the text that the payload has for it: no modelled code reads one.
mutual
  pub data Json : Type 0 where
    null : Json
    bool : Bool → Json
    num : String → Json
    str : String → Json
    arr : Items → Json
    obj : Fields → Json

  pub data Items : Type 0 where
    nil : Items
    cons : Json → Items → Items

  pub data Fields : Type 0 where
    end : Fields
    field : String → Json → Fields → Fields

abbrev pub items : Items → List Json
items nil = []
items (cons x xs) = x ∷ items xs

-- The value of a key; `none` is `undefined`.
abbrev pub field_value : String → Fields → Option Json
field_value k end = none
field_value k (field j v fs) = if str_eq j k then some v else field_value k fs

-- `value.k` of a plain object.
unfoldable pub prop : String → Json → Option Json
prop k (obj fs) = field_value k fs
prop k null = none
prop k (bool b) = none
prop k (num n) = none
prop k (str s) = none
prop k (arr xs) = none

unfoldable pub is_plain_object : Json → Bool
is_plain_object (obj fs) = true
is_plain_object null = false
is_plain_object (bool b) = false
is_plain_object (num n) = false
is_plain_object (str s) = false
is_plain_object (arr xs) = false

-- The value itself where it is a plain object, none where the code skips it.
unfoldable pub as_object : Json → Option Json
unfolding is_plain_object
as_object v = if is_plain_object v then some v else none

-- `Array.isArray(value) ? value : []`
unfoldable pub array_or_empty : Option Json → List Json
array_or_empty none = []
array_or_empty (some (arr xs)) = items xs
array_or_empty (some null) = []
array_or_empty (some (bool b)) = []
array_or_empty (some (num n)) = []
array_or_empty (some (str s)) = []
array_or_empty (some (obj fs)) = []

abbrev non_empty : String → Option String
non_empty trimmed = if is_empty trimmed then none else some trimmed

unfoldable pub read_non_empty_string : Option Json → Option String
read_non_empty_string none = none
read_non_empty_string (some (str s)) = non_empty (trim s)
read_non_empty_string (some null) = none
read_non_empty_string (some (bool b)) = none
read_non_empty_string (some (num n)) = none
read_non_empty_string (some (arr xs)) = none
read_non_empty_string (some (obj fs)) = none
