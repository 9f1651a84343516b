-- ===== src/Prelude/Text.antt =====
-- The string operations of the language that the program calls.
pub mod Trim
pub mod Append
use Prim.Native.Nat.{ℕ, zero, suc, ◌/◌, ◌%◌}
use Prim.Native.Char.{Char, code}
use Prim.Native.String.{String, ◌++◌ as concat}
use mathlib.Core.Path.{◌≡◌, refl}
use mathlib.Core.Bool.{Bool, true, false, ◌||◌, ◌&&◌}
use native.Mathlib.Omega.{arith}
use unified_inbox.Prelude.Tests.{leb, ltb, ◌==◌, if◌then◌else◌}

-- White space and line terminators of ECMAScript, by code point.
unfoldable pub is_white_space : ℕ → Bool
is_white_space c =
    (leb 0x09 c && leb c 0x0d)
    || c == 0x20
    || c == 0xa0
    || c == 0x1680
    || (leb 0x2000 c && leb c 0x200a)
    || c == 0x2028
    || c == 0x2029
    || c == 0x202f
    || c == 0x205f
    || c == 0x3000
    || c == 0xfeff

abbrev pub is_empty : String → Bool
is_empty String.[] = true
is_empty (String.◌∷◌ c s) = false

unfoldable pub trim_start : String → String
unfolding is_white_space
trim_start String.[] = ""
trim_start (String.◌∷◌ c s) = if is_white_space (code c) then trim_start s else String.◌∷◌ c s

abbrev trim_step : Char → String → String
trim_step c String.[] = if is_white_space (code c) then "" else String.◌∷◌ c ""
trim_step c (String.◌∷◌ d s) = String.◌∷◌ c (String.◌∷◌ d s)

unfoldable pub trim_end : String → String
unfolding is_white_space
trim_end String.[] = ""
trim_end (String.◌∷◌ c s) = trim_step c (trim_end s)

-- `s.trim()`
unfoldable pub trim : String → String
unfolding trim_start trim_end
trim s = trim_end (trim_start s)

trim_test : trim "  a b\t " ≡ "a b"
unfolding trim
trim_test = refl

-- `s.slice(0, n)`, by characters where the source counts UTF-16 units
unfoldable pub slice_to : ℕ → String → String
slice_to zero s = ""
slice_to (suc n) String.[] = ""
slice_to (suc n) (String.◌∷◌ c s) = String.◌∷◌ c (slice_to n s)

-- `s.slice(n)`
unfoldable pub slice_from : ℕ → String → String
slice_from zero s = s
slice_from (suc n) String.[] = ""
slice_from (suc n) (String.◌∷◌ c s) = slice_from n s

-- How many characters, against `s.length`, which counts two for one outside the basic plane.
abbrev pub length : String → ℕ
length String.[] = 0
length (String.◌∷◌ c s) = suc (length s)

abbrev digit : ℕ → String
digit n =
    if n == 0
    then "0"
    else if n == 1
    then "1"
    else if n == 2
    then "2"
    else if n == 3
    then "3"
    else if n == 4
    then "4"
    else if n == 5
    then "5"
    else if n == 6
    then "6"
    else if n == 7
    then "7"
    else if n == 8
    then "8"
    else "9"

-- The digits of `n` before `acc`; `n` rounds are enough, since each divides by ten.
show_digits : ℕ → ℕ → String → String
show_digits zero n acc = acc
show_digits (suc fuel) n acc = elim (ltb n 10) [
  | true ↦ concat (digit n) acc
  | false ↦ show_digits fuel (n / 10) (concat (digit (n % 10)) acc)
]

-- A number in a template literal.
unfoldable pub show : ℕ → String
unfolding show_digits
show n = show_digits (suc n) n ""

show_test : show 404 ≡ "404"
unfolding show
show_test = refl

abbrev pub starts : String → String → Bool
starts String.[] s = true
starts (String.◌∷◌ p ps) String.[] = false
starts (String.◌∷◌ p ps) (String.◌∷◌ c cs) = code p == code c && starts ps cs

-- `s.includes(part)`
abbrev pub includes : String → String → Bool
includes part String.[] = is_empty part
includes part (String.◌∷◌ c s) = starts part (String.◌∷◌ c s) || includes part s

includes_test : includes "user" "a user" ≡ true
includes_test = refl

abbrev pub trailing_step : ℕ → Char → String → String
trailing_step n c String.[] = if code c == n then "" else String.◌∷◌ c ""
trailing_step n c (String.◌∷◌ d s) = String.◌∷◌ c (String.◌∷◌ d s)

-- The text without the characters of the given code at its end.
abbrev pub without_trailing : ℕ → String → String
without_trailing n String.[] = ""
without_trailing n (String.◌∷◌ c s) = trailing_step n c (without_trailing n s)

-- The text without the characters of the given code at its start.
abbrev pub without_leading : ℕ → String → String
without_leading n String.[] = ""
without_leading n (String.◌∷◌ c s) = if code c == n then without_leading n s else String.◌∷◌ c s

-- `s.replace(/\/+$/, "")`
abbrev pub without_slashes : String → String
without_slashes = without_trailing 47

slashes_test : without_slashes "http://x//" ≡ "http://x"
slashes_test = refl
