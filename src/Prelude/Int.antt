-- ===== src/Prelude/Int.antt =====
-- Signed integers, and the instants that a `Date` can hold.
use Prim.Native.Nat.{ℕ, ◌+◌, ◌*◌}
use mathlib.Core.Bool.{Bool, true, false}
use unified_inbox.Prelude.Tests.{leb, ltb}

-- `negsuc n` is -(n + 1).
pub data ℤ : Type 0 where
  pos : ℕ → ℤ
  negsuc : ℕ → ℤ

-- A `Date`: milliseconds since the epoch.
abbrev pub Date : Type 0
Date = ℤ

-- z * 1000
unfoldable pub times_1000 : ℤ → ℤ
times_1000 (pos n) = pos (n * 1000)
times_1000 (negsuc n) = negsuc (n * 1000 + 999)

abbrev pub magnitude : ℤ → ℕ
magnitude (pos n) = n
magnitude (negsuc n) = n + 1

-- The range of ECMAScript's time values.
abbrev pub max_time : ℕ
max_time = 8640000000000000

abbrev pub is_valid_time : ℤ → Bool
is_valid_time z = leb (magnitude z) max_time

abbrev pub ltb_ℤ : ℤ → ℤ → Bool
ltb_ℤ (pos a) (pos b) = ltb a b
ltb_ℤ (pos a) (negsuc b) = false
ltb_ℤ (negsuc a) (pos b) = true
ltb_ℤ (negsuc a) (negsuc b) = ltb b a
