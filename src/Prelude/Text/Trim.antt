-- ===== src/Prelude/Text/Trim.antt =====
-- What `trim` leaves: nothing more to trim.
use Prim.Native.Char.{Char, code}
use Prim.Native.String.{String}
use mathlib.Core.Path.{◌≡◌, refl, ap, ◌∙◌}
use mathlib.Core.Bool.{false}
use mathlib.Core.Logic.{inl, inr}
use unified_inbox.Prelude.Tests.{Bool-cases}
use unified_inbox.Prelude.Text.{is_white_space, trim_start, trim_step, trim_end, trim}

trim_end-step : (c : Char) (r : String) → trim_end r ≡ r → trim_end (trim_step c r) ≡ trim_step c r
unfolding trim_end
trim_end-step c String.[] h = elim (Bool-cases (is_white_space (code c))) [
  | inl e ↦ rw e
  | inr e ↦ rw (e, e)
]
trim_end-step c (String.◌∷◌ d r) h = ap (trim_step c) h

trim_end_idem : (s : String) → trim_end (trim_end s) ≡ trim_end s
unfolding trim_end
trim_end_idem String.[] = refl
trim_end_idem (String.◌∷◌ c s) = trim_end-step c (trim_end s) (trim_end_idem s)

-- No white space in front.
abbrev IsFlush : String → Type 0
IsFlush String.[] = Unit
IsFlush (String.◌∷◌ c s) = is_white_space (code c) ≡ false

trim_start-IsFlush : (s : String) → IsFlush (trim_start s)
unfolding trim_start
trim_start-IsFlush String.[] = tt
trim_start-IsFlush (String.◌∷◌ c s) = elim (Bool-cases (is_white_space (code c))) [
  | inl e ↦ rw e (trim_start-IsFlush s)
  | inr e ↦ rw e e
]

trim_start-eq_of_IsFlush : (s : String) → IsFlush s → trim_start s ≡ s
unfolding trim_start
trim_start-eq_of_IsFlush String.[] h = refl
trim_start-eq_of_IsFlush (String.◌∷◌ c s) h = rw h

trim_step-IsFlush :
    (c : Char) (r : String) → is_white_space (code c) ≡ false → IsFlush (trim_step c r)
trim_step-IsFlush c String.[] h = rw h h
trim_step-IsFlush c (String.◌∷◌ d r) h = h

trim_end-IsFlush : (s : String) → IsFlush s → IsFlush (trim_end s)
unfolding trim_end
trim_end-IsFlush String.[] h = tt
trim_end-IsFlush (String.◌∷◌ c s) h = trim_step-IsFlush c (trim_end s) h

-- Trimming twice is trimming once.
pub trim_idem : (s : String) → trim (trim s) ≡ trim s
unfolding trim
trim_idem s =
    ap trim_end (trim_start-eq_of_IsFlush _ (trim_end-IsFlush _ (trim_start-IsFlush s)))
    ∙ trim_end_idem (trim_start s)
