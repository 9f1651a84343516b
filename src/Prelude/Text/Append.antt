-- ===== src/Prelude/Text/Append.antt =====
-- Texts that were put together.
use Prim.Native.String.{String, ◌++◌ as concat}
use text.Mathlib.TextLemmas.{nil-append, cons-append}
use mathlib.Core.Path.{◌≡◌, refl}
use mathlib.Core.Bool.{true}
use native.Mathlib.Omega.{arith}
use unified_inbox.Prelude.Text.{length, slice_from, starts}

pub slice_from-append : (p s : String) → slice_from (length p) (concat p s) ≡ s
unfolding slice_from
slice_from-append String.[] s = nil-append s
slice_from-append (String.◌∷◌ c p) s = rw cons-append (slice_from-append p s)

pub starts-append : (p s : String) → starts p (concat p s) ≡ true
starts-append String.[] s = refl
starts-append (String.◌∷◌ c p) s = rw cons-append (ground (arith, starts-append p s))
