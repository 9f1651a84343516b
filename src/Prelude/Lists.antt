-- ===== src/Prelude/Lists.antt =====
-- Lists measured by native numbers, and predicates on their entries.
use Prim.Native.Nat.{ℕ, zero, suc, ◌+◌}
use mathlib.Core.Path.{◌≡◌, refl, ap}
use mathlib.Core.Bool.{Bool, false, ◌||◌}
use mathlib.Core.Logic.{inl, inr}
use mathlib.Core.List.{List, [], ◌∷◌, ◌++◌}
use mathlib.Core.Option.{Option, none, some}
use native.Mathlib.Omega.{arith}
use unified_inbox.Prelude.Tests.{if◌then◌else◌, Option-cases}

module _ {ℓ} {A : Type ℓ} where
  abbrev pub length : List A → ℕ
  length [] = 0
  length (x ∷ xs) = suc (length xs)

  -- How many entries pass the test.
  abbrev pub count : (A → Bool) → List A → ℕ
  count p [] = 0
  count p (x ∷ xs) = if p x then suc (count p xs) else count p xs

  abbrev pub any : (A → Bool) → List A → Bool
  any p [] = false
  any p (x ∷ xs) = p x || any p xs

  -- The entries that pass the test.
  abbrev pub keep : (A → Bool) → List A → List A
  keep p [] = []
  keep p (x ∷ xs) = if p x then x ∷ keep p xs else keep p xs

  abbrev pub All {κ} : (A → Type κ) → List A → Type κ
  All P [] = Unit
  All P (x ∷ xs) = P x × All P xs

  abbrev pub head? : List A → Option A
  head? [] = none
  head? (x ∷ xs) = some x

  -- `xs[xs.length - 1]`
  abbrev pub last? : List A → Option A
  last? [] = none
  last? (x ∷ []) = some x
  last? (x ∷ y ∷ xs) = last? (y ∷ xs)

  -- `o1 ?? o2`, for an optional right side.
  infixr 30 ◌or◌
  abbrev pub ◌or◌ : Option A → Option A → Option A
  none or o = o
  (some a) or o = some a

  abbrev pub to_list : Option A → List A
  to_list none = []
  to_list (some b) = b ∷ []

  pub All-append {κ} : (P : A → Type κ) (xs ys : List A) → All P xs → All P ys → All P (xs ++ ys)
  All-append P [] ys h k = k
  All-append P (x ∷ xs) ys h k = (h.0, All-append P xs ys h.1 k)

  pub head?-append : (xs ys : List A) → head? (xs ++ ys) ≡ head? xs or head? ys
  head?-append [] ys = refl
  head?-append (x ∷ xs) ys = refl

module _ {ℓ κ} {A : Type ℓ} {B : Type κ} where
  -- A loop that returns the first result, `for (const x of xs) { … return y; }`.
  abbrev pub first_some : (A → Option B) → List A → Option B
  first_some f [] = none
  first_some f (x ∷ xs) = f x or first_some f xs

  -- A loop that collects, `for (const x of xs) { ys.push(…); }`.
  abbrev pub collect : (A → List B) → List A → List B
  collect f [] = []
  collect f (x ∷ xs) = f x ++ collect f xs

  -- What holds of each round's entries holds of all that the loop collects.
  pub All-collect {μ} :
      (P : B → Type μ) (f : A → List B) (xs : List A)
      → ((x : A) → All P (f x))
      → All P (collect f xs)
  All-collect P f [] h = tt
  All-collect P f (x ∷ xs) h = All-append P (f x) (collect f xs) (h x) (All-collect P f xs h)

  -- A result of the loop is a result of one of its rounds.
  pub first_some-holds {μ} :
      (P : B → Type μ) (f : A → Option B) (xs : List A)
      → ((x : A) (b : B) → f x ≡ some b → P b)
      → (b : B) → first_some f xs ≡ some b
      → P b
  first_some-holds P f [] h b e = cc
  first_some-holds P f (x ∷ xs) h b e = elim (Option-cases (f x)) [
    | inl miss ↦ first_some-holds P f xs h b (ground arith)
    | inr (c, hit) ↦ h x b (ground arith)
  ]

  -- A loop that returns none had no result in any round.
  pub first_some-none :
      (f : A → Option B) (xs : List A) → first_some f xs ≡ none → All (λ x. f x ≡ none) xs
  first_some-none f [] e = tt
  first_some-none f (x ∷ xs) e = (ground arith, first_some-none f xs (ground arith))

-- Two loops over one list, where a round that gives the first nothing gives the second nothing.
module _ {ℓ κ μ} {A : Type ℓ} {B : Type κ} {C : Type μ} (f : A → Option B) where
  pub first_some-none_of :
      (g : A → Option C) (xs : List A)
      → ((x : A) → f x ≡ none → g x ≡ none)
      → first_some f xs ≡ none
      → first_some g xs ≡ none
  first_some-none_of g [] h e = refl
  first_some-none_of g (x ∷ xs) h e = ground (arith, h x, first_some-none_of g xs h)

  pub collect-nil_of :
      (g : A → List C) (xs : List A)
      → ((x : A) → f x ≡ none → g x ≡ [])
      → first_some f xs ≡ none
      → collect g xs ≡ []
  collect-nil_of g [] h e = refl
  collect-nil_of g (x ∷ xs) h e = ground (arith, h x, collect-nil_of g xs h)

module _ {ℓ} {A : Type ℓ} where
  abbrev pub take : ℕ → List A → List A
  take zero xs = []
  take (suc n) [] = []
  take (suc n) (x ∷ xs) = x ∷ take n xs

  abbrev pub drop : ℕ → List A → List A
  drop zero xs = xs
  drop (suc n) [] = []
  drop (suc n) (x ∷ xs) = drop n xs

  pub length-append : (xs ys : List A) → length (xs ++ ys) ≡ length xs + length ys
  length-append [] ys = omega arith
  length-append (x ∷ xs) ys = omega (arith, length-append xs ys)

  pub take-append : (n : ℕ) (xs ys : List A) → length xs ≡ n → take n (xs ++ ys) ≡ xs
  take-append zero [] ys h = refl
  take-append zero (x ∷ xs) ys h = absurd (omega arith)
  take-append (suc n) [] ys h = absurd (omega arith)
  take-append (suc n) (x ∷ xs) ys h = ap (λ t. x ∷ t) (take-append n xs ys (omega arith))

  pub drop-append : (n : ℕ) (xs ys : List A) → length xs ≡ n → drop n (xs ++ ys) ≡ ys
  drop-append zero [] ys h = refl
  drop-append zero (x ∷ xs) ys h = absurd (omega arith)
  drop-append (suc n) [] ys h = absurd (omega arith)
  drop-append (suc n) (x ∷ xs) ys h = drop-append n xs ys (omega arith)
