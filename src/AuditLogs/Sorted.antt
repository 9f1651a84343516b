-- ===== src/AuditLogs/Sorted.antt =====
-- Lists in the order of the pages of the audit log, and what is left of them after an entry.
use unified_inbox.Prelude.{
  ℕ, zero, suc, ◌≡◌, ◌<◌, refl, ap, Bool, true, false, ◌&&◌, List, [], ◌∷◌, ◌++◌, arith, keep, take,
  length, All, some, last?, Bool-cases, inl, inr,
}

module _ {A : Type 0} where
  pub keep-and : (p q : A → Bool) (xs : List A) → keep (λ x. p x && q x) xs ≡ keep q (keep p xs)
  keep-and p q [] = refl
  keep-and p q (x ∷ xs) = ground (arith, keep-and p q xs)

  pub keep-all : (p : A → Bool) (xs : List A) → ((x : A) → p x ≡ true) → keep p xs ≡ xs
  keep-all p [] h = refl
  keep-all p (x ∷ xs) h = ground (arith, h x, keep-all p xs h)

  pub All-keep {κ} : (P : A → Type κ) (p : A → Bool) (xs : List A) → All P xs → All P (keep p xs)
  All-keep P p [] h = tt
  All-keep P p (x ∷ xs) h = elim (Bool-cases (p x)) [
    | inl e ↦ rw e (h.0, All-keep P p xs h.1)
    | inr e ↦ rw e (All-keep P p xs h.1)
  ]

  pub All-at {κ} : (P : A → Type κ) (x : A) (xs ys : List A) → All P (xs ++ x ∷ ys) → P x
  All-at P x [] ys h = h.0
  All-at P x (z ∷ xs) ys h = All-at P x xs ys h.1

  pub take-length : (n : ℕ) (xs : List A) → length xs < suc n → take n xs ≡ xs
  take-length zero [] h = refl
  take-length zero (x ∷ xs) h = absurd omega arith
  take-length (suc n) [] h = refl
  take-length (suc n) (x ∷ xs) h = ap (λ t. x ∷ t) (take-length n xs (omega arith))

  pub take-take : (n : ℕ) (xs : List A) → take n (take (suc n) xs) ≡ take n xs
  take-take zero [] = refl
  take-take zero (x ∷ xs) = refl
  take-take (suc n) [] = refl
  take-take (suc n) (x ∷ xs) = ap (λ t. x ∷ t) (take-take n xs)

  pub length-take-suc : (n : ℕ) (xs : List A) → n < length xs → length (take (suc n) xs) ≡ suc n
  length-take-suc n [] h = absurd omega arith
  length-take-suc zero (x ∷ xs) h = refl
  length-take-suc (suc n) (x ∷ xs) h = omega (arith, length-take-suc n xs (omega arith))

  -- A list that is longer than a page: the page, its last entry, and the rest.
  pub record Split (n : ℕ) (xs : List A) : Type 0 where
    pub before : List A
    pub last : A
    pub after : List A
    pub whole : xs ≡ before ++ last ∷ after
    pub page : take n xs ≡ before ++ last ∷ []

  pub split : (n : ℕ) (xs : List A) → suc n < length xs → Split (suc n) xs
  split n [] h = absurd omega arith
  split zero (x ∷ xs) h = record { before = []; last = x; after = xs; whole = refl; page = refl }
  split (suc n) (x ∷ xs) h =
      let s = split n xs (omega arith) in
      record {
        before = x ∷ s.before;
        last = s.last;
        after = s.after;
        whole = ap (λ t. x ∷ t) s.whole;
        page = ap (λ t. x ∷ t) s.page;
      }

  pub last?-append : (xs : List A) (x : A) → last? (xs ++ x ∷ []) ≡ some x
  last?-append [] x = refl
  last?-append (y ∷ []) x = refl
  last?-append (y ∷ z ∷ xs) x = last?-append (z ∷ xs) x

  module _ (later : A → A → Bool) where
    -- Each entry has the later ones after it.
    abbrev pub IsSorted : List A → Type 0
    IsSorted [] = Unit
    IsSorted (x ∷ xs) = All (λ y. later x y ≡ true) xs × IsSorted xs

    pub IsSorted-keep : (p : A → Bool) (xs : List A) → IsSorted xs → IsSorted (keep p xs)
    IsSorted-keep p [] h = tt
    IsSorted-keep p (x ∷ xs) h = elim (Bool-cases (p x)) [
      | inl e ↦ rw e (All-keep (λ y. later x y ≡ true) p xs h.0, IsSorted-keep p xs h.1)
      | inr e ↦ rw e (IsSorted-keep p xs h.1)
    ]

    keep-later' : (x : A) (xs : List A) → All (λ y. later x y ≡ true) xs → keep (later x) xs ≡ xs
    keep-later' x [] h = refl
    keep-later' x (y ∷ xs) h = ground (arith, keep-later' x xs)

    -- What is later than an entry of a sorted list is what stands after it.
    pub keep-later :
        ((x y : A) → later x y ≡ true → later y x ≡ false)
        → (xs : List A) (x : A) (ys : List A) → IsSorted (xs ++ x ∷ ys)
        → keep (later x) (xs ++ x ∷ ys) ≡ ys
    keep-later asym [] x ys h = elim (Bool-cases (later x x)) [
      | inl e ↦ absurd ground (arith, asym x x)
      | inr e ↦ ground (arith, keep-later' x ys h.0)
    ]
    keep-later asym (z ∷ xs) x ys h =
        ground (
          arith,
          asym z x (All-at (λ y. later z y ≡ true) x xs ys h.0),
          keep-later asym xs x ys h.1,
        )
