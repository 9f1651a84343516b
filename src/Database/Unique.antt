-- ===== src/Database/Unique.antt =====
-- Rows whose test at most one row meets: a lookup finds that row, and a change of it alone.
use unified_inbox.Prelude.{
  ◌+◌, ◌≡◌, ◌≤◌, refl, sym, ◌∙◌, Bool, true, false, some, List, [], ◌∷◌, arith, any, count, keep,
  not, head?, All, subst,
}
use unified_inbox.Database.{Table, map_where}

module _ {Row : Type 0} where
  pub any-count : (p : Row → Bool) (rows : List Row) → any p rows ≡ false → count p rows ≡ 0
  any-count p [] h = refl
  any-count p (r ∷ rows) h = ground (arith, any-count p rows)

  pub count-implied :
      (p q : Row → Bool) (rows : List Row)
      → ((r : Row) → p r ≡ true → q r ≡ true)
      → count p rows ≤ count q rows
  count-implied p q [] k = ground arith
  count-implied p q (r ∷ rows) k = ground (arith, k r, count-implied p q rows k)

  none_left :
      (q : Row → Bool) (t : Row) (rows : List Row)
      → count q rows ≡ 0
      → All (λ r. q r ≡ true → r ≡ t) rows
  none_left q t [] h = tt
  none_left q t (r ∷ rows) h = ((λ k. ground arith), ground (arith, none_left q t rows))

  -- The first row that meets a test is one of the rows.
  kept-count :
      (p q : Row → Bool) (t : Row) (rows : List Row)
      → head? (keep p rows) ≡ some t
      → q t ≡ true
      → 1 ≤ count q rows
  kept-count p q t [] h k = ground arith
  kept-count p q t (r ∷ rows) h k = ground (arith, kept-count p q t rows)

  -- It is the only row that meets another test, if it meets that and one row at most does.
  only_kept :
      (p q : Row → Bool) (t : Row) (rows : List Row)
      → q t ≡ true
      → count q rows ≤ 1
      → head? (keep p rows) ≡ some t
      → All (λ r. q r ≡ true → r ≡ t) rows
  only_kept p q t [] k u h = tt
  only_kept p q t (r ∷ rows) k u h = (
    (λ e. ground (arith, kept-count p q t rows)),
    ground (arith, only_kept p q t rows k, none_left q t rows),
  )

  -- What a lookup finds is the only row that meets a test of one row at most.
  pub only_found :
      (table : Table Row) (p q : Row → Bool) (t : Row) (rows : List Row)
      → count p rows ≤ 1
      → count q rows ≤ 1
      → q t ≡ true
      → table.find_first p rows ≡ some t
      → All (λ r. q r ≡ true → r ≡ t) rows
  only_found table p q t rows v u k h =
      only_kept p q t rows k u (sym (table.find_first_only p rows v) ∙ h)

  -- A change of rows that are all `t` takes away from a test what it takes away from `t`.
  pub count-map_where_kept :
      (p q : Row → Bool) (f : Row → Row) (t : Row) (rows : List Row)
      → All (λ r. p r ≡ true → r ≡ t) rows
      → (q t ≡ true → q (f t) ≡ true)
      → count q rows ≤ count q (map_where p f rows)
  count-map_where_kept p q f t [] a k = ground arith
  count-map_where_kept p q f t (r ∷ rows) a k = ground (arith, count-map_where_kept p q f t rows)

  pub count-map_where_lost :
      (p q : Row → Bool) (f : Row → Row) (rows : List Row)
      → count q rows ≤ count p rows + count q (map_where p f rows)
  count-map_where_lost p q f [] = ground arith
  count-map_where_lost p q f (r ∷ rows) = ground (arith, count-map_where_lost p q f rows)

  pub count-removed_kept :
      (p q : Row → Bool) (t : Row) (rows : List Row)
      → All (λ r. p r ≡ true → r ≡ t) rows
      → q t ≡ false
      → count q rows ≤ count q (keep (λ r. not (p r)) rows)
  count-removed_kept p q t [] a k = ground arith
  count-removed_kept p q t (r ∷ rows) a k = ground (arith, count-removed_kept p q t rows)

  pub count-removed_lost :
      (p q : Row → Bool) (rows : List Row)
      → count q rows ≤ count p rows + count q (keep (λ r. not (p r)) rows)
  count-removed_lost p q [] = ground arith
  count-removed_lost p q (r ∷ rows) = ground (arith, count-removed_lost p q rows)

  pub count-removed_none :
      (p : Row → Bool) (rows : List Row) → count p (keep (λ r. not (p r)) rows) ≡ 0
  count-removed_none p [] = refl
  count-removed_none p (r ∷ rows) = ground (arith, count-removed_none p rows)

  -- The tests of rows that a change leaves alone find the changed row.
  head?-keep-map_where :
      (p q : Row → Bool) (f : Row → Row) (t : Row) (rows : List Row)
      → ((r : Row) → p (f r) ≡ p r)
      → q t ≡ true
      → head? (keep p rows) ≡ some t
      → head? (keep p (map_where q f rows)) ≡ some (f t)
  head?-keep-map_where p q f t [] k m h = ground arith
  head?-keep-map_where p q f t (r ∷ rows) k m h =
      ground (arith, k r, head?-keep-map_where p q f t rows k m)

  count-map_where_same :
      (p q : Row → Bool) (f : Row → Row) (rows : List Row)
      → ((r : Row) → p (f r) ≡ p r)
      → count p (map_where q f rows) ≡ count p rows
  count-map_where_same p q f [] k = refl
  count-map_where_same p q f (r ∷ rows) k = ground (arith, k r, count-map_where_same p q f rows k)

  -- A row that stands for all rows that meet a test meets it, if one does.
  only-meets :
      (q : Row → Bool) (t : Row) (rows : List Row)
      → All (λ r. q r ≡ true → r ≡ t) rows
      → count q rows ≡ 1
      → q t ≡ true
  only-meets q t [] a h = absurd (ground arith)
  only-meets q t (r ∷ rows) a h = ground (arith, only-meets q t rows)

  All-implied :
      (p q : Row → Bool) (t : Row) (rows : List Row)
      → ((r : Row) → p r ≡ true → q r ≡ true)
      → All (λ r. q r ≡ true → r ≡ t) rows
      → All (λ r. p r ≡ true → r ≡ t) rows
  All-implied p q t [] k a = tt
  All-implied p q t (r ∷ rows) k a = ((λ h. a.0 (k r h)), All-implied p q t rows k a.1)

  -- A lookup finds a row changed, where its test does not see the change.
  pub changed_found :
      (table : Table Row) (p q : Row → Bool) (f : Row → Row) (t : Row) (rows : List Row)
      → ((r : Row) → p (f r) ≡ p r)
      → count p rows ≤ 1
      → q t ≡ true
      → table.find_first p rows ≡ some t
      → table.find_first p (map_where q f rows) ≡ some (f t)
  changed_found table p q f t rows same one k found =
      table.find_first_only p _
        (subst (λ c. c ≤ 1) (sym (count-map_where_same p q f rows same)) one)
      ∙ head?-keep-map_where p q f t rows same k (sym (table.find_first_only p rows one) ∙ found)

  -- The same, of a change that only rows with the key of the found one can get.
  pub claimed_found :
      (table : Table Row) (p key q : Row → Bool) (f : Row → Row) (t : Row) (rows : List Row)
      → ((r : Row) → p (f r) ≡ p r)
      → count p rows ≤ 1
      → count key rows ≤ 1
      → ((r : Row) → q r ≡ true → key r ≡ true)
      → key t ≡ true
      → table.find_first p rows ≡ some t
      → count q rows ≡ 1
      → table.find_first p (map_where q f rows) ≡ some (f t)
  claimed_found table p key q f t rows same one one_key implied k found n =
      let only =
        All-implied q key t rows implied (only_found table p key t rows one one_key k found) in
      changed_found table p q f t rows same one (only-meets q t rows only n) found

  kept_by :
      (p q : Row → Bool) (t : Row) (rows : List Row)
      → count q rows ≤ 1
      → q t ≡ true
      → head? (keep p rows) ≡ some t
      → head? (keep q rows) ≡ some t
  kept_by p q t [] one k h = absurd cc
  kept_by p q t (r ∷ rows) one k h = ground (arith, kept_by p q t rows, kept-count p q t rows)

  -- What one lookup finds another finds too, if it meets its test and no other row does.
  pub found_by :
      (table : Table Row) (p q : Row → Bool) (t : Row) (rows : List Row)
      → count p rows ≤ 1
      → count q rows ≤ 1
      → q t ≡ true
      → table.find_first p rows ≡ some t
      → table.find_first q rows ≡ some t
  found_by table p q t rows one one_key k found =
      table.find_first_only q rows one_key
      ∙ kept_by p q t rows one_key k (sym (table.find_first_only p rows one) ∙ found)
