-- ===== src/Database/Lookups.antt =====
-- What the laws of `Table` say of a lookup that finds nothing.
use unified_inbox.Prelude.{
  ◌≡◌, refl, Bool, true, false, none, some, List, [], ◌∷◌, arith, count, any, All, Holds, subst,
  sym, ap, ◌∙◌, ◌≤◌, Option-cases, inl, inr,
}
use unified_inbox.Prelude.Result.{Result, ok, err, Exec, continue}
use unified_inbox.Database.{Table}
use unified_inbox.Database.Statements.{World, Session, idle, active, aborted, gate, finish, commit}

module _ {Row : Type 0} where
  pub count-any : (p : Row → Bool) (rows : List Row) → count p rows ≡ 0 → any p rows ≡ false
  count-any p [] h = refl
  count-any p (r ∷ rows) h = ground (arith, count-any p rows)

  -- A row that a lookup did not find can be created.
  pub create-find_none :
      (t : Table Row) (p : Row → Bool) (r : Row) (rows : List Row)
      → t.find_first p rows ≡ none
      → t.create p r rows ≡ some (r ∷ rows)
  create-find_none t p r rows h =
      ground (arith, t.create_lem p r rows, count-any p rows (t.find_first_none p rows h))

  -- An empty table takes every row.
  pub create-empty :
      (t : Table Row) (p : Row → Bool) (r : Row) (rows : List Row)
      → rows ≡ []
      → t.create p r rows ≡ some (r ∷ [])
  create-empty t p r rows h =
      subst (λ x. t.create p r x ≡ some (r ∷ [])) (sym h) (t.create_lem p r [])

  -- A row that violates a unique constraint cannot.
  pub create-conflict :
      (t : Table Row) (p : Row → Bool) (r : Row) (rows : List Row)
      → any p rows ≡ true
      → t.create p r rows ≡ none
  create-conflict t p r rows h = ground (arith, t.create_lem p r rows)

  All-implied : (p : Row → Bool) (rows : List Row) → All (λ r. p r ≡ true → p r ≡ true) rows
  All-implied p [] = tt
  All-implied p (r ∷ rows) = ((λ h. h), All-implied p rows)

  -- What a lookup finds meets its test.
  pub find_first-meets :
      (t : Table Row) (p : Row → Bool) (r : Row) (rows : List Row)
      → t.find_first p rows ≡ some r
      → p r ≡ true
  find_first-meets t p r rows h =
      subst (Holds (λ x. p x ≡ true)) h (t.find_first_holds p p rows (All-implied p rows))

  -- The only row of a table is found.
  pub find_first-single :
      (t : Table Row) (p : Row → Bool) (r : Row) → p r ≡ true → t.find_first p (r ∷ []) ≡ some r
  find_first-single t p r h = ground (arith, t.find_first_only p (r ∷ []))

  -- A lookup finds a row, if one meets the test.
  pub find_first-some :
      (t : Table Row) (p : Row → Bool) (rows : List Row)
      → 1 ≤ count p rows
      → (r : Row) × (t.find_first p rows ≡ some r)
  find_first-some t p rows h = elim (Option-cases (t.find_first p rows)) [
    | inl e ↦ absurd ground (arith, t.find_first_none p rows e)
    | inr found ↦ found
  ]

-- What goes on after a query that was not refused.
pub gate-ok :
    {A B : Type 0} (k : A → Exec World B) (x : Session) (a : A) (w : World) (b : B) (v : World)
    → continue k (gate x (ok a, w) w) ≡ (ok b, v)
    → k a w ≡ (ok b, v)
gate-ok k idle a w b v h = h
gate-ok k active a w b v h = h
gate-ok k aborted a w b v h = absurd cc

-- A transaction that ended well had a body that did.
pub finish-ok :
    {A : Type 0} (w v : World) (x : Result A × World) (a : A)
    → finish w x ≡ (ok a, v)
    → (u : World) × (x ≡ (ok a, u))
finish-ok w v (ok b, u) a h = (u, ap (λ x. (x, u)) (sym (committed u.session) ∙ ap (λ x. x.0) h))
  where
    committed : (s : Session) → (commit s (ok b) u w).0 ≡ ok b
    committed idle = refl
    committed active = refl
    committed aborted = refl
finish-ok w v (err f, u) a h = absurd cc
