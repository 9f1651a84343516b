-- ===== src/AuditLogs/Bounds.antt =====
-- The size and the range of a page (apps/api/src/audit-logs/audit-logs.service.ts).
use unified_inbox.Prelude.{
  ℕ, zero, suc, ◌≡◌, ◌≤◌, ◌-◌, ◌+◌, refl, Bool, true, false, Option, none, some, List, [], ◌∷◌,
  arith, length, take, map, ltb, sym, ap, subst, or_else, is_some, ◌&&◌, Bool-cases, inl, inr,
  if◌then◌else◌,
}
use unified_inbox.Prelude.Int.{ℤ, pos, negsuc}
use unified_inbox.Prelude.Result.{Result, ok, err, bad_request, ok-injective}
use unified_inbox.Runtime.{Runtime}
use unified_inbox.AuditLogs.{
  Codec, AuditTable, AuditRow, ListAuditLogsQuery, DecodedCursor, Page, Range, normalize_limit,
  max_limit, range_of, bounded_range, check_range, last_90_days, to_page, page_after, page_in,
  to_item, matches, unless_given, is_after, list_audit_logs,
}

pub normalize_limit-bounds :
    (l : Option ℤ) → (1 ≤ normalize_limit l) × (normalize_limit l ≤ max_limit)
unfolding normalize_limit
normalize_limit-bounds none = (omega arith, omega arith)
normalize_limit-bounds (some (negsuc n)) = (omega arith, omega arith)
normalize_limit-bounds (some (pos n)) = (ground arith, ground arith)

check_range-ok :
    (from to : ℕ) (r : Range)
    → check_range from to ≡ ok r
    → (r.from ≡ from) × (r.to ≡ to) × (from ≤ to)
check_range-ok from to r h = (ground arith, ground arith, ground arith)

-- Within the last 90 days and in order.
abbrev IsRecent : ℕ → Range → Type 0
IsRecent now r = (now - last_90_days ≤ r.from) × (r.from ≤ r.to) × (r.to ≤ now)

bounded_range-IsRecent :
    (now from to : ℕ) (r : Range)
    → bounded_range now (now - last_90_days) from to ≡ ok r
    → IsRecent now r
bounded_range-IsRecent now from to r h =
    let (p, q, le) = check_range-ok _ _ r h in (ground arith, ground arith, ground arith)

range_of-IsRecent :
    (now : ℕ) (q : ListAuditLogsQuery) (r : Range) → range_of now q ≡ ok r → IsRecent now r
unfolding range_of
range_of-IsRecent now q r h =
    checked
      (is_some q.from
        && (is_some q.to && ltb (or_else q.to now) (or_else q.from (now - last_90_days))))
      h
  where
    checked :
        (b : Bool)
        → (if b
            then err (bad_request "from must be before to")
            else bounded_range now
                (now - last_90_days)
                (or_else q.from (now - last_90_days))
                (or_else q.to now))
          ≡ ok r
        → IsRecent now r
    checked true k = absurd cc
    checked false k = bounded_range-IsRecent now _ _ r k

length-map : {A B : Type 0} (f : A → B) (xs : List A) → length (map f xs) ≡ length xs
length-map f [] = refl
length-map f (x ∷ xs) = omega (arith, length-map f xs)

length-take : {A : Type 0} (n : ℕ) (xs : List A) → length (take n xs) ≤ n
length-take zero xs = omega arith
length-take (suc n) [] = omega arith
length-take (suc n) (x ∷ xs) = omega (arith, length-take n xs)

module _ (codec : Codec) (rt : Runtime) (table : AuditTable) (org : ℕ) where
  to_page-length :
      (limit : ℕ) (range : Range) (rows : List AuditRow)
      → length (to_page codec rt table org limit range rows).items ≤ limit
  to_page-length limit range rows = elim (Bool-cases (ltb limit (length rows))) [
    | inl e ↦ rw e (omega (arith, length-map to_item (take limit rows), length-take limit rows))
    | inr e ↦ rw e (ground (arith, length-map to_item rows))
  ]

  page_after-bounds :
      (q : ListAuditLogsQuery) (range : Range) (rows : List AuditRow)
      (c : Result (Option DecodedCursor)) (p : Page)
      → page_after codec rt table org q range rows c ≡ ok p
      → (p.limit ≡ normalize_limit q.limit) × (p.range ≡ range) × (length p.items ≤ p.limit)
  page_after-bounds q range rows (err e) p h = absurd cc
  page_after-bounds q range rows (ok c) p h =
      let e = ok-injective h in
      (
        sym (ap (λ x. x.limit) e),
        sym (ap (λ x. x.range) e),
        subst (λ x. length x.items ≤ x.limit) e
            (to_page-length (normalize_limit q.limit) range (
              table.find_page
                (λ r.
                  matches codec rt table org q range r
                  && unless_given (λ x. is_after codec rt table org x r) c)
                (normalize_limit q.limit + 1) rows)),
      )

  page_in-bounds :
      (now : ℕ) (q : ListAuditLogsQuery) (rows : List AuditRow) (r : Result Range) (p : Page)
      → ((range : Range) → r ≡ ok range → IsRecent now range)
      → page_in codec rt table org q rows r ≡ ok p
      → (p.limit ≡ normalize_limit q.limit) × IsRecent now p.range × (length p.items ≤ p.limit)
  page_in-bounds now q rows (err e) p k h = absurd cc
  page_in-bounds now q rows (ok range) p k h =
      let (a, b, c) = page_after-bounds q range rows _ p h in
      (a, subst (IsRecent now) (sym b) (k range refl), c)

  -- A page has a limit between 1 and 100, whatever was asked for, and no more entries than its limit;
  -- its range is in order, within the last 90 days and not in the future.
  pub list_audit_logs-bounds :
      (now : ℕ) (q : ListAuditLogsQuery) (rows : List AuditRow) (p : Page)
      → list_audit_logs codec rt table org now q rows ≡ ok p
      → ((1 ≤ p.limit) × (p.limit ≤ max_limit))
        × (length p.items ≤ p.limit)
        × ((now - last_90_days ≤ p.range.from) × (p.range.from ≤ p.range.to) × (p.range.to ≤ now))
  unfolding list_audit_logs
  list_audit_logs-bounds now q rows p h =
      let (a, b, c) = page_in-bounds now q rows (range_of now q) p (range_of-IsRecent now q) h in
      let (low, high) = normalize_limit-bounds q.limit in ((omega arith, omega arith), c, b)
