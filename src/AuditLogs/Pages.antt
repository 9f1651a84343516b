-- ===== src/AuditLogs/Pages.antt =====
-- A client that reads page after page with the cursors that it is given
-- (apps/api/src/audit-logs/audit-logs.service.ts).
use unified_inbox.Prelude.{
  ℕ, zero, suc, ◌≡◌, ◌≤◌, ◌<◌, ◌+◌, refl, sym, subst, ◌∙◌, ap, Bool, true, false, Option, none,
  some, List, [], ◌∷◌, ◌++◌, arith, length, length-append, take, map, ltb, ◌&&◌, Bool-cases, inl,
  inr, keep, All, String,
}
use native.Mathlib.Numerals.{add-one}
use unified_inbox.Prelude.Result.{Result, ok, err}
use unified_inbox.Runtime.{Runtime}
use unified_inbox.Auth.Base.{filled}
use unified_inbox.AuditLogs.{
  Codec, AuditTable, AuditRow, AuditItem, ListAuditLogsQuery, DecodedCursor, Page, Range,
  normalize_limit, range_of, to_item, to_page, matches, is_after, unless_given, cursor_of,
  encode_cursor, list_audit_logs,
}
use unified_inbox.AuditLogs.Bounds.{normalize_limit-bounds}
use unified_inbox.AuditLogs.Cursors.{CodecLaws, decode-encode_cursor, encode_cursor-filled}
use unified_inbox.AuditLogs.Sorted.{
  keep-and, keep-all, All-keep, All-at, take-length, take-take, length-take-suc, Split, split,
  last?-append, IsSorted, IsSorted-keep, keep-later,
}

ltb-true : (a b : ℕ) → a < b → ltb a b ≡ true
ltb-true a b h = ground arith

ltb-false : (a b : ℕ) → b < suc a → ltb a b ≡ false
ltb-false a b h = ground arith

module _ (codec : Codec) (rt : Runtime) (table : AuditTable) (org : ℕ) where
  abbrev with_rest :
      (ListAuditLogsQuery → Option (List AuditItem))
      → ListAuditLogsQuery
      → List AuditItem
      → Option String
      → Option (List AuditItem)
  with_rest next q items none = some items
  with_rest next q items (some c) = elim (next (record q { cursor = some c })) [
    | none ↦ none
    | some rest ↦ some (items ++ rest)
  ]

  abbrev read_on :
      (ListAuditLogsQuery → Option (List AuditItem))
      → ListAuditLogsQuery
      → Result Page
      → Option (List AuditItem)
  read_on next q (err e) = none
  read_on next q (ok p) = with_rest next q p.items p.next_cursor

  -- The entries of all pages, read one after the other at the given times; none if a page fails or
  -- the rounds do not suffice.
  unfoldable pub read_pages :
      ℕ → (ℕ → ℕ) → List AuditRow → ListAuditLogsQuery → Option (List AuditItem)
  read_pages zero times rows q = none
  read_pages (suc rounds) times rows q =
      read_on (read_pages rounds (λ i. times (suc i)) rows) q
        (list_audit_logs codec rt table org (times 0) q rows)

  -- The order of the pages.
  abbrev pub later : AuditRow → AuditRow → Bool
  later x y = is_after codec rt table org (record { id = x.id; created_at = x.created_at }) y

  -- The entries that a query asks for, the latest first.
  abbrev pub asked_for : ListAuditLogsQuery → Range → List AuditRow → List AuditRow
  asked_for q range rows = keep (matches codec rt table org q range) (table.newest_first rows)

  to_page-last :
      (limit : ℕ) (range : Range) (zs : List AuditRow)
      → length zs < suc limit
      → ((to_page codec rt table org limit range (take (limit + 1) zs)).items ≡ map to_item zs)
        × ((to_page codec rt table org limit range (take (limit + 1) zs)).next_cursor ≡ none)
  to_page-last limit range zs h =
      let e = take-length (limit + 1) zs (omega arith) in
      let few = ltb-false limit (length zs) (omega arith) in (rw (e, few) refl, rw (e, few) refl)

  to_page-more :
      (n : ℕ) (range : Range) (zs : List AuditRow) (s : Split (suc n) zs)
      → suc n < length zs
      → ((to_page codec rt table org (suc n) range (take (suc n + 1) zs)).items
          ≡ map to_item (s.before ++ s.last ∷ []))
        × ((to_page codec rt table org (suc n) range (take (suc n + 1) zs)).next_cursor
            ≡ some (encode_cursor codec s.last))
  to_page-more n range zs s h =
      let many =
        ltb-true (suc n) (length (take (suc (suc n)) zs))
          (omega (arith, length-take-suc (suc n) zs h)) in
      let shown = take-take (suc n) zs ∙ s.page in
      (
        rw (add-one (suc n), many, shown) refl,
        rw (add-one (suc n), many, shown, last?-append s.before s.last) refl,
      )

  -- The page that a query with a cursor gets.
  page_at :
      (now : ℕ) (q : ListAuditLogsQuery) (range : Range) (rows : List AuditRow)
      (c : Option DecodedCursor) (zs : List AuditRow)
      → range_of now q ≡ ok range
      → cursor_of codec rt (filled q.cursor) ≡ ok c
      → keep (λ r. unless_given (λ x. is_after codec rt table org x r) c) (asked_for q range rows)
        ≡ zs
      → list_audit_logs codec rt table org now q rows
        ≡ ok (
            to_page codec rt table org
              (normalize_limit q.limit)
              range
              (take (normalize_limit q.limit + 1) zs))
  unfolding list_audit_logs
  page_at now q range rows c zs same cursor left =
      let found =
        table.find_page_lem
          (λ r.
            matches codec rt table org q range r
            && unless_given (λ x. is_after codec rt table org x r) c)
          (normalize_limit q.limit + 1) rows in
      let rest =
        keep-and (matches codec rt table org q range)
          (λ r. unless_given (λ x. is_after codec rt table org x r) c) (table.newest_first rows)
        ∙ left in
      rw (same, cursor, found, rest) refl

  -- The cursor of a page's last row stands for the rows after it.
  rows_after :
      ((x y : AuditRow) → later x y ≡ true → later y x ≡ false)
      → (q : ListAuditLogsQuery) (range : Range) (rows before : List AuditRow) (last : AuditRow)
        (after : List AuditRow)
      → IsSorted later (table.newest_first rows)
      → asked_for q range rows ≡ before ++ last ∷ after
      → keep (later last) (asked_for q range rows) ≡ after
  rows_after asym q range rows before last after sorted e =
      ap (keep (later last)) e
      ∙ keep-later later asym before last after (
          subst (IsSorted later) e (
            IsSorted-keep later (matches codec rt table org q range) (table.newest_first rows)
              sorted))

  cursor_of-next :
      (r : AuditRow)
      → CodecLaws codec rt r
      → cursor_of codec rt (filled (some (encode_cursor codec r)))
        ≡ ok (some (record { id = r.id; created_at = r.created_at }))
  cursor_of-next r laws =
      rw (encode_cursor-filled codec rt r laws, decode-encode_cursor codec rt r laws) refl

  append_assoc : (xs ys zs : List AuditRow) → (xs ++ ys) ++ zs ≡ xs ++ (ys ++ zs)
  append_assoc [] ys zs = refl
  append_assoc (x ∷ xs) ys zs = ap (λ t. x ∷ t) (append_assoc xs ys zs)

  map-append : (xs ys : List AuditRow) → map to_item (xs ++ ys) ≡ map to_item xs ++ map to_item ys
  map-append [] ys = refl
  map-append (x ∷ xs) ys = ap (λ t. to_item x ∷ t) (map-append xs ys)

  last_round :
      (next : ListAuditLogsQuery → Option (List AuditItem)) (q : ListAuditLogsQuery) (limit : ℕ)
      (range : Range) (zs : List AuditRow)
      → length zs < suc limit
      → read_on next q (ok (to_page codec rt table org limit range (take (limit + 1) zs)))
        ≡ some (map to_item zs)
  last_round next q limit range zs h =
      let (items, cursor) = to_page-last limit range zs h in
      ap (with_rest next q _) cursor ∙ ap some items

  more_rounds :
      (next : ListAuditLogsQuery → Option (List AuditItem)) (q : ListAuditLogsQuery) (n : ℕ)
      (range : Range) (zs : List AuditRow) (s : Split (suc n) zs)
      → suc n < length zs
      → next (record q { cursor = some (encode_cursor codec s.last) }) ≡ some (map to_item s.after)
      → read_on next q (ok (to_page codec rt table org (suc n) range (take (suc n + 1) zs)))
        ≡ some (map to_item zs)
  more_rounds next q n range zs s h rest =
      let (items, cursor) = to_page-more n range zs s h in
      ap (with_rest next q _) cursor
      ∙ ap
          (λ o. elim o as (λ x. Option (List AuditItem)) [
            | none ↦ none
            | some r ↦
                some ((to_page codec rt table org (suc n) range (take (suc n + 1) zs)).items ++ r)
          ])
          rest
      ∙ ap (λ x. some (x ++ map to_item s.after)) items
      ∙ ap some (sym (map-append (s.before ++ s.last ∷ []) s.after))
      ∙ ap (λ x. some (map to_item x)) (append_assoc s.before (s.last ∷ []) s.after ∙ sym s.whole)

  positive : (n : ℕ) → 1 ≤ n → (m : ℕ) × (n ≡ suc m)
  positive zero h = absurd omega arith
  positive (suc m) h = (m, refl)

  at_limit :
      (next : ListAuditLogsQuery → Option (List AuditItem)) (q : ListAuditLogsQuery) (limit : ℕ)
      (range : Range) (zs : List AuditRow)
      → 1 ≤ limit
      → ((n : ℕ) (s : Split (suc n) zs)
          → next (record q { cursor = some (encode_cursor codec s.last) })
            ≡ some (map to_item s.after))
      → read_on next q (ok (to_page codec rt table org limit range (take (limit + 1) zs)))
        ≡ some (map to_item zs)
  at_limit next q zero range zs h rest = absurd omega arith
  at_limit next q (suc n) range zs h rest = elim (Bool-cases (ltb (suc n) (length zs))) [
    | inl e ↦
        more_rounds next q n range zs (split n zs (ground arith)) (ground arith)
          (rest n (split n zs (ground arith)))
    | inr e ↦ last_round next q (suc n) range zs (ground arith)
  ]

  module _ (rows : List AuditRow) (range : Range) (q0 : ListAuditLogsQuery)
      (asym : (x y : AuditRow) → later x y ≡ true → later y x ≡ false)
      (sorted : IsSorted later (table.newest_first rows))
      (laws : All (CodecLaws codec rt) (table.newest_first rows)) where
    -- The query with the cursor of a round.
    abbrev at_cursor : Option String → ListAuditLogsQuery
    at_cursor c = record q0 { cursor = c }

    -- What the rounds read from a cursor on.
    read_from :
        (rounds : ℕ) (times : ℕ → ℕ) (cursor : Option String) (c : Option DecodedCursor)
        (ws zs : List AuditRow)
        → ((i : ℕ) → range_of (times i) q0 ≡ ok range)
        → cursor_of codec rt (filled cursor) ≡ ok c
        → asked_for q0 range rows ≡ ws ++ zs
        → keep
            (λ r. unless_given (λ x. is_after codec rt table org x r) c)
            (asked_for q0 range rows)
          ≡ zs
        → length zs < rounds
        → read_pages rounds times rows (at_cursor cursor) ≡ some (map to_item zs)
    unfolding read_pages range_of
    read_from zero times cursor c ws zs same known whole left fits = absurd omega arith
    read_from (suc rounds) times cursor c ws zs same known whole left fits =
        ap (read_on (read_pages rounds (λ i. times (suc i)) rows) (at_cursor cursor))
          (page_at (times 0) (at_cursor cursor) range rows c zs (same 0) known left)
        ∙ at_limit (read_pages rounds (λ i. times (suc i)) rows) (at_cursor cursor)
            (normalize_limit q0.limit) range zs (normalize_limit-bounds q0.limit).0
            (λ n s.
              let e =
                whole
                ∙ ap (λ x. ws ++ x) s.whole
                ∙ sym (append_assoc ws s.before (s.last ∷ s.after)) in
              read_from rounds (λ i. times (suc i)) (some (encode_cursor codec s.last))
                (some (record { id = s.last.id; created_at = s.last.created_at }))
                ((ws ++ s.before) ++ s.last ∷ []) s.after (λ i. same (suc i))
                (cursor_of-next s.last (
                  All-at (CodecLaws codec rt) s.last (ws ++ s.before) s.after (
                    subst (All (CodecLaws codec rt)) e (
                      All-keep (CodecLaws codec rt) (matches codec rt table org q0 range)
                        (table.newest_first rows) laws))))
                (e ∙ sym (append_assoc (ws ++ s.before) (s.last ∷ []) s.after))
                (rows_after asym q0 range rows (ws ++ s.before) s.last s.after sorted e)
                (omega (arith, ap length s.whole, length-append s.before (s.last ∷ s.after))))

  -- A client that starts without a cursor and follows the cursors gets every entry that it asked for,
  -- each once and the latest first, in as many rounds as there are entries and one more at most. The
  -- range is the same at every round, as that of a query with both ends within the last 90 days is;
  -- the entries stay the same; the order of the database is that of time and id; and the encoders of
  -- a cursor are inverted by their decoders.
  pub read_pages-All :
      (rows : List AuditRow) (range : Range) (q : ListAuditLogsQuery) (rounds : ℕ) (times : ℕ → ℕ)
      → ((x y : AuditRow) → later x y ≡ true → later y x ≡ false)
      → IsSorted later (table.newest_first rows)
      → All (CodecLaws codec rt) (table.newest_first rows)
      → ((i : ℕ) → range_of (times i) q ≡ ok range)
      → q.cursor ≡ none
      → length (asked_for q range rows) < rounds
      → read_pages rounds times rows q ≡ some (map to_item (asked_for q range rows))
  read_pages-All rows range q rounds times asym sorted laws same start fits =
      subst
        (λ c.
          read_pages rounds times rows (record q { cursor = c })
          ≡ some (map to_item (asked_for q range rows)))
        (sym start)
        (read_from rows range q asym sorted laws rounds times none none [] (asked_for q range rows)
          same refl refl (keep-all (λ r. true) (asked_for q range rows) (λ r. refl)) fits)
