-- ===== src/Database/Memory.antt =====
-- A client over plain lists: it shows that the laws of `Table` can hold, and it runs in tests.
use unified_inbox.Prelude.{
  ◌≡◌, refl, Bool, true, Option, none, some, List, [], ◌∷◌, arith, if◌then◌else◌, All, Holds, count,
  keep, any, not, head?, Bool-cases, inl, inr, ◌&&◌,
}
use unified_inbox.Database.{Table, Prisma, map_where}

module _ {Row : Type 0} where
  abbrev pub find : (Row → Bool) → List Row → Option Row
  find p [] = none
  find p (r ∷ rows) = if p r then some r else find p rows

  pub find-Holds :
      (p q : Row → Bool) (rows : List Row)
      → All (λ r. p r ≡ true → q r ≡ true) rows
      → Holds (λ r. q r ≡ true) (find p rows)
  find-Holds p q [] h = tt
  find-Holds p q (r ∷ rows) h = elim (Bool-cases (p r)) [
    | inl e ↦ rw e (h.0 e)
    | inr e ↦ rw e (find-Holds p q rows h.1)
  ]

  pub find-none : (p : Row → Bool) (rows : List Row) → find p rows ≡ none → count p rows ≡ 0
  find-none p [] h = refl
  find-none p (r ∷ rows) h = ground (arith, find-none p rows)

  pub find_only : (p : Row → Bool) (rows : List Row) → find p rows ≡ head? (keep p rows)
  find_only p [] = refl
  find_only p (r ∷ rows) = ground (arith, find_only p rows)

  pub keep_many :
      (p q : Row → Bool) (rows : List Row) → count q (keep p rows) ≡ count (λ r. p r && q r) rows
  keep_many p q [] = refl
  keep_many p q (r ∷ rows) = ground (arith, keep_many p q rows)

abbrev pub table : (Row : Type 0) → Table Row
table Row = record {
  find_first = find;
  find_many = keep;
  count_rows = count;
  update_many = λ p f rows. (map_where p f rows, count p rows);
  delete_many = λ p. keep (λ r. not (p r));
  create = λ p r rows. if any p rows then none else some (r ∷ rows);
  find_first_holds = find-Holds;
  find_first_none = find-none;
  find_first_only = λ p rows _. find_only p rows;
  find_many_lem = keep_many;
  count_rows_lem = λ p rows. refl;
  update_many_lem = λ p f rows. refl;
  delete_many_lem = λ p rows. refl;
  create_lem = λ p r rows. refl;
}

-- PostgreSQL's transactions over the plain lists.
abbrev pub memory : Prisma
memory = record {
  organizations = table _;
  users = table _;
  memberships = table _;
  channels = table _;
  conversations = table _;
  messages = table _;
  invitations = table _;
  channel_accounts = table _;
  raw_webhook_events = table _;
  password_reset_tokens = table _;
  email_verification_tokens = table _;
  notes = table _;
  tags = table _;
  conversation_tags = table _;
  aborts = true;
}
