-- ===== src/Auth/Login/Accepted.antt =====
-- The session that a login gives (apps/api/src/auth/auth.service.ts).
use unified_inbox.Prelude.{
  ℕ, ◌≡◌, ◌≤◌, refl, sym, subst, ◌∙◌, ap, Bool, true, ◌&&◌, Option, none, some, List, [], ◌∷◌,
  arith, count, ◌==◌, str_eq, Bool-cases, inl, inr,
}
use unified_inbox.Prelude.Result.{ok}
use unified_inbox.Runtime.{Runtime, Env}
use unified_inbox.Schema.Rows.{User, Organization, Membership}
use unified_inbox.Database.{Prisma, Store}
use unified_inbox.Database.Lookups.{find_first-some, find_first-meets}
use unified_inbox.Database.Unique.{found_by, count-implied}
use unified_inbox.Auth.Login.SignsIn.{login-ok}
use unified_inbox.Database.Statements.{World, idle}
use unified_inbox.Auth.{SessionDetails, get_session_details}
use unified_inbox.Auth.Base.{
  SessionPayload, new_session, Hashes, Member, member_of, normalized, is_member,
}
use unified_inbox.Auth.Details.{IsMemberOf, details-accepted, user_found}
use unified_inbox.Auth.Login.{
  Credentials, signed_in, login, answer, selected, member_in, only_member, joined, with_member,
}

module _ (prisma : Prisma) (rt : Runtime) (env : Env) (hashes : Hashes) where
  -- The membership of a member that was joined.
  abbrev IsFrom : Store → List Membership → Member → Type 0
  IsFrom s rows m =
      (r : Membership) × (member_of prisma s r ≡ some m)
      × ((q : Membership → Bool) → q r ≡ true → 1 ≤ count q rows)

  IsFrom-later :
      (s : Store) (r : Membership) (rows : List Membership) (m : Member)
      → IsFrom s rows m
      → IsFrom s (r ∷ rows) m
  IsFrom-later s r rows m (r', e, k) = (r', e, (λ q h. ground (arith, k q h)))

  IsFrom-here :
      (s : Store) (r : Membership) (rows : List Membership) (m : Member)
      → member_of prisma s r ≡ some m
      → IsFrom s (r ∷ rows) m
  IsFrom-here s r rows m e = (r, e, (λ q h. ground arith))

  member_in-IsFrom :
      (s : Store) (org : ℕ) (rows : List Membership) (m : Member)
      → member_in org (joined prisma rt env hashes s rows) ≡ some m
      → IsFrom s rows m
  member_in-IsFrom s org [] m h = absurd cc
  member_in-IsFrom s org (r ∷ rows) m h =
      first (member_in-IsFrom s org rows m) (member_of prisma s r) refl h
    where
      first :
          (member_in org (joined prisma rt env hashes s rows) ≡ some m → IsFrom s rows m)
          → (o : Option Member) → member_of prisma s r ≡ o
          → member_in org (with_member prisma rt env hashes o (joined prisma rt env hashes s rows))
            ≡ some m
          → IsFrom s (r ∷ rows) m
      first later none e k = IsFrom-later s r rows m (later k)
      first later (some n) e k = elim (Bool-cases (n.membership.organization_id == org)) [
        | inl p ↦ IsFrom-here s r rows m (ground arith)
        | inr p ↦ IsFrom-later s r rows m (later (ground arith))
      ]

  only_member-first : (n m : Member) (ms : List Member) → only_member (n ∷ ms) ≡ some m → n ≡ m
  only_member-first n m [] h = ground arith
  only_member-first n m (x ∷ ms) h = absurd cc

  only_member-IsFrom :
      (s : Store) (rows : List Membership) (m : Member)
      → only_member (joined prisma rt env hashes s rows) ≡ some m
      → IsFrom s rows m
  only_member-IsFrom s [] m h = absurd cc
  only_member-IsFrom s (r ∷ rows) m h =
      first (only_member-IsFrom s rows m) (member_of prisma s r) refl h
    where
      first :
          (only_member (joined prisma rt env hashes s rows) ≡ some m → IsFrom s rows m)
          → (o : Option Member) → member_of prisma s r ≡ o
          → only_member (with_member prisma rt env hashes o (joined prisma rt env hashes s rows))
            ≡ some m
          → IsFrom s (r ∷ rows) m
      first later none e k = IsFrom-later s r rows m (later k)
      first later (some n) e k = IsFrom-here s r rows m (e ∙ ap some (only_member-first n m _ k))

  selected-IsFrom :
      (s : Store) (org : Option ℕ) (rows : List Membership) (m : Member)
      → selected org (joined prisma rt env hashes s rows) ≡ some m
      → IsFrom s rows m
  selected-IsFrom s none rows m h = only_member-IsFrom s rows m h
  selected-IsFrom s (some org) rows m h = member_in-IsFrom s org rows m h

  -- A membership of the user in the organization, if not the one that was selected.
  member_exists :
      (s : Store) (user : ℕ) (r : Membership)
      → ((q : Membership → Bool)
          → q r ≡ true
          → 1 ≤ count q (prisma.memberships.find_many (λ m. m.user_id == user) s.memberships))
      → 1 ≤ count (is_member r.organization_id user) s.memberships
  member_exists s user r some_of =
      let n = some_of (λ m. m.organization_id == r.organization_id) (ground arith) in
      let e =
        prisma.memberships.find_many_lem (λ m. m.user_id == user)
          (λ m. m.organization_id == r.organization_id) s.memberships in
      let le =
        count-implied (λ m. m.user_id == user && m.organization_id == r.organization_id)
          (is_member r.organization_id user) s.memberships (λ m h. ground arith) in
      ground arith

  selected-IsMemberOf :
      (s : Store) (now version : ℕ) (u : User) (m : Member)
      → IsFrom s (prisma.memberships.find_many (λ x. x.user_id == u.id) s.memberships) m
      → prisma.users.find_first (λ x. x.id == u.id) s.users ≡ some u
      → (x : Member) × IsMemberOf prisma rt env s
          (new_session now u.id m.membership.organization_id version)
          x
        × (x.user ≡ u)
        × (x.organization ≡ m.organization)
  selected-IsMemberOf s now version u m (r, e, some_of) known =
      let (same, user, organization) = user_found prisma rt env s r _ m e in
      let (r', found) =
        find_first-some prisma.memberships (is_member r.organization_id u.id) s.memberships
          (member_exists s u.id r some_of) in
      let meets =
        find_first-meets prisma.memberships (is_member r.organization_id u.id) r' s.memberships
          found in
      (
        record { membership = r'; user = u; organization = m.organization },
        record {
          membership =
              subst
                (λ (x : Membership).
                  prisma.memberships.find_first (is_member x.organization_id u.id) s.memberships
                  ≡ some r')
                same found;
          user =
              subst (λ x. prisma.users.find_first (λ y. y.id == x) s.users ≡ some u) (ground arith)
                known;
          organization =
              subst
                (λ x.
                  prisma.organizations.find_first (λ y. y.id == x) s.organizations
                  ≡ some m.organization)
                (ground arith) organization;
        },
        refl,
        refl,
      )

  -- A session that a login gives is accepted, for the user and the organization of the login.
  -- Addresses and ids of users are unique, and so is a membership of a user in an organization. No
  -- transaction is open.
  pub login-accepted :
      (now : ℕ) (dto : Credentials) (u : User) (o : Organization) (session : SessionPayload)
      (w v : World)
      → w.session ≡ idle
      → count (λ x. str_eq x.email (normalized rt dto.email)) w.users ≤ 1
      → ((id : ℕ) → count (λ (x : User). x.id == id) w.users ≤ 1)
      → login prisma rt env hashes now dto w ≡ (ok (signed_in u o session), v)
      → (d : SessionDetails) × (get_session_details prisma rt env session v ≡ (ok d, v))
        × (d.user ≡ u)
        × (d.organization ≡ o)
  login-accepted now dto u o session w v i one one_id h =
      let (p, user, rows, checked, answer, same) =
        login-ok prisma rt env hashes now dto u o session w v h in
      let (m, chosen, e, org, given) = answer in
      let from =
        selected-IsFrom w.store dto.organization_id _ m
          (subst (λ ms. selected dto.organization_id ms ≡ some m) rows chosen) in
      let known =
        found_by prisma.users _ (λ x. x.id == p.user.id) p.user w.users one (one_id p.user.id)
          (ground arith) user in
      let (x, member, its_user, its_org) =
        selected-IsMemberOf w.store now p.user.session_version p.user m from known in
      (
        record {
          role = x.membership.role;
          mode = checked.mode;
          user = x.user;
          organization = x.organization;
        },
        subst
            (λ y. get_session_details prisma rt env session y ≡ (
              ok (record {
                role = x.membership.role;
                mode = checked.mode;
                user = x.user;
                organization = x.organization;
              }),
              y,
            ))
            (sym same)
            (details-accepted prisma rt env session w x checked.mode i
              (subst (λ y. IsMemberOf prisma rt env w.store y x) (sym given) member) (ground arith)
              checked.configured),
        its_user ∙ e,
        its_org ∙ org,
      )
