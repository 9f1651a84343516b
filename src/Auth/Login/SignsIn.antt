-- ===== src/Auth/Login/SignsIn.antt =====
-- What a login that signs a user in checked, and the session that it gives
-- (apps/api/src/auth/auth.service.ts).
use unified_inbox.Prelude.{
  ℕ, String, ◌≡◌, refl, sym, subst, ◌∙◌, ap, true, Option, none, some, List, [], ◌∷◌, arith, ◌==◌,
  is_some, str_eq,
}
use mathlib.Core.Option.{some-injective}
use unified_inbox.Prelude.Result.{ok, continue-ok}
use unified_inbox.Runtime.{Runtime, Env}
use unified_inbox.Schema.Rows.{User, Organization}
use unified_inbox.Database.{Prisma, Store}
use unified_inbox.Database.Lookups.{gate-ok}
use unified_inbox.Database.Statements.{World}
use unified_inbox.Auth.{
  get_email_verification_mode, VerificationMode, verification_mode, soft, login as at_login,
}
use unified_inbox.Auth.Base.{SessionPayload, new_session, Hashes, Member, filled, normalized}
use unified_inbox.Auth.Login.{
  Credentials, signed_in, Profile, login, login_as, answer, selected, joined, profile,
  check_password, check_verified, check_membership,
}

module _ (prisma : Prisma) (rt : Runtime) (env : Env) (hashes : Hashes) where
  -- What a login checked: the password, and the address where the mode asks for it.
  pub record IsChecked (dto : Credentials) (u : User) : Type 0 where
    pub hash : String
    pub has_password : filled u.password_hash ≡ some hash
    pub matches : hashes.compare dto.password hash ≡ true
    pub mode : VerificationMode
    pub configured : get_email_verification_mode rt env ≡ ok mode
    pub verified : mode ≡ at_login → is_some u.email_verified_at ≡ true

  check_password-ok :
      (password : String) (o : Option String) (w v : World)
      → check_password prisma rt env hashes password o w ≡ (ok tt, v)
      → (hash : String) × (o ≡ some hash) × (hashes.compare password hash ≡ true) × (v ≡ w)
  check_password-ok password none w v h = absurd cc
  check_password-ok password (some hash) w v h = (hash, refl, ground arith, ground arith)

  check_verified-ok :
      (mode : VerificationMode) (u : User) (w v : World)
      → check_verified prisma rt env hashes mode u w ≡ (ok tt, v)
      → (mode ≡ at_login → is_some u.email_verified_at ≡ true) × (v ≡ w)
  check_verified-ok soft u w v h = ((λ e. absurd cc), cc)
  check_verified-ok at_login u w v h = ((λ e. ground arith), ground arith)

  check_membership-ok :
      (ms : List Member) (w v : World)
      → check_membership prisma rt env hashes ms w ≡ (ok tt, v)
      → v ≡ w
  check_membership-ok [] w v h = absurd cc
  check_membership-ok (m ∷ ms) w v h = cc

  -- The answer of a login, and the member that it signs in.
  abbrev pub IsAnswer : ℕ → Option ℕ → Profile → User → Organization → SessionPayload → Type 0
  IsAnswer now org p u o session =
      (m : Member) × (selected org p.memberships ≡ some m)
      × (p.user ≡ u)
      × (m.organization ≡ o)
      × (session ≡ new_session now p.user.id m.membership.organization_id p.user.session_version)

  answer-ok :
      (now : ℕ) (org : Option ℕ) (p : Profile) (x : Option Member) (u : User) (o : Organization)
      (session : SessionPayload) (w v : World)
      → answer prisma rt env hashes now org p x w ≡ (ok (signed_in u o session), v)
      → (m : Member) × (x ≡ some m)
        × (p.user ≡ u)
        × (m.organization ≡ o)
        × (session ≡ new_session now p.user.id m.membership.organization_id p.user.session_version)
        × (v ≡ w)
  answer-ok now (some org) p none u o session w v h = absurd cc
  answer-ok now none p none u o session w v h = absurd cc
  answer-ok now (some org) p (some m) u o session w v h = (m, refl, cc, cc, cc, cc)
  answer-ok now none p (some m) u o session w v h = (m, refl, cc, cc, cc, cc)

  login_as-ok :
      (now : ℕ) (dto : Credentials) (x : Option Profile) (u : User) (o : Organization)
      (session : SessionPayload) (w v : World)
      → login_as prisma rt env hashes now dto x w ≡ (ok (signed_in u o session), v)
      → (p : Profile) × (x ≡ some p)
        × IsChecked dto p.user
        × IsAnswer now dto.organization_id p u o session
        × (v ≡ w)
  login_as-ok now dto none u o session w v h = absurd cc
  login_as-ok now dto (some p) u o session w v h =
      let (a, w1, e1, h1) = continue-ok _ _ _ _ h in
      let (hash, p1, q1, r1) =
        check_password-ok dto.password (filled p.user.password_hash) w w1 e1 in
      let (mode, w2, e2, h2) = continue-ok _ (verification_mode rt env w1) _ _ h1 in
      let (b, w3, e3, h3) = continue-ok _ _ _ _ h2 in
      let (p3, q3) = check_verified-ok mode p.user w2 w3 e3 in
      let (c, w4, e4, h4) = continue-ok _ _ _ _ h3 in
      let q4 = check_membership-ok p.memberships w3 w4 e4 in
      let (m, p5, q5, r5, s5, t5) = answer-ok now dto.organization_id p _ u o session w4 v h4 in
      (
        p,
        refl,
        record {
          hash = hash;
          has_password = p1;
          matches = q1;
          mode = mode;
          configured = ap (λ x. x.0) e2;
          verified = p3;
        },
        (m, p5, q5, r5, s5),
        t5 ∙ (q4 ∙ (q3 ∙ (sym (ap (λ x. x.1) e2) ∙ r1))),
      )

  profile-ok :
      (s : Store) (x : Option User) (p : Profile)
      → profile prisma rt env hashes s x ≡ some p
      → (x ≡ some p.user)
        × (p.memberships
            ≡ joined prisma rt env hashes s
                (prisma.memberships.find_many (λ m. m.user_id == p.user.id) s.memberships))
  profile-ok s none p h = absurd cc
  profile-ok s (some u) p h =
      let e = some-injective _ _ h in
      (
        ap (λ q. some q.user) e,
        sym (ap (λ q. q.memberships) e)
            ∙ ap
                (λ q.
                  joined prisma rt env hashes s
                    (prisma.memberships.find_many (λ m. m.user_id == q.user.id) s.memberships))
                e,
      )

  -- What a login that signs in found.
  pub login-ok :
      (now : ℕ) (dto : Credentials) (u : User) (o : Organization) (session : SessionPayload)
      (w v : World)
      → login prisma rt env hashes now dto w ≡ (ok (signed_in u o session), v)
      → (p : Profile) × (prisma.users.find_first
            (λ x. str_eq x.email (normalized rt dto.email))
            w.users
          ≡ some p.user)
        × (p.memberships
            ≡ joined prisma rt env hashes w.store
                (prisma.memberships.find_many (λ m. m.user_id == p.user.id) w.memberships))
        × IsChecked dto p.user
        × IsAnswer now dto.organization_id p u o session
        × (v ≡ w)
  unfolding login
  login-ok now dto u o session w v h =
      let (p, e, checked, answer, same) =
        login_as-ok now dto _ u o session w v
          (gate-ok (login_as prisma rt env hashes now dto) w.session _ w _ v h) in
      let (f, g) = profile-ok w.store _ p e in (p, f, g, checked, answer, same)

  -- A user who signs in is known by the normalized address, has the password that was given, and a
  -- verified address where the mode asks for one.
  pub login-IsChecked :
      (now : ℕ) (dto : Credentials) (u : User) (o : Organization) (session : SessionPayload)
      (w v : World)
      → login prisma rt env hashes now dto w ≡ (ok (signed_in u o session), v)
      → (prisma.users.find_first (λ x. str_eq x.email (normalized rt dto.email)) w.users ≡ some u)
        × IsChecked dto u
        × (v ≡ w)
  login-IsChecked now dto u o session w v h =
      let (p, f, g, checked, answer, same) = login-ok now dto u o session w v h in
      (f ∙ ap some answer.2, subst (IsChecked dto) answer.2 checked, same)
