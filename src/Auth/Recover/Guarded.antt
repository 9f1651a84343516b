-- ===== src/Auth/Recover/Guarded.antt =====
-- When recoverOwnerAccess gives a session (apps/api/src/auth/auth.service.ts).
use unified_inbox.Prelude.{
  Bool, true, if◌then◌else◌, ltb, List, ◌==◌, ◌&&◌, ◌+◌, not, ℕ, String, ◌≡◌, refl, sym, ◌∙◌, ap,
  false, Option, none, some, arith, count, subst, Bool-cases, inl, inr, eq_iff, is_some, str_eq,
}
use unified_inbox.Prelude.Text.{trim}
use unified_inbox.Prelude.Result.{
  ok, ok-injective, continue, continue-ok, pure, throw, conflict, ◌>>=◌,
}
use unified_inbox.Runtime.{Runtime, Env, trimmed}
use unified_inbox.Schema.Rows.{Membership, User}
use unified_inbox.Database.{Prisma, Store, map_where}
use unified_inbox.Database.Lookups.{finish-ok, find_first-meets}
use unified_inbox.Database.Statements.{World, active, finish, query, transaction}
use unified_inbox.Auth.Base.{SessionPayload, Hashes, Member, member_found, filled, normalized}
use unified_inbox.Auth.Recover.{
  RecoverOwner, Recovered, is_password_backed_owner, is_owner_at, check_target, check_inactive,
  is_without_password, activate, completed, completed_with, set_password, check_no_owners, counted,
  owner_session, recover_target, recover_in_transaction, check_secret, recover_owner_access,
}

module _ (prisma : Prisma) (rt : Runtime) (env : Env) (hashes : Hashes) where
  check_inactive-ok :
      (t : Member) (w v : World)
      → check_inactive prisma rt env hashes t w ≡ (ok tt, v)
      → (is_some (filled t.user.password_hash) ≡ false) × (v ≡ w)
  check_inactive-ok t w v h = (ground arith, ground arith)

  check_no_owners-ok :
      (n : ℕ) (w v : World) → check_no_owners prisma rt env hashes n w ≡ (ok tt, v) → n ≡ 0
  check_no_owners-ok n w v h = ground arith

  check_secret-ok :
      (o : Option String) (given : String) (w v : World)
      → check_secret prisma rt env hashes o given w ≡ (ok tt, v)
      → (o ≡ some given) × (v ≡ w)
  check_secret-ok none given w v h = absurd cc
  check_secret-ok (some secret) given w v h = elim (Bool-cases (str_eq secret given)) [
    | inl e ↦ (ap some ((eq_iff secret given).0 e), ground arith)
    | inr e ↦ absurd ground arith
  ]

  -- A transaction on an owner succeeds only if no owner has a password.
  target-ok :
      (email password : String) (t : Member) (w v : World) (r : Recovered)
      → recover_target prisma rt env hashes email password t (record w { session = active })
        ≡ (ok r, v)
      → (is_some (filled t.user.password_hash) ≡ false)
        × (count
              (is_password_backed_owner prisma rt env hashes w.store t.membership.organization_id)
              w.memberships
            ≡ 0)
  target-ok email password t w v r h =
      let (a, w1, e1, h1) = continue-ok _ _ _ _ h in
      let (p1, q1) = check_inactive-ok t _ w1 e1 in
      let owners =
        prisma.memberships.count_rows
          (is_password_backed_owner prisma rt env hashes w.store t.membership.organization_id)
          w.memberships in
      let h2 =
        subst
          (λ x.
            ((query (λ s.
                  prisma.memberships.count_rows
                    (is_password_backed_owner prisma rt env hashes s t.membership.organization_id)
                    s.memberships)
                >>= counted prisma rt env hashes email password t)
              x)
            ≡ (ok r, v))
          q1 h1 in
      let (b, w2, e2, h3) =
        continue-ok _ (check_no_owners prisma rt env hashes owners (record w { session = active }))
          _ _ h2 in
      (
        p1,
        sym (
              prisma.memberships.count_rows_lem
                (is_password_backed_owner prisma rt env hashes w.store t.membership.organization_id)
                w.memberships)
            ∙ check_no_owners-ok owners _ w2 e2,
      )

  -- The users after a recovery: the one owner has the password.
  abbrev pub recovered_users : RecoverOwner → ℕ → List User → List User
  recovered_users dto id rows =
      map_where (λ u. u.id == id && not (is_some u.password_hash))
        (λ u. record u {
          password_hash = some (hashes.hash dto.password);
          session_version = u.session_version + 1;
        })
        rows

  -- The open transaction after the password was set.
  abbrev updated : World → List User → World
  updated w rows = record w { store = record w.store { users = rows }; session = active }

  completed_with-ok :
      (t : Member) (email password : String) (n : ℕ) (u : User) (o : Option String)
      (rows : List User) (w v : World) (r : Recovered)
      → finish w (completed_with prisma rt env hashes t email password n u o (updated w rows))
        ≡ (ok r, v)
      → (r ≡ record { user = u; organization = t.organization }) × (v.users ≡ rows)
  completed_with-ok t email password n u none rows w v r h = absurd cc
  completed_with-ok t email password n u (some hash) rows w v r h = (ground arith, ground arith)

  completed-ok :
      (t : Member) (email password : String) (n : ℕ) (o : Option User) (rows : List User)
      (w v : World) (r : Recovered)
      → finish w (completed prisma rt env hashes t email password n o (updated w rows)) ≡ (ok r, v)
      → (o ≡ some r.user) × (r.organization ≡ t.organization) × (v.users ≡ rows)
  completed-ok t email password n none rows w v r h = absurd cc
  completed-ok t email password n (some u) rows w v r h =
      let (e, k) = completed_with-ok t email password n u (filled u.password_hash) rows w v r h in
      (ap (λ x. some x.user) (sym e), ap (λ x. x.organization) e, k)

  checked-ok :
      (dto : RecoverOwner) (email : String) (t : Member) (n : ℕ) (b : Bool) (w v : World)
      (r : Recovered)
      → finish w (
          continue
            (λ u. set_password prisma rt env hashes t.user.id (hashes.hash dto.password) >>= λ m.
              (query (λ s. prisma.users.find_first (λ u. u.id == t.user.id) s.users)
                >>= completed prisma rt env hashes t email dto.password m))
            ((if b
                then throw (
                    conflict
                      "Owner recovery is only available when the organization has no password-backed owners.")
                else pure tt)
              (record w { session = active })))
        ≡ (ok r, v)
      → (r.user.id ≡ t.user.id)
        × (r.organization ≡ t.organization)
        × (v.users ≡ recovered_users dto t.user.id w.users)
  checked-ok dto email t n true w v r h = absurd cc
  checked-ok dto email t n false w v r h =
      let x =
        prisma.users.update_many (is_without_password prisma rt env hashes t.user.id)
          (activate prisma rt env hashes (hashes.hash dto.password)) w.users in
      let (e, o, k) =
        completed-ok t email dto.password x.1 (prisma.users.find_first (λ u. u.id == t.user.id) x.0)
          x.0 w v r h in
      let m = find_first-meets prisma.users (λ u. u.id == t.user.id) r.user x.0 e in
      (
        ground arith,
        o,
        k
            ∙ ap (λ y. y.0)
                (prisma.users.update_many_lem (is_without_password prisma rt env hashes t.user.id)
                  (activate prisma rt env hashes (hashes.hash dto.password)) w.users),
      )

  counted-ok :
      (dto : RecoverOwner) (email : String) (t : Member) (n : ℕ) (w v : World) (r : Recovered)
      → finish w
          (counted prisma rt env hashes email dto.password t n (record w { session = active }))
        ≡ (ok r, v)
      → (r.user.id ≡ t.user.id)
        × (r.organization ≡ t.organization)
        × (v.users ≡ recovered_users dto t.user.id w.users)
  counted-ok dto email t n = checked-ok dto email t n (ltb 0 n)

  recovered-ok :
      (dto : RecoverOwner) (email : String) (t : Member) (b : Bool) (w v : World) (r : Recovered)
      → finish w (
          continue
            (λ u.
              query (λ s.
                prisma.memberships.count_rows
                  (is_password_backed_owner prisma rt env hashes s t.membership.organization_id)
                  s.memberships)
              >>= counted prisma rt env hashes email dto.password t)
            ((if b
                then throw
                    (conflict "Owner account already has a password. Use the normal login flow.")
                else pure tt)
              (record w { session = active })))
        ≡ (ok r, v)
      → (r.user.id ≡ t.user.id)
        × (r.organization ≡ t.organization)
        × (v.users ≡ recovered_users dto t.user.id w.users)
  recovered-ok dto email t true w v r h = absurd cc
  recovered-ok dto email t false w v r h =
      counted-ok dto email t
        (prisma.memberships.count_rows
          (is_password_backed_owner prisma rt env hashes w.store t.membership.organization_id)
          w.memberships)
        w v r h

  -- What a recovery found and did when it succeeded.
  pub record IsGuarded (dto : RecoverOwner) (s : Store) (v : World) (r : Recovered) (t : Member)
      : Type 0 where
    pub membership : Membership
    pub found :
        prisma.memberships.find_first
          (is_owner_at prisma rt env hashes s
            (normalized rt dto.organization_slug)
            (normalized rt dto.email))
          s.memberships
        ≡ some membership
    pub joined : member_found prisma s (some membership) ≡ some t
    pub inactive : is_some (filled t.user.password_hash) ≡ false
    pub alone :
        count
          (is_password_backed_owner prisma rt env hashes s t.membership.organization_id)
          s.memberships
        ≡ 0
    pub user_is : r.user.id ≡ t.user.id
    pub organization_is : r.organization ≡ t.organization
    pub users_after : v.users ≡ recovered_users dto t.user.id s.users

  guarded :
      (dto : RecoverOwner) (w v : World) (r : Recovered) (o : Option Membership) (x : Option Member)
      → prisma.memberships.find_first
          (is_owner_at prisma rt env hashes w.store
            (normalized rt dto.organization_slug)
            (normalized rt dto.email))
          w.memberships
        ≡ o
      → member_found prisma w.store o ≡ x
      → finish w (
          continue
            (recover_target prisma rt env hashes (normalized rt dto.email) dto.password)
            (check_target prisma rt env hashes x (record w { session = active })))
        ≡ (ok r, v)
      → (t : Member) × IsGuarded dto w.store v r t
  guarded dto w v r o none found joined h = absurd cc
  guarded dto w v r none (some t) found joined h = absurd cc
  guarded dto w v r (some m) (some t) found joined h =
      let (u, k) = finish-ok w v _ r h in
      let (inactive, alone) = target-ok (normalized rt dto.email) dto.password t w u r k in
      let (user_is, organization_is, users_after) =
        recovered-ok dto (normalized rt dto.email) t (is_some (filled t.user.password_hash)) w v r
          h in
      (
        t,
        record {
          membership = m;
          found = found;
          joined = joined;
          inactive = inactive;
          alone = alone;
          user_is = user_is;
          organization_is = organization_is;
          users_after = users_after;
        },
      )

  transacted-ok :
      (now : ℕ) (dto : RecoverOwner) (w v : World) (r : Recovered × SessionPayload)
      → continue
          (λ x. pure (x, owner_session prisma rt env hashes now x))
          (transaction
            (recover_in_transaction prisma rt env hashes
              (normalized rt dto.organization_slug)
              (normalized rt dto.email)
              dto.password)
            w)
        ≡ (ok r, v)
      → (t : Member) × IsGuarded dto w.store v r.0 t
        × (r.1.user_id ≡ t.user.id)
        × (r.1.organization_id ≡ t.organization.id)
  transacted-ok now dto w v r h =
      let (x, w1, e, k) =
        continue-ok (λ x. pure (x, owner_session prisma rt env hashes now x))
          (finish w (
            recover_in_transaction prisma rt env hashes (normalized rt dto.organization_slug)
              (normalized rt dto.email) dto.password (record w { session = active })))
          r v h in
      let same : w1 ≡ v = ap (λ y. y.1) k in
      let result : (x, owner_session prisma rt env hashes now x) ≡ r =
        ok-injective (ap (λ y. y.0) k) in
      let (t, g) = guarded dto w w1 x _ _ refl refl e in
      (
        t,
        subst (λ y. IsGuarded dto w.store y r.0 t) same
            (subst (λ y. IsGuarded dto w.store w1 y t) (ap (λ y. y.0) result) g),
        ap (λ y. y.1.user_id) (sym result) ∙ g.user_is,
        ap (λ y. y.1.organization_id) (sym result) ∙ ap (λ o. o.id) g.organization_is,
      )

  -- An owner's access is recovered only with the configured secret, only for the owner that the slug
  -- and the address name, only if that owner has no password, and only while no owner of the
  -- organization has one. That owner gets the new password and no other user is changed, and the
  -- session is the owner's, for the organization.
  pub recover-IsGuarded :
      (now : ℕ) (dto : RecoverOwner) (w v : World) (r : Recovered × SessionPayload)
      → recover_owner_access prisma rt env hashes now dto w ≡ (ok r, v)
      → (trimmed env.auth_recovery_secret ≡ some (trim dto.recovery_secret))
        × ((t : Member) × IsGuarded dto w.store v r.0 t
            × (r.1.user_id ≡ t.user.id)
            × (r.1.organization_id ≡ t.organization.id))
  unfolding recover_owner_access
  recover-IsGuarded now dto w v r h =
      let (a, w1, e1, h1) =
        continue-ok _
          (check_secret prisma rt env hashes (trimmed env.auth_recovery_secret)
            (trim dto.recovery_secret) w)
          _ _ h in
      let (secret, same) = check_secret-ok _ _ w w1 e1 in
      (
        secret,
        transacted-ok now dto w v r (
            subst
              (λ x.
                continue (λ y. pure (y, owner_session prisma rt env hashes now y))
                  (transaction
                    (recover_in_transaction prisma rt env hashes
                      (normalized rt dto.organization_slug) (normalized rt dto.email) dto.password)
                    x)
                ≡ (ok r, v))
              same h1),
      )
