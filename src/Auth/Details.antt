-- ===== src/Auth/Details.antt =====
-- getSessionDetails: what a session that is accepted was looked up as, and when one is refused
-- (apps/api/src/auth/auth.service.ts).
use unified_inbox.Prelude.{◌≡◌, refl, subst, ap, true, false, Option, none, some, arith, ◌==◌}
use unified_inbox.Prelude.Result.{Result, ok, err, unauthorized, ◌>>=◌, pure}
use unified_inbox.Schema.Rows.{User, Membership, Organization}
use unified_inbox.Runtime.{Runtime, Env}
use unified_inbox.Database.{Prisma, Store}
use unified_inbox.Database.Lookups.{gate-ok}
use unified_inbox.Database.Statements.{World, idle}
use unified_inbox.Auth.{
  SessionDetails, VerificationMode, get_email_verification_mode, get_session_details,
  session_member, verification_mode,
}
use unified_inbox.Auth.Base.{
  SessionPayload, Member, member_found, with_user, with_organization, is_member,
}

module _ (prisma : Prisma) (rt : Runtime) (env : Env) where
  -- The rows that a session stands for.
  pub record IsMemberOf (s : Store) (session : SessionPayload) (x : Member) : Type 0 where
    pub membership :
        prisma.memberships.find_first
          (is_member session.organization_id session.user_id)
          s.memberships
        ≡ some x.membership
    pub user : prisma.users.find_first (λ u. u.id == x.membership.user_id) s.users ≡ some x.user
    pub organization :
        prisma.organizations.find_first (λ o. o.id == x.membership.organization_id) s.organizations
        ≡ some x.organization

  organization_found :
      (m : Membership) (u : User) (o : Option Organization) (x : Member)
      → with_organization prisma m u o ≡ some x
      → (m ≡ x.membership) × (u ≡ x.user) × (o ≡ some x.organization)
  organization_found m u none x h = absurd cc
  organization_found m u (some o) x h = (ground arith, ground arith, ground arith)

  pub user_found :
      (s : Store) (m : Membership) (o : Option User) (x : Member)
      → with_user prisma s m o ≡ some x
      → (m ≡ x.membership)
        × (o ≡ some x.user)
        × (prisma.organizations.find_first (λ o. o.id == m.organization_id) s.organizations
            ≡ some x.organization)
  user_found s m none x h = absurd cc
  user_found s m (some u) x h = let (p, q, r) = organization_found m u _ x h in (p, ap some q, r)

  found :
      (s : Store) (o : Option Membership) (x : Member)
      → member_found prisma s o ≡ some x
      → (o ≡ some x.membership)
        × (prisma.users.find_first (λ u. u.id == x.membership.user_id) s.users ≡ some x.user)
        × (prisma.organizations.find_first
              (λ o. o.id == x.membership.organization_id)
              s.organizations
            ≡ some x.organization)
  found s none x h = absurd cc
  found s (some m) x h =
      let (p, q, r) = user_found s m _ x h in
      (
        ap some p,
        subst (λ m. prisma.users.find_first (λ u. u.id == m.user_id) s.users ≡ some x.user) p q,
        subst
            (λ m.
              prisma.organizations.find_first (λ o. o.id == m.organization_id) s.organizations
              ≡ some x.organization)
            p r,
      )

  member_found-IsMemberOf :
      (s : Store) (session : SessionPayload) (x : Member)
      → member_found prisma s (
          prisma.memberships.find_first
            (is_member session.organization_id session.user_id)
            s.memberships)
        ≡ some x
      → IsMemberOf s session x
  member_found-IsMemberOf s session x h =
      let (p, q, r) = found s _ x h in record { membership = p; user = q; organization = r }

  pub IsMemberOf-found :
      (s : Store) (session : SessionPayload) (x : Member)
      → IsMemberOf s session x
      → member_found prisma s (
          prisma.memberships.find_first
            (is_member session.organization_id session.user_id)
            s.memberships)
        ≡ some x
  IsMemberOf-found s session x h = rw (h.membership, h.user, h.organization) refl

  abbrev answer : SessionPayload → Option Member → World → Result SessionDetails × World
  answer session o = do
    m ← session_member prisma rt env session o
    mode ← verification_mode rt env
    pure (record {
      role = m.membership.role;
      mode = mode;
      user = m.user;
      organization = m.organization;
    })

  accepted :
      (session : SessionPayload) (w v : World) (d : SessionDetails) (o : Option Member)
      → answer session o w ≡ (ok d, v)
      → (m : Member) × (o ≡ some m) × (m.user.session_version ≡ session.session_version)
  accepted session w v d none h = absurd cc
  accepted session w v d (some m) h = (m, refl, ground arith)

  -- What a session that was accepted stands for.
  pub details-IsMemberOf :
      (session : SessionPayload) (w v : World) (d : SessionDetails)
      → get_session_details prisma rt env session w ≡ (ok d, v)
      → (x : Member) × IsMemberOf w.store session x
        × (x.user.session_version ≡ session.session_version)
  unfolding get_session_details
  details-IsMemberOf session w v d h =
      let (x, p, q) = accepted session w v d _ (gate-ok (answer session) w.session _ w d v h) in
      (x, member_found-IsMemberOf w.store session x p, q)

  -- A session of another version than the user's is refused.
  pub details-refused :
      (session : SessionPayload) (w : World) (x : Member)
      → w.session ≡ idle
      → IsMemberOf w.store session x
      → (x.user.session_version == session.session_version) ≡ false
      → get_session_details prisma rt env session w ≡ (err (unauthorized "Invalid session"), w)
  unfolding get_session_details
  details-refused session w x i h k = rw (i, IsMemberOf-found w.store session x h, k) refl

  -- One of the user's version is accepted, where the mode is configured.
  pub details-accepted :
      (session : SessionPayload) (w : World) (x : Member) (mode : VerificationMode)
      → w.session ≡ idle
      → IsMemberOf w.store session x
      → (x.user.session_version == session.session_version) ≡ true
      → get_email_verification_mode rt env ≡ ok mode
      → get_session_details prisma rt env session w ≡ (
        ok (record {
          role = x.membership.role;
          mode = mode;
          user = x.user;
          organization = x.organization;
        }),
        w,
      )
  unfolding get_session_details
  details-accepted session w x mode i h k c =
      rw (i, IsMemberOf-found w.store session x h, k, c) refl
