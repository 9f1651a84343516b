-- ===== src/Auth/Bootstrap/Owner.antt =====
-- The first owner (apps/api/src/auth/auth.service.ts: bootstrapOwner).
use unified_inbox.Prelude.{
  ℕ, ◌≡◌, refl, sym, subst, ◌∙◌, ap, Bool, true, false, some, List, [], ◌∷◌, arith, count,
  if◌then◌else◌, ◌==◌, ◌||◌, str_eq, Bool-cases, inl, inr,
}
use unified_inbox.Prelude.Text.{trim, is_empty}
use unified_inbox.Prelude.Result.{ok, err, ok-injective, conflict, bad_request, continue-ok, throw}
use unified_inbox.Runtime.{Runtime, Env}
use unified_inbox.Schema.Enums.{owner}
use unified_inbox.Schema.Rows.{User, Organization, Membership}
use unified_inbox.Database.{Prisma, Store}
use unified_inbox.Database.Lookups.{create-empty, find_first-single}
use unified_inbox.Database.Statements.{World, idle, active, finish}
use unified_inbox.Auth.{VerificationMode, get_session_details, get_email_verification_mode}
use unified_inbox.Auth.Base.{SessionPayload, new_session, Hashes, is_member}
use unified_inbox.Auth.Details.{IsMemberOf, details-accepted}
use unified_inbox.Auth.Slug.{slugify_organization_name}
use unified_inbox.Auth.Bootstrap.{
  BootstrapOwner, NewIds, Bootstrapped, is_bootstrap_available, create_owner, get_bootstrap_status,
  bootstrap_owner, create_and_sign_in, owner_session, new_organization, new_user, new_membership,
  bootstrap_completed, add_organization, add_user, add_membership,
}

empty_of : {Row : Type 0} (rows : List Row) → count (λ r. true) rows ≡ 0 → rows ≡ []
empty_of [] h = refl
empty_of (r ∷ rows) h = absurd ground arith

module _ (prisma : Prisma) (rt : Runtime) (hashes : Hashes) where
  available-empty :
      (s : Store)
      → is_bootstrap_available prisma rt hashes s ≡ true
      → (s.organizations ≡ []) × (s.users ≡ []) × (s.memberships ≡ [])
  available-empty s h = (
    empty_of s.organizations
        (ground (arith, prisma.organizations.count_rows_lem (λ o. true) s.organizations)),
    empty_of s.users (ground (arith, prisma.users.count_rows_lem (λ o. true) s.users)),
    empty_of s.memberships
        (ground (arith, prisma.memberships.count_rows_lem (λ o. true) s.memberships)),
  )

  -- The rows after the first owner was created.
  abbrev pub bootstrapped : NewIds → BootstrapOwner → World → World
  bootstrapped ids dto w = record w {
    store = record w.store {
      organizations = new_organization prisma rt hashes ids dto ∷ [];
      users = new_user prisma rt hashes ids dto ∷ [];
      memberships = new_membership prisma rt hashes ids ∷ [];
      audit_logs = bootstrap_completed prisma rt hashes ids dto ∷ w.audit_logs;
    };
    session = idle;
  }

  add_organization-empty :
      (o : Organization) (s : Store)
      → s.organizations ≡ []
      → add_organization prisma rt hashes o s ≡ some (record s { organizations = o ∷ [] })
  add_organization-empty o s h = ground (
    arith,
    create-empty prisma.organizations (λ x. str_eq x.slug o.slug || x.id == o.id) o s.organizations
        h,
  )

  add_user-empty :
      (u : User) (s : Store)
      → s.users ≡ []
      → add_user prisma rt hashes u s ≡ some (record s { users = u ∷ [] })
  add_user-empty u s h =
      ground
        (arith, create-empty prisma.users (λ x. str_eq x.email u.email || x.id == u.id) u s.users h)

  add_membership-empty :
      (m : Membership) (s : Store)
      → s.memberships ≡ []
      → add_membership prisma rt hashes m s ≡ some (record s { memberships = m ∷ [] })
  add_membership-empty m s h = ground (
    arith,
    create-empty prisma.memberships (λ x. is_member m.organization_id m.user_id x || x.id == m.id) m
        s.memberships h,
  )

  created :
      (ids : NewIds) (dto : BootstrapOwner) (w : World)
      → is_bootstrap_available prisma rt hashes w.store ≡ true
      → finish w (create_owner prisma rt hashes ids dto (record w { session = active })) ≡ (
        ok (record {
          user = new_user prisma rt hashes ids dto;
          organization = new_organization prisma rt hashes ids dto;
        }),
        bootstrapped ids dto w,
      )
  created ids dto w h =
      let (no_orgs, no_users, no_members) = available-empty w.store h in
      rw
        (
          h,
          add_organization-empty (new_organization prisma rt hashes ids dto) w.store no_orgs,
          add_user-empty (new_user prisma rt hashes ids dto)
              (record w.store { organizations = new_organization prisma rt hashes ids dto ∷ [] })
              no_users,
          add_membership-empty (new_membership prisma rt hashes ids)
              (record w.store {
                organizations = new_organization prisma rt hashes ids dto ∷ [];
                users = new_user prisma rt hashes ids dto ∷ [];
              })
              no_members,
        )
        refl

  refused :
      (ids : NewIds) (dto : BootstrapOwner) (w : World)
      → is_bootstrap_available prisma rt hashes w.store ≡ false
      → finish w (create_owner prisma rt hashes ids dto (record w { session = active }))
        ≡ (err (conflict "Bootstrap is not available after the first owner is created"), w)
  refused ids dto w h = rw h refl

  -- What the transaction answers: it creates the first owner, or it refuses and changes nothing.
  transacted-cases :
      (ids : NewIds) (dto : BootstrapOwner) (w v : World) (r : Bootstrapped)
      → finish w (create_owner prisma rt hashes ids dto (record w { session = active })) ≡ (ok r, v)
      → (r ≡ record {
        user = new_user prisma rt hashes ids dto;
        organization = new_organization prisma rt hashes ids dto;
      })
        × (v ≡ bootstrapped ids dto w)
  transacted-cases ids dto w v r h =
      elim (Bool-cases (is_bootstrap_available prisma rt hashes w.store)) [
        | inl p ↦
            let e = sym h ∙ created ids dto w p in (ok-injective (ap (λ x. x.0) e), ap (λ x. x.1) e)
        | inr p ↦ absurd cc
      ]

  -- What bootstrap returns.
  abbrev the_owner : NewIds → BootstrapOwner → Bootstrapped
  the_owner ids dto = record {
    user = new_user prisma rt hashes ids dto;
    organization = new_organization prisma rt hashes ids dto;
  }

  signed_in-ok :
      (now : ℕ) (ids : NewIds) (dto : BootstrapOwner) (w v : World) (r : Bootstrapped)
      (session : SessionPayload)
      → create_and_sign_in prisma rt hashes now ids dto w ≡ (ok (r, session), v)
      → (session ≡ new_session now ids.user ids.organization 0)
        × (r ≡ the_owner ids dto)
        × (v ≡ bootstrapped ids dto w)
  signed_in-ok now ids dto w v r session h =
      let (r', v', e, k) =
        continue-ok _
          (finish w (create_owner prisma rt hashes ids dto (record w { session = active }))) _ _
          h in
      let (p, q) = transacted-cases ids dto w v' r' e in
      let same = ok-injective (ap (λ x. x.0) k) in
      (
        sym (ap (λ x. x.1) same) ∙ ap (owner_session prisma rt hashes now) p,
        sym (ap (λ x. x.0) same) ∙ p,
        sym (ap (λ x. x.1) k) ∙ q,
      )

  bootstrap-ok :
      (now : ℕ) (ids : NewIds) (dto : BootstrapOwner) (w v : World) (r : Bootstrapped)
      (session : SessionPayload)
      → bootstrap_owner prisma rt hashes now ids dto w ≡ (ok (r, session), v)
      → (session ≡ new_session now ids.user ids.organization 0)
        × (r ≡ the_owner ids dto)
        × (v ≡ bootstrapped ids dto w)
  unfolding bootstrap_owner
  bootstrap-ok now ids dto w v r session h =
      named (is_empty (slugify_organization_name rt (trim dto.organization_name))) h
    where
      named :
          (b : Bool)
          → ((if b
                then throw {A = Bootstrapped × SessionPayload}
                    (bad_request "Organization name must include letters or numbers")
                else create_and_sign_in prisma rt hashes now ids dto)
              w)
            ≡ (ok (r, session), v)
          → (session ≡ new_session now ids.user ids.organization 0)
            × (r ≡ the_owner ids dto)
            × (v ≡ bootstrapped ids dto w)
      named true k = absurd cc
      named false k = signed_in-ok now ids dto w v r session k

  no_longer_available :
      (ids : NewIds) (dto : BootstrapOwner) (w : World)
      → is_bootstrap_available prisma rt hashes (bootstrapped ids dto w).store ≡ false
  no_longer_available ids dto w = ground (
    arith,
    prisma.organizations.count_rows_lem (λ o. true)
        (new_organization prisma rt hashes ids dto ∷ []),
  )

  -- Bootstrap works once: after it created an owner, every further attempt with a name that has
  -- letters or digits is refused and changes nothing, and the status says that it is not available.
  pub bootstrap_once :
      (now now' : ℕ) (ids ids' : NewIds) (dto dto' : BootstrapOwner) (w v : World)
      (r : Bootstrapped × SessionPayload)
      → bootstrap_owner prisma rt hashes now ids dto w ≡ (ok r, v)
      → is_empty (slugify_organization_name rt (trim dto'.organization_name)) ≡ false
      → (bootstrap_owner prisma rt hashes now' ids' dto' v
          ≡ (err (conflict "Bootstrap is not available after the first owner is created"), v))
        × (get_bootstrap_status prisma rt hashes v ≡ (ok false, v))
  unfolding bootstrap_owner get_bootstrap_status
  bootstrap_once now now' ids ids' dto dto' w v (r, session) h named =
      let (e, k, same) = bootstrap-ok now ids dto w v r session h in
      subst
        (λ x.
          (bootstrap_owner prisma rt hashes now' ids' dto' x
            ≡ (err (conflict "Bootstrap is not available after the first owner is created"), x))
          × (get_bootstrap_status prisma rt hashes x ≡ (ok false, x)))
        (sym same)
        (rw (named, no_longer_available ids dto w) refl, rw (no_longer_available ids dto w) refl)

  bootstrapped-IsMemberOf :
      (env : Env) (now : ℕ) (ids : NewIds) (dto : BootstrapOwner) (w : World)
      → IsMemberOf prisma rt env
          (bootstrapped ids dto w).store
          (new_session now ids.user ids.organization 0)
          (record {
            membership = new_membership prisma rt hashes ids;
            user = new_user prisma rt hashes ids dto;
            organization = new_organization prisma rt hashes ids dto;
          })
  bootstrapped-IsMemberOf env now ids dto w = record {
    membership = find_first-single prisma.memberships _ _ (ground arith);
    user = find_first-single prisma.users _ _ (ground arith);
    organization = find_first-single prisma.organizations _ _ (ground arith);
  }

  -- The session that bootstrap gives is that of an owner of the new organization, where the
  -- verification mode is configured.
  pub bootstrap-accepted :
      (env : Env) (mode : VerificationMode) (now : ℕ) (ids : NewIds) (dto : BootstrapOwner)
      (w v : World) (r : Bootstrapped) (session : SessionPayload)
      → get_email_verification_mode rt env ≡ ok mode
      → bootstrap_owner prisma rt hashes now ids dto w ≡ (ok (r, session), v)
      → get_session_details prisma rt env session v ≡ (
        ok (record { role = owner; mode = mode; user = r.user; organization = r.organization }),
        v,
      )
  bootstrap-accepted env mode now ids dto w v r session c h =
      let (e, k, same) = bootstrap-ok now ids dto w v r session h in
      let accepted =
        details-accepted prisma rt env (new_session now ids.user ids.organization 0)
          (bootstrapped ids dto w) _ mode refl (bootstrapped-IsMemberOf env now ids dto w) refl c in
      rw (e, k, same) accepted
