-- ===== src/Team/Members/Owners.antt =====
-- The owners that updateMemberRole and removeMember leave (apps/api/src/team/team.service.ts).
use unified_inbox.Prelude.{
  ℕ, ◌≡◌, ◌≤◌, true, false, some, List, arith, count, ◌==◌, leb, Bool-cases, inl, inr, All, keep,
  not,
}
use unified_inbox.Prelude.Result.{Result}
use unified_inbox.Schema.Enums.{Role}
use unified_inbox.Schema.Rows.{Membership}
use unified_inbox.Database.{Prisma, map_where}
use unified_inbox.Database.Lookups.{find_first-meets}
use unified_inbox.Database.Statements.{World, finish}
use unified_inbox.Team.{is_owner, is_owner_of}
use unified_inbox.Team.Members.{is_target, with_role, downgrades, update_member_role, remove_member}
use unified_inbox.Team.Members.Steps.{as_owner-then, find_target-then, check_owners-then}
use unified_inbox.Database.Unique.{
  only_found, count-implied, count-map_where_kept, count-map_where_lost, count-removed_kept,
  count-removed_lost,
}

-- A membership's id is its primary key.
abbrev pub HasUniqueIds : List Membership → Type 0
HasUniqueIds rows = (id : ℕ) → count (λ m. m.id == id) rows ≤ 1

abbrev pub HasOwner : ℕ → List Membership → Type 0
HasOwner org rows = 1 ≤ count (is_owner_of org) rows

abbrev changed : ℕ → Role → List Membership → List Membership
changed id r rows = map_where (λ m. m.id == id) (with_role r) rows

abbrev left : ℕ → List Membership → List Membership
left id rows = keep (λ m. not (m.id == id)) rows

module _ (prisma : Prisma) (org id : ℕ) (t : Membership) (rows : List Membership) where
  pub target-id :
      prisma.memberships.find_first (is_target org id) rows ≡ some t
      → (t.id ≡ id) × (t.organization_id ≡ org)
  target-id h = ground (arith, find_first-meets prisma.memberships (is_target org id) t rows h)

  -- The rows with the id of the target are the target.
  target-only :
      HasUniqueIds rows
      → prisma.memberships.find_first (is_target org id) rows ≡ some t
      → All (λ m. m.id == t.id ≡ true → m ≡ t) rows
  target-only u h =
      let e = target-id h in
      only_found prisma.memberships (is_target org id) (λ m. m.id == t.id) t rows
        (ground (
          arith,
          u id,
          count-implied (is_target org id) (λ m. m.id == id) rows (λ m k. ground arith),
        ))
        (u t.id) (ground arith) h

  -- What the guard lets pass.
  role-HasOwner :
      (r : Role) (any_org : ℕ)
      → HasUniqueIds rows
      → prisma.memberships.find_first (is_target org id) rows ≡ some t
      → (downgrades t.role r ≡ true → leb (count (is_owner_of org) rows) 1 ≡ false)
      → HasOwner any_org rows
      → HasOwner any_org (changed t.id r rows)
  role-HasOwner r any_org u h guard k = elim (Bool-cases (downgrades t.role r)) [
    | inl e ↦ elim (Bool-cases (any_org == org)) [
      | inl e' ↦ ground (
        arith,
        u t.id,
        count-map_where_lost (λ m. m.id == t.id) (is_owner_of any_org) (with_role r) rows,
      )
      | inr e' ↦ ground (
        arith,
        target-id h,
        count-map_where_kept (λ m. m.id == t.id) (is_owner_of any_org) (with_role r) t rows
            (target-only u h) (λ o. ground (arith, target-id h)),
      )
    ]
    | inr e ↦ ground (
      arith,
      count-map_where_kept (λ m. m.id == t.id) (is_owner_of any_org) (with_role r) t rows
          (target-only u h) (λ o. ground arith),
    )
  ]

  removal-HasOwner :
      (any_org : ℕ)
      → HasUniqueIds rows
      → prisma.memberships.find_first (is_target org id) rows ≡ some t
      → (is_owner t.role ≡ true → leb (count (is_owner_of org) rows) 1 ≡ false)
      → HasOwner any_org rows
      → HasOwner any_org (left t.id rows)
  removal-HasOwner any_org u h guard k = elim (Bool-cases (is_owner_of any_org t)) [
    | inl e ↦ ground (
      arith,
      u t.id,
      target-id h,
      count-removed_lost (λ m. m.id == t.id) (is_owner_of any_org) rows,
    )
    | inr e ↦ ground (
      arith,
      count-removed_kept (λ m. m.id == t.id) (is_owner_of any_org) t rows (target-only u h) e,
    )
  ]

module _ (prisma : Prisma) (org actor id any_org : ℕ) where
  -- A transaction that ends so leaves the organization an owner.
  abbrev EndsOwned : {B : Type 0} → World → Result B × World → Type 0
  EndsOwned w r = HasOwner any_org (finish w r).1.memberships

  update_member_role-HasOwner :
      (r : Role) (w : World)
      → HasUniqueIds w.memberships
      → HasOwner any_org w.memberships
      → HasOwner any_org (update_member_role prisma org actor id r w).1.memberships
  unfolding update_member_role
  update_member_role-HasOwner r w u k =
      as_owner-then prisma org actor (EndsOwned w) w (λ f. k) _
        (λ a _.
          find_target-then prisma org actor (EndsOwned w) w (λ f. k) _ id _
            (λ t found _.
              check_owners-then prisma org actor (EndsOwned w) w (λ f. k) _ _ (downgrades t.role r)
                (λ guard.
                  rw
                    (prisma.memberships.update_many_lem (λ m. m.id == t.id) (with_role r)
                      w.memberships)
                    (role-HasOwner prisma org id t w.memberships r any_org u found guard k))))

  remove_member-HasOwner :
      (w : World)
      → HasUniqueIds w.memberships
      → HasOwner any_org w.memberships
      → HasOwner any_org (remove_member prisma org actor id w).1.memberships
  unfolding remove_member
  remove_member-HasOwner w u k =
      as_owner-then prisma org actor (EndsOwned w) w (λ f. k) _
        (λ a _.
          find_target-then prisma org actor (EndsOwned w) w (λ f. k) _ id _
            (λ t found _.
              check_owners-then prisma org actor (EndsOwned w) w (λ f. k) _ _ (is_owner t.role)
                (λ guard.
                  rw (prisma.memberships.delete_many_lem (λ m. m.id == t.id) w.memberships)
                    (removal-HasOwner prisma org id t w.memberships any_org u found guard k))))

  -- An organization that has an owner still has one after an attempt to change a role and after an
  -- attempt to remove a member, of any member by any actor, if no two memberships have the same id.
  pub members-HasOwner :
      (r : Role) (w : World)
      → HasUniqueIds w.memberships
      → HasOwner any_org w.memberships
      → HasOwner any_org (update_member_role prisma org actor id r w).1.memberships
        × HasOwner any_org (remove_member prisma org actor id w).1.memberships
  members-HasOwner r w u k = (update_member_role-HasOwner r w u k, remove_member-HasOwner w u k)
