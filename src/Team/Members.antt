-- ===== src/Team/Members.antt =====
-- apps/api/src/team/team.service.ts: updateMemberRole and removeMember.
pub mod Steps
pub mod Owners
pub mod Removal
use unified_inbox.Prelude.{
  ℕ, String, Bool, true, false, ◌&&◌, Option, none, some, List, [], ◌∷◌, if◌then◌else◌, ◌==◌, leb,
}
use unified_inbox.Prelude.Result.{bad_request, not_found, Exec, pure, throw, ◌>>=◌, ◌>>◌}
use unified_inbox.Schema.Enums.{Role, owner, agent}
use unified_inbox.Schema.Rows.{Membership, Conversation, AuditLog, Detail, ref, role}
use unified_inbox.Database.{Prisma, Store}
use unified_inbox.Database.Statements.{World, query, write, transaction, audit}
use unified_inbox.Team.{is_owner, is_owner_of, as_owner}

-- `{ id: membershipId, organizationId }`
abbrev pub is_target : ℕ → ℕ → Membership → Bool
is_target org id m = m.id == id && m.organization_id == org

abbrev pub with_role : Role → Membership → Membership
with_role r m = record m { role = r }

-- A conversation of the organization that is assigned to a membership.
abbrev pub is_assigned_to : ℕ → ℕ → Conversation → Bool
is_assigned_to org id c = elim c.assigned_membership_id [
  | none ↦ false
  | some a ↦ c.organization_id == org && a == id
]

abbrev pub unassigned : Conversation → Conversation
unassigned c = record c { assigned_membership_id = none }

-- Whether a member would lose the role of an owner.
abbrev pub downgrades : Role → Role → Bool
downgrades owner owner = false
downgrades owner agent = true
downgrades agent r = false

abbrev pub role_changed : ℕ → ℕ → Membership → Role → AuditLog
role_changed org actor t r = record {
  action = "member.role_changed";
  target_id = some t.id;
  metadata = ("userId", ref t.user_id) ∷ ("previousRole", role t.role) ∷ ("newRole", role r) ∷ [];
  organization_id = org;
  actor_id = actor;
}

abbrev pub removed : ℕ → ℕ → Membership → AuditLog
removed org actor t = record {
  action = "member.removed";
  target_id = some t.id;
  metadata = ("userId", ref t.user_id) ∷ [];
  organization_id = org;
  actor_id = actor;
}

module _ (prisma : Prisma) (org actor : ℕ) where
  -- The target, which must not be the actor.
  abbrev pub target_found : String → Option Membership → Exec World Membership
  target_found own none = throw (not_found "Membership not found")
  target_found own (some t) = if t.user_id == actor then throw (bad_request own) else pure t

  abbrev pub find_target : String → ℕ → Exec World Membership
  find_target own id = do
    found ← query λ s. prisma.memberships.find_first (is_target org id) s.memberships
    target_found own found

  -- The check that a change leaves an owner, which is made if it takes one away.
  abbrev pub check_owners : String → Bool → Exec World Unit
  check_owners last false = pure tt
  check_owners last true = do
    owner_count ← query λ s. prisma.memberships.count_rows (is_owner_of org) s.memberships
    if leb owner_count 1 then throw (bad_request last) else pure tt

  abbrev pub set_role : ℕ → Role → Exec World Unit
  set_role id r = write λ s. (
    record s {
      memberships =
          (prisma.memberships.update_many (λ m. m.id == id) (with_role r) s.memberships).0;
    },
    tt,
  )

  abbrev pub unassign : ℕ → Exec World Unit
  unassign id = write λ s. (
    record s {
      conversations =
          (prisma.conversations.update_many (is_assigned_to org id) unassigned s.conversations).0;
    },
    tt,
  )

  -- The invitations that a member created go with the membership (`onDelete: Cascade`).
  abbrev pub delete_membership : ℕ → Exec World Unit
  delete_membership id = write λ s. (
    record s {
      memberships = prisma.memberships.delete_many (λ m. m.id == id) s.memberships;
      invitations =
          prisma.invitations.delete_many (λ i. i.created_by_membership_id == id) s.invitations;
    },
    tt,
  )

  -- `updateMemberRole`, with the changed membership.
  unfoldable pub update_member_role : ℕ → Role → Exec World Membership
  update_member_role id r = transaction do
    as_owner prisma org actor
    t ← find_target "Cannot change your own role" id
    check_owners "Cannot downgrade the last owner" (downgrades t.role r)
    set_role t.id r
    audit (role_changed org actor t r)
    pure (with_role r t)

  -- `removeMember`
  unfoldable pub remove_member : ℕ → Exec World Unit
  remove_member id = transaction do
    as_owner prisma org actor
    t ← find_target "Cannot remove yourself" id
    check_owners "Cannot remove the last owner" (is_owner t.role)
    unassign t.id
    delete_membership t.id
    audit (removed org actor t)
