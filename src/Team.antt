-- ===== src/Team.antt =====
-- apps/api/src/team/team.service.ts: what its operations share. The service is split into Members
-- (roles and removals), Invites (creation and revocation) and Accept.
pub mod Members
pub mod Invites
pub mod Accept
use unified_inbox.Prelude.{
  ℕ, String, Bool, true, false, ◌&&◌, Option, none, some, ◌==◌, not, is_some, str_eq,
}
use unified_inbox.Prelude.Result.{forbidden, Exec, pure, throw, ◌>>=◌, ◌>>◌}
use unified_inbox.Schema.Enums.{Role, owner, agent}
use unified_inbox.Schema.Rows.{Membership, Invitation}
use unified_inbox.Auth.Base.{is_member}
use unified_inbox.Database.{Prisma, Store}
use unified_inbox.Database.Statements.{World, query}

abbrev pub is_owner : Role → Bool
is_owner owner = true
is_owner agent = false

-- `{ organizationId, role: OWNER }`
abbrev pub is_owner_of : ℕ → Membership → Bool
is_owner_of org m = m.organization_id == org && is_owner m.role

-- An invitation that is neither accepted nor revoked, to an address.
abbrev pub is_pending_for : ℕ → String → Invitation → Bool
is_pending_for org email i =
    i.organization_id == org
    && (str_eq i.email email && (not (is_some i.accepted_at) && not (is_some i.revoked_at)))

module _ (prisma : Prisma) where
  -- A lock on the organization's memberships until the end of the transaction, in which no other
  -- transaction changes them.
  abbrev pub lock_organization_memberships : ℕ → Exec World Unit
  lock_organization_memberships org = query (λ s. tt)

  abbrev pub or_forbidden : Option Membership → Exec World Membership
  or_forbidden none = throw (forbidden "Not a member of this organization")
  or_forbidden (some m) = pure m

  abbrev pub get_actor_membership : ℕ → ℕ → Exec World Membership
  get_actor_membership org user = do
    found ← query λ s. prisma.memberships.find_first (is_member org user) s.memberships
    or_forbidden found

abbrev pub assert_owner_role : Role → Exec World Unit
assert_owner_role owner = pure tt
assert_owner_role agent = throw (forbidden "Only owners can perform this action")

abbrev pub assert_owner : Membership → Exec World Unit
assert_owner m = assert_owner_role m.role

-- How every change of a team begins: the lock, the actor's membership and its role.
abbrev pub as_owner : Prisma → ℕ → ℕ → Exec World Membership
as_owner prisma org actor = do
  lock_organization_memberships prisma org
  m ← get_actor_membership prisma org actor
  assert_owner m
  pure m
