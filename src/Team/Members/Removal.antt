-- ===== src/Team/Members/Removal.antt =====
-- What a removal leaves of a member, and who changes a role (apps/api/src/team/team.service.ts).
use unified_inbox.Prelude.{
  ℕ, ◌≡◌, refl, false, List, [], ◌∷◌, arith, count, ◌==◌, Option-cases, inl, inr,
}
use unified_inbox.Prelude.Result.{Result, ok}
use unified_inbox.Schema.Enums.{Role}
use unified_inbox.Schema.Rows.{Membership, Conversation}
use unified_inbox.Database.{Prisma, map_where}
use unified_inbox.Database.Statements.{World, finish}
use unified_inbox.Team.Members.{
  is_target, is_assigned_to, downgrades, unassigned, update_member_role, remove_member,
}
use unified_inbox.Team.Members.Steps.{as_owner-then, find_target-then, check_owners-then, IsOwnerIn}
use unified_inbox.Database.Unique.{count-removed_none}
use unified_inbox.Team.Members.Owners.{target-id}

none_assigned :
    (org id : ℕ) (rows : List Conversation)
    → count (is_assigned_to org id) (map_where (is_assigned_to org id) unassigned rows) ≡ 0
none_assigned org id [] = refl
none_assigned org id (c ∷ rows) = ground (arith, none_assigned org id rows)

module _ (prisma : Prisma) (org actor id : ℕ) where
  -- After a removal that succeeded no membership has the id, and no conversation of the organization
  -- is assigned to it.
  pub remove_member-removes :
      (w v : World)
      → remove_member prisma org actor id w ≡ (ok tt, v)
      → (count (λ m. m.id == id) v.memberships ≡ 0)
        × (count (is_assigned_to org id) v.conversations ≡ 0)
  unfolding remove_member
  remove_member-removes w v h =
      elim (Option-cases (prisma.memberships.find_first (is_target org id) w.memberships)) [
        | inl e ↦ absurd (ground arith)
        | inr (t, e) ↦ ground (
          arith,
          target-id prisma org id t w.memberships e,
          prisma.memberships.delete_many_lem (λ m. m.id == t.id) w.memberships,
          prisma.conversations.update_many_lem (is_assigned_to org t.id) unassigned w.conversations,
          count-removed_none (λ m. m.id == t.id) w.memberships,
          none_assigned org t.id w.conversations,
        )
      ]

  abbrev EndsAsOwner : World → World → Membership → Result Membership × World → Type 0
  EndsAsOwner w v m x =
      finish w x ≡ (ok m, v)
      → ((a : Membership) × IsOwnerIn prisma org actor w a) × ((m.user_id == actor) ≡ false)

  -- A change of a role that succeeded was made by an owner of the organization, and the changed
  -- membership is not the actor's.
  pub update_member_role-IsOwnerIn :
      (r : Role) (w v : World) (m : Membership)
      → update_member_role prisma org actor id r w ≡ (ok m, v)
      → ((a : Membership) × IsOwnerIn prisma org actor w a) × ((m.user_id == actor) ≡ false)
  unfolding update_member_role
  update_member_role-IsOwnerIn r w v m =
      as_owner-then prisma org actor (EndsAsOwner w v m) w (λ f h. cc) _
        (λ a o.
          find_target-then prisma org actor (EndsAsOwner w v m) w (λ f h. cc) _ id _
            (λ t found other.
              check_owners-then prisma org actor (EndsAsOwner w v m) w (λ f h. cc) _ _
                (downgrades t.role r) (λ guard h. ((a, o), ground arith))))
