-- ===== src/Team/Members/Steps.antt =====
-- What follows the guards of a change of a team, in an open transaction: each guard throws and
-- leaves the tables, or lets the rest run on them.
use unified_inbox.Prelude.{
  ℕ, ◌≡◌, refl, Bool, true, false, Option, none, some, if◌then◌else◌, count, ◌==◌, leb, subst,
}
use unified_inbox.Prelude.{String}
use unified_inbox.Prelude.Result.{
  Failure, Exec, Result, err, pure, throw, bad_request, continue, ◌>>=◌, ◌>>◌,
}
use unified_inbox.Schema.Enums.{Role, owner, agent}
use unified_inbox.Schema.Rows.{Membership}
use unified_inbox.Database.{Prisma}
use unified_inbox.Database.Statements.{World, active}
use unified_inbox.Auth.Base.{is_member}
use unified_inbox.Team.{is_owner_of, assert_owner_role, or_forbidden, as_owner}
use unified_inbox.Team.Members.{is_target, target_found, find_target, check_owners}

-- The world of an open transaction.
abbrev pub opened : World → World
opened w = record w { session = active }

module _ (prisma : Prisma) (org actor : ℕ) where
  -- The membership of an actor who owns the organization.
  abbrev pub IsOwnerIn : World → Membership → Type 0
  IsOwnerIn w a =
      (prisma.memberships.find_first (is_member org actor) w.memberships ≡ some a)
      × (a.role ≡ owner)

  module _ {B : Type 0} (P : Result B × World → Type 0) (w : World)
      (on_throw : (f : Failure) → P (err f, opened w)) where
    after_role :
        (k : Membership → Exec World B) (a : Membership) (r : Role)
        → (r ≡ owner → P (k a (opened w)))
        → P (continue k (continue (λ u. pure a) (assert_owner_role r (opened w))))
    after_role k a owner next = next refl
    after_role k a agent next = on_throw _

    after_actor :
        (k : Membership → Exec World B) (o : Option Membership)
        → ((a : Membership) → o ≡ some a → a.role ≡ owner → P (k a (opened w)))
        → P (
            continue k (
              continue
                (λ a. (assert_owner_role a.role >> pure a))
                (or_forbidden prisma o (opened w))))
    after_actor k none next = on_throw _
    after_actor k (some a) next = after_role k a a.role (next a refl)

    pub as_owner-then :
        (k : Membership → Exec World B)
        → ((a : Membership) → IsOwnerIn w a → P (k a (opened w)))
        → P ((as_owner prisma org actor >>= k) (opened w))
    as_owner-then k next =
        after_actor k (prisma.memberships.find_first (is_member org actor) w.memberships)
          (λ a found r. next a (found, r))

    after_self :
        (own : String) (k : Membership → Exec World B) (t : Membership) (b : Bool)
        → (b ≡ false → P (k t (opened w)))
        → P (continue k ((if b then throw (bad_request own) else pure t) (opened w)))
    after_self own k t true next = on_throw _
    after_self own k t false next = next refl

    after_target :
        (own : String) (k : Membership → Exec World B) (o : Option Membership)
        → ((t : Membership) → o ≡ some t → (t.user_id == actor) ≡ false → P (k t (opened w)))
        → P (continue k (target_found prisma org actor own o (opened w)))
    after_target own k none next = on_throw _
    after_target own k (some t) next = after_self own k t (t.user_id == actor) (next t refl)

    pub find_target-then :
        (own : String) (id : ℕ) (k : Membership → Exec World B)
        → ((t : Membership)
            → prisma.memberships.find_first (is_target org id) w.memberships ≡ some t
            → (t.user_id == actor) ≡ false
            → P (k t (opened w)))
        → P ((find_target prisma org actor own id >>= k) (opened w))
    find_target-then own id k next =
        after_target own k (prisma.memberships.find_first (is_target org id) w.memberships) next

    after_count :
        (last : String) (k : Unit {0} → Exec World B) (n : ℕ) (b : Bool)
        → (b ≡ false → P (k tt (opened w)))
        → P (continue k ((if b then throw (bad_request last) else pure tt) (opened w)))
    after_count last k n true next = on_throw _
    after_count last k n false next = next refl

    pub check_owners-then :
        (last : String) (k : Unit {0} → Exec World B) (b : Bool)
        → ((b ≡ true → leb (count (is_owner_of org) w.memberships) 1 ≡ false) → P (k tt (opened w)))
        → P ((check_owners prisma org actor last b >>= k) (opened w))
    check_owners-then last k false next = next (λ h. cc)
    check_owners-then last k true next =
        after_count last k (prisma.memberships.count_rows (is_owner_of org) w.memberships)
          (leb (prisma.memberships.count_rows (is_owner_of org) w.memberships) 1)
          (λ h. next (λ e.
            subst (λ n. leb n 1 ≡ false)
              (prisma.memberships.count_rows_lem (is_owner_of org) w.memberships) h))
