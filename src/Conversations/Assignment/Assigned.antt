-- ===== src/Conversations/Assignment/Assigned.antt =====
-- Where an assignment leaves a conversation (apps/api/src/conversations/conversations.service.ts).
use unified_inbox.Prelude.{
  ℕ, ◌≡◌, ◌≤◌, refl, sym, subst, ◌∙◌, ap, Bool, true, false, Option, none, some, arith, count,
  if◌then◌else◌,
}
use unified_inbox.Prelude.Result.{ok, continue, continue-ok}
use unified_inbox.Schema.Rows.{Conversation, Membership}
use unified_inbox.Database.{Prisma, Store, map_where}
use unified_inbox.Database.Lookups.{finish-ok, find_first-meets, gate-ok}
use unified_inbox.Database.Unique.{changed_found}
use unified_inbox.Database.Statements.{World, active, finish}
use unified_inbox.Conversations.{is_conversation}
use unified_inbox.Conversations.Assignment.{
  Assignment, AssignmentResponse, is_same, is_member_of, as_assigned, conversation_found,
  find_target, target_found, unchanged, is_as_read, settle, change, assign_found,
  assign_in_transaction, announce, assign_conversation,
}

module _ (prisma : Prisma) (org actor : ℕ) where
  -- The membership that is to be assigned is one of the organization.
  abbrev pub IsMember : Store → Option ℕ → Type 0
  IsMember s none = Unit
  IsMember s (some id) =
      (m : Membership) × (prisma.memberships.find_first (is_member_of org id) s.memberships
        ≡ some m)

  target_found-ok :
      (o : Option Membership) (t : Option ℕ) (w v : World)
      → target_found prisma org actor o w ≡ (ok t, v)
      → ((m : Membership) × (o ≡ some m)) × (v ≡ w)
  target_found-ok none t w v h = absurd cc
  target_found-ok (some m) t w v h = ((m, refl), cc)

  find_target-ok :
      (o : Option ℕ) (t : Option ℕ) (w v : World)
      → find_target prisma org actor o w ≡ (ok t, v)
      → IsMember w.store o × (v ≡ w)
  find_target-ok none t w v h = (tt, cc)
  find_target-ok (some id) t w v h =
      target_found-ok (prisma.memberships.find_first (is_member_of org id) w.memberships) t w v
        (gate-ok (target_found prisma org actor) w.session _ w t v h)

  is_same_refl : (o : Option ℕ) → is_same o o ≡ true
  is_same_refl none = refl
  is_same_refl (some a) = ground arith

  -- A transaction that ends well leaves the conversations as they were after the update.
  settled :
      (id : ℕ) (membership target : Option ℕ) (n : ℕ) (o : Option Conversation) (w w1 v : World)
      (a : Assignment)
      → w1.session ≡ active
      → finish w (
          continue
            (settle prisma org actor id membership target n)
            (conversation_found prisma org actor o w1))
        ≡ (ok a, v)
      → v.conversations ≡ w1.conversations
  settled id membership target n none w w1 v a i h = absurd cc
  settled id membership target n (some c) w w1 v a i h = ground arith

  change-ok :
      (c : Conversation) (membership target : Option ℕ) (w v : World) (a : Assignment)
      → finish w (change prisma org actor c membership target (record w { session = active }))
        ≡ (ok a, v)
      → v.conversations
        ≡ map_where (is_as_read prisma org actor c) (as_assigned membership) w.conversations
  change-ok c membership target w v a h =
      settled c.id membership target
        (prisma.conversations.update_many (is_as_read prisma org actor c) (as_assigned membership)
          w.conversations).1
        (prisma.conversations.find_first (is_conversation org c.id)
          (prisma.conversations.update_many (is_as_read prisma org actor c) (as_assigned membership)
            w.conversations).0)
        w
        (record w {
          store = record w.store {
            conversations =
                (prisma.conversations.update_many (is_as_read prisma org actor c)
                  (as_assigned membership) w.conversations).0;
          };
          session = active;
        })
        v a refl h
      ∙ ap (λ x. x.0)
          (prisma.conversations.update_many_lem (is_as_read prisma org actor c)
            (as_assigned membership) w.conversations)

  -- The conversation has the assignment, and the membership is one of the organization.
  abbrev pub IsAssigned : ℕ → Option ℕ → World → World → Type 0
  IsAssigned id membership w v =
      ((c : Conversation) × (prisma.conversations.find_first (is_conversation org id)
            v.conversations
          ≡ some c)
        × (c.assigned_membership_id ≡ membership))
      × IsMember w.store membership

  same_assignment : (a b : Option ℕ) → is_same a b ≡ true → a ≡ b
  same_assignment none none h = refl
  same_assignment none (some b) h = absurd cc
  same_assignment (some a) none h = absurd cc
  same_assignment (some a) (some b) h = ap some (ground arith)

  changed-found :
      (id : ℕ) (membership : Option ℕ) (c : Conversation) (w v : World)
      → count (is_conversation org id) w.conversations ≤ 1
      → prisma.conversations.find_first (is_conversation org id) w.conversations ≡ some c
      → v.conversations
        ≡ map_where (is_as_read prisma org actor c) (as_assigned membership) w.conversations
      → prisma.conversations.find_first (is_conversation org id) v.conversations
        ≡ some (as_assigned membership c)
  changed-found id membership c w v one found e =
      ap (prisma.conversations.find_first (is_conversation org id)) e
      ∙ changed_found prisma.conversations (is_conversation org id) (is_as_read prisma org actor c)
          (as_assigned membership) c w.conversations (λ r. refl) one
          (ground (
            arith,
            find_first-meets prisma.conversations (is_conversation org id) c w.conversations found,
            is_same_refl c.assigned_membership_id,
          ))
          found

  -- The transaction after the target was found.
  branch-ok :
      (id : ℕ) (membership target : Option ℕ) (c : Conversation) (w v : World) (a : Assignment)
      → count (is_conversation org id) w.conversations ≤ 1
      → prisma.conversations.find_first (is_conversation org id) w.conversations ≡ some c
      → (b : Bool) → is_same c.assigned_membership_id membership ≡ b
      → finish w (
          (if b then unchanged prisma org actor c else change prisma org actor c membership target)
            (record w { session = active }))
        ≡ (ok a, v)
      → (d : Conversation) × (prisma.conversations.find_first
            (is_conversation org id)
            v.conversations
          ≡ some d)
        × (d.assigned_membership_id ≡ membership)
  branch-ok id membership target c w v a one found true e h = (
    c,
    subst (λ x. prisma.conversations.find_first (is_conversation org id) x.conversations ≡ some c)
        (ap (λ x. x.1) h) found,
    same_assignment c.assigned_membership_id membership e,
  )
  branch-ok id membership target c w v a one found false e h = (
    as_assigned membership c,
    changed-found id membership c w v one found (change-ok c membership target w v a h),
    refl,
  )

  assign_found-ok :
      (id : ℕ) (membership : Option ℕ) (c : Conversation) (w v : World) (a : Assignment)
      → count (is_conversation org id) w.conversations ≤ 1
      → prisma.conversations.find_first (is_conversation org id) w.conversations ≡ some c
      → finish w (assign_found prisma org actor membership c (record w { session = active }))
        ≡ (ok a, v)
      → IsAssigned id membership w v
  assign_found-ok id membership c w v a one found h =
      let (u, e) = finish-ok w v _ a h in
      let (target, u1, e1, h1) =
        continue-ok _ (find_target prisma org actor membership (record w { session = active })) a u
          e in
      let (member, same) = find_target-ok membership target (record w { session = active }) u1 e1 in
      (
        branch-ok id membership target c w v a one found
            (is_same c.assigned_membership_id membership) refl
            (sym (
                ap
                  (λ x. finish w (
                    continue
                      (λ t.
                        if is_same c.assigned_membership_id membership
                        then unchanged prisma org actor c
                        else change prisma org actor c membership t)
                      x))
                  (e1 ∙ ap (λ y. (ok target, y)) same))
              ∙ h),
        member,
      )

  found-ok :
      (id : ℕ) (membership : Option ℕ) (o : Option Conversation) (w v : World) (a : Assignment)
      → count (is_conversation org id) w.conversations ≤ 1
      → prisma.conversations.find_first (is_conversation org id) w.conversations ≡ o
      → finish w (
          continue
            (assign_found prisma org actor membership)
            (conversation_found prisma org actor o (record w { session = active })))
        ≡ (ok a, v)
      → IsAssigned id membership w v
  found-ok id membership none w v a one found h = absurd cc
  found-ok id membership (some c) w v a one found h =
      assign_found-ok id membership c w v a one found h

  announce-conversations :
      (id : ℕ) (membership : Option ℕ) (a : Assignment) (w : World)
      → (announce prisma org actor id membership a w).1.conversations ≡ w.conversations
  announce-conversations id membership a w = ground arith

  -- An assignment that succeeded leaves the conversation assigned as was asked, whether it changed
  -- anything or not, and the membership is one of the organization. Ids of conversations are unique.
  pub assign_conversation-IsAssigned :
      (id : ℕ) (membership : Option ℕ) (w v : World) (r : AssignmentResponse)
      → count (is_conversation org id) w.conversations ≤ 1
      → assign_conversation prisma org actor id membership w ≡ (ok r, v)
      → IsAssigned id membership w v
  unfolding assign_conversation
  assign_conversation-IsAssigned id membership w v r one h =
      let (a, w1, e, h1) =
        continue-ok _
          (finish w
            (assign_in_transaction prisma org actor id membership (record w { session = active })))
          r v h in
      let ((c, found, is), member) =
        found-ok id membership
          (prisma.conversations.find_first (is_conversation org id) w.conversations) w w1 a one refl
          e in
      let (_, w2, e2, h2) = continue-ok _ (announce prisma org actor id membership a w1) r v h1 in
      let same =
        ap (λ x. x.1.conversations) (sym h2)
        ∙ ap (λ x. x.1.conversations) (sym e2)
        ∙ announce-conversations id membership a w1 in
      ((c, ap (prisma.conversations.find_first (is_conversation org id)) same ∙ found, is), member)
