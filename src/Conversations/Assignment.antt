-- ===== src/Conversations/Assignment.antt =====
-- apps/api/src/conversations/conversations.service.ts: assignConversation.
pub mod Assigned
use unified_inbox.Prelude.{
  ℕ, String, Bool, true, false, ◌&&◌, Option, none, some, List, [], ◌∷◌, if◌then◌else◌, ◌==◌,
}
use unified_inbox.Prelude.Result.{bad_request, conflict, not_found, Exec, pure, throw, ◌>>=◌, ◌>>◌}
use unified_inbox.Schema.Events.{SseEvent, assignment_changed}
use unified_inbox.Schema.Rows.{Conversation, Membership, User, AuditLog, Detail, ref, nothing}
use unified_inbox.Database.{Prisma, Store}
use unified_inbox.Database.Statements.{World, query, write, transaction, audit, emit}
use unified_inbox.Conversations.{is_conversation}

-- The member that a conversation is assigned to, as the answer shows it.
pub record Assignee : Type 0 where
  pub membership : Membership
  pub user : User

pub record AssignmentResponse : Type 0 where
  pub id : ℕ
  pub assigned_membership : Option Assignee

-- What the transaction gives: whether it changed the assignment, and the answer.
pub record Assignment : Type 0 where
  pub changed : Bool
  pub result : AssignmentResponse

abbrev pub is_same : Option ℕ → Option ℕ → Bool
is_same none none = true
is_same none (some b) = false
is_same (some a) none = false
is_same (some a) (some b) = a == b

-- `{ id: membershipId, organizationId }`
abbrev pub is_member_of : ℕ → ℕ → Membership → Bool
is_member_of org id m = m.id == id && m.organization_id == org

abbrev pub as_assigned : Option ℕ → Conversation → Conversation
as_assigned membership c = record c { assigned_membership_id = membership }

abbrev target_detail : Option ℕ → Detail
target_detail none = nothing
target_detail (some user) = ref user

module _ (prisma : Prisma) (org actor : ℕ) where
  abbrev with_assignee : Membership → Option User → Option Assignee
  with_assignee m none = none
  with_assignee m (some u) = some (record { membership = m; user = u })

  abbrev assignee_found : Store → Option Membership → Option Assignee
  assignee_found s none = none
  assignee_found s (some m) =
      with_assignee m (prisma.users.find_first (λ u. u.id == m.user_id) s.users)

  abbrev assignee_of : Store → Option ℕ → Option Assignee
  assignee_of s none = none
  assignee_of s (some id) =
      assignee_found s (prisma.memberships.find_first (λ m. m.id == id) s.memberships)

  -- `toAssignmentResponse`
  abbrev pub to_assignment_response : Store → Conversation → AssignmentResponse
  to_assignment_response s c = record {
    id = c.id;
    assigned_membership = assignee_of s c.assigned_membership_id;
  }

  abbrev pub find_conversation : ℕ → Exec World (Option Conversation)
  find_conversation id =
      query λ s. prisma.conversations.find_first (is_conversation org id) s.conversations

  abbrev pub conversation_found : Option Conversation → Exec World Conversation
  conversation_found none = throw (not_found "Conversation not found")
  conversation_found (some c) = pure c

  abbrev pub target_found : Option Membership → Exec World (Option ℕ)
  target_found none = throw (bad_request "Membership not found in this organization")
  target_found (some m) = pure (some m.user_id)

  -- The user of the membership that is to be assigned.
  abbrev pub find_target : Option ℕ → Exec World (Option ℕ)
  find_target none = pure none
  find_target (some id) = do
    found ← query λ s. prisma.memberships.find_first (is_member_of org id) s.memberships
    target_found found

  abbrev pub unchanged : Conversation → Exec World Assignment
  unchanged c = query λ s. record { changed = false; result = to_assignment_response s c }

  -- The row is changed only while its assignment is the one that was read.
  abbrev pub is_as_read : Conversation → Conversation → Bool
  is_as_read c r =
      (r.id == c.id && r.organization_id == org)
      && is_same r.assigned_membership_id c.assigned_membership_id

  abbrev pub set_assignment : Conversation → Option ℕ → Exec World ℕ
  set_assignment c membership = write λ s.
      let (rows, n) =
        prisma.conversations.update_many (is_as_read c) (as_assigned membership) s.conversations in
      (record s { conversations = rows }, n)

  abbrev assigned_action : Option ℕ → String
  assigned_action none = "conversation.unassigned"
  assigned_action (some id) = "conversation.assigned"

  abbrev assigned : ℕ → Option ℕ → Option ℕ → AuditLog
  assigned id membership target = record {
    action = assigned_action membership;
    target_id = some id;
    metadata = ("assignedTo", target_detail target) ∷ [];
    organization_id = org;
    actor_id = actor;
  }

  abbrev pub settle : ℕ → Option ℕ → Option ℕ → ℕ → Conversation → Exec World Assignment
  settle id membership target n current =
      if n == 0
      then if is_same current.assigned_membership_id membership
        then unchanged current
        else throw (conflict "Conversation assignment changed, please retry")
      else do
        audit (assigned id membership target)
        query λ s. record { changed = true; result = to_assignment_response s current }

  abbrev pub change : Conversation → Option ℕ → Option ℕ → Exec World Assignment
  change c membership target = do
    n ← set_assignment c membership
    found ← find_conversation c.id
    current ← conversation_found found
    settle c.id membership target n current

  abbrev pub assign_found : Option ℕ → Conversation → Exec World Assignment
  assign_found membership c = do
    target ← find_target membership
    if is_same c.assigned_membership_id membership then unchanged c else change c membership target

  abbrev pub assign_in_transaction : ℕ → Option ℕ → Exec World Assignment
  assign_in_transaction id membership = do
    found ← find_conversation id
    c ← conversation_found found
    assign_found membership c

  abbrev pub announce : ℕ → Option ℕ → Assignment → Exec World Unit
  announce id membership a =
      if a.changed
      then emit org
          (record { event = assignment_changed a.result.id membership; conversation_id = id })
      else pure tt

  -- `assignConversation`
  unfoldable pub assign_conversation : ℕ → Option ℕ → Exec World AssignmentResponse
  assign_conversation id membership = do
    a ← transaction (assign_in_transaction id membership)
    announce id membership a
    pure a.result
