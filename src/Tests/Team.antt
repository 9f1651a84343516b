-- ===== src/Tests/Team.antt =====
-- A team with two owners and an agent.
use unified_inbox.Prelude.{
  ℕ, ◌≡◌, ◌≤◌, refl, false, none, some, [], ◌∷◌, arith, map, count, ◌==◌, str_eq,
}
use unified_inbox.Prelude.Text.{trim}
use unified_inbox.Prelude.Result.{ok, err, bad_request}
use unified_inbox.Schema.Enums.{Role, owner, agent, opened}
use unified_inbox.Schema.Rows.{Membership, User, Invitation, Conversation}
use unified_inbox.Database.{empty_store}
use unified_inbox.Database.Memory.{memory}
use unified_inbox.Database.Statements.{World, empty_world}
use unified_inbox.Team.Members.{update_member_role, remove_member, is_assigned_to}
use unified_inbox.Team.Members.Steps.{IsOwnerIn}
use unified_inbox.Team.Members.Owners.{HasOwner, HasUniqueIds, members-HasOwner}
use unified_inbox.Team.Members.Removal.{remove_member-removes, update_member_role-IsOwnerIn}
use unified_inbox.Team.Invites.{NewInvite, create_invite, find_known}
use unified_inbox.Team.Invites.Created.{IsCreated, create_invite-IsCreated}
use unified_inbox.Auth.Base.{normalized, Hashes, SessionPayload}
use unified_inbox.Team.Accept.{AcceptOptions, Accepted, accept_invite, has_token}
use unified_inbox.Team.Accept.Once.{accept_once}
use unified_inbox.Tests.Payloads.{plain_runtime}

abbrev pub member : ℕ → Role → ℕ → Membership
member id r user = record { id = id; role = r; organization_id = 4; user_id = user; created_at = 0 }

abbrev conversation : Conversation
conversation = record {
  id = 3;
  status = opened;
  contact_name = "Ada";
  contact_phone = none;
  external_thread_id = none;
  last_message_at = none;
  last_message_text = none;
  is_unread = false;
  organization_id = 4;
  channel_id = 20;
  assigned_membership_id = some 13;
}

abbrev pub team : World
team = record empty_world {
  store = record empty_store {
    memberships = member 11 owner 1 ∷ member 12 owner 2 ∷ member 13 agent 3 ∷ [];
    conversations = conversation ∷ [];
  };
}

team-HasUniqueIds : HasUniqueIds team.memberships
team-HasUniqueIds id = ground arith

members-HasOwner_example :
    HasOwner 4 (update_member_role memory 4 1 12 agent team).1.memberships
    × HasOwner 4 (remove_member memory 4 1 12 team).1.memberships
members-HasOwner_example =
    members-HasOwner memory 4 1 12 4 agent team team-HasUniqueIds (ground arith)

-- The team without the agent.
abbrev smaller : World
smaller = (remove_member memory 4 1 13 team).1

removed_ok : remove_member memory 4 1 13 team ≡ (ok tt, smaller)
unfolding remove_member
removed_ok = refl

remove_member-removes_example :
    (count (λ (m : Membership). m.id == 13) smaller.memberships ≡ 0)
    × (count (is_assigned_to 4 13) smaller.conversations ≡ 0)
remove_member-removes_example = remove_member-removes memory 4 1 13 team smaller removed_ok

abbrev downgraded : World
downgraded = (update_member_role memory 4 1 12 agent team).1

downgraded_ok : update_member_role memory 4 1 12 agent team ≡ (ok (member 12 agent 2), downgraded)
unfolding update_member_role
downgraded_ok = refl

update_member_role-IsOwnerIn_example :
    ((a : Membership) × IsOwnerIn memory 4 1 team a) × ((2 == 1) ≡ false)
update_member_role-IsOwnerIn_example =
    update_member_role-IsOwnerIn memory 4 1 12 agent team downgraded (member 12 agent 2)
      downgraded_ok

abbrev new_invite : NewInvite
new_invite = record { id = 50; raw_token = "t0"; now = 100; expires_at = 200 }

abbrev hashes : Hashes
hashes = record { token = λ s. s; hash = λ s. s; compare = str_eq }

abbrev invited : World
invited =
    (create_invite memory 4 1 plain_runtime none hashes.token new_invite " ada@x.io" agent team).1

invited_ok :
    create_invite memory 4 1 plain_runtime none hashes.token new_invite " ada@x.io" agent team ≡ (
      ok (record { invite_id = 50; invite_link = "http://localhost:3000/invite?token=t0" }),
      invited,
    )
unfolding create_invite find_known trim
invited_ok = refl

create_invite-IsCreated_example :
    ◌≡◌ {A = ℕ} 50 50
    × ((a : Membership) × IsCreated memory 4 1 hashes.token new_invite
          (normalized plain_runtime " ada@x.io")
          agent
          team
          invited
          a)
create_invite-IsCreated_example =
    create_invite-IsCreated memory 4 1 plain_runtime none hashes.token new_invite " ada@x.io" agent
      team invited
      (record { invite_id = 50; invite_link = "http://localhost:3000/invite?token=t0" }) invited_ok

-- A second invitation to the address is refused.
invited_twice :
    (create_invite memory 4 2 plain_runtime none hashes.token new_invite "ada@x.io" agent invited).0
    ≡ err (bad_request "A pending invitation already exists for this email")
unfolding create_invite find_known trim
invited_twice = refl

abbrev opts : AcceptOptions
opts = record {
  current_session = none;
  name = some " Ada ";
  password = some "secret123";
  user_id = 9;
  membership_id = 14;
  checked_at = 150;
  accepted_at = 151;
  rechecked_at = 152;
  signed_at = 1;
}

abbrev ada : User
ada = record {
  id = 9;
  email = "ada@x.io";
  name = "Ada";
  password_hash = some "secret123";
  session_version = 0;
  email_verified_at = none;
}

abbrev joined : World
joined = (accept_invite memory hashes opts "t0" invited).1

abbrev answer : Accepted × SessionPayload
answer = (
  record { user = ada; organization_id = 4 },
  record {
    user_id = 9;
    organization_id = 4;
    session_version = 0;
    role = none;
    iat = 1;
    exp = 604801;
  },
)

joined_ok : accept_invite memory hashes opts "t0" invited ≡ (ok answer, joined)
unfolding accept_invite create_invite find_known trim
joined_ok = refl

joined_as_agent :
    map (λ (m : Membership). m.role) joined.memberships ≡ agent ∷ owner ∷ owner ∷ agent ∷ []
unfolding accept_invite create_invite find_known trim
joined_as_agent = refl

one_token : count (has_token hashes "t0") invited.invitations ≤ 1
unfolding create_invite find_known trim
one_token = ground arith

one_id : (i : Invitation) → count (λ (r : Invitation). r.id == i.id) invited.invitations ≤ 1
unfolding create_invite find_known trim
one_id i = ground arith

accept_once_example :
    accept_invite memory hashes opts "t0" joined
    ≡ (err (bad_request "Invitation has already been accepted"), joined)
accept_once_example =
    accept_once memory hashes opts opts "t0" invited joined answer one_token one_id joined_ok
