-- ===== src/Tests/Assignment.antt =====
-- A conversation that is assigned to an agent, tagged and resolved
-- (apps/api/src/conversations/conversations.service.spec.ts).
use unified_inbox.Prelude.{◌≡◌, refl, none, some, [], ◌∷◌, arith}
use unified_inbox.Prelude.Result.{ok}
use unified_inbox.Schema.Enums.{owner, resolved}
use unified_inbox.Schema.Rows.{User, Tag}
use unified_inbox.Auth.Base.{normalized}
use unified_inbox.Conversations.Changes.Tagged.{IsTagged, add_tag_twice}
use unified_inbox.Database.Memory.{memory}
use unified_inbox.Database.Statements.{World}
use unified_inbox.Conversations.Assignment.{AssignmentResponse, assign_conversation}
use unified_inbox.Conversations.Assignment.Assigned.{IsAssigned, assign_conversation-IsAssigned}
use unified_inbox.Conversations.Changes.{
  update_conversation_status, create_conversation_note, add_tag_to_conversation,
  remove_tag_from_conversation,
}
use unified_inbox.Prelude.Text.{trim}
use unified_inbox.Tests.Payloads.{plain_runtime}
use unified_inbox.Tests.Team.{team, member}

abbrev ada : User
ada = record {
  id = 1;
  email = "ada@x.io";
  name = "Ada";
  password_hash = none;
  session_version = 0;
  email_verified_at = none;
}

abbrev office : World
office = record team { store = record team.store { users = ada ∷ [] } }

abbrev assigned : World
assigned = (assign_conversation memory 4 1 3 (some 11) office).1

abbrev response : AssignmentResponse
response = record {
  id = 3;
  assigned_membership = some (record { membership = member 11 owner 1; user = ada });
}

assigned_ok : assign_conversation memory 4 1 3 (some 11) office ≡ (ok response, assigned)
unfolding assign_conversation
assigned_ok = refl

assign_conversation-IsAssigned_example : IsAssigned memory 4 1 3 (some 11) office assigned
assign_conversation-IsAssigned_example =
    assign_conversation-IsAssigned memory 4 1 3 (some 11) office assigned response (ground arith)
      assigned_ok

resolved_ok : (update_conversation_status memory 4 1 3 resolved office).0 ≡ ok (3, resolved)
unfolding update_conversation_status
resolved_ok = refl

noted_ok :
    (create_conversation_note memory 4 1 60 500 3 " call back " office).0
    ≡ ok (record {
      id = 60;
      body = "call back";
      conversation_id = 3;
      author_id = 1;
      created_at = 500;
    })
unfolding create_conversation_note trim
noted_ok = refl

abbrev vip : Tag
vip = record { id = 80; name = "vip"; organization_id = 4 }

abbrev tagged : World
tagged = (add_tag_to_conversation memory 4 1 plain_runtime 80 500 3 " vip" office).1

tagged_ok :
    add_tag_to_conversation memory 4 1 plain_runtime 80 500 3 " vip" office ≡ (ok vip, tagged)
unfolding add_tag_to_conversation trim
tagged_ok = refl

same_name : normalized plain_runtime "vip" ≡ normalized plain_runtime " vip"
unfolding trim
same_name = refl

add_tag_twice_example :
    IsTagged memory 4 1 3 (normalized plain_runtime " vip") vip tagged.store
    × ((add_tag_to_conversation memory 4 1 plain_runtime 81 600 3 "vip" tagged).0 ≡ ok vip)
    × ((add_tag_to_conversation memory 4 1 plain_runtime 81 600 3 "vip" tagged).1.store
        ≡ tagged.store)
add_tag_twice_example =
    add_tag_twice memory 4 1 plain_runtime 80 81 500 600 3 " vip" "vip" vip office tagged refl
      same_name tagged_ok

untagged :
    (remove_tag_from_conversation memory 4 1 3 80
      (add_tag_to_conversation memory 4 1 plain_runtime 80 500 3 "Vip"
        office).1).1.conversation_tags
    ≡ []
unfolding add_tag_to_conversation remove_tag_from_conversation trim
untagged = refl
