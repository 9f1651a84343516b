-- ===== src/Tests/Conversations.antt =====
-- A reply, on the database of the schema and on one with the relation that the query names.
use unified_inbox.Prelude.{String, ◌≡◌, refl, some, List, [], ◌∷◌, map, none}
use unified_inbox.Prelude.Text.{trim}
use unified_inbox.Prelude.Result.{err}
use unified_inbox.Queues.{bull_mq, uninitialized, enqueue_outbound}
use unified_inbox.Schema.Rows.{Message}
use unified_inbox.Database.Memory.{memory}
use unified_inbox.Conversations.{
  NewMessage, create_outbound_message, schema_relations, relation_missing,
}
use unified_inbox.Conversations.Missing.{create_outbound_message_throws}
use unified_inbox.Conversations.Outgoing.{IsTracked, create_outbound_message-IsTracked}
use unified_inbox.Tests.Payloads.{queue}
use unified_inbox.Tests.Outbound.{ready}

abbrev new : NewMessage
new = record { id = 9; created_at = 30; failed_at = 31 }

abbrev repaired : List String
repaired = "Conversation" ∷ schema_relations

create_outbound_message_throws_example :
    create_outbound_message memory schema_relations 4 (bull_mq queue) new 1 3 "Selam" ready
    ≡ (err (relation_missing "Conversation"), ready)
create_outbound_message_throws_example =
    create_outbound_message_throws memory 4 (bull_mq queue) new 1 3 "Selam" ready

create_outbound_message-IsTracked_example :
    IsTracked memory repaired 4 new 1 3 ready
      (create_outbound_message memory repaired 4 (bull_mq queue) new 1 3 "Selam" ready)
create_outbound_message-IsTracked_example =
    create_outbound_message-IsTracked memory repaired 4 new 1 3 (bull_mq queue) "Selam" ready refl

not_queued :
    map
      (λ (m : Message). m.provider_error)
      (create_outbound_message memory repaired 4 uninitialized new 1 3 " Selam" ready).1.messages
    ≡ some "Outbound queue enqueue failed" ∷ none ∷ []
unfolding create_outbound_message enqueue_outbound trim
not_queued = refl

job_added :
    (create_outbound_message memory repaired 4
      (bull_mq queue)
      new
      1
      3
      "Selam"
      ready).1.outbound_jobs
    ≡ 9 ∷ []
unfolding create_outbound_message enqueue_outbound trim
job_added = refl
