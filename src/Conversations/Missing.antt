-- ===== src/Conversations/Missing.antt =====
-- The relation that createOutboundMessage names (apps/api/src/conversations).
use unified_inbox.Prelude.{ℕ, String, ◌≡◌, refl}
use unified_inbox.Prelude.Result.{err}
use unified_inbox.Queues.{Mode}
use unified_inbox.Database.{Prisma}
use unified_inbox.Database.Statements.{World}
use unified_inbox.Conversations.{
  NewMessage, create_outbound_message, schema_relations, relation_missing,
}

-- On the database of the schema no outbound message is ever created: every call throws and changes
-- nothing, whatever the queue, the conversation and the text are.
pub create_outbound_message_throws :
    (prisma : Prisma) (org : ℕ) (mode : Mode) (new : NewMessage) (user id : ℕ) (text : String)
    (w : World)
    → create_outbound_message prisma schema_relations org mode new user id text w
      ≡ (err (relation_missing "Conversation"), w)
unfolding create_outbound_message
create_outbound_message_throws prisma org mode new user id text w = refl
