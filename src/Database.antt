-- ===== src/Database.antt =====
-- The database as the services see it through Prisma: tables of rows, and statements inside and
-- outside a transaction. The client's queries are not of this repository: they are a parameter, with
-- the documented behaviour that the services rely on as its laws.
pub mod Memory
pub mod Statements
pub mod Lookups
pub mod Keeps
pub mod Unique
use unified_inbox.Prelude.{
  ℕ, suc, ◌+◌, ◌≡◌, Bool, true, false, Option, none, some, List, [], ◌∷◌, ◌++◌, map, if◌then◌else◌,
  All, Holds, count, keep, any, not, head?, ◌≤◌, ◌&&◌,
}
use unified_inbox.Schema.Rows.{
  Organization, User, Membership, Channel, Conversation, Message, Invitation, AuditLog,
  ChannelAccount, RawWebhookEvent, AuthToken, Note, Tag, ConversationTag,
}

-- What an update does to the rows that it selects.
abbrev pub map_where {ℓ} : {A : Type ℓ} → (A → Bool) → (A → A) → List A → List A
map_where p f [] = []
map_where p f (r ∷ rows) = (if p r then f r else r) ∷ map_where p f rows

-- The queries on one table. A query gets the test of its `where`.
pub record Table (Row : Type 0) : Type 0 where
  pub find_first : (Row → Bool) → List Row → Option Row
  pub find_many : (Row → Bool) → List Row → List Row
  pub count_rows : (Row → Bool) → List Row → ℕ
  -- the rows after the update, and how many it changed
  pub update_many : (Row → Bool) → (Row → Row) → List Row → List Row × ℕ
  pub delete_many : (Row → Bool) → List Row → List Row
  -- none where a row meets the test of a unique constraint
  pub create : (Row → Bool) → Row → List Row → Option (List Row)
  -- `findFirst` gives a row of the table that meets the test, if there is one
  pub find_first_holds :
      (p q : Row → Bool) (rows : List Row)
      → All (λ r. p r ≡ true → q r ≡ true) rows
      → Holds (λ r. q r ≡ true) (find_first p rows)
  pub find_first_none :
      (p : Row → Bool) (rows : List Row) → find_first p rows ≡ none → count p rows ≡ 0
  -- which of several is not said
  pub find_first_only :
      (p : Row → Bool) (rows : List Row)
      → count p rows ≤ 1
      → find_first p rows ≡ head? (keep p rows)
  -- `findMany` gives the rows that meet the test, in an order that is not said
  pub find_many_lem :
      (p q : Row → Bool) (rows : List Row)
      → count q (find_many p rows) ≡ count (λ r. p r && q r) rows
  pub count_rows_lem : (p : Row → Bool) (rows : List Row) → count_rows p rows ≡ count p rows
  pub update_many_lem :
      (p : Row → Bool) (f : Row → Row) (rows : List Row)
      → update_many p f rows ≡ (map_where p f rows, count p rows)
  pub delete_many_lem :
      (p : Row → Bool) (rows : List Row) → delete_many p rows ≡ keep (λ r. not (p r)) rows
  pub create_lem :
      (p : Row → Bool) (r : Row) (rows : List Row)
      → create p r rows ≡ (if any p rows then none else some (r ∷ rows))

-- The client, one table for each model of the schema.
pub record Prisma : Type 0 where
  pub organizations : Table Organization
  pub users : Table User
  pub memberships : Table Membership
  pub channels : Table Channel
  pub conversations : Table Conversation
  pub messages : Table Message
  pub invitations : Table Invitation
  pub channel_accounts : Table ChannelAccount
  pub raw_webhook_events : Table RawWebhookEvent
  pub password_reset_tokens : Table AuthToken
  pub email_verification_tokens : Table AuthToken
  pub notes : Table Note
  pub tags : Table Tag
  pub conversation_tags : Table ConversationTag
  -- whether a failed statement aborts the transaction in which it stands, so that the statements
  -- after it are refused and its end is a rollback; PostgreSQL documents that it does
  pub aborts : Bool

pub record Store : Type 0 where
  pub organizations : List Organization
  pub users : List User
  pub memberships : List Membership
  pub channels : List Channel
  pub conversations : List Conversation
  pub messages : List Message
  pub invitations : List Invitation
  pub channel_accounts : List ChannelAccount
  pub raw_webhook_events : List RawWebhookEvent
  pub password_reset_tokens : List AuthToken
  pub email_verification_tokens : List AuthToken
  pub notes : List Note
  pub tags : List Tag
  pub conversation_tags : List ConversationTag
  -- newest first
  pub audit_logs : List AuditLog

abbrev pub empty_store : Store
empty_store = record {
  organizations = [];
  users = [];
  memberships = [];
  channels = [];
  conversations = [];
  messages = [];
  invitations = [];
  channel_accounts = [];
  raw_webhook_events = [];
  password_reset_tokens = [];
  email_verification_tokens = [];
  notes = [];
  tags = [];
  conversation_tags = [];
  audit_logs = [];
}
