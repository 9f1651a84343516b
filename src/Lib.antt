-- ===== src/Lib.antt =====
-- The API of the unified inbox (apps/api): messages of an organization's customers on WhatsApp and
-- Instagram, in one inbox that its team answers.
--
-- A provider posts a webhook. The webhook service stores it as a raw event and queues it; the webhook
-- worker reads the payload, files an inbound message under its channel and conversation, applies
-- delivery reports to outbound messages, and publishes events to the organization's clients. A reply is
-- stored and queued; the outbound worker claims it, decrypts the channel's token, sends it through the
-- provider's adapter and marks the outcome. The team service keeps the members of an organization and
-- their invitations.
--
-- The files, and what of apps/api they model:
--   Prelude, Json, Runtime: the language's strings, optional values, JSON values, and the parameters
--     for its Unicode tables, its number reader, JSON.parse and the environment. Prelude.Result is an
--     async method: it returns or throws, and what it wrote stays written.
--   Schema: prisma/schema.prisma. An id is a number, of which the code uses only equality.
--   Database: the Prisma client, a parameter: one interface of queries for each table, with their
--     documented behaviour as laws, which Database.Memory fills. Database.Statements is one statement,
--     in or outside a transaction: a transaction that throws is rolled back, and where the database
--     aborts the transaction of a failed statement, as PostgreSQL does, the statements after it are
--     refused. Database.Keeps has a rule for each way to build an action that keeps an invariant.
--   Crypto: src/crypto/crypto.service.ts; the cipher, the key derivation and base64 are parameters.
--   Webhooks.WhatsAppPayload, Webhooks.InstagramPayload: src/webhooks/whatsapp-payload.ts and
--     instagram-payload.ts, with every exported function.
--   Webhooks.Worker, Webhooks.Delivery: src/webhooks/webhooks.worker.service.ts (processRawEvent and
--     all that it calls). The ids of new rows and the time of a run are arguments.
--   Webhooks.Service: src/webhooks/webhooks.service.ts (handleWhatsAppWebhook and
--     handleInstagramWebhook are handle_webhook with the channel type as an argument).
--   Queues: src/webhooks/webhooks.queue.service.ts and src/outbound/outbound.queue.service.ts (which
--     queue is used, and enqueueing; BullMQ itself is a library, and a parameter).
--   Outbound.Adapters: src/outbound/whatsapp-cloud-api.adapter.ts and instagram-graph-api.adapter.ts,
--     one definition with the channel type as an argument; fetch is a parameter.
--   Outbound.Worker: src/outbound/outbound.worker.service.ts (processOutboundMessage).
--   Conversations: src/conversations/conversations.service.ts; Conversations itself has
--     createOutboundMessage, on a database with a given list of relations, Assignment has
--     assignConversation, Changes has updateConversationStatus, createConversationNote,
--     addTagToConversation and removeTagFromConversation.
--   Auth: src/auth/auth.service.ts. Auth has getSessionDetails, Login has login, Bootstrap and Slug have
--     bootstrapOwner, Recover has recoverOwnerAccess. Tokens has the links for password resets and
--     email verifications: the two flows have the same steps on two tables, so the kind of the email is
--     an argument. The email transport delivers a message or fails, and is a parameter.
--   AuditLogs: src/audit-logs/audit-logs.service.ts. The ids of its rows are texts, since it orders them.
--   Events: src/events/events.service.ts, the entries of its maps for one organization; Steps has the
--     steps. Events.Transport: events.transport.ts, redis-pubsub-events.transport.ts (publish and
--     handleMessage) and events.transport.factory.ts.
--   Team: src/team/team.service.ts. Members has updateMemberRole and removeMember, Invites has
--     createInvite and revokeInvite, Accept has acceptInvite. Hashes of tokens and passwords are
--     parameters.
--   Dev: src/dev/dev.service.ts and dev-endpoints.guard.ts.
--   Tests: the definitions run at concrete inputs, and every theorem with hypotheses at an input that
--     meets them.
--
-- Every loop of the code runs over a list and is structural recursion, so there is no fuel in it. A
-- client that reads the audit log page by page is given a number of rounds. Times are
-- milliseconds as natural numbers; a time read from a payload is an integer and may be before 1970.
--
-- Not modelled: signed cookies and the session guard, the listings of the conversations service, the
-- channels service, the controllers and the web client. The update that stores a
-- provider's id of a sent message does not check that id's unique constraint, and two random tokens
-- never collide. A rollback takes back all that its transaction did: no transaction of the code
-- publishes, queues or sends. Texts are cut by characters (slice counts UTF-16 units).
mod Prelude
pub mod Json
pub mod Schema
pub mod Runtime
pub mod Database
pub mod Crypto
pub mod Queues
pub mod Webhooks
pub mod Outbound
pub mod Auth
pub mod Team
pub mod Dev
pub mod Conversations
pub mod AuditLogs
pub mod Events
mod Tests
