-- ===== src/Tests.antt =====
-- Runs of the model at concrete inputs, and the theorems at inputs that meet their hypotheses.
mod Payloads
mod Delivery
mod Worker
mod Outbound
mod Team
mod Service
mod Dev
mod Conversations
mod Auth
mod AuditLogs
mod Events
mod Assignment
