-- ===== src/Outbound.antt =====
-- apps/api/src/outbound: queued messages are sent through the providers' APIs.
pub mod Adapters
pub mod Worker
