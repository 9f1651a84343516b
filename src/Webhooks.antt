-- ===== src/Webhooks.antt =====
-- apps/api/src/webhooks
pub mod WhatsAppPayload
pub mod InstagramPayload
pub mod Delivery
pub mod Worker
pub mod Service
