-- ===== src/Webhook.antt =====
-- app/webhook.
pub mod Router
pub mod Schemas
mod Tests
