-- ===== src/Core.antt =====
-- app/core.
pub mod Queue
pub mod Worker
mod Tests
pub mod Client
