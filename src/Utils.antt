-- ===== src/Utils.antt =====
-- app/utils.
pub mod Dedup
pub mod RateLimiter
pub mod Cache
pub mod Stats
pub mod Formatting
pub mod Message
pub mod Security
mod Tests
pub mod Links
pub mod SafeMath
