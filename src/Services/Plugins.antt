-- ===== src/Services/Plugins.antt =====
-- app/services/plugins. A plugin is its `handle`; the world that it shares with the others is
-- passed on.
pub mod AntiFlood
pub mod AntiLink
pub mod Filters
pub mod Rows
pub mod Records
pub mod Panel
pub mod Exempt
