-- ===== src/Services.antt =====
-- app/services: the plugins, the commands and the dispatcher.
pub mod Action
pub mod Keeps
pub mod Context
pub mod Texts
pub mod Plugins
pub mod Commands
pub mod Handlers
pub mod Registry
pub mod Dispatcher
pub mod Rows
mod Tests
