-- ===== src/Services/Handlers.antt =====
-- app/services/handlers.py: the handlers of the commands, all as functions of the context, the message
-- and the arguments. Info has those that only answer, Moderation those that act on a chat.
pub mod Info
pub mod Moderation
pub mod Delete
