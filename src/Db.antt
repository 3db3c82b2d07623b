-- ===== src/Db.antt =====
-- app/db: the tables, the repository over them and the migrations.
pub mod Tables
pub mod Repository
pub mod Messages
pub mod Migrations
mod Tests
