-- ===== src/Database.antt =====
-- apps/api/src/db/schema.ts: the tables, and statements as actions on them.
mod Tables
mod Transactions
pub mod Keeps
pub mod Statements
pub use Tables.*
unfoldable pub use Transactions.*
