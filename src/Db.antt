-- ===== src/Db.antt =====
-- internal/db: the rows, and the writer that batches them.
pub mod Rows
pub mod Statement
pub mod Writer
mod Examples
