-- ===== src/Fix.antt =====
-- internal/fix: the venue simulator. `Fill` is its fill model and `Engine` its matching engine.
pub mod Terms
pub mod Fill
pub mod Engine
mod Examples
