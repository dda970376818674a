-- ===== src/Exec.antt =====
-- internal/exec: the order tracker, one state machine for every venue.
pub mod Status
pub mod Transition
pub mod Metrics
pub mod Orders
pub mod Tracker
mod Examples
