-- ===== src/Fix/Engine.antt =====
-- internal/fix/engine.go: the matching engine. One goroutine owns its state, so each message that it
-- takes and each tick is one step.
pub mod State
pub mod Handlers
pub mod Loop
pub mod Ledger
pub mod Moves
pub mod Finality
pub mod Progress
pub mod Identity
