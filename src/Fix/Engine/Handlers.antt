-- ===== src/Fix/Engine/Handlers.antt =====
-- internal/fix/engine.go: what the engine does with an order, a cancel and a due evaluation.
mod Publish
mod Accept
mod Evaluate
unfoldable pub use Publish.*
unfoldable pub use Accept.*
unfoldable pub use Evaluate.*
