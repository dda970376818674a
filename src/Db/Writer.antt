-- ===== src/Db/Writer.antt =====
-- internal/db/writer.go: the writer's state, its flush, and the goroutines around it.
pub mod State
pub mod Send
pub mod Flush
pub mod Schedule
pub mod Filing
pub mod Enqueue
pub mod Emptying
pub mod Conservation
pub mod Soundness
pub mod Delivery
pub mod Closing
