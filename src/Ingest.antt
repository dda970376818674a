-- ===== src/Ingest.antt =====
-- internal/ingest: the reconnect schedule, the order book and the trade buckets.
pub mod Backoff
pub mod Book
pub mod Level2
pub mod Trades
pub mod Candles
pub mod Funding
pub mod Backfill
pub mod Marks
pub mod VenueState
mod Examples
