-- ===== src/Worker.antt =====
-- internal/worker: the handling of one message, deduplication, the backoff, the
-- pool of goroutines, and the reclaim lock.
pub mod Dedup
pub mod Process
pub mod Backoff
pub mod Pool
pub mod Reclaim
pub mod Poll
pub mod Start
