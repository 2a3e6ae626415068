-- ===== src/Poller.antt =====
-- pkg/poller: the polling loop, and the two sources with what they hand the data to.
pub mod Loop
pub mod Backoff
pub mod Rounds
pub mod Retried
pub mod Address
pub mod Table
pub mod Endpoints
pub mod Assignment
pub mod Watcher
pub mod Effects
pub mod Sync
pub mod Drops
pub mod Handled
pub mod Sources
pub mod Configured
pub mod Runs
pub mod Gauges
pub mod Polled
