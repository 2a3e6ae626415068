-- ===== src/Cell.antt =====
-- pkg/cell: the cells of an instance, their engines, and the manager that drives both.
pub mod Role
pub mod Model
pub mod Manager
pub mod Compile
pub mod Compiling
pub mod Refusals
pub mod Setup
pub mod Apply
pub mod Events
pub mod Invariant
pub mod Updates
pub mod Roles
pub mod Swaps
pub mod Reachable
pub mod Lifecycle
pub mod Swapped
pub mod Transitions
pub mod Teardown
pub mod Scheduling
pub mod Bounds
pub mod Progress
pub mod Moves
pub mod Steps
pub mod Stepped
pub mod Kept
pub mod Gauges
pub mod Inflight
pub mod Retired
pub mod Versions
pub mod Race
pub mod Racing
pub mod Raced
pub mod Tagged
pub mod Defaults
pub mod WaitReady
pub mod Atomics
pub mod Promoted
pub mod Pending
pub mod Readiness
pub mod Ready
pub mod Eventually
pub mod Awaited
