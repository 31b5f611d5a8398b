-- ===== src/Pool.antt =====
-- Material pools: backend/internal/pool. A source is parsed into rules (Pipeline), and its result
-- becomes the active or a pending snapshot of the source (Snapshot).
pub mod Pipeline
pub mod Finalize
pub mod Stats
pub mod Tallied
pub mod ByType
pub mod TypedTally
pub mod Counts
pub mod Unique
pub mod Task
pub mod TaskEnd
pub mod TaskRows
pub mod TaskCount
pub mod TaskSteps
pub mod TaskChange
pub mod TaskTidy
pub mod TaskTrace
pub mod Snapshot
pub mod Review
pub mod Sources
pub mod Guard
pub mod Decision
pub mod Run
pub mod RunSuccess
pub mod RunApplied
mod RunTests
mod TaskTests
mod SnapshotTests
mod Tests
