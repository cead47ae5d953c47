-- ===== src/Series.antt =====
-- packages/core/src/series-progress: the progress of one match over its maps.
pub mod Types
pub mod Score
pub mod Create
pub mod Binding
pub mod Rounds
pub mod Reconcile
pub mod Sync
pub mod Frozen
pub mod History
pub mod MapResult
pub mod Invariant
pub mod Monotone
mod Tests
