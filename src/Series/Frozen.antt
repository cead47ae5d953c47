-- ===== src/Series/Frozen.antt =====
-- What a reduction of a series never changes: the plan, and the result of a closed map.
pub mod Relation
pub mod Steps
pub mod Binding
pub mod Rounds
pub mod Sync
