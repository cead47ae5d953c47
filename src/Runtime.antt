-- ===== src/Runtime.antt =====
-- packages/core/src/runtime: the one runtime state, reduced by telemetry and control inputs.
pub mod Types
pub mod Continuity
pub mod ObjectiveTiming
pub mod Transitions
pub mod PlayerStats
pub mod PlayerStatsReducer
pub mod Reducer
pub mod Steps
pub mod Invariant
pub mod Delivery
pub mod Staleness
pub mod Events
pub mod PlayerLimits
pub mod Countdown
pub mod PlayerRounds
pub mod PlayerCount
mod Tests
