-- ===== src/Runtime/PlayerCount.antt =====
-- The completed rounds that packages/core/src/runtime/player-stats.ts counts, frame by frame.
use rival_hub_broadcast.Prelude.{
  ℕ, ◌+◌, Bool, true, false, ◌≡◌, ◌≢◌, refl, sym, ap, ◌∙◌, Option, none, some, arith, inl, inr,
  Bool-cases, Option-cases, ◌==◌, nat_eq, ◌!=◌, if◌then◌else◌, ◌&&◌,
}
use rival_hub_broadcast.Series.Types.{ResetReason}
use rival_hub_broadcast.Runtime.Types.{
  RuntimeState, RuntimeInput, RuntimeTime, RuntimeContinuityPolicy, RuntimeReduceResult,
  ProgramTelemetryInput, TelemetryObservation, MapPlayerStatsCurrentRound, MapPlayerStats,
  FrameContinuity, over, round_phase_eq, continuity_eq,
}
use rival_hub_broadcast.Runtime.PlayerStats.{
  add_completed_round, invalidate_current_round, create_map_player_stats, create_current_round,
  round_phase, round_number_hint, has_complete_evidence, acceptable_round_end_hint,
}
use rival_hub_broadcast.Runtime.PlayerStatsReducer.{
  invalidate_on_gap, follow_phase, open_round, observe_round, close_round, is_counted,
  reduce_on_map, reduce_map_player_stats,
}
use rival_hub_broadcast.Runtime.PlayerRounds.{
  IsSoundStats, create_map_player_stats-IsSound, reduce_map_player_stats-IsSound,
  invalidate_map_player_stats-IsSound,
}
use rival_hub_broadcast.Runtime.Reducer.{
  ignored_result, accept_telemetry, reduce_program_telemetry, reduce_generation_advance,
  reduce_map_reset, reduce_runtime,
}
use rival_hub_broadcast.Runtime.Steps.{telemetry_by_decision, reduce_runtime-by}

-- The frame ends an open round that was counted so far, with all its evidence.
abbrev pub completes : Option MapPlayerStatsCurrentRound → TelemetryObservation → Bool → Bool
completes none o healthy = false
completes (some r) o healthy =
    healthy
    && round_phase o == over
    && has_complete_evidence o
    && is_counted r
    && acceptable_round_end_hint r.round_number_hint (round_number_hint o)

-- The rounds that a frame adds.
abbrev pub one_if : Bool → ℕ
one_if b = if b then 1 else 0

count_no_round :
    (stats : MapPlayerStats) (o : TelemetryObservation) (healthy : Bool)
    → stats.current_round ≡ none
    → (reduce_on_map stats o healthy).counted_completed_rounds ≡ stats.counted_completed_rounds
unfolding reduce_on_map invalidate_on_gap follow_phase open_round close_round add_completed_round
    observe_round create_current_round
count_no_round stats o healthy e = ground arith

count_round :
    (stats : MapPlayerStats) (o : TelemetryObservation) (healthy : Bool)
    (r : MapPlayerStatsCurrentRound)
    → stats.current_round ≡ some r
    → (reduce_on_map stats o healthy).counted_completed_rounds
      ≡ stats.counted_completed_rounds + one_if (completes (some r) o healthy)
unfolding reduce_on_map invalidate_on_gap follow_phase open_round close_round add_completed_round
    observe_round create_current_round invalidate_current_round
count_round stats o healthy r e = ground arith

-- On its own map, a frame adds one completed round exactly if it continues the frames before, covers
-- all players and says that the round is over, while the open round is eligible, not void, has all its
-- evidence and a number that fits; else it adds none.
pub reduce_on_map-counts :
    (stats : MapPlayerStats) (o : TelemetryObservation) (healthy : Bool)
    → (reduce_on_map stats o healthy).counted_completed_rounds
      ≡ stats.counted_completed_rounds + one_if (completes stats.current_round o healthy)
reduce_on_map-counts stats o healthy = elim (Option-cases stats.current_round) [
  | inl absent ↦
      let none_added : stats.counted_completed_rounds
          ≡ stats.counted_completed_rounds + one_if (completes none o healthy) =
        omega arith in
      count_no_round stats o healthy absent ∙ none_added ∙ ap added (sym absent)
  | inr (r, present) ↦ count_round stats o healthy r present ∙ ap added (sym present)
]
  where
    added : Option MapPlayerStatsCurrentRound → ℕ
    added current = stats.counted_completed_rounds + one_if (completes current o healthy)

-- The first frame of a new map counts no round.
pub reduce_map_player_stats-new_map :
    (stats : MapPlayerStats) (epoch : ℕ) (o : TelemetryObservation) (continuity : FrameContinuity)
    → stats.map_epoch ≢ epoch
    → (reduce_map_player_stats stats epoch o continuity).counted_completed_rounds ≡ 0
unfolding reduce_map_player_stats create_map_player_stats
reduce_map_player_stats-new_map stats epoch o continuity h =
    let other : (stats.map_epoch == epoch) ≡ false = ground arith in
    rw other (count_no_round (create_map_player_stats epoch) o true refl)

telemetry-IsSound :
    (s : RuntimeState) (input : ProgramTelemetryInput) (stale_after : ℕ)
    → IsSoundStats s.player_stats
    → IsSoundStats (reduce_program_telemetry s input stale_after).state.player_stats
unfolding ignored_result accept_telemetry
telemetry-IsSound s input stale_after =
    telemetry_by_decision s input stale_after
      (λ r. IsSoundStats s.player_stats → IsSoundStats r.state.player_stats) (λ reason sound. sound)
      (λ reason stale missing e.
        reduce_map_player_stats-IsSound s.player_stats _ input.observation _)

advance-IsSound :
    (s : RuntimeState) (generation : ℕ)
    → IsSoundStats s.player_stats
    → IsSoundStats (reduce_generation_advance s generation).state.player_stats
unfolding reduce_generation_advance ignored_result
advance-IsSound s generation sound =
    elim (Bool-cases (generation != s.program_source.generation + 1)) [
      | inl bad ↦ rw bad sound
      | inr good ↦ rw good (invalidate_map_player_stats-IsSound s.player_stats sound)
    ]

reset-IsSound :
    (s : RuntimeState) (reason : ResetReason) (at : RuntimeTime)
    → IsSoundStats s.player_stats
    → IsSoundStats (reduce_map_reset s reason at).state.player_stats
unfolding reduce_map_reset ignored_result
reset-IsSound s reason at sound = elim (Bool-cases (s.map.epoch == 0)) [
  | inl unset ↦ rw unset sound
  | inr set ↦ rw set (create_map_player_stats-IsSound (s.map.epoch + 1))
]

-- An input that the reducer does not reject keeps the player statistics of the state sound: at most 64
-- players in each table, and a voided round is not eligible and has neither evidence nor damage.
pub reduce_runtime-IsSoundStats :
    (s : RuntimeState) (input : RuntimeInput) (policy : RuntimeContinuityPolicy)
    (r : RuntimeReduceResult)
    → reduce_runtime s input policy ≡ some r
    → IsSoundStats s.player_stats
    → IsSoundStats r.state.player_stats
reduce_runtime-IsSoundStats =
    reduce_runtime-by (λ s r. IsSoundStats s.player_stats → IsSoundStats r.state.player_stats)
      telemetry-IsSound advance-IsSound reset-IsSound
