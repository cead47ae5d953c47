-- ===== src/Runtime/Tests.antt =====
-- Concrete frames for packages/core/src/runtime, and the theorems about it applied to them.
use rival_hub_broadcast.Prelude.{◌↔◌, ℕ, pos, ◌+◌, true, ◌≡◌, refl, none, some, [], ◌∷◌, length}
use rival_hub_broadcast.Prelude.Text.{is_blank}
use rival_hub_broadcast.Runtime.Types.{
  stale_recovery, finite, present, RoundPhase, freezetime, over, MapPhase, planted, ObservedPlayer,
  RuntimeState, RuntimeInput, RuntimeContinuityPolicy, RuntimeReduceResult, ProgramTelemetryInput,
  program_telemetry, unbound, accepted_frame, gap_resync,
}
use rival_hub_broadcast.Runtime.Continuity.{
  stale, get_program_source_freshness, checked_policy, is_lease, classify_program_telemetry,
  classify_after, is_stale_recovery,
}
use rival_hub_broadcast.Runtime.ObjectiveTiming.{
  reduce_objective_timing, create_objective_timing_state, next_anchor, covered_bomb, round_is_over,
  anchor_by_state, finite_countdown,
}
use rival_hub_broadcast.Runtime.Transitions.{
  build_telemetry_transitions, frame_transitions, has_round_phase, has_map_phase,
  has_other_known_map_phase,
}
use rival_hub_broadcast.Runtime.PlayerStats.{
  create_map_player_stats, round_phase, round_number_hint, has_complete_evidence,
  create_current_round, same_round_hint, acceptable_round_end_hint, add_completed_round,
}
use rival_hub_broadcast.Runtime.PlayerStatsReducer.{
  reduce_map_player_stats, reduce_on_map, close_round, observe_round, open_round, follow_phase,
  invalidate_on_gap,
}
use rival_hub_broadcast.Runtime.Reducer.{
  create_initial_runtime_state, reduce_runtime, reduce_checked, reduce_program_telemetry,
  accept_telemetry, known_map_name, next_map_state, map_name_changed,
}
use rival_hub_broadcast.Runtime.Steps.{Outcome, reduce_runtime-Outcome}
use rival_hub_broadcast.Runtime.Invariant.{
  IsAligned, create_initial_runtime_state-IsAligned, reduce_runtime-IsAligned,
}
use rival_hub_broadcast.Runtime.Delivery.{
  Taken, accepted_frame-Taken, Ascending, taken_frames, taken_frames-Ascending, run, run-IsAligned,
}
use rival_hub_broadcast.Runtime.Staleness.{accepted_frame-stale}
use rival_hub_broadcast.Runtime.Events.{
  MapStep, reduce_runtime-MapStep, FrameEvents, telemetry-FrameEvents,
}
use rival_hub_broadcast.Runtime.Countdown.{CountdownSource, reduce_runtime-countdown}
use rival_hub_broadcast.Runtime.PlayerRounds.{IsSoundStats, create_map_player_stats-IsSound}
use rival_hub_broadcast.Runtime.PlayerCount.{
  completes, one_if, reduce_on_map-counts, reduce_runtime-IsSoundStats,
}

abbrev player : ObservedPlayer
player = record {
  source_player_id = "76561198000000001";
  round_total_damage = some (finite (pos 88));
  money = some (finite (pos 4000));
}

-- A frame of the third round of a map, with a planted bomb.
abbrev frame : ℕ → RoundPhase → ProgramTelemetryInput
frame sequence phase = record {
  source_generation = 0;
  observation = record {
    receive = record {
      sequence = sequence;
      received_at = "2025-01-01T00:00:00Z";
      received_monotonic_ms = sequence;
    };
    coverage = record { map = present; round = present; all_players = present; bomb = present };
    telemetry = record {
      map = some (record {
        name = some "de_mirage";
        phase = some MapPhase.live;
        round_number = some (pos 3);
      });
      round = some (record { phase = some phase; winner_side = none });
      all_players = some (player ∷ []);
      bomb = some (record { state = some planted; countdown_seconds = some (finite (pos 40)) });
    };
  };
}

abbrev policy : RuntimeContinuityPolicy
policy = record { stale_after_ms = finite (pos 5000); objective_clock_lease_ms = none }

abbrev start : RuntimeState
start = create_initial_runtime_state "producer" unbound

abbrev freeze_frame : RuntimeInput
freeze_frame = program_telemetry (frame 7 freezetime)

abbrev after_freeze : RuntimeState
after_freeze = (reduce_program_telemetry start (frame 7 freezetime) 5000).state

abbrev live_result : RuntimeReduceResult
live_result = reduce_program_telemetry after_freeze (frame 8 RoundPhase.live) 5000

abbrev gap_result : RuntimeReduceResult
gap_result = reduce_program_telemetry after_freeze (frame 11 RoundPhase.live) 5000

abbrev over_result : RuntimeReduceResult
over_result = reduce_program_telemetry live_result.state (frame 9 over) 5000

freeze_step :
    reduce_runtime start freeze_frame policy
    ≡ some (reduce_program_telemetry start (frame 7 freezetime) 5000)
unfolding reduce_runtime checked_policy is_lease reduce_checked
freeze_step = refl

live_step :
    reduce_runtime after_freeze (program_telemetry (frame 8 RoundPhase.live)) policy
    ≡ some live_result
unfolding reduce_runtime checked_policy is_lease reduce_checked
live_step = refl

gap_step :
    reduce_runtime after_freeze (program_telemetry (frame 11 RoundPhase.live)) policy
    ≡ some gap_result
unfolding reduce_runtime checked_policy is_lease reduce_checked
gap_step = refl

gap_disposition :
    gap_result.disposition ≡ accepted_frame gap_resync (some (record { from = 8; to = 10 }))
unfolding reduce_program_telemetry classify_program_telemetry classify_after is_stale_recovery
    accept_telemetry create_initial_runtime_state
gap_disposition = refl

start_of_round : length live_result.transitions ≡ 1
unfolding reduce_program_telemetry classify_program_telemetry classify_after is_stale_recovery
    accept_telemetry create_initial_runtime_state next_map_state map_name_changed known_map_name
    build_telemetry_transitions frame_transitions has_round_phase has_map_phase
    has_other_known_map_phase is_blank length
start_of_round = refl

counted_round : over_result.state.player_stats.counted_completed_rounds ≡ 1
unfolding reduce_program_telemetry classify_program_telemetry classify_after is_stale_recovery
    accept_telemetry create_initial_runtime_state next_map_state map_name_changed known_map_name
    reduce_map_player_stats reduce_on_map close_round observe_round open_round follow_phase
    invalidate_on_gap create_map_player_stats round_phase round_number_hint has_complete_evidence
    create_current_round is_blank same_round_hint acceptable_round_end_hint add_completed_round
counted_round = refl

countdown_kept :
    live_result.state.objective_timing.explosion_anchor
    ≡ some (record { remaining_at_sample = pos 40; sampled_at_monotonic_ms = 8 })
unfolding reduce_program_telemetry classify_program_telemetry classify_after is_stale_recovery
    accept_telemetry create_initial_runtime_state reduce_objective_timing
    create_objective_timing_state next_anchor covered_bomb round_is_over anchor_by_state
    finite_countdown
countdown_kept = refl

reduce_runtime-Outcome_example : Outcome after_freeze live_result
reduce_runtime-Outcome_example = reduce_runtime-Outcome after_freeze _ policy live_result live_step

start-IsAligned : IsAligned start
start-IsAligned = create_initial_runtime_state-IsAligned "producer" unbound

reduce_runtime-IsAligned_example :
    IsAligned (reduce_program_telemetry start (frame 7 freezetime) 5000).state
reduce_runtime-IsAligned_example =
    reduce_runtime-IsAligned start freeze_frame policy _ freeze_step start-IsAligned

run-IsAligned_example : IsAligned (run policy start (freeze_frame ∷ freeze_frame ∷ []))
run-IsAligned_example =
    run-IsAligned policy start (freeze_frame ∷ freeze_frame ∷ []) start-IsAligned

accepted_frame-Taken_example :
    Taken after_freeze (frame 11 RoundPhase.live) (some (record { from = 8; to = 10 }))
accepted_frame-Taken_example =
    accepted_frame-Taken after_freeze (frame 11 RoundPhase.live) policy gap_result gap_resync _
      gap_step gap_disposition

taken_frames-Ascending_example :
    Ascending none (taken_frames policy start (freeze_frame ∷ freeze_frame ∷ []))
unfolding create_initial_runtime_state
taken_frames-Ascending_example =
    taken_frames-Ascending policy start (freeze_frame ∷ freeze_frame ∷ [])

reduce_runtime-MapStep_example : MapStep after_freeze live_result
reduce_runtime-MapStep_example =
    reduce_runtime-MapStep after_freeze (program_telemetry (frame 8 RoundPhase.live)) policy
      live_result live_step

telemetry-FrameEvents_example : FrameEvents after_freeze live_result
telemetry-FrameEvents_example = telemetry-FrameEvents after_freeze (frame 8 RoundPhase.live) 5000

reduce_runtime-countdown_example :
    CountdownSource after_freeze live_result
      (record { remaining_at_sample = pos 40; sampled_at_monotonic_ms = 8 })
reduce_runtime-countdown_example =
    reduce_runtime-countdown after_freeze (program_telemetry (frame 8 RoundPhase.live)) policy
      live_result live_step (record { remaining_at_sample = pos 40; sampled_at_monotonic_ms = 8 })
      countdown_kept

start-IsSoundStats : IsSoundStats start.player_stats
unfolding create_initial_runtime_state
start-IsSoundStats = create_map_player_stats-IsSound 0

reduce_runtime-IsSoundStats_example :
    IsSoundStats (reduce_program_telemetry start (frame 7 freezetime) 5000).state.player_stats
reduce_runtime-IsSoundStats_example =
    reduce_runtime-IsSoundStats start freeze_frame policy _ freeze_step start-IsSoundStats

reduce_on_map-counts_example :
    (reduce_on_map live_result.state.player_stats
      (frame 9 over).observation
      true).counted_completed_rounds
    ≡ live_result.state.player_stats.counted_completed_rounds
      + one_if
          (completes live_result.state.player_stats.current_round (frame 9 over).observation true)
reduce_on_map-counts_example =
    reduce_on_map-counts live_result.state.player_stats (frame 9 over).observation true

abbrev late_result : RuntimeReduceResult
late_result = reduce_program_telemetry after_freeze (frame 9000 RoundPhase.live) 5000

late_step :
    reduce_runtime after_freeze (program_telemetry (frame 9000 RoundPhase.live)) policy
    ≡ some late_result
unfolding reduce_runtime checked_policy is_lease reduce_checked
late_step = refl

late_disposition :
    late_result.disposition ≡ accepted_frame stale_recovery (some (record { from = 8; to = 8999 }))
unfolding reduce_program_telemetry classify_program_telemetry classify_after is_stale_recovery
    accept_telemetry create_initial_runtime_state
late_disposition = refl

accepted_frame-stale_example :
    (stale_recovery ≡ stale_recovery)
    ↔ (get_program_source_freshness after_freeze 9000 policy ≡ some stale)
accepted_frame-stale_example =
    accepted_frame-stale after_freeze (frame 9000 RoundPhase.live) policy late_result stale_recovery
      _ late_step late_disposition
