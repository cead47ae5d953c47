-- ===== src/Runtime/Reducer.antt =====
-- packages/core/src/runtime/reducer.ts and the initial state of types.ts.
use rival_hub_broadcast.Prelude.{
  ℕ, ◌+◌, Bool, true, false, ◌&&◌, Option, none, some, [], ◌∷◌, String, ◌==◌, ◌!=◌, nat_eq,
  string_eq, if◌then◌else◌, ltb,
}
use rival_hub_broadcast.Prelude.Text.{is_blank}
use rival_hub_broadcast.Series.Types.{ResetReason}
use rival_hub_broadcast.Runtime.Types.{
  finite, not_finite, RuntimeState, RuntimeMap, RuntimeInput, RuntimeTime, RuntimeContinuityPolicy,
  RuntimeReduceResult, ProgramTelemetryInput, TelemetryObservation, ObservedMap, LiveSessionBinding,
  FrameContinuity, IgnoredReason, coverage_eq, continuity_eq, present, contiguous, stale_recovery,
  accepted_frame, source_generation_advanced, map_execution_reset, ignored,
  invalid_generation_advance, map_not_established, program_telemetry,
  advance_program_source_generation, reset_map_execution,
}
use rival_hub_broadcast.Runtime.Continuity.{
  checked_policy, ignore, accept, classify_program_telemetry,
}
use rival_hub_broadcast.Runtime.ObjectiveTiming.{
  create_objective_timing_state, reduce_objective_timing,
}
use rival_hub_broadcast.Runtime.Transitions.{
  build_telemetry_transitions, observed_map_execution_changed_transition,
  explicit_map_execution_changed_transition,
}
use rival_hub_broadcast.Runtime.PlayerStats.{create_map_player_stats, invalidate_map_player_stats}
use rival_hub_broadcast.Runtime.PlayerStatsReducer.{reduce_map_player_stats}

unfoldable pub create_initial_runtime_state : String → LiveSessionBinding → RuntimeState
create_initial_runtime_state producer_instance_id live_session = record {
  producer_instance_id = producer_instance_id;
  live_session = live_session;
  runtime_seq = 0;
  program_source = record { generation = 0; last_accepted = none };
  map = record { epoch = 0; name = none };
  player_stats = create_map_player_stats 0;
  objective_timing = create_objective_timing_state 0 0;
  program_telemetry = none;
}

abbrev name_of : Option ObservedMap → Option String
name_of none = none
name_of (some m) = elim m.name [
  | none ↦ none
  | some name ↦ if is_blank name then none else some name
]

-- A map name that is covered and not blank.
unfoldable pub known_map_name : TelemetryObservation → Option String
known_map_name o = if o.coverage.map == present then name_of o.telemetry.map else none

abbrev differs : Option String → String → Bool
differs none name = false
differs (some old) name = old != name

unfoldable pub map_name_changed : RuntimeMap → String → Bool
map_name_changed m name = ltb 0 m.epoch && differs m.name name

-- The next map, and whether its execution changed.
unfoldable pub next_map_state : RuntimeMap → Option String → RuntimeMap × Bool
next_map_state m none = (m, false)
next_map_state m (some name) =
    if m.epoch == 0
    then (record { epoch = 1; name = some name }, false)
    else if map_name_changed m name
    then (record { epoch = m.epoch + 1; name = some name }, true)
    else elim m.name [ none ↦ (record m { name = some name }, false) | some _ ↦ (m, false) ]

unfoldable pub ignored_result : RuntimeState → IgnoredReason → RuntimeReduceResult
ignored_result state reason = record {
  state = state;
  transitions = [];
  disposition = ignored reason;
}

abbrev pub frame_continuity : FrameContinuity → Bool → FrameContinuity
frame_continuity reason stale = if stale then stale_recovery else reason

unfoldable pub accept_telemetry :
    RuntimeState → ProgramTelemetryInput → FrameContinuity → Bool → RuntimeState
accept_telemetry state input reason stale =
    let generation = state.program_source.generation in
    let receive = input.observation.receive in
    let m = (next_map_state state.map (known_map_name input.observation)).0 in
    record state {
      runtime_seq = state.runtime_seq + 1;
      program_source = record {
        generation = generation;
        last_accepted = some (record {
          generation = generation;
          sequence = receive.sequence;
          received_at = receive.received_at;
          received_monotonic_ms = receive.received_monotonic_ms;
        });
      };
      map = m;
      player_stats =
          reduce_map_player_stats state.player_stats m.epoch input.observation
            (frame_continuity reason stale);
      objective_timing =
          reduce_objective_timing state.objective_timing input.observation generation m.epoch
            (frame_continuity reason stale);
      program_telemetry = some input.observation;
    }

unfoldable pub reduce_program_telemetry :
    RuntimeState → ProgramTelemetryInput → ℕ → RuntimeReduceResult
reduce_program_telemetry state input stale_after =
    elim (classify_program_telemetry state input stale_after) [
      | ignore reason ↦ ignored_result state reason
      | accept reason stale missing ↦
          let next = accept_telemetry state input reason stale in
          record {
            state = next;
            transitions =
                if (next_map_state state.map (known_map_name input.observation)).1
                then observed_map_execution_changed_transition state next input ∷ []
                else build_telemetry_transitions state next input (reason == contiguous) stale;
            disposition = accepted_frame (frame_continuity reason stale) missing;
          }
    ]

unfoldable pub reduce_generation_advance : RuntimeState → ℕ → RuntimeReduceResult
reduce_generation_advance state next_generation =
    if next_generation != state.program_source.generation + 1
    then ignored_result state invalid_generation_advance
    else record {
      state = record state {
        runtime_seq = state.runtime_seq + 1;
        program_source = record (state.program_source) { generation = next_generation };
        player_stats = invalidate_map_player_stats state.player_stats;
        objective_timing = create_objective_timing_state next_generation state.map.epoch;
        program_telemetry = none;
      };
      transitions = [];
      disposition = source_generation_advanced;
    }

unfoldable pub reduce_map_reset : RuntimeState → ResetReason → RuntimeTime → RuntimeReduceResult
reduce_map_reset state reason at =
    if state.map.epoch == 0
    then ignored_result state map_not_established
    else (let next : RuntimeState = record state {
      runtime_seq = state.runtime_seq + 1;
      map = record (state.map) { epoch = state.map.epoch + 1 };
      player_stats = create_map_player_stats (state.map.epoch + 1);
      objective_timing =
          create_objective_timing_state state.program_source.generation (state.map.epoch + 1);
      program_telemetry = none;
    } in
        record {
          state = next;
          transitions = explicit_map_execution_changed_transition state next at reason ∷ [];
          disposition = map_execution_reset;
        })

-- `assertRuntimeTime`
abbrev timed : RuntimeTime → RuntimeReduceResult → Option RuntimeReduceResult
timed at result = elim at.monotonic_ms [ finite _ ↦ some result | not_finite ↦ none ]

unfoldable pub reduce_checked : RuntimeState → RuntimeInput → ℕ → Option RuntimeReduceResult
reduce_checked state (program_telemetry input) stale_after =
    some (reduce_program_telemetry state input stale_after)
reduce_checked state (advance_program_source_generation next at) stale_after =
    timed at (reduce_generation_advance state next)
reduce_checked state (reset_map_execution reason at) stale_after =
    timed at (reduce_map_reset state reason at)

-- None is a RangeError, which leaves the state as it was.
unfoldable pub reduce_runtime :
    RuntimeState → RuntimeInput → RuntimeContinuityPolicy → Option RuntimeReduceResult
reduce_runtime state input policy = elim (checked_policy policy) [
  | none ↦ none
  | some stale_after ↦ reduce_checked state input stale_after
]
