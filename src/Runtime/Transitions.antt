-- ===== src/Runtime/Transitions.antt =====
-- packages/core/src/runtime/transitions.ts: the events between two accepted frames.
use rival_hub_broadcast.Prelude.{
  ℕ, ℤ, pos, Bool, false, not, ◌&&◌, ◌||◌, Option, none, some, List, [], ◌∷◌, ◌++◌, ◌==◌, ◌!=◌,
  nat_eq, option_eq, ltb, if◌then◌else◌,
}
use rival_hub_broadcast.Series.Types.{SourceSide, ResetReason}
use rival_hub_broadcast.Runtime.Types.{
  finite, TelemetryObservation, ObservedMap, ObservedRound, RoundPhase, MapPhase, RuntimeState,
  RuntimeTime, ProgramTelemetryInput, TransitionBase, MapChange, RuntimeTransition, coverage_eq,
  round_phase_eq, map_phase_eq, present, freezetime, over, gameover, round_started, round_ended,
  map_ended, observed_map_change, explicit_map_change,
}
use rival_hub_broadcast.Runtime.ObjectiveTiming.{round_phase_of}

unfoldable pub transition_base : RuntimeState → ℕ → ℕ → RuntimeTime → TransitionBase
transition_base state runtime_seq map_epoch at = record {
  runtime_seq = runtime_seq;
  producer_instance_id = state.producer_instance_id;
  live_session = state.live_session;
  map_epoch = map_epoch;
  at = at;
}

abbrev pub receive_time : ProgramTelemetryInput → RuntimeTime
receive_time input = record {
  monotonic_ms = finite (pos input.observation.receive.received_monotonic_ms);
  utc = input.observation.receive.received_at;
}

-- `hasCurrentRoundPhase`; `hasRoundPhase` asks it of the last accepted frame.
unfoldable pub has_round_phase : TelemetryObservation → RoundPhase → Bool
has_round_phase o phase =
    o.coverage.round == present && round_phase_of o.telemetry.round == some phase

abbrev pub map_phase_of : Option ObservedMap → Option MapPhase
map_phase_of none = none
map_phase_of (some m) = m.phase

-- `hasKnownMapPhase`: the map's phase is known, and another one.
unfoldable pub has_other_known_map_phase : TelemetryObservation → MapPhase → Bool
has_other_known_map_phase o phase =
    o.coverage.map == present && elim (map_phase_of o.telemetry.map) [
      | none ↦ false
      | some p ↦ p != MapPhase.unknown && p != phase
    ]

unfoldable pub has_map_phase : TelemetryObservation → MapPhase → Bool
has_map_phase o phase = o.coverage.map == present && map_phase_of o.telemetry.map == some phase

abbrev round_number_of : Option ObservedMap → Option ℤ
round_number_of none = none
round_number_of (some m) = m.round_number

abbrev winner_of : Option ObservedRound → Option SourceSide
winner_of none = none
winner_of (some r) = r.winner_side

abbrev when : Bool → RuntimeTransition → List RuntimeTransition
when test t = if test then t ∷ [] else []

unfoldable pub frame_transitions :
    RuntimeState
    → RuntimeState
    → ProgramTelemetryInput
    → TelemetryObservation
    → List RuntimeTransition
frame_transitions state next input before =
    let now = input.observation in
    let base = transition_base state next.runtime_seq next.map.epoch (receive_time input) in
    when (has_round_phase before freezetime && has_round_phase now RoundPhase.live) (
      round_started base input.source_generation now.receive.sequence
        (round_number_of now.telemetry.map))
    ++ (when (has_round_phase before RoundPhase.live && has_round_phase now over) (
          round_ended base input.source_generation now.receive.sequence
            (round_number_of now.telemetry.map) (winner_of now.telemetry.round))
        ++ when (has_other_known_map_phase before gameover && has_map_phase now gameover)
            (map_ended base input.source_generation now.receive.sequence))

unfoldable pub build_telemetry_transitions :
    RuntimeState → RuntimeState → ProgramTelemetryInput → Bool → Bool → List RuntimeTransition
build_telemetry_transitions state next input sequence_is_contiguous stale_recovery =
    elim state.program_telemetry [
      | none ↦ []
      | some before ↦
          if not sequence_is_contiguous
            || stale_recovery
            || not (ltb 0 state.map.epoch && next.map.epoch == state.map.epoch)
          then []
          else frame_transitions state next input before
    ]

unfoldable pub map_change : RuntimeState → RuntimeState → MapChange
map_change state next = record {
  previous_map_epoch = state.map.epoch;
  previous_map_name = state.map.name;
  map_name = next.map.name;
}

unfoldable pub observed_map_execution_changed_transition :
    RuntimeState → RuntimeState → ProgramTelemetryInput → RuntimeTransition
observed_map_execution_changed_transition state next input =
    observed_map_change (transition_base state next.runtime_seq next.map.epoch (receive_time input))
      (map_change state next) input.source_generation input.observation.receive.sequence

unfoldable pub explicit_map_execution_changed_transition :
    RuntimeState → RuntimeState → RuntimeTime → ResetReason → RuntimeTransition
explicit_map_execution_changed_transition state next at reason =
    explicit_map_change (transition_base state next.runtime_seq next.map.epoch at)
      (map_change state next) reason
