-- ===== src/Runtime/ObjectiveTiming.antt =====
-- packages/core/src/runtime/objective-timing.ts: the countdown of a planted bomb across frames.
use rival_hub_broadcast.Prelude.{
  ℕ, ℤ, pos, Bool, ◌&&◌, ◌||◌, Option, none, some, ◌==◌, nat_eq, option_eq, if◌then◌else◌, int_ltb,
}
use rival_hub_broadcast.Runtime.Types.{
  Measure, finite, TelemetryObservation, ObservedBomb, ObservedRound, ObjectiveTiming,
  ObjectiveTimingAnchor, BombState, FrameContinuity, RoundPhase, coverage_eq, round_phase_eq,
  bomb_eq, continuity_eq, present, over, contiguous, carried, dropped, planting, planted, defusing,
}

unfoldable pub create_objective_timing_state : ℕ → ℕ → ObjectiveTiming
create_objective_timing_state source_generation map_epoch = record {
  source_generation = source_generation;
  map_epoch = map_epoch;
  last_accepted_receive_sequence = none;
  explosion_anchor = none;
  last_bomb_state = none;
  explosion_duration = none;
  plant_action_duration = none;
}

unfoldable pub finite_countdown : Option Measure → Option ℤ
finite_countdown (some (finite n)) = some n
finite_countdown _ = none

abbrev pub round_phase_of : Option ObservedRound → Option RoundPhase
round_phase_of none = none
round_phase_of (some r) = r.phase

unfoldable pub round_is_over : TelemetryObservation → Bool
round_is_over o = o.coverage.round == present && round_phase_of o.telemetry.round == some over

-- The bomb block of an observation that covers it.
unfoldable pub covered_bomb : TelemetryObservation → Option ObservedBomb
covered_bomb o = if o.coverage.bomb == present then o.telemetry.bomb else none

abbrev pub state_or_unknown : ObservedBomb → BombState
state_or_unknown b = elim b.state [ none ↦ BombState.unknown | some s ↦ s ]

-- The switch on the bomb's state.
unfoldable pub anchor_by_state :
    BombState → Option ℤ → Option ObjectiveTimingAnchor → ℕ → Option ObjectiveTimingAnchor
anchor_by_state planted none previous at = previous
anchor_by_state planted (some countdown) previous at =
    some (record { remaining_at_sample = countdown; sampled_at_monotonic_ms = at })
anchor_by_state defusing countdown previous at = previous
anchor_by_state _ countdown previous at = none

unfoldable pub next_anchor :
    TelemetryObservation → Option ObjectiveTimingAnchor → Option ObjectiveTimingAnchor
next_anchor o previous = elim (covered_bomb o) [
  | none ↦ none
  | some b ↦
      if round_is_over o
      then none
      else anchor_by_state (state_or_unknown b) (finite_countdown b.countdown_seconds) previous
          o.receive.received_monotonic_ms
]

unfoldable pub denominator_of : Option ℤ → Option ℤ
denominator_of (some (pos n)) = some (pos n)
denominator_of _ = none

abbrev max_ℤ : ℤ → ℤ → ℤ
max_ℤ a b = if int_ltb a b then b else a

unfoldable pub plant_duration : ObjectiveTiming → Option BombState → Option ℤ → Option ℤ
plant_duration previous state denominator =
    if state == some planting
    then (if previous.last_bomb_state == some planting
        then previous.plant_action_duration
        else if previous.last_bomb_state == some carried || previous.last_bomb_state == some dropped
        then denominator
        else none)
    else none

abbrev longer : Option ℤ → Option ℤ → Option ℤ
longer none d = none
longer (some n) none = some n
longer (some n) (some d) = some (max_ℤ n d)

unfoldable pub explosion_duration_of : ObjectiveTiming → Option BombState → Option ℤ → Option ℤ
explosion_duration_of previous state denominator =
    if state == some planted
    then (if previous.last_bomb_state == some planting
        then denominator
        else longer previous.explosion_duration denominator)
    else if state == some defusing
    then previous.explosion_duration
    else none

abbrev pub bomb_state : Option ObservedBomb → Option BombState
bomb_state none = none
bomb_state (some b) = b.state

abbrev pub bomb_countdown : Option ObservedBomb → Option Measure
bomb_countdown none = none
bomb_countdown (some b) = b.countdown_seconds

unfoldable pub reduce_objective_timing :
    ObjectiveTiming → TelemetryObservation → ℕ → ℕ → FrameContinuity → ObjectiveTiming
reduce_objective_timing previous o source_generation map_epoch continuity =
    let continued =
      continuity == contiguous
      && previous.source_generation == source_generation
      && previous.map_epoch == map_epoch in
    let state = if round_is_over o then none else bomb_state (covered_bomb o) in
    let denominator = denominator_of (finite_countdown (bomb_countdown (covered_bomb o))) in
    record {
      source_generation = source_generation;
      map_epoch = map_epoch;
      last_accepted_receive_sequence = some o.receive.sequence;
      explosion_anchor = next_anchor o (if continued then previous.explosion_anchor else none);
      last_bomb_state = state;
      explosion_duration =
          if continued then explosion_duration_of previous state denominator else none;
      plant_action_duration = if continued then plant_duration previous state denominator else none;
    }
