-- ===== src/Runtime/Continuity.antt =====
-- packages/core/src/runtime/continuity.ts and freshness.ts: which frames are taken, and how old the
-- last one is. An Option of a policy or a freshness is none where the code throws a RangeError.
use rival_hub_broadcast.Prelude.{
  ℕ, pos, ◌+◌, ◌-◌, Bool, true, false, ◌&&◌, Option, none, some, ◌==◌, ltb, leb, nat_eq,
  if◌then◌else◌,
}
use rival_hub_broadcast.Runtime.Types.{
  Measure, finite, RuntimeState, RuntimeContinuityPolicy, ProgramTelemetryInput,
  RuntimeReceiveCursor, TelemetryObservation, FrameContinuity, SequenceRange, IgnoredReason,
  baseline, contiguous, gap_resync, duplicate, out_of_order, non_monotonic_time, stale_generation,
  generation_ahead,
}

-- One millisecond, in the unit of the times.
abbrev pub millisecond : ℕ
millisecond = 1000

abbrev pub default_objective_clock_lease_ms : Measure
default_objective_clock_lease_ms = finite (pos 1_000_000)

abbrev pub max_objective_clock_lease_ms : ℕ
max_objective_clock_lease_ms = 2_000_000

-- The test of a lease: finite, positive and at most the maximum.
unfoldable pub is_lease : Option Measure → Bool
is_lease none = true
is_lease (some (finite (pos n))) = ltb 0 n && leb n max_objective_clock_lease_ms
is_lease (some _) = false

-- `assertRuntimeContinuityPolicy`; a policy that passes has a threshold that is not negative.
unfoldable pub checked_policy : RuntimeContinuityPolicy → Option ℕ
checked_policy policy = elim policy.stale_after_ms [
  | finite (pos n) ↦ if is_lease policy.objective_clock_lease_ms then some n else none
  | _ ↦ none
]

pub data ContinuityDecision : Type 0 where
  ignore : IgnoredReason → ContinuityDecision
  accept : FrameContinuity → Bool → Option SequenceRange → ContinuityDecision

-- The last accepted frame is of this generation, and older than the policy allows.
unfoldable pub is_stale_recovery :
    RuntimeState → RuntimeReceiveCursor → TelemetryObservation → ℕ → Bool
is_stale_recovery state previous observation stale_after = elim state.program_telemetry [
  | none ↦ false
  | some _ ↦
      previous.generation == state.program_source.generation
      && ltb stale_after
          (observation.receive.received_monotonic_ms - previous.received_monotonic_ms)
]

unfoldable pub classify_after :
    RuntimeState → RuntimeReceiveCursor → TelemetryObservation → ℕ → ContinuityDecision
classify_after state previous observation stale_after =
    let sequence = observation.receive.sequence in
    if sequence == previous.sequence
    then ignore duplicate
    else if ltb sequence previous.sequence
    then ignore out_of_order
    else if ltb observation.receive.received_monotonic_ms previous.received_monotonic_ms
    then ignore non_monotonic_time
    else if sequence == previous.sequence + 1
    then accept contiguous (is_stale_recovery state previous observation stale_after) none
    else accept gap_resync (is_stale_recovery state previous observation stale_after)
        (some (record { from = previous.sequence + 1; to = sequence - 1 }))

unfoldable pub classify_program_telemetry :
    RuntimeState → ProgramTelemetryInput → ℕ → ContinuityDecision
classify_program_telemetry state input stale_after =
    if ltb input.source_generation state.program_source.generation
    then ignore stale_generation
    else if ltb state.program_source.generation input.source_generation
    then ignore generation_ahead
    else elim state.program_source.last_accepted [
      | none ↦ accept baseline false none
      | some previous ↦ classify_after state previous input.observation stale_after
    ]

pub data Freshness : Type 0 where
  awaiting fresh stale : Freshness

-- The part of `getProgramSourceFreshness` behind its assertions.
unfoldable pub freshness_at : RuntimeState → Option RuntimeReceiveCursor → ℕ → ℕ → Option Freshness
freshness_at state none now stale_after = some awaiting
freshness_at state (some cursor) now stale_after =
    if ltb now cursor.received_monotonic_ms then none else elim state.program_telemetry [
      | none ↦ some awaiting
      | some _ ↦
          if cursor.generation == state.program_source.generation
          then some (if ltb stale_after (now - cursor.received_monotonic_ms) then stale else fresh)
          else some awaiting
    ]

-- Times are not negative, so a finite `now` below zero precedes any cursor.
unfoldable pub get_program_source_freshness :
    RuntimeState → ℕ → RuntimeContinuityPolicy → Option Freshness
get_program_source_freshness state now policy = elim (checked_policy policy) [
  | none ↦ none
  | some stale_after ↦ freshness_at state state.program_source.last_accepted now stale_after
]
