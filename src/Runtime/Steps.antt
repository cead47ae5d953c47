-- ===== src/Runtime/Steps.antt =====
-- One input to the runtime of packages/core/src/runtime/reducer.ts: by what it is, and what it does.
use rival_hub_broadcast.Prelude.{
  ℕ, ◌+◌, Bool, ◌≡◌, ◌≢◌, refl, Option, some, List, [], ◌∷◌, arith, subst, inl, inr, Bool-cases,
  Option-cases, ◌==◌, ◌!=◌, nat_eq, if◌then◌else◌,
}
use rival_hub_broadcast.Series.Types.{ResetReason}
use rival_hub_broadcast.Runtime.Types.{
  RuntimeState, RuntimeInput, RuntimeTime, RuntimeContinuityPolicy, RuntimeReduceResult,
  ProgramTelemetryInput, FrameContinuity, SequenceRange, RuntimeTransition, IgnoredReason,
  accepted_frame, ignored, program_telemetry, advance_program_source_generation,
  reset_map_execution,
}
use rival_hub_broadcast.Runtime.Continuity.{
  checked_policy, ContinuityDecision, ignore, accept, classify_program_telemetry,
}
use rival_hub_broadcast.Runtime.Transitions.{
  build_telemetry_transitions, observed_map_execution_changed_transition,
}
use rival_hub_broadcast.Runtime.Types.{continuity_eq, contiguous}
use rival_hub_broadcast.Runtime.Reducer.{
  known_map_name, next_map_state, ignored_result, accept_telemetry, reduce_program_telemetry,
  reduce_generation_advance, reduce_map_reset, reduce_checked, reduce_runtime, frame_continuity,
}

-- What one accepted or refused input does to the state as a whole.
pub data Outcome (s : RuntimeState) (r : RuntimeReduceResult) : Type 0 where
  refused :
      (reason : IgnoredReason)
      → r.disposition ≡ ignored reason
      → r.state ≡ s
      → r.transitions ≡ []
      → Outcome s r
  taken :
      ((reason : IgnoredReason) → r.disposition ≢ ignored reason)
      → r.state.runtime_seq ≡ s.runtime_seq + 1
      → r.state.producer_instance_id ≡ s.producer_instance_id
      → r.state.live_session ≡ s.live_session
      → Outcome s r

-- The transitions of a frame that is taken.
abbrev pub transitions_of :
    RuntimeState → ProgramTelemetryInput → FrameContinuity → Bool → List RuntimeTransition
transitions_of s input reason stale =
    let after = accept_telemetry s input reason stale in
    if (next_map_state s.map (known_map_name input.observation)).1
    then observed_map_execution_changed_transition s after input ∷ []
    else build_telemetry_transitions s after input (reason == contiguous) stale

-- The result of a telemetry frame, by the decision on it.
pub telemetry_by_decision :
    (s : RuntimeState) (input : ProgramTelemetryInput) (stale_after : ℕ)
    (P : RuntimeReduceResult → Type 0)
    → ((reason : IgnoredReason) → P (ignored_result s reason))
    → ((reason : FrameContinuity) (stale : Bool) (missing : Option SequenceRange)
        → classify_program_telemetry s input stale_after ≡ accept reason stale missing
        → P (record {
          state = accept_telemetry s input reason stale;
          transitions = transitions_of s input reason stale;
          disposition = accepted_frame (frame_continuity reason stale) missing;
        }))
    → P (reduce_program_telemetry s input stale_after)
unfolding reduce_program_telemetry
telemetry_by_decision s input stale_after P no_frame frame =
    go (classify_program_telemetry s input stale_after) refl
  where
    go :
        (d : ContinuityDecision)
        → classify_program_telemetry s input stale_after ≡ d
        → P (reduce_program_telemetry s input stale_after)
    go (ignore reason) e = rw (e, reduce_program_telemetry) (no_frame reason)
    go (accept reason stale missing) e =
        rw (e, reduce_program_telemetry) (frame reason stale missing e)

reduce_checked-by :
    (P : RuntimeState → RuntimeReduceResult → Type 0) (stale_after : ℕ)
    → ((s : RuntimeState) (input : ProgramTelemetryInput)
        → P s (reduce_program_telemetry s input stale_after))
    → ((s : RuntimeState) (next : ℕ) → P s (reduce_generation_advance s next))
    → ((s : RuntimeState) (reason : ResetReason) (at : RuntimeTime)
        → P s (reduce_map_reset s reason at))
    → (s : RuntimeState) (input : RuntimeInput) (r : RuntimeReduceResult)
    → reduce_checked s input stale_after ≡ some r
    → P s r
unfolding reduce_checked
reduce_checked-by P stale_after t g m s (program_telemetry input) r e =
    subst (P s) (ground arith) (t s input)
reduce_checked-by P stale_after t g m s (advance_program_source_generation next at) r e =
    subst (P s) (ground arith) (g s next)
reduce_checked-by P stale_after t g m s (reset_map_execution reason at) r e =
    subst (P s) (ground arith) (m s reason at)

-- A property of every step, from the three kinds of input.
pub reduce_runtime-by :
    (P : RuntimeState → RuntimeReduceResult → Type 0)
    → ((s : RuntimeState) (input : ProgramTelemetryInput) (stale_after : ℕ)
        → P s (reduce_program_telemetry s input stale_after))
    → ((s : RuntimeState) (next : ℕ) → P s (reduce_generation_advance s next))
    → ((s : RuntimeState) (reason : ResetReason) (at : RuntimeTime)
        → P s (reduce_map_reset s reason at))
    → (s : RuntimeState) (input : RuntimeInput) (policy : RuntimeContinuityPolicy)
      (r : RuntimeReduceResult)
    → reduce_runtime s input policy ≡ some r
    → P s r
unfolding reduce_runtime
reduce_runtime-by P t g m s input policy r e = elim (Option-cases (checked_policy policy)) [
  | inl bad ↦ absurd (cc (rw (bad, reduce_runtime) at e))
  | inr (stale_after, good) ↦
      reduce_checked-by P stale_after (λ s' i. t s' i stale_after) g m s input r
        (rw (good, reduce_runtime) at e)
]

telemetry-Outcome :
    (s : RuntimeState) (input : ProgramTelemetryInput) (stale_after : ℕ)
    → Outcome s (reduce_program_telemetry s input stale_after)
unfolding accept_telemetry ignored_result
telemetry-Outcome s input stale_after =
    telemetry_by_decision s input stale_after (Outcome s) (λ reason. refused reason refl refl refl)
      (λ reason stale missing e. taken (λ other h. cc) refl refl refl)

advance-Outcome : (s : RuntimeState) (next : ℕ) → Outcome s (reduce_generation_advance s next)
unfolding reduce_generation_advance ignored_result
advance-Outcome s next = elim (Bool-cases (next != s.program_source.generation + 1)) [
  | inl bad ↦ rw bad (refused _ refl refl refl)
  | inr good ↦ rw good (taken (λ other h. cc) refl refl refl)
]

reset-Outcome :
    (s : RuntimeState) (reason : ResetReason) (at : RuntimeTime)
    → Outcome s (reduce_map_reset s reason at)
unfolding reduce_map_reset ignored_result
reset-Outcome s reason at = elim (Bool-cases (s.map.epoch == 0)) [
  | inl unset ↦ rw unset (refused _ refl refl refl)
  | inr set ↦ rw set (taken (λ other h. cc) refl refl refl)
]

-- An input that the reducer does not reject is refused with the state as it was and no transition,
-- or taken: the runtime sequence grows by one, and the producer and the live session stay.
pub reduce_runtime-Outcome :
    (s : RuntimeState) (input : RuntimeInput) (policy : RuntimeContinuityPolicy)
    (r : RuntimeReduceResult)
    → reduce_runtime s input policy ≡ some r
    → Outcome s r
reduce_runtime-Outcome = reduce_runtime-by Outcome telemetry-Outcome advance-Outcome reset-Outcome
