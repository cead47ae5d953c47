-- ===== src/Runtime/Countdown.antt =====
-- Where the bomb's countdown of packages/core/src/runtime/objective-timing.ts comes from.
use rival_hub_broadcast.Prelude.{
  ℕ, ℤ, ◌+◌, Bool, false, ◌≡◌, ◌≢◌, refl, ap, Option, none, some, arith, inl, inr, ◌⊎◌, Bool-cases,
  Option-cases, ◌==◌, ◌!=◌, nat_eq,
}
use rival_hub_broadcast.Series.Types.{ResetReason}
use rival_hub_broadcast.Runtime.Types.{
  RuntimeState, RuntimeInput, RuntimeTime, RuntimeContinuityPolicy, RuntimeReduceResult,
  ProgramTelemetryInput, TelemetryObservation, ObservedBomb, BombState, ObjectiveTiming,
  ObjectiveTimingAnchor, FrameContinuity, SequenceRange, contiguous, continuity_eq, accepted_frame,
  planted, defusing,
}
use rival_hub_broadcast.Runtime.ObjectiveTiming.{
  create_objective_timing_state, reduce_objective_timing, next_anchor, anchor_by_state,
  covered_bomb, round_is_over, state_or_unknown, bomb_state,
}
use rival_hub_broadcast.Runtime.Reducer.{
  ignored_result, accept_telemetry, reduce_program_telemetry, reduce_generation_advance,
  reduce_map_reset, reduce_runtime, frame_continuity,
}
use rival_hub_broadcast.Runtime.Steps.{telemetry_by_decision, transitions_of, reduce_runtime-by}

-- A frame that shows a planted bomb and its countdown, in a round that is not over.
pub record IsSample (o : TelemetryObservation) (a : ObjectiveTimingAnchor) : Type 0 where
  pub playing : round_is_over o ≡ false
  pub state : bomb_state (covered_bomb o) ≡ some planted
  pub time : a.sampled_at_monotonic_ms ≡ o.receive.received_monotonic_ms

-- A frame that may keep the countdown: the bomb is planted or being defused, the round is not over.
pub record IsKeeping (o : TelemetryObservation) : Type 0 where
  pub playing : round_is_over o ≡ false
  pub state :
      (bomb_state (covered_bomb o) ≡ some planted) ⊎ (bomb_state (covered_bomb o) ≡ some defusing)

anchor_by_state-source :
    (state : BombState) (countdown : Option ℤ) (previous : Option ObjectiveTimingAnchor) (at : ℕ)
    (a : ObjectiveTimingAnchor)
    → anchor_by_state state countdown previous at ≡ some a
    → ((state ≡ planted) × (a.sampled_at_monotonic_ms ≡ at))
      ⊎ (((state ≡ planted) ⊎ (state ≡ defusing)) × (previous ≡ some a))
unfolding anchor_by_state
anchor_by_state-source planted none previous at a e = inr (inl refl, e)
anchor_by_state-source planted (some countdown) previous at a e = inl (refl, ground arith)
anchor_by_state-source defusing countdown previous at a e = inr (inr refl, e)
anchor_by_state-source state countdown previous at a e = absurd (ground arith)

state_or_unknown-known :
    (b : ObservedBomb) (state : BombState)
    → state ≢ BombState.unknown
    → state_or_unknown b ≡ state
    → b.state ≡ some state
state_or_unknown-known b state h e = ground arith

next_anchor-source :
    (o : TelemetryObservation) (previous : Option ObjectiveTimingAnchor) (a : ObjectiveTimingAnchor)
    → next_anchor o previous ≡ some a
    → IsSample o a ⊎ (IsKeeping o × (previous ≡ some a))
unfolding next_anchor
next_anchor-source o previous a e = elim (Option-cases (covered_bomb o)) [
  | inl absent ↦ absurd (cc (rw (absent, next_anchor) at e))
  | inr (b, present) ↦ elim (Bool-cases (round_is_over o)) [
    | inl ended ↦ absurd (cc (rw (present, ended, next_anchor) at e))
    | inr playing ↦
        elim (anchor_by_state-source _ _ previous _ a (rw (present, playing, next_anchor) at e)) [
          | inl (shown, time) ↦ inl (record {
            playing = playing;
            state = rw present (state_or_unknown-known b planted (λ h. cc h) shown);
            time = time;
          })
          | inr (inl shown, same) ↦ inr (
            record {
              playing = playing;
              state = inl (rw present (state_or_unknown-known b planted (λ h. cc h) shown));
            },
            same,
          )
          | inr (inr shown, same) ↦ inr (
            record {
              playing = playing;
              state = inr (rw present (state_or_unknown-known b defusing (λ h. cc h) shown));
            },
            same,
          )
        ]
  ]
]

-- Where the countdown after a step comes from.
pub data CountdownSource (s : RuntimeState) (r : RuntimeReduceResult) (a : ObjectiveTimingAnchor)
    : Type 0 where
  unchanged : r.state ≡ s → CountdownSource s r a
  sampled :
      (o : TelemetryObservation)
      → r.state.program_telemetry ≡ some o
      → IsSample o a
      → CountdownSource s r a
  kept :
      (o : TelemetryObservation)
      → r.state.program_telemetry ≡ some o
      → IsKeeping o
      → s.objective_timing.explosion_anchor ≡ some a
      → (missing : Option SequenceRange) → r.disposition ≡ accepted_frame contiguous missing
      → CountdownSource s r a

abbrev IsSourced : RuntimeState → RuntimeReduceResult → Type 0
IsSourced s r =
    (a : ObjectiveTimingAnchor)
    → r.state.objective_timing.explosion_anchor ≡ some a
    → CountdownSource s r a

-- The countdown that a frame is handed is the one before, if the frame is contiguous.
reduce_objective_timing-source :
    (previous : ObjectiveTiming) (o : TelemetryObservation) (generation epoch : ℕ)
    (continuity : FrameContinuity) (a : ObjectiveTimingAnchor)
    → (reduce_objective_timing previous o generation epoch continuity).explosion_anchor ≡ some a
    → IsSample o a
      ⊎ (IsKeeping o × (previous.explosion_anchor ≡ some a) × (continuity ≡ contiguous))
unfolding reduce_objective_timing
reduce_objective_timing-source previous o generation epoch continuity a e =
    elim (next_anchor-source o _ a e) [
      | inl sample ↦ inl sample
      | inr (keeping, same) ↦ inr (keeping, ground arith, ground arith)
    ]

accept_telemetry-IsSourced :
    (s : RuntimeState) (input : ProgramTelemetryInput) (reason : FrameContinuity) (stale : Bool)
    (missing : Option SequenceRange)
    → IsSourced s (record {
      state = accept_telemetry s input reason stale;
      transitions = transitions_of s input reason stale;
      disposition = accepted_frame (frame_continuity reason stale) missing;
    })
unfolding accept_telemetry
accept_telemetry-IsSourced s input reason stale missing a e =
    elim (reduce_objective_timing-source s.objective_timing input.observation _ _ _ a e) [
      | inl sample ↦ sampled input.observation refl sample
      | inr (keeping, same, in_order) ↦
          kept input.observation refl keeping same missing
            (ap (λ c. accepted_frame c missing) in_order)
    ]

telemetry-IsSourced :
    (s : RuntimeState) (input : ProgramTelemetryInput) (stale_after : ℕ)
    → IsSourced s (reduce_program_telemetry s input stale_after)
unfolding ignored_result
telemetry-IsSourced s input stale_after =
    telemetry_by_decision s input stale_after (IsSourced s) (λ reason a e. unchanged refl)
      (λ reason stale missing e. accept_telemetry-IsSourced s input reason stale missing)

advance-IsSourced :
    (s : RuntimeState) (generation : ℕ) → IsSourced s (reduce_generation_advance s generation)
unfolding reduce_generation_advance ignored_result create_objective_timing_state
advance-IsSourced s generation = elim (Bool-cases (generation != s.program_source.generation + 1)) [
  | inl bad ↦ rw bad (λ a e. unchanged refl)
  | inr good ↦ rw good (λ a e. absurd (cc e))
]

reset-IsSourced :
    (s : RuntimeState) (reason : ResetReason) (at : RuntimeTime)
    → IsSourced s (reduce_map_reset s reason at)
unfolding reduce_map_reset ignored_result create_objective_timing_state
reset-IsSourced s reason at = elim (Bool-cases (s.map.epoch == 0)) [
  | inl unset ↦ rw unset (λ a e. unchanged refl)
  | inr set ↦ rw set (λ a e. absurd (cc e))
]

-- A bomb countdown in the state after an input that the reducer does not reject has one of three
-- sources: the state is unchanged; or the kept frame shows a planted bomb in a round that is not over,
-- and the countdown is sampled at its receive time; or the frame continues the one before, shows a bomb
-- planted or being defused in a round that is not over, and the countdown was in the state before.
pub reduce_runtime-countdown :
    (s : RuntimeState) (input : RuntimeInput) (policy : RuntimeContinuityPolicy)
    (r : RuntimeReduceResult)
    → reduce_runtime s input policy ≡ some r
    → (a : ObjectiveTimingAnchor) → r.state.objective_timing.explosion_anchor ≡ some a
    → CountdownSource s r a
reduce_runtime-countdown =
    reduce_runtime-by IsSourced telemetry-IsSourced advance-IsSourced reset-IsSourced
