-- ===== src/Runtime/Events.antt =====
-- When packages/core/src/runtime announces an event: the map's epoch, and frames that show the same map.
use rival_hub_broadcast.Prelude.{
  ℕ, ◌+◌, ◌≤◌, ◌<◌, Bool, true, false, ◌≡◌, ◌≢◌, refl, sym, ap, ◌∙◌, Option, none, some, [], ◌∷◌,
  String, arith, eqb_iff, subst, inl, inr, ◌⊎◌, if_true, if_false, Bool-cases, ◌==◌, ◌!=◌, nat_eq,
  any, length, not, ltb, ◌&&◌,
}
use rival_hub_broadcast.Series.Types.{ResetReason}
use rival_hub_broadcast.Runtime.Types.{
  RuntimeState, RuntimeReceiveCursor, RuntimeMap, RuntimeInput, RuntimeTime,
  RuntimeContinuityPolicy, RuntimeReduceResult, ProgramTelemetryInput, TelemetryObservation,
  FrameContinuity, SequenceRange, RuntimeTransition, accepted_frame, contiguous, continuity_eq,
  continuity_eqb_iff, observed_map_change, explicit_map_change, round_phase_eq, coverage_eq,
}
use rival_hub_broadcast.Runtime.Continuity.{accept, classify_after, classify_program_telemetry}
use rival_hub_broadcast.Runtime.Transitions.{
  build_telemetry_transitions, observed_map_execution_changed_transition, has_round_phase,
  explicit_map_execution_changed_transition, frame_transitions,
}
use rival_hub_broadcast.Runtime.Reducer.{
  known_map_name, next_map_state, map_name_changed, ignored_result, accept_telemetry,
  reduce_program_telemetry, reduce_generation_advance, reduce_map_reset, reduce_runtime,
  frame_continuity,
}
use rival_hub_broadcast.Runtime.Steps.{telemetry_by_decision, transitions_of, reduce_runtime-by}

abbrev pub is_map_change : RuntimeTransition → Bool
is_map_change (observed_map_change _ _ _ _) = true
is_map_change (explicit_map_change _ _ _) = true
is_map_change _ = false

-- What one result does to the map epoch, and what it announces of it.
pub data MapStep (s : RuntimeState) (r : RuntimeReduceResult) : Type 0 where
  stays : r.state.map.epoch ≡ s.map.epoch → any is_map_change r.transitions ≡ false → MapStep s r
  established :
      s.map.epoch ≡ 0
      → r.state.map.epoch ≡ 1
      → any is_map_change r.transitions ≡ false
      → MapStep s r
  changed :
      0 < s.map.epoch
      → r.state.map.epoch ≡ s.map.epoch + 1
      → (t : RuntimeTransition) → r.transitions ≡ t ∷ []
      → is_map_change t ≡ true
      → MapStep s r

frame_transitions-no_change :
    (s after : RuntimeState) (input : ProgramTelemetryInput) (before : TelemetryObservation)
    → any is_map_change (frame_transitions s after input before) ≡ false
unfolding frame_transitions any
frame_transitions-no_change s after input before = ground arith

build_after-no_change :
    (before : Option TelemetryObservation) (s after : RuntimeState) (input : ProgramTelemetryInput)
    (healthy stale : Bool)
    → s.program_telemetry ≡ before
    → any is_map_change (build_telemetry_transitions s after input healthy stale) ≡ false
unfolding build_telemetry_transitions any
build_after-no_change none s after input healthy stale e = ground arith
build_after-no_change (some before) s after input healthy stale e =
    let quiet : any is_map_change (frame_transitions s after input before) ≡ false =
      frame_transitions-no_change s after input before in
    ground arith

next_map_state-epoch :
    (m : RuntimeMap) (name : Option String)
    → (next_map_state m name).1 ≡ true
    → (0 < m.epoch) × ((next_map_state m name).0.epoch ≡ m.epoch + 1)
unfolding next_map_state map_name_changed
next_map_state-epoch m none e = absurd (cc e)
next_map_state-epoch m (some name) e = (ground arith, ground arith)

-- The frames between which events are announced.
pub record IsContinued (s : RuntimeState) (r : RuntimeReduceResult) : Type 0 where
  pub previous : s.program_telemetry ≢ none
  pub disposition : r.disposition ≡ accepted_frame contiguous none
  pub established : 0 < s.map.epoch
  pub epoch : r.state.map.epoch ≡ s.map.epoch

-- Events of a frame: none, one map change, or those between two contiguous frames of one map.
pub data FrameEvents (s : RuntimeState) (r : RuntimeReduceResult) : Type 0 where
  silent : r.transitions ≡ [] → FrameEvents s r
  map_changed :
      r.state.map.epoch ≡ s.map.epoch + 1
      → (t : RuntimeTransition) → r.transitions ≡ t ∷ []
      → is_map_change t ≡ true
      → FrameEvents s r
  continued : IsContinued s r → length r.transitions ≤ 2 → FrameEvents s r

next_map_state-same :
    (m : RuntimeMap) (name : Option String)
    → (next_map_state m name).1 ≡ false
    → ((next_map_state m name).0.epoch ≡ m.epoch)
      ⊎ ((m.epoch ≡ 0) × ((next_map_state m name).0.epoch ≡ 1))
unfolding next_map_state map_name_changed
next_map_state-same m none e = inl refl
next_map_state-same m (some name) e = elim (Bool-cases (m.epoch == 0)) [
  | inl unset ↦ inr ((eqb_iff _ _).0 unset, ground arith)
  | inr set ↦ inl (ground arith)
]

accept_telemetry-map :
    (s : RuntimeState) (input : ProgramTelemetryInput) (reason : FrameContinuity) (stale : Bool)
    → (accept_telemetry s input reason stale).map
      ≡ (next_map_state s.map (known_map_name input.observation)).0
unfolding accept_telemetry
accept_telemetry-map s input reason stale = refl

changed_transition :
    (s after : RuntimeState) (input : ProgramTelemetryInput)
    → is_map_change (observed_map_execution_changed_transition s after input) ≡ true
unfolding observed_map_execution_changed_transition
changed_transition s after input = refl

explicit_transition :
    (s after : RuntimeState) (at : RuntimeTime) (reason : ResetReason)
    → is_map_change (explicit_map_execution_changed_transition s after at reason) ≡ true
unfolding explicit_map_execution_changed_transition
explicit_transition s after at reason = refl

-- The result for a frame that is taken.
abbrev accepted_result :
    RuntimeState
    → ProgramTelemetryInput
    → FrameContinuity
    → Bool
    → Option SequenceRange
    → RuntimeReduceResult
accepted_result s input reason stale missing = record {
  state = accept_telemetry s input reason stale;
  transitions = transitions_of s input reason stale;
  disposition = accepted_frame (frame_continuity reason stale) missing;
}

accept_telemetry-MapStep :
    (s : RuntimeState) (input : ProgramTelemetryInput) (reason : FrameContinuity) (stale : Bool)
    (missing : Option SequenceRange)
    → MapStep s (accepted_result s input reason stale missing)
accept_telemetry-MapStep s input reason stale missing =
    let at_map = ap (λ m. m.epoch) (accept_telemetry-map s input reason stale) in
    elim (Bool-cases (next_map_state s.map (known_map_name input.observation)).1) [
      | inl change ↦
          let grown = next_map_state-epoch s.map (known_map_name input.observation) change in
          changed grown.0 (at_map ∙ grown.1) _ (if_true _ _ change) (changed_transition s _ input)
      | inr same ↦
          let quiet =
            ap (any is_map_change) (if_false _ _ same)
            ∙ build_after-no_change _ s (accept_telemetry s input reason stale) input
                (reason == contiguous) stale refl in
          elim (next_map_state-same s.map (known_map_name input.observation) same) [
            | inl kept ↦ stays (at_map ∙ kept) quiet
            | inr (unset, first) ↦ established unset (at_map ∙ first) quiet
          ]
    ]

telemetry-MapStep :
    (s : RuntimeState) (input : ProgramTelemetryInput) (stale_after : ℕ)
    → MapStep s (reduce_program_telemetry s input stale_after)
unfolding ignored_result any
telemetry-MapStep s input stale_after =
    telemetry_by_decision s input stale_after (MapStep s) (λ reason. stays refl refl)
      (λ reason stale missing e. accept_telemetry-MapStep s input reason stale missing)

advance-MapStep :
    (s : RuntimeState) (generation : ℕ) → MapStep s (reduce_generation_advance s generation)
unfolding reduce_generation_advance ignored_result any
advance-MapStep s generation = elim (Bool-cases (generation != s.program_source.generation + 1)) [
  | inl bad ↦ rw bad (stays refl refl)
  | inr good ↦ rw good (stays refl refl)
]

reset-MapStep :
    (s : RuntimeState) (reason : ResetReason) (at : RuntimeTime)
    → MapStep s (reduce_map_reset s reason at)
unfolding reduce_map_reset ignored_result any
reset-MapStep s reason at = elim (Bool-cases (s.map.epoch == 0)) [
  | inl unset ↦ rw unset (stays refl refl)
  | inr set ↦ rw set (changed (ground arith) refl _ refl (explicit_transition s _ at reason))
]

-- An input that the reducer does not reject keeps the map epoch and announces no map change, or
-- establishes epoch 1 with no map change, or adds one to an established epoch, and then one map
-- change is the only event.
pub reduce_runtime-MapStep :
    (s : RuntimeState) (input : RuntimeInput) (policy : RuntimeContinuityPolicy)
    (r : RuntimeReduceResult)
    → reduce_runtime s input policy ≡ some r
    → MapStep s r
reduce_runtime-MapStep = reduce_runtime-by MapStep telemetry-MapStep advance-MapStep reset-MapStep

frame_transitions-length :
    (s after : RuntimeState) (input : ProgramTelemetryInput) (before : TelemetryObservation)
    → length (frame_transitions s after input before) ≤ 2
unfolding frame_transitions length has_round_phase
frame_transitions-length s after input before = ground arith

classify-contiguous :
    (last : Option RuntimeReceiveCursor) (s : RuntimeState) (input : ProgramTelemetryInput)
    (stale_after : ℕ) (reason : FrameContinuity) (stale : Bool) (missing : Option SequenceRange)
    → s.program_source.last_accepted ≡ last
    → classify_program_telemetry s input stale_after ≡ accept reason stale missing
    → reason ≡ contiguous
    → missing ≡ none
unfolding classify_program_telemetry classify_after
classify-contiguous none s input stale_after reason stale missing l e h = ground arith
classify-contiguous (some p) s input stale_after reason stale missing l e h = ground arith

-- Between two frames: nothing, or at most two events of a frame that continues the one before.
build_between :
    (before : Option TelemetryObservation) (s after : RuntimeState) (input : ProgramTelemetryInput)
    (healthy stale : Bool)
    → s.program_telemetry ≡ before
    → (build_telemetry_transitions s after input healthy stale ≡ [])
      ⊎ ((s.program_telemetry ≢ none)
          × (healthy ≡ true)
          × (stale ≡ false)
          × (0 < s.map.epoch)
          × (after.map.epoch ≡ s.map.epoch)
          × (length (build_telemetry_transitions s after input healthy stale) ≤ 2))
unfolding build_telemetry_transitions
build_between none s after input healthy stale e = inl (ground arith)
build_between (some before) s after input healthy stale e =
    let few : length (frame_transitions s after input before) ≤ 2 =
      frame_transitions-length s after input before in
    elim (Bool-cases
      (healthy && not stale && ltb 0 s.map.epoch && after.map.epoch == s.map.epoch)) [
        | inl continues ↦
            inr (ground arith, ground arith, ground arith, ground arith, ground arith, ground arith)
        | inr broken ↦ inl (ground arith)
      ]

accept_telemetry-FrameEvents :
    (s : RuntimeState) (input : ProgramTelemetryInput) (stale_after : ℕ) (reason : FrameContinuity)
    (stale : Bool) (missing : Option SequenceRange)
    → classify_program_telemetry s input stale_after ≡ accept reason stale missing
    → FrameEvents s (accepted_result s input reason stale missing)
accept_telemetry-FrameEvents s input stale_after reason stale missing e =
    let at_map = ap (λ m. m.epoch) (accept_telemetry-map s input reason stale) in
    elim (Bool-cases (next_map_state s.map (known_map_name input.observation)).1) [
      | inl change ↦
          map_changed (at_map ∙ (next_map_state-epoch s.map _ change).1) _ (if_true _ _ change)
            (changed_transition s _ input)
      | inr same ↦
          elim (build_between _ s (accept_telemetry s input reason stale) input
            (reason == contiguous) stale refl) [
              | inl quiet ↦ silent (if_false _ _ same ∙ quiet)
              | inr (known, healthy, not_stale, named, epoch, few) ↦
                  let in_order : reason ≡ contiguous = (continuity_eqb_iff _ _).0 healthy in
                  let whole =
                    classify-contiguous _ s input stale_after reason stale missing refl e
                      in_order in
                  continued
                    (record {
                      previous = known;
                      disposition = rw (in_order, not_stale, whole) refl;
                      established = named;
                      epoch = epoch;
                    })
                    (subst (λ ts. length ts ≤ 2) (sym (if_false _ _ same)) few)
            ]
    ]

-- The events of a telemetry frame: none, or one map change with the epoch grown by one, or at most
-- two events, and those only if the state holds an earlier frame, this one is the next in sequence
-- and not stale, and both show the same established map execution.
pub telemetry-FrameEvents :
    (s : RuntimeState) (input : ProgramTelemetryInput) (stale_after : ℕ)
    → FrameEvents s (reduce_program_telemetry s input stale_after)
unfolding ignored_result
telemetry-FrameEvents s input stale_after =
    telemetry_by_decision s input stale_after (FrameEvents s) (λ reason. silent refl)
      (accept_telemetry-FrameEvents s input stale_after)
