-- ===== src/Runtime/Delivery.antt =====
-- Which frames packages/core/src/runtime/reducer.ts takes, over a run of inputs.
use rival_hub_broadcast.Prelude.{
  ℕ, ◌+◌, ◌-◌, ◌≤◌, ◌<◌, Bool, true, false, ◌≡◌, refl, ap, ◌∙◌, Option, none, some, List, [], ◌∷◌,
  arith, eqb_iff, subst, inl, inr, Bool-cases, Option-cases, ◌==◌, ◌!=◌, nat_eq,
}
use rival_hub_broadcast.Series.Types.{ResetReason}
use rival_hub_broadcast.Runtime.Types.{
  RuntimeState, RuntimeInput, RuntimeTime, RuntimeContinuityPolicy, RuntimeReduceResult,
  RuntimeReceiveCursor, ProgramTelemetryInput, TelemetryObservation, FrameContinuity, SequenceRange,
  accepted_frame, program_telemetry,
}
use rival_hub_broadcast.Runtime.Continuity.{
  checked_policy, accept, classify_after, classify_program_telemetry,
}
use rival_hub_broadcast.Runtime.Reducer.{
  ignored_result, accept_telemetry, reduce_program_telemetry, reduce_generation_advance,
  reduce_map_reset, reduce_checked, reduce_runtime,
}
use rival_hub_broadcast.Runtime.Steps.{telemetry_by_decision, reduce_runtime-by}
use rival_hub_broadcast.Runtime.Invariant.{cursor_of, IsAligned, reduce_runtime-IsAligned}

-- How the sequence number n follows a cursor, and the numbers that are skipped.
pub data Follows : Option RuntimeReceiveCursor → ℕ → Option SequenceRange → Type 0 where
  first : {n : ℕ} → Follows none n none
  in_order : {p : RuntimeReceiveCursor} {n : ℕ} → n ≡ p.sequence + 1 → Follows (some p) n none
  after_gap :
      {p : RuntimeReceiveCursor} {n : ℕ} {from to : ℕ}
      → from ≡ p.sequence + 1
      → from ≤ to
      → n ≡ to + 1
      → Follows (some p) n (some (record { from = from; to = to }))

-- A frame is not before the cursor in time.
pub record IsLater (p c : RuntimeReceiveCursor) : Type 0 where
  pub sequence : p.sequence < c.sequence
  pub time : p.received_monotonic_ms ≤ c.received_monotonic_ms

abbrev pub IsAfter : Option RuntimeReceiveCursor → RuntimeReceiveCursor → Type 0
IsAfter none c = Unit
IsAfter (some p) c = IsLater p c

-- What is true of a frame that is taken.
pub record Taken (s : RuntimeState) (input : ProgramTelemetryInput) (missing : Option SequenceRange)
    : Type 0 where
  pub generation : input.source_generation ≡ s.program_source.generation
  pub follows : Follows s.program_source.last_accepted input.observation.receive.sequence missing
  pub after :
      IsAfter s.program_source.last_accepted
        (cursor_of s.program_source.generation input.observation)

after-IsLater :
    (s : RuntimeState) (p : RuntimeReceiveCursor) (o : TelemetryObservation) (stale_after : ℕ)
    (c : FrameContinuity) (stale : Bool) (missing : Option SequenceRange)
    → classify_after s p o stale_after ≡ accept c stale missing
    → IsLater p (cursor_of s.program_source.generation o)
unfolding classify_after
after-IsLater s p o stale_after c stale missing e = record {
  sequence = ground arith;
  time = ground arith;
}

no_gap :
    (s : RuntimeState) (p : RuntimeReceiveCursor) (o : TelemetryObservation) (stale_after : ℕ)
    (c : FrameContinuity) (stale : Bool) (missing : Option SequenceRange)
    → classify_after s p o stale_after ≡ accept c stale missing
    → (o.receive.sequence == p.sequence + 1) ≡ true
    → missing ≡ none
unfolding classify_after
no_gap s p o stale_after c stale missing e same = ground arith

gap :
    (s : RuntimeState) (p : RuntimeReceiveCursor) (o : TelemetryObservation) (stale_after : ℕ)
    (c : FrameContinuity) (stale : Bool) (missing : Option SequenceRange)
    → classify_after s p o stale_after ≡ accept c stale missing
    → (o.receive.sequence == p.sequence + 1) ≡ false
    → missing ≡ some (record { from = p.sequence + 1; to = o.receive.sequence - 1 })
unfolding classify_after
gap s p o stale_after c stale missing e other = ground arith

after-Follows :
    (s : RuntimeState) (p : RuntimeReceiveCursor) (o : TelemetryObservation) (stale_after : ℕ)
    (c : FrameContinuity) (stale : Bool) (missing : Option SequenceRange)
    → classify_after s p o stale_after ≡ accept c stale missing
    → Follows (some p) o.receive.sequence missing
after-Follows s p o stale_after c stale missing e =
    let later = (after-IsLater s p o stale_after c stale missing e).sequence in
    elim (Bool-cases (o.receive.sequence == p.sequence + 1)) [
      | inl same ↦
          let whole : missing ≡ none = no_gap s p o stale_after c stale missing e same in
          rw whole (in_order ((eqb_iff _ _).0 same))
      | inr other ↦
          rw (gap s p o stale_after c stale missing e other)
            (after_gap refl (ground arith) (ground arith))
    ]

after_last :
    (last : Option RuntimeReceiveCursor) (s : RuntimeState) (input : ProgramTelemetryInput)
    (stale_after : ℕ) (c : FrameContinuity) (stale : Bool) (missing : Option SequenceRange)
    → s.program_source.last_accepted ≡ last
    → classify_program_telemetry s input stale_after ≡ accept c stale missing
    → Taken s input missing
unfolding classify_program_telemetry
after_last none s input stale_after c stale missing l e =
    let none_missing : missing ≡ none = ground arith in
    record { generation = ground arith; follows = rw (l, none_missing) first; after = rw l tt }
after_last (some p) s input stale_after c stale missing l e =
    let by_cursor : classify_after s p input.observation stale_after ≡ accept c stale missing =
      ground arith in
    record {
      generation = ground arith;
      follows = rw l (after-Follows s p input.observation stale_after c stale missing by_cursor);
      after = rw l (after-IsLater s p input.observation stale_after c stale missing by_cursor);
    }

frame_by :
    (s : RuntimeState) (input : ProgramTelemetryInput) (stale_after : ℕ) (c : FrameContinuity)
    (missing : Option SequenceRange)
    → (reduce_program_telemetry s input stale_after).disposition ≡ accepted_frame c missing
    → Taken s input missing
unfolding ignored_result
frame_by s input stale_after c missing =
    telemetry_by_decision s input stale_after
      (λ r. r.disposition ≡ accepted_frame c missing → Taken s input missing)
      (λ reason d. absurd (cc d))
      (λ reason stale missing' e d.
        let same : missing' ≡ missing = ground arith in
        subst (Taken s input) same (after_last _ s input stale_after reason stale missing' refl e))

-- A frame that is taken is of the current source generation. It is the first one, or the next in
-- sequence with nothing reported missing, or it follows a gap and the numbers skipped are exactly
-- those reported missing; its sequence number is above the cursor's, and its time is not before.
pub accepted_frame-Taken :
    (s : RuntimeState) (input : ProgramTelemetryInput) (policy : RuntimeContinuityPolicy)
    (r : RuntimeReduceResult) (c : FrameContinuity) (missing : Option SequenceRange)
    → reduce_runtime s (program_telemetry input) policy ≡ some r
    → r.disposition ≡ accepted_frame c missing
    → Taken s input missing
unfolding reduce_runtime reduce_checked
accepted_frame-Taken s input policy r c missing e d = elim (Option-cases (checked_policy policy)) [
  | inl bad ↦ absurd (cc (rw (bad, reduce_runtime) at e))
  | inr (stale_after, good) ↦
      let same : reduce_program_telemetry s input stale_after ≡ r = ground arith in
      frame_by s input stale_after c missing (ap (λ q. q.disposition) same ∙ d)
]

-- The cursor that an input leaves, when a frame was taken.
abbrev pub taken_cursor : RuntimeReduceResult → Option RuntimeReceiveCursor
taken_cursor r = elim r.disposition [
  | accepted_frame _ _ ↦ r.state.program_source.last_accepted
  | _ ↦ none
]

abbrev pub state_after : RuntimeState → Option RuntimeReduceResult → RuntimeState
state_after s none = s
state_after s (some r) = r.state

abbrev pub cursor_after : Option RuntimeReduceResult → Option RuntimeReceiveCursor
cursor_after none = none
cursor_after (some r) = taken_cursor r

-- The state after a run of inputs; one that the reducer rejects leaves the state as it was.
unfoldable pub run : RuntimeContinuityPolicy → RuntimeState → List RuntimeInput → RuntimeState
run policy s [] = s
run policy s (input ∷ inputs) = run policy (state_after s (reduce_runtime s input policy)) inputs

abbrev pub prepend :
    Option RuntimeReceiveCursor → List RuntimeReceiveCursor → List RuntimeReceiveCursor
prepend none cs = cs
prepend (some c) cs = c ∷ cs

-- The cursors of the frames taken in a run, in order.
unfoldable pub taken_frames :
    RuntimeContinuityPolicy → RuntimeState → List RuntimeInput → List RuntimeReceiveCursor
taken_frames policy s [] = []
taken_frames policy s (input ∷ inputs) =
    prepend (cursor_after (reduce_runtime s input policy))
      (taken_frames policy (state_after s (reduce_runtime s input policy)) inputs)

-- Each cursor is later than the one before it.
pub data Ascending : Option RuntimeReceiveCursor → List RuntimeReceiveCursor → Type 0 where
  done : {last : Option RuntimeReceiveCursor} → Ascending last []
  step :
      {last : Option RuntimeReceiveCursor} {c : RuntimeReceiveCursor}
      {cs : List RuntimeReceiveCursor}
      → IsAfter last c
      → Ascending (some c) cs
      → Ascending last (c ∷ cs)

-- What a step does to the cursor.
data CursorStep (s : RuntimeState) (r : RuntimeReduceResult) : Type 0 where
  kept :
      taken_cursor r ≡ none
      → r.state.program_source.last_accepted ≡ s.program_source.last_accepted
      → CursorStep s r
  moved :
      (c : RuntimeReceiveCursor)
      → taken_cursor r ≡ some c
      → r.state.program_source.last_accepted ≡ some c
      → IsAfter s.program_source.last_accepted c
      → CursorStep s r

telemetry-CursorStep :
    (s : RuntimeState) (input : ProgramTelemetryInput) (stale_after : ℕ)
    → CursorStep s (reduce_program_telemetry s input stale_after)
unfolding ignored_result accept_telemetry
telemetry-CursorStep s input stale_after =
    telemetry_by_decision s input stale_after (CursorStep s) (λ reason. kept refl refl)
      (λ reason stale missing e.
        moved _ refl refl (after_last _ s input stale_after reason stale missing refl e).after)

advance-CursorStep : (s : RuntimeState) (next : ℕ) → CursorStep s (reduce_generation_advance s next)
unfolding reduce_generation_advance ignored_result
advance-CursorStep s next = elim (Bool-cases (next != s.program_source.generation + 1)) [
  | inl bad ↦ rw bad (kept refl refl)
  | inr good ↦ rw good (kept refl refl)
]

reset-CursorStep :
    (s : RuntimeState) (reason : ResetReason) (at : RuntimeTime)
    → CursorStep s (reduce_map_reset s reason at)
unfolding reduce_map_reset ignored_result
reset-CursorStep s reason at = elim (Bool-cases (s.map.epoch == 0)) [
  | inl unset ↦ rw unset (kept refl refl)
  | inr set ↦ rw set (kept refl refl)
]

step-CursorStep :
    (s : RuntimeState) (input : RuntimeInput) (policy : RuntimeContinuityPolicy)
    (r : RuntimeReduceResult)
    → reduce_runtime s input policy ≡ some r
    → CursorStep s r
step-CursorStep =
    reduce_runtime-by CursorStep telemetry-CursorStep advance-CursorStep reset-CursorStep

step-Ascending :
    (s : RuntimeState) (r : RuntimeReduceResult) (cs : List RuntimeReceiveCursor)
    → CursorStep s r
    → Ascending r.state.program_source.last_accepted cs
    → Ascending s.program_source.last_accepted (prepend (taken_cursor r) cs)
step-Ascending s r cs (kept untaken same) later =
    rw untaken (subst (λ l. Ascending l cs) same later)
step-Ascending s r cs (moved c taken now after) later =
    rw taken (step after (subst (λ l. Ascending l cs) now later))

-- Over any run of inputs from any state, the frames taken have strictly increasing sequence numbers
-- and times that never go back, also across source generations and map resets: no frame is taken twice.
pub taken_frames-Ascending :
    (policy : RuntimeContinuityPolicy) (s : RuntimeState) (inputs : List RuntimeInput)
    → Ascending s.program_source.last_accepted (taken_frames policy s inputs)
unfolding taken_frames
taken_frames-Ascending policy s [] = done
taken_frames-Ascending policy s (input ∷ inputs) =
    elim (Option-cases (reduce_runtime s input policy)) [
      | inl rejected ↦ rw (rejected) (taken_frames-Ascending policy s inputs)
      | inr (r, e) ↦ rw (e) (
          step-Ascending s r (taken_frames policy r.state inputs)
            (step-CursorStep s input policy r e) (taken_frames-Ascending policy r.state inputs))
    ]

-- A run of any inputs, in any order, keeps the parts of the state aligned, if they were at the start.
pub run-IsAligned :
    (policy : RuntimeContinuityPolicy) (s : RuntimeState) (inputs : List RuntimeInput)
    → IsAligned s
    → IsAligned (run policy s inputs)
unfolding run
run-IsAligned policy s [] a = a
run-IsAligned policy s (input ∷ inputs) a = elim (Option-cases (reduce_runtime s input policy)) [
  | inl rejected ↦ rw (rejected) (run-IsAligned policy s inputs a)
  | inr (r, e) ↦
      rw (e) (run-IsAligned policy r.state inputs (reduce_runtime-IsAligned s input policy r e a))
]
