-- ===== src/Runtime/Staleness.antt =====
-- packages/core/src/runtime: freshness.ts and continuity.ts agree on when the source is stale.
use rival_hub_broadcast.Prelude.{
  ℕ, ◌≤◌, Bool, true, false, ◌≡◌, ◌≢◌, ◌↔◌, refl, sym, ap, ◌∙◌, Option, none, some, arith, inl, inr,
  Option-cases, nat_eq,
}
use rival_hub_broadcast.Runtime.Types.{
  RuntimeState, RuntimeReceiveCursor, TelemetryObservation, RuntimeContinuityPolicy,
  RuntimeReduceResult, ProgramTelemetryInput, FrameContinuity, SequenceRange, accepted_frame,
  program_telemetry, baseline, stale_recovery,
}
use rival_hub_broadcast.Runtime.Continuity.{
  checked_policy, accept, classify_after, classify_program_telemetry, is_stale_recovery, stale,
  freshness_at, get_program_source_freshness,
}
use rival_hub_broadcast.Runtime.Reducer.{
  ignored_result, reduce_program_telemetry, reduce_checked, reduce_runtime, frame_continuity,
}
use rival_hub_broadcast.Runtime.Steps.{telemetry_by_decision}

-- A time behind the cursor is not an error, and stale exactly where a frame of that time recovers.
freshness_at-stale :
    (s : RuntimeState) (p : RuntimeReceiveCursor) (o : TelemetryObservation) (stale_after : ℕ)
    → p.received_monotonic_ms ≤ o.receive.received_monotonic_ms
    → (is_stale_recovery s p o stale_after ≡ true)
      ↔ (freshness_at s (some p) o.receive.received_monotonic_ms stale_after ≡ some stale)
unfolding is_stale_recovery freshness_at
freshness_at-stale s p o stale_after h = ground arith

after-recovery :
    (s : RuntimeState) (p : RuntimeReceiveCursor) (o : TelemetryObservation) (stale_after : ℕ)
    (reason : FrameContinuity) (recovers : Bool) (missing : Option SequenceRange)
    → classify_after s p o stale_after ≡ accept reason recovers missing
    → (p.received_monotonic_ms ≤ o.receive.received_monotonic_ms)
      × (recovers ≡ is_stale_recovery s p o stale_after)
      × (reason ≢ stale_recovery)
unfolding classify_after
after-recovery s p o stale_after reason recovers missing e =
    (ground arith, ground arith, ground arith)

classify-stale :
    (last : Option RuntimeReceiveCursor) (s : RuntimeState) (input : ProgramTelemetryInput)
    (stale_after : ℕ) (reason : FrameContinuity) (recovers : Bool) (missing : Option SequenceRange)
    → classify_program_telemetry s input stale_after ≡ accept reason recovers missing
    → s.program_source.last_accepted ≡ last
    → (frame_continuity reason recovers ≡ stale_recovery) ↔ (
        freshness_at s last input.observation.receive.received_monotonic_ms stale_after
        ≡ some stale)
unfolding classify_program_telemetry freshness_at
classify-stale none s input stale_after reason recovers missing e l =
    let first : reason ≡ baseline = ground arith in
    let unbroken : recovers ≡ false = ground arith in
    ((λ h. absurd (cc (rw (first, unbroken) at h))), (λ h. absurd (awaits h)))
  where
    awaits :
        freshness_at s none input.observation.receive.received_monotonic_ms stale_after ≢ some stale
    awaits h = cc h
classify-stale (some p) s input stale_after reason recovers missing e l =
    let by_cursor : classify_after s p input.observation stale_after
        ≡ accept reason recovers missing =
      ground arith in
    let known =
      after-recovery s p input.observation stale_after reason recovers missing by_cursor in
    let same = freshness_at-stale s p input.observation stale_after known.0 in
    ((λ h. same.0 (sym known.1 ∙ recovers_if h known.2)), (λ h. rw (known.1 ∙ same.1 h) refl))
  where
    recovers_if :
        frame_continuity reason recovers ≡ stale_recovery
        → reason ≢ stale_recovery
        → recovers ≡ true
    recovers_if h n = ground arith

telemetry-stale :
    (s : RuntimeState) (input : ProgramTelemetryInput) (stale_after : ℕ) (c : FrameContinuity)
    (missing : Option SequenceRange)
    → (reduce_program_telemetry s input stale_after).disposition ≡ accepted_frame c missing
    → (c ≡ stale_recovery) ↔ (
        freshness_at s s.program_source.last_accepted
          input.observation.receive.received_monotonic_ms stale_after
        ≡ some stale)
unfolding ignored_result
telemetry-stale s input stale_after c missing =
    telemetry_by_decision s input stale_after
      (λ r.
        r.disposition ≡ accepted_frame c missing
        → (c ≡ stale_recovery) ↔ (
            freshness_at s s.program_source.last_accepted
              input.observation.receive.received_monotonic_ms stale_after
            ≡ some stale))
      (λ reason d. absurd (cc d))
      (λ reason recovers found e d.
        let same : frame_continuity reason recovers ≡ c = ground arith in
        let agrees = classify-stale _ s input stale_after reason recovers found e refl in
        ((λ h. agrees.0 (same ∙ h)), (λ h. sym same ∙ agrees.1 h)))

-- A frame that is taken is a stale recovery exactly if the freshness of the source, asked at the
-- frame's receive time just before, is stale.
pub accepted_frame-stale :
    (s : RuntimeState) (input : ProgramTelemetryInput) (policy : RuntimeContinuityPolicy)
    (r : RuntimeReduceResult) (c : FrameContinuity) (missing : Option SequenceRange)
    → reduce_runtime s (program_telemetry input) policy ≡ some r
    → r.disposition ≡ accepted_frame c missing
    → (c ≡ stale_recovery) ↔ (
        get_program_source_freshness s input.observation.receive.received_monotonic_ms policy
        ≡ some stale)
unfolding reduce_runtime reduce_checked get_program_source_freshness
accepted_frame-stale s input policy r c missing e d = elim (Option-cases (checked_policy policy)) [
  | inl bad ↦ absurd (cc (rw (bad, reduce_runtime) at e))
  | inr (stale_after, good) ↦
      let same : reduce_program_telemetry s input stale_after ≡ r = ground arith in
      rw (good, get_program_source_freshness)
        (telemetry-stale s input stale_after c missing (ap (λ q. q.disposition) same ∙ d))
]
