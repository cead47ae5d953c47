-- ===== src/Runtime/Invariant.antt =====
-- What holds of the runtime state between two inputs.
use rival_hub_broadcast.Prelude.{
  ℕ, ◌+◌, ◌≤◌, Bool, true, ◌≡◌, refl, ap, ◌∙◌, Option, none, some, String, arith, eqb_iff, inl, inr,
  Bool-cases, ◌==◌, ◌!=◌, nat_eq,
}
use rival_hub_broadcast.Series.Types.{ResetReason}
use rival_hub_broadcast.Runtime.Types.{
  RuntimeState, RuntimeMap, RuntimeInput, RuntimeTime, RuntimeContinuityPolicy, RuntimeReduceResult,
  RuntimeReceiveCursor, ProgramTelemetryInput, TelemetryObservation, LiveSessionBinding,
  FrameContinuity, MapPlayerStats,
}
use rival_hub_broadcast.Runtime.Steps.{telemetry_by_decision, reduce_runtime-by}
use rival_hub_broadcast.Runtime.ObjectiveTiming.{
  create_objective_timing_state, reduce_objective_timing,
}
use rival_hub_broadcast.Runtime.PlayerStats.{
  create_map_player_stats, invalidate_map_player_stats, add_completed_round,
}
use rival_hub_broadcast.Runtime.PlayerStatsReducer.{
  close_round, reduce_on_map, reduce_map_player_stats,
}
use rival_hub_broadcast.Runtime.Reducer.{
  create_initial_runtime_state, known_map_name, next_map_state, ignored_result, accept_telemetry,
  reduce_program_telemetry, reduce_generation_advance, reduce_map_reset, reduce_runtime,
}

-- The cursor that a frame leaves.
abbrev pub cursor_of : ℕ → TelemetryObservation → RuntimeReceiveCursor
cursor_of generation o = record {
  generation = generation;
  sequence = o.receive.sequence;
  received_at = o.receive.received_at;
  received_monotonic_ms = o.receive.received_monotonic_ms;
}

-- The parts of the state belong to one source generation and one map execution.
pub record IsAligned (s : RuntimeState) : Type 0 where
  pub timing_generation : s.objective_timing.source_generation ≡ s.program_source.generation
  pub timing_epoch : s.objective_timing.map_epoch ≡ s.map.epoch
  pub stats_epoch : s.player_stats.map_epoch ≡ s.map.epoch
  pub unnamed : s.map.epoch ≡ 0 → s.map.name ≡ none
  pub observed :
      (o : TelemetryObservation)
      → s.program_telemetry ≡ some o
      → s.program_source.last_accepted ≡ some (cursor_of s.program_source.generation o)
  pub behind :
      (c : RuntimeReceiveCursor)
      → s.program_source.last_accepted ≡ some c
      → c.generation ≤ s.program_source.generation

pub create_initial_runtime_state-IsAligned :
    (id : String) (session : LiveSessionBinding)
    → IsAligned (create_initial_runtime_state id session)
unfolding create_initial_runtime_state create_map_player_stats create_objective_timing_state
create_initial_runtime_state-IsAligned id session = record {
  timing_generation = refl;
  timing_epoch = refl;
  stats_epoch = refl;
  unnamed = λ h. refl;
  observed = λ o h. cc;
  behind = λ c h. cc;
}

next_map_state-unnamed :
    (m : RuntimeMap) (name : Option String)
    → (m.epoch ≡ 0 → m.name ≡ none)
    → (next_map_state m name).0.epoch ≡ 0
    → (next_map_state m name).0.name ≡ none
unfolding next_map_state
next_map_state-unnamed m none h e = h e
next_map_state-unnamed m (some name) h e = elim (Bool-cases (m.epoch == 0)) [
  | inl zero_epoch ↦ absurd (ground arith)
  | inr later ↦ ground arith
]

close_round-epoch :
    (stats : MapPlayerStats) (o : TelemetryObservation) (healthy : Bool)
    → (reduce_on_map stats o healthy).map_epoch ≡ stats.map_epoch
unfolding reduce_on_map close_round add_completed_round
close_round-epoch stats o healthy = ground arith

reduce_map_player_stats-epoch :
    (stats : MapPlayerStats) (epoch : ℕ) (o : TelemetryObservation) (continuity : FrameContinuity)
    → (reduce_map_player_stats stats epoch o continuity).map_epoch ≡ epoch
unfolding reduce_map_player_stats create_map_player_stats
reduce_map_player_stats-epoch stats epoch o continuity =
    elim (Bool-cases (stats.map_epoch == epoch)) [
      | inl same_map ↦ rw same_map (close_round-epoch stats o _ ∙ (eqb_iff _ _).0 same_map)
      | inr new_map ↦ rw new_map (close_round-epoch (create_map_player_stats epoch) o true)
    ]

accept_telemetry-IsAligned :
    (s : RuntimeState) (input : ProgramTelemetryInput) (reason : FrameContinuity) (stale : Bool)
    → IsAligned s
    → IsAligned (accept_telemetry s input reason stale)
unfolding accept_telemetry reduce_objective_timing
accept_telemetry-IsAligned s input reason stale a = record {
  timing_generation = refl;
  timing_epoch = refl;
  stats_epoch = reduce_map_player_stats-epoch s.player_stats _ input.observation _;
  unnamed = next_map_state-unnamed s.map (known_map_name input.observation) a.unnamed;
  observed = λ o h.
      let same : input.observation ≡ o = cc in
      ap (λ k. some (cursor_of s.program_source.generation k)) same;
  behind = λ c h. ground arith;
}

invalidate-epoch :
    (stats : MapPlayerStats) → (invalidate_map_player_stats stats).map_epoch ≡ stats.map_epoch
unfolding invalidate_map_player_stats
invalidate-epoch stats = refl

telemetry-IsAligned :
    (s : RuntimeState) (input : ProgramTelemetryInput) (stale_after : ℕ)
    → IsAligned s
    → IsAligned (reduce_program_telemetry s input stale_after).state
unfolding ignored_result
telemetry-IsAligned s input stale_after =
    telemetry_by_decision s input stale_after (λ r. IsAligned s → IsAligned r.state) (λ reason a. a)
      (λ reason stale missing e. accept_telemetry-IsAligned s input reason stale)

advance-IsAligned :
    (s : RuntimeState) (next : ℕ) → IsAligned s → IsAligned (reduce_generation_advance s next).state
unfolding reduce_generation_advance ignored_result create_objective_timing_state
advance-IsAligned s next a = elim (Bool-cases (next != s.program_source.generation + 1)) [
  | inl bad ↦ rw bad a
  | inr good ↦ rw good (record {
    timing_generation = refl;
    timing_epoch = refl;
    stats_epoch = invalidate-epoch s.player_stats ∙ a.stats_epoch;
    unnamed = a.unnamed;
    observed = λ o h. cc;
    behind =
        λ c h. let old : c.generation ≤ s.program_source.generation = a.behind c h in ground arith;
  })
]

reset-IsAligned :
    (s : RuntimeState) (reason : ResetReason) (at : RuntimeTime)
    → IsAligned s
    → IsAligned (reduce_map_reset s reason at).state
unfolding reduce_map_reset ignored_result create_objective_timing_state create_map_player_stats
reset-IsAligned s reason at a = elim (Bool-cases (s.map.epoch == 0)) [
  | inl unset ↦ rw unset a
  | inr set ↦ rw set (record {
    timing_generation = refl;
    timing_epoch = refl;
    stats_epoch = refl;
    unnamed = λ h. absurd (omega arith);
    observed = λ o h. cc;
    behind = a.behind;
  })
]

-- Every input that the reducer does not reject keeps the parts of the state aligned: objective timing
-- and player statistics belong to the current generation and map epoch, the map has no name before
-- epoch 1, and a kept observation is the one the cursor was taken from.
pub reduce_runtime-IsAligned :
    (s : RuntimeState) (input : RuntimeInput) (policy : RuntimeContinuityPolicy)
    (r : RuntimeReduceResult)
    → reduce_runtime s input policy ≡ some r
    → IsAligned s
    → IsAligned r.state
reduce_runtime-IsAligned =
    reduce_runtime-by (λ s r. IsAligned s → IsAligned r.state) telemetry-IsAligned advance-IsAligned
      reset-IsAligned
