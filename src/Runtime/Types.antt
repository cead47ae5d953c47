-- ===== src/Runtime/Types.antt =====
-- packages/core/src/runtime/types.ts, and what the runtime reads of packages/core/src/telemetry.
-- Monotonic times, durations and countdowns are whole counts of one small unit of time.
use rival_hub_broadcast.Prelude.{ℕ, ℤ, Bool, true, false, Option, List, String, Eq, ◌≡◌, ◌↔◌, arith}
use rival_hub_broadcast.Series.Types.{SourceSide, ResetReason}

-- A JavaScript number that may be NaN or infinite.
pub data Measure : Type 0 where
  finite : ℤ → Measure
  not_finite : Measure

pub data CoverageStatus : Type 0 where
  present absent degraded : CoverageStatus

pub data RoundPhase : Type 0 where
  freezetime live over unknown : RoundPhase

pub data MapPhase : Type 0 where
  warmup live intermission gameover unknown : MapPhase

pub data BombState : Type 0 where
  carried dropped planting planted defusing exploded defused unknown : BombState

pub record ReceiveContext : Type 0 where
  pub sequence : ℕ
  pub received_at : String
  pub received_monotonic_ms : ℕ

pub record Coverage : Type 0 where
  pub map : CoverageStatus
  pub round : CoverageStatus
  pub all_players : CoverageStatus
  pub bomb : CoverageStatus

pub record ObservedMap : Type 0 where
  pub name : Option String
  pub phase : Option MapPhase
  pub round_number : Option ℤ

pub record ObservedRound : Type 0 where
  pub phase : Option RoundPhase
  pub winner_side : Option SourceSide

pub record ObservedBomb : Type 0 where
  pub state : Option BombState
  pub countdown_seconds : Option Measure

pub record ObservedPlayer : Type 0 where
  pub source_player_id : String
  pub round_total_damage : Option Measure
  pub money : Option Measure

pub record ObservedTelemetry : Type 0 where
  pub map : Option ObservedMap
  pub round : Option ObservedRound
  pub all_players : Option (List ObservedPlayer)
  pub bomb : Option ObservedBomb

pub record TelemetryObservation : Type 0 where
  pub receive : ReceiveContext
  pub coverage : Coverage
  pub telemetry : ObservedTelemetry

pub record RuntimeTime : Type 0 where
  pub monotonic_ms : Measure
  pub utc : String

pub data LiveSessionBinding : Type 0 where
  unbound : LiveSessionBinding
  bound : String → LiveSessionBinding

pub record RuntimeReceiveCursor : Type 0 where
  pub generation : ℕ
  pub sequence : ℕ
  pub received_at : String
  pub received_monotonic_ms : ℕ

pub record RuntimeProgramSource : Type 0 where
  pub generation : ℕ
  pub last_accepted : Option RuntimeReceiveCursor

pub record RuntimeMap : Type 0 where
  pub epoch : ℕ
  pub name : Option String

-- How a telemetry frame continues the one before it.
pub data FrameContinuity : Type 0 where
  baseline contiguous gap_resync stale_recovery : FrameContinuity

pub record ObjectiveTimingAnchor : Type 0 where
  pub remaining_at_sample : ℤ
  pub sampled_at_monotonic_ms : ℕ

pub record ObjectiveTiming : Type 0 where
  pub source_generation : ℕ
  pub map_epoch : ℕ
  pub last_accepted_receive_sequence : Option ℕ
  pub explosion_anchor : Option ObjectiveTimingAnchor
  pub last_bomb_state : Option BombState
  pub explosion_duration : Option ℤ
  pub plant_action_duration : Option ℤ

-- Damage or money by steam64: at most one entry for an id, in the order of the ids.
abbrev pub BySteam64 : Type 0
BySteam64 = List (String × ℕ)

pub record MapPlayerStatsCurrentRound : Type 0 where
  pub round_number_hint : Option ℤ
  pub phase : RoundPhase
  pub eligible : Bool
  pub invalidated : Bool
  pub has_complete_evidence : Bool
  pub damage : BySteam64
  pub start_money : BySteam64

pub record MapPlayerStats : Type 0 where
  pub map_epoch : ℕ
  pub counted_completed_rounds : ℕ
  pub current_round : Option MapPlayerStatsCurrentRound
  pub completed_damage : BySteam64

pub record RuntimeState : Type 0 where
  pub producer_instance_id : String
  pub live_session : LiveSessionBinding
  pub runtime_seq : ℕ
  pub program_source : RuntimeProgramSource
  pub map : RuntimeMap
  pub player_stats : MapPlayerStats
  pub objective_timing : ObjectiveTiming
  pub program_telemetry : Option TelemetryObservation

pub record RuntimeContinuityPolicy : Type 0 where
  pub stale_after_ms : Measure
  pub objective_clock_lease_ms : Option Measure

pub record ProgramTelemetryInput : Type 0 where
  pub source_generation : ℕ
  pub observation : TelemetryObservation

pub data RuntimeInput : Type 0 where
  program_telemetry : ProgramTelemetryInput → RuntimeInput
  advance_program_source_generation : ℕ → RuntimeTime → RuntimeInput
  reset_map_execution : ResetReason → RuntimeTime → RuntimeInput

pub record TransitionBase : Type 0 where
  pub runtime_seq : ℕ
  pub producer_instance_id : String
  pub live_session : LiveSessionBinding
  pub map_epoch : ℕ
  pub at : RuntimeTime

pub record MapChange : Type 0 where
  pub previous_map_epoch : ℕ
  pub previous_map_name : Option String
  pub map_name : Option String

-- Two numbers follow the base in a telemetry transition: source generation and receive sequence.
pub data RuntimeTransition : Type 0 where
  round_started : TransitionBase → ℕ → ℕ → Option ℤ → RuntimeTransition
  round_ended : TransitionBase → ℕ → ℕ → Option ℤ → Option SourceSide → RuntimeTransition
  map_ended : TransitionBase → ℕ → ℕ → RuntimeTransition
  observed_map_change : TransitionBase → MapChange → ℕ → ℕ → RuntimeTransition
  explicit_map_change : TransitionBase → MapChange → ResetReason → RuntimeTransition

pub record SequenceRange : Type 0 where
  pub from : ℕ
  pub to : ℕ

pub data IgnoredReason : Type 0 where
  duplicate out_of_order non_monotonic_time stale_generation : IgnoredReason
  generation_ahead invalid_generation_advance map_not_established : IgnoredReason

pub data RuntimeDisposition : Type 0 where
  accepted_frame : FrameContinuity → Option SequenceRange → RuntimeDisposition
  source_generation_advanced : RuntimeDisposition
  map_execution_reset : RuntimeDisposition
  ignored : IgnoredReason → RuntimeDisposition

pub record RuntimeReduceResult : Type 0 where
  pub state : RuntimeState
  pub transitions : List RuntimeTransition
  pub disposition : RuntimeDisposition

abbrev coverage_eqb : CoverageStatus → CoverageStatus → Bool
coverage_eqb present present = true
coverage_eqb absent absent = true
coverage_eqb degraded degraded = true
coverage_eqb _ _ = false

pub coverage_eqb_iff : (a b : CoverageStatus) → (coverage_eqb a b ≡ true) ↔ (a ≡ b)
coverage_eqb_iff a b = ground arith

instance abbrev pub coverage_eq : Eq CoverageStatus
coverage_eq = record { equals = coverage_eqb; equals_iff = coverage_eqb_iff }

abbrev round_phase_eqb : RoundPhase → RoundPhase → Bool
round_phase_eqb freezetime freezetime = true
round_phase_eqb RoundPhase.live RoundPhase.live = true
round_phase_eqb over over = true
round_phase_eqb RoundPhase.unknown RoundPhase.unknown = true
round_phase_eqb _ _ = false

pub round_phase_eqb_iff : (a b : RoundPhase) → (round_phase_eqb a b ≡ true) ↔ (a ≡ b)
round_phase_eqb_iff a b = ground arith

instance abbrev pub round_phase_eq : Eq RoundPhase
round_phase_eq = record { equals = round_phase_eqb; equals_iff = round_phase_eqb_iff }

abbrev map_phase_eqb : MapPhase → MapPhase → Bool
map_phase_eqb warmup warmup = true
map_phase_eqb MapPhase.live MapPhase.live = true
map_phase_eqb intermission intermission = true
map_phase_eqb gameover gameover = true
map_phase_eqb MapPhase.unknown MapPhase.unknown = true
map_phase_eqb _ _ = false

pub map_phase_eqb_iff : (a b : MapPhase) → (map_phase_eqb a b ≡ true) ↔ (a ≡ b)
map_phase_eqb_iff a b = ground arith

instance abbrev pub map_phase_eq : Eq MapPhase
map_phase_eq = record { equals = map_phase_eqb; equals_iff = map_phase_eqb_iff }

abbrev bomb_eqb : BombState → BombState → Bool
bomb_eqb carried carried = true
bomb_eqb dropped dropped = true
bomb_eqb planting planting = true
bomb_eqb planted planted = true
bomb_eqb defusing defusing = true
bomb_eqb exploded exploded = true
bomb_eqb defused defused = true
bomb_eqb BombState.unknown BombState.unknown = true
bomb_eqb _ _ = false

pub bomb_eqb_iff : (a b : BombState) → (bomb_eqb a b ≡ true) ↔ (a ≡ b)
bomb_eqb_iff a b = ground arith

instance abbrev pub bomb_eq : Eq BombState
bomb_eq = record { equals = bomb_eqb; equals_iff = bomb_eqb_iff }

abbrev continuity_eqb : FrameContinuity → FrameContinuity → Bool
continuity_eqb baseline baseline = true
continuity_eqb contiguous contiguous = true
continuity_eqb gap_resync gap_resync = true
continuity_eqb stale_recovery stale_recovery = true
continuity_eqb _ _ = false

pub continuity_eqb_iff : (a b : FrameContinuity) → (continuity_eqb a b ≡ true) ↔ (a ≡ b)
continuity_eqb_iff a b = ground arith

instance abbrev pub continuity_eq : Eq FrameContinuity
continuity_eq = record { equals = continuity_eqb; equals_iff = continuity_eqb_iff }
