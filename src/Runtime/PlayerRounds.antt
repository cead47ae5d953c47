-- ===== src/Runtime/PlayerRounds.antt =====
-- The rounds of packages/core/src/runtime/player-stats.ts: which one is counted, and what is kept of it.
use rival_hub_broadcast.Prelude.{
  ℕ, ℤ, Bool, true, false, ◌≡◌, refl, Option, none, some, [], arith, inl, inr, Bool-cases,
  Option-cases, ◌==◌, nat_eq, length, not, ◌||◌,
}
use rival_hub_broadcast.Runtime.Types.{
  TelemetryObservation, RoundPhase, MapPlayerStatsCurrentRound, MapPlayerStats, FrameContinuity,
  over, round_phase_eq, continuity_eq,
}
use rival_hub_broadcast.Runtime.PlayerStats.{
  add_completed_round, invalidate_current_round, create_map_player_stats, players_of,
  invalidate_map_player_stats, create_current_round, has_complete_evidence,
}
use rival_hub_broadcast.Runtime.PlayerStatsReducer.{
  invalidate_on_gap, follow_phase, open_round, observe_round, close_round, is_counted,
  reduce_on_map, reduce_map_player_stats, map_some,
}
use rival_hub_broadcast.Runtime.PlayerLimits.{
  IsBounded, copy_player_damage-IsBounded, copy_start_money-IsBounded, add_all-IsBounded,
  sorted_damage-IsBounded,
}

-- A round that is open: its players are bounded, and once void it has no evidence left.
pub record IsSoundRound (r : MapPlayerStatsCurrentRound) : Type 0 where
  pub damage : IsBounded r.damage
  pub start_money : IsBounded r.start_money
  pub void :
      r.invalidated ≡ true
      → (r.eligible ≡ false) × (r.has_complete_evidence ≡ false) × (r.damage ≡ [])

abbrev pub IsSoundOpen : Option MapPlayerStatsCurrentRound → Type 0
IsSoundOpen none = Unit
IsSoundOpen (some r) = IsSoundRound r

-- The statistics of a map are bounded, and so is its open round.
pub record IsSoundStats (stats : MapPlayerStats) : Type 0 where
  pub completed : IsBounded stats.completed_damage
  pub current : IsSoundOpen stats.current_round

invalidate-IsSound : (r : MapPlayerStatsCurrentRound) → IsSoundRound (invalidate_current_round r)
unfolding invalidate_current_round length
invalidate-IsSound r = record {
  damage = ground arith;
  start_money = ground arith;
  void = λ e. (refl, refl, refl);
}

invalidate_on_gap-IsSound :
    (healthy : Bool) (r : Option MapPlayerStatsCurrentRound)
    → IsSoundOpen r
    → IsSoundOpen (invalidate_on_gap healthy r)
unfolding invalidate_on_gap
invalidate_on_gap-IsSound healthy none s = tt
invalidate_on_gap-IsSound true (some r) s = s
invalidate_on_gap-IsSound false (some r) s = invalidate-IsSound r

follow_phase-IsSound :
    (phase : RoundPhase) (hint : Option ℤ) (r : Option MapPlayerStatsCurrentRound)
    → IsSoundOpen r
    → IsSoundOpen (follow_phase phase hint r)
unfolding follow_phase
follow_phase-IsSound phase hint none s = tt
follow_phase-IsSound phase hint (some r) s = let void = invalidate-IsSound r in ground arith

create-IsSound :
    (o : TelemetryObservation) (void : Bool) → IsSoundRound (create_current_round o void)
unfolding create_current_round length
create-IsSound o void = record {
  damage = ground arith;
  start_money = ground arith;
  void = λ e. (refl, ground arith, refl);
}

open_round-IsSound :
    (phase : RoundPhase) (o : TelemetryObservation) (healthy : Bool)
    (r : Option MapPlayerStatsCurrentRound)
    → IsSoundOpen r
    → IsSoundOpen (open_round phase o healthy r)
unfolding open_round
open_round-IsSound phase o healthy (some r) s = s
open_round-IsSound phase o healthy none s =
    let fresh =
      create-IsSound o (not healthy || not (has_complete_evidence o) || phase == RoundPhase.live) in
    ground arith

observe_round-IsSound :
    (phase : RoundPhase) (hint : Option ℤ) (o : TelemetryObservation) (healthy : Bool)
    (r : MapPlayerStatsCurrentRound)
    → IsSoundRound r
    → IsSoundRound (observe_round phase hint o healthy r)
unfolding observe_round length
observe_round-IsSound phase hint o healthy r s =
    let more = copy_player_damage-IsBounded r.damage (players_of o) s.damage in
    let money = copy_start_money-IsBounded r.start_money (players_of o) s.start_money in
    let before = s.start_money in
    record {
      damage = ground arith;
      start_money = ground arith;
      void = λ e. (ground arith, ground arith, ground arith);
    }

map_observe-IsSound :
    (phase : RoundPhase) (hint : Option ℤ) (o : TelemetryObservation) (healthy : Bool)
    (r : Option MapPlayerStatsCurrentRound)
    → IsSoundOpen r
    → IsSoundOpen (map_some (observe_round phase hint o healthy) r)
map_observe-IsSound phase hint o healthy none s = tt
map_observe-IsSound phase hint o healthy (some r) s = observe_round-IsSound phase hint o healthy r s

close_round-IsSound :
    (stats : MapPlayerStats) (phase : RoundPhase) (r : Option MapPlayerStatsCurrentRound)
    → IsBounded stats.completed_damage
    → IsSoundOpen r
    → IsSoundStats (close_round stats phase r)
unfolding close_round add_completed_round
close_round-IsSound stats phase none b s = record { completed = b; current = tt }
close_round-IsSound stats phase (some r) b s = elim (Bool-cases (phase == over)) [
  | inr going_on ↦ rw going_on (record { completed = b; current = s })
  | inl ended ↦ elim (Bool-cases (is_counted r)) [
    | inr dropped ↦ rw (ended, dropped) (record { completed = b; current = tt })
    | inl counted ↦
        rw (ended, counted)
          (record {
            completed =
                sorted_damage-IsBounded _ (add_all-IsBounded r.damage stats.completed_damage b);
            current = tt;
          })
  ]
]

reduce_on_map-IsSound :
    (stats : MapPlayerStats) (o : TelemetryObservation) (healthy : Bool)
    → IsSoundStats stats
    → IsSoundStats (reduce_on_map stats o healthy)
unfolding reduce_on_map
reduce_on_map-IsSound stats o healthy s = close_round-IsSound stats _ _ s.completed (
    map_observe-IsSound _ _ o healthy _ (
      open_round-IsSound _ o healthy _
        (follow_phase-IsSound _ _ _ (invalidate_on_gap-IsSound healthy _ s.current))))

pub create_map_player_stats-IsSound : (epoch : ℕ) → IsSoundStats (create_map_player_stats epoch)
unfolding create_map_player_stats length
create_map_player_stats-IsSound epoch = record { completed = ground arith; current = tt }

-- A frame keeps the statistics sound: at most 64 players in the damage and money of the open round and
-- in the completed damage, and a voided round is not eligible and has neither evidence nor damage.
pub reduce_map_player_stats-IsSound :
    (stats : MapPlayerStats) (epoch : ℕ) (o : TelemetryObservation) (continuity : FrameContinuity)
    → IsSoundStats stats
    → IsSoundStats (reduce_map_player_stats stats epoch o continuity)
unfolding reduce_map_player_stats
reduce_map_player_stats-IsSound stats epoch o continuity s =
    elim (Bool-cases (stats.map_epoch == epoch)) [
      | inl same_map ↦ rw same_map (reduce_on_map-IsSound stats o _ s)
      | inr new_map ↦
          rw new_map (reduce_on_map-IsSound _ o true (create_map_player_stats-IsSound epoch))
    ]

pub invalidate_map_player_stats-IsSound :
    (stats : MapPlayerStats) → IsSoundStats stats → IsSoundStats (invalidate_map_player_stats stats)
unfolding invalidate_map_player_stats
invalidate_map_player_stats-IsSound stats s = elim (Option-cases stats.current_round) [
  | inl absent ↦ record { completed = s.completed; current = rw absent tt }
  | inr (r, present) ↦ record {
    completed = s.completed;
    current = rw present (invalidate-IsSound r);
  }
]
