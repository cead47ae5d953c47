-- ===== src/Runtime/PlayerStatsReducer.antt =====
-- packages/core/src/runtime/player-stats.ts: the reduction of one frame, and the figures read.
use rival_hub_broadcast.Prelude.{
  ℕ, ℤ, ◌+◌, ◌-◌, Bool, true, false, not, ◌&&◌, ◌||◌, Option, none, some, [], String, ◌==◌, ◌!=◌,
  nat_eq, option_eq, if◌then◌else◌,
}
use rival_hub_broadcast.Runtime.Types.{
  Measure, TelemetryObservation, RoundPhase, MapPlayerStatsCurrentRound, MapPlayerStats,
  FrameContinuity, round_phase_eq, continuity_eq, freezetime, over, baseline, contiguous,
}
use rival_hub_broadcast.Runtime.PlayerStats.{
  is_valid_steam64, value_of, copy_player_damage, copy_start_money, add_completed_round,
  invalidate_current_round, create_map_player_stats, round_number_hint, round_phase, players_of,
  has_complete_evidence, create_current_round, same_round_hint, acceptable_round_end_hint,
  known_amount,
}

-- A frame that is not a fresh map's and does not continue the one before voids the open round.
unfoldable pub invalidate_on_gap :
    Bool → Option MapPlayerStatsCurrentRound → Option MapPlayerStatsCurrentRound
invalidate_on_gap healthy none = none
invalidate_on_gap healthy (some r) = some (if healthy then r else invalidate_current_round r)

-- The round's number and phase against the frame's: the round goes on, is voided, or is dropped.
unfoldable pub follow_phase :
    RoundPhase → Option ℤ → Option MapPlayerStatsCurrentRound → Option MapPlayerStatsCurrentRound
follow_phase phase hint none = none
follow_phase phase hint (some r) =
    if phase == RoundPhase.unknown
    then some r
    else if phase == over
    then some (
        if acceptable_round_end_hint r.round_number_hint hint
        then r
        else invalidate_current_round r)
    else if not (same_round_hint r.round_number_hint hint)
    then (if phase == freezetime then none else some (invalidate_current_round r))
    else if phase == freezetime && r.phase != freezetime
    then none
    else some r

unfoldable pub open_round :
    RoundPhase
    → TelemetryObservation
    → Bool
    → Option MapPlayerStatsCurrentRound
    → Option MapPlayerStatsCurrentRound
open_round phase o healthy (some r) = some r
open_round phase o healthy none =
    if phase == freezetime || phase == RoundPhase.live
    then some (
        create_current_round o
          (not healthy || not (has_complete_evidence o) || phase == RoundPhase.live))
    else none

-- The open round with what the frame shows.
unfoldable pub observe_round :
    RoundPhase
    → Option ℤ
    → TelemetryObservation
    → Bool
    → MapPlayerStatsCurrentRound
    → MapPlayerStatsCurrentRound
observe_round phase hint o healthy r =
    let evidence = has_complete_evidence o in
    let invalidated = r.invalidated || not healthy || not evidence in
    let promoted =
      not invalidated
      && r.phase == freezetime
      && phase == RoundPhase.live
      && r.has_complete_evidence
      && same_round_hint r.round_number_hint hint in
    record r {
      phase = if phase == RoundPhase.unknown then r.phase else phase;
      eligible = if promoted then true else r.eligible && not invalidated;
      invalidated = invalidated;
      has_complete_evidence = not invalidated && evidence && r.has_complete_evidence;
      damage = if invalidated then [] else copy_player_damage r.damage (players_of o);
      start_money =
          if not invalidated && phase == freezetime && r.phase == freezetime && evidence
          then copy_start_money r.start_money (players_of o)
          else r.start_money;
    }

abbrev pub is_counted : MapPlayerStatsCurrentRound → Bool
is_counted r = r.eligible && r.has_complete_evidence && not r.invalidated

unfoldable pub close_round :
    MapPlayerStats → RoundPhase → Option MapPlayerStatsCurrentRound → MapPlayerStats
close_round stats phase none = record stats { current_round = none }
close_round stats phase (some r) =
    if phase == over
    then (if is_counted r
        then add_completed_round stats r
        else record stats { current_round = none })
    else record stats { current_round = some r }

abbrev pub map_some {ℓ} : {A : Type ℓ} → (A → A) → Option A → Option A
map_some f none = none
map_some f (some a) = some (f a)

-- The frame on the statistics of its own map.
unfoldable pub reduce_on_map : MapPlayerStats → TelemetryObservation → Bool → MapPlayerStats
reduce_on_map stats o healthy =
    let phase = round_phase o in
    let hint = round_number_hint o in
    let followed = follow_phase phase hint (invalidate_on_gap healthy stats.current_round) in
    close_round stats phase
      (map_some (observe_round phase hint o healthy) (open_round phase o healthy followed))

unfoldable pub reduce_map_player_stats :
    MapPlayerStats → ℕ → TelemetryObservation → FrameContinuity → MapPlayerStats
reduce_map_player_stats previous map_epoch o continuity =
    if previous.map_epoch == map_epoch
    then reduce_on_map previous o (continuity == baseline || continuity == contiguous)
    else reduce_on_map (create_map_player_stats map_epoch) o true

abbrev or_zero : Option ℕ → ℕ
or_zero none = 0
or_zero (some n) = n

-- An average is kept as its total and its number of rounds.
unfoldable pub get_player_completed_adr : MapPlayerStats → String → Option (ℕ × ℕ)
get_player_completed_adr stats id =
    if is_valid_steam64 id && not (stats.counted_completed_rounds == 0)
    then some (or_zero (value_of id stats.completed_damage), stats.counted_completed_rounds)
    else none

unfoldable pub current_round_is_counted : Option MapPlayerStatsCurrentRound → Bool
current_round_is_counted none = false
current_round_is_counted (some r) = r.eligible && not r.invalidated && r.has_complete_evidence

abbrev damage_in : String → Option MapPlayerStatsCurrentRound → ℕ
damage_in id none = 0
damage_in id (some r) = or_zero (value_of id r.damage)

unfoldable pub get_player_live_adr : MapPlayerStats → String → Option (ℕ × ℕ)
get_player_live_adr stats id =
    let included = current_round_is_counted stats.current_round in
    let denominator = stats.counted_completed_rounds + (if included then 1 else 0) in
    if is_valid_steam64 id && not (denominator == 0)
    then some (
      or_zero (value_of id stats.completed_damage)
          + (if included then damage_in id stats.current_round else 0),
      denominator,
    )
    else none

unfoldable pub get_player_current_round_damage : MapPlayerStats → String → Option ℕ
get_player_current_round_damage stats id =
    if is_valid_steam64 id
    then elim stats.current_round [
      | none ↦ none
      | some r ↦ if r.invalidated || not r.has_complete_evidence then none else value_of id r.damage
    ]
    else none

-- What is spent of the first money seen in this freezetime.
unfoldable pub money_spent : MapPlayerStatsCurrentRound → String → ℕ → Option ℕ
money_spent r id money =
    if r.phase != freezetime || r.invalidated || not r.has_complete_evidence
    then none
    else elim (value_of id r.start_money) [ none ↦ none | some start ↦ some (start - money) ]

unfoldable pub get_player_current_round_money_spent :
    MapPlayerStats → String → Option Measure → Option ℕ
get_player_current_round_money_spent stats id current_money =
    if is_valid_steam64 id
    then elim (known_amount current_money) [
      | none ↦ none
      | some money ↦ elim stats.current_round [ none ↦ none | some r ↦ money_spent r id money ]
    ]
    else none
