-- ===== src/Runtime/PlayerStats.antt =====
-- packages/core/src/runtime/player-stats.ts: damage and money of the players of one map.
-- A damage or money value is a finite number that is not negative, in one small unit.
use Prim.Native.Char.{code}
use Prim.Native.String.{String, count}
use rival_hub_broadcast.Prelude.{
  ℕ, ℤ, pos, ◌+◌, ◌+ℤ◌, Bool, true, false, not, ◌&&◌, ◌||◌, Option, none, some, List, [], ◌∷◌, ◌==◌,
  nat_eq, int_eq, string_eq, option_eq, if◌then◌else◌, leb, length, max, sort, is_safe_integer,
}
use rival_hub_broadcast.Prelude.Text.{text_le}
use rival_hub_broadcast.Runtime.Types.{
  Measure, finite, TelemetryObservation, ObservedPlayer, RoundPhase, BySteam64,
  MapPlayerStatsCurrentRound, MapPlayerStats, coverage_eq, round_phase_eq, present,
}

abbrev pub max_tracked_map_players : ℕ
max_tracked_map_players = 64

unfoldable pub all_digits : String → Bool
all_digits String.[] = true
all_digits (String.◌∷◌ c s) = leb 48 (code c) && leb (code c) 57 && all_digits s

-- /^\d{17}$/
unfoldable pub is_valid_steam64 : String → Bool
unfolding all_digits
is_valid_steam64 id = count id == 17 && all_digits id

abbrev entry_le : String × ℕ → String × ℕ → Bool
entry_le a b = text_le a.0 b.0

unfoldable pub sorted_damage : BySteam64 → BySteam64
sorted_damage entries = sort entry_le entries

-- `entries[id]`, none for undefined.
unfoldable pub value_of : String → BySteam64 → Option ℕ
value_of id [] = none
value_of id ((k, v) ∷ entries) = if k == id then some v else value_of id entries

-- `entries[id] = value`
unfoldable pub put : String → ℕ → BySteam64 → BySteam64
put id value [] = (id, value) ∷ []
put id value ((k, v) ∷ entries) =
    if k == id then (k, value) ∷ entries else (k, v) ∷ put id value entries

abbrev pub is_full : BySteam64 → Bool
is_full entries = leb max_tracked_map_players (length entries)

abbrev pub known_amount : Option Measure → Option ℕ
known_amount (some (finite (pos n))) = some n
known_amount _ = none

-- One player of the loop of `copyPlayerDamage`, with a valid damage.
unfoldable pub raise_damage : String → ℕ → BySteam64 → BySteam64
raise_damage id damage entries = elim (value_of id entries) [
  | none ↦ if is_full entries then entries else put id damage entries
  | some old ↦ put id (max old damage) entries
]

unfoldable pub copy_damage_of : ObservedPlayer → BySteam64 → BySteam64
copy_damage_of player entries =
    if is_valid_steam64 player.source_player_id
    then elim (known_amount player.round_total_damage) [
      | none ↦ entries
      | some damage ↦ raise_damage player.source_player_id damage entries
    ]
    else entries

abbrev player_le : ObservedPlayer → ObservedPlayer → Bool
player_le a b = text_le a.source_player_id b.source_player_id

unfoldable pub copy_all :
    (ObservedPlayer → BySteam64 → BySteam64) → List ObservedPlayer → BySteam64 → BySteam64
copy_all copy [] entries = entries
copy_all copy (p ∷ ps) entries = copy_all copy ps (copy p entries)

unfoldable pub copy_player_damage : BySteam64 → List ObservedPlayer → BySteam64
copy_player_damage current players =
    sorted_damage (copy_all copy_damage_of (sort player_le players) current)

-- The first money that a player is seen with is kept.
unfoldable pub copy_money_of : ObservedPlayer → BySteam64 → BySteam64
copy_money_of player entries =
    if is_valid_steam64 player.source_player_id
    then elim (value_of player.source_player_id entries) [
      | some _ ↦ entries
      | none ↦ elim (known_amount player.money) [
        | none ↦ entries
        | some money ↦
            if is_full entries then entries else put player.source_player_id money entries
      ]
    ]
    else entries

unfoldable pub copy_start_money : BySteam64 → List ObservedPlayer → BySteam64
copy_start_money current players =
    sorted_damage (copy_all copy_money_of (sort player_le players) current)

-- One entry of the loop of `addCompletedRound`.
unfoldable pub add_damage : String → ℕ → BySteam64 → BySteam64
add_damage id damage entries = elim (value_of id entries) [
  | none ↦ if is_full entries then entries else put id damage entries
  | some old ↦ put id (old + damage) entries
]

unfoldable pub add_all : BySteam64 → BySteam64 → BySteam64
add_all [] completed = completed
add_all ((id, damage) ∷ entries) completed = add_all entries (add_damage id damage completed)

unfoldable pub add_completed_round : MapPlayerStats → MapPlayerStatsCurrentRound → MapPlayerStats
add_completed_round stats round = record stats {
  counted_completed_rounds = stats.counted_completed_rounds + 1;
  current_round = none;
  completed_damage = sorted_damage (add_all round.damage stats.completed_damage);
}

unfoldable pub invalidate_current_round : MapPlayerStatsCurrentRound → MapPlayerStatsCurrentRound
invalidate_current_round round = record round {
  eligible = false;
  invalidated = true;
  has_complete_evidence = false;
  damage = [];
  start_money = [];
}

abbrev map_round {ℓ} : {A : Type ℓ} → (A → A) → Option A → Option A
map_round f none = none
map_round f (some a) = some (f a)

unfoldable pub invalidate_map_player_stats : MapPlayerStats → MapPlayerStats
invalidate_map_player_stats stats = record stats {
  current_round = map_round invalidate_current_round stats.current_round;
}

unfoldable pub create_map_player_stats : ℕ → MapPlayerStats
create_map_player_stats map_epoch = record {
  map_epoch = map_epoch;
  counted_completed_rounds = 0;
  current_round = none;
  completed_damage = [];
}

abbrev safe_round : Option ℤ → Option ℤ
safe_round none = none
safe_round (some n) = if is_safe_integer n then some n else none

unfoldable pub round_number_hint : TelemetryObservation → Option ℤ
round_number_hint o = elim o.telemetry.map [ none ↦ none | some m ↦ safe_round m.round_number ]

unfoldable pub round_phase : TelemetryObservation → RoundPhase
round_phase o =
    if o.coverage.round == present
    then elim o.telemetry.round [
      | none ↦ RoundPhase.unknown
      | some r ↦ elim r.phase [ none ↦ RoundPhase.unknown | some p ↦ p ]
    ]
    else RoundPhase.unknown

abbrev pub players_of : TelemetryObservation → List ObservedPlayer
players_of o = elim o.telemetry.all_players [ none ↦ [] | some players ↦ players ]

abbrev is_some {ℓ} : {A : Type ℓ} → Option A → Bool
is_some none = false
is_some (some _) = true

unfoldable pub has_complete_evidence : TelemetryObservation → Bool
has_complete_evidence o = o.coverage.all_players == present && is_some o.telemetry.all_players

unfoldable pub create_current_round : TelemetryObservation → Bool → MapPlayerStatsCurrentRound
create_current_round o invalidated = record {
  round_number_hint = round_number_hint o;
  phase = round_phase o;
  eligible = false;
  invalidated = invalidated;
  has_complete_evidence = not invalidated && has_complete_evidence o;
  damage = [];
  start_money = [];
}

-- Two hints that are both known must be equal.
unfoldable pub same_round_hint : Option ℤ → Option ℤ → Bool
same_round_hint none next = true
same_round_hint (some a) none = true
same_round_hint (some a) (some b) = a == b

unfoldable pub acceptable_round_end_hint : Option ℤ → Option ℤ → Bool
acceptable_round_end_hint none next = true
acceptable_round_end_hint (some a) none = true
acceptable_round_end_hint (some a) (some b) = b == a || b == a +ℤ pos 1
