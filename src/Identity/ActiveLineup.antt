-- ===== src/Identity/ActiveLineup.antt =====
-- packages/core/src/identity/active-lineup.ts: the ten players on air, from the frame and the lineup
-- before. The text of an issue and its side, which no issue sets, are left out.
use native.Mathlib.Decide.{ℕ_discrete}
use rival_hub_broadcast.Prelude.{
  ℕ, Bool, true, false, not, ◌&&◌, ◌||◌, Option, none, some, List, [], ◌∷◌, ◌++◌, map, String, Eq,
  ◌==◌, ◌!=◌, nat_eq, string_eq, option_eq, if◌then◌else◌, ltb, leb, any, every, find, select,
  length, has_text, add_text, has_key, get_key, set_key, set_all, values, sort, eq_of_discrete,
  String-discrete, ◌≡◌, ◌↔◌, arith,
}
use rival_hub_broadcast.Prelude.Text.{text_le, trim, to_lower}
use rival_hub_broadcast.Series.Types.{
  MatchContext, SourceSide, ct, t, side_eq, IssueSeverity, info, warning,
}
use rival_hub_broadcast.Runtime.Types.{CoverageStatus, present, absent, coverage_eq}
use rival_hub_broadcast.Runtime.PlayerStats.{is_valid_steam64}
use rival_hub_broadcast.Identity.Types.{
  ObservedPlayer, IdentityResolution, ResolvedIdentityPlayer, Evidence, current, retained,
}
pub mod Resolve
mod Parts
pub mod Stable
mod Lineups
mod Kept
mod Tests

pub data ActiveLineupState : Type 0 where
  resolving complete degraded : ActiveLineupState

pub data LineupIdentityEvidence : Type 0 where
  canonical observed unresolved : LineupIdentityEvidence

pub data LineupIssueCode : Type 0 where
  allplayers_unavailable allplayers_degraded insufficient_candidates : LineupIssueCode
  ambiguous_candidates retained_baseline extra_observed_player : LineupIssueCode
  duplicate_observed_identity excluded_observed_player : LineupIssueCode

pub record LineupIssue : Type 0 where
  pub code : LineupIssueCode
  pub severity : IssueSeverity
  pub source_player_id : Option String

abbrev pub lineup_issue : LineupIssueCode → IssueSeverity → Option String → LineupIssue
lineup_issue code severity id = record { code = code; severity = severity; source_player_id = id }

pub record ActiveLineupPlayer : Type 0 where
  pub source_player_id : String
  pub canonical_player_id : Option String
  pub identity_evidence : LineupIdentityEvidence
  pub lineup_evidence : Evidence
  pub observed : Option ObservedPlayer
  pub side : SourceSide

pub record ActiveLineupResolution : Type 0 where
  pub state : ActiveLineupState
  pub source_generation : ℕ
  pub map_epoch : ℕ
  pub ct : List ActiveLineupPlayer
  pub t : List ActiveLineupPlayer
  pub extras : List ObservedPlayer
  pub issues : List LineupIssue

pub record ActiveLineupOverride : Type 0 where
  pub include_source_player_ids : List String
  pub exclude_source_player_ids : List String

pub record ActiveLineupInput : Type 0 where
  pub source_generation : ℕ
  pub map_epoch : ℕ
  pub all_players : Option (List ObservedPlayer)
  pub all_players_coverage : Option CoverageStatus
  pub context : Option MatchContext
  pub identity : Option IdentityResolution
  pub previous : Option ActiveLineupResolution
  pub override : Option ActiveLineupOverride

abbrev pub max_lineup_extras : ℕ
max_lineup_extras = 32

pub record Candidate : Type 0 where
  pub observed : ObservedPlayer
  pub side : SourceSide

unfoldable pub observed_player_discrete : Discrete ObservedPlayer
observed_player_discrete = hlevel (ℕ_discrete, String-discrete)

instance abbrev pub observed_player_eq : Eq ObservedPlayer
observed_player_eq = eq_of_discrete observed_player_discrete

unfoldable pub has_gameplay_evidence : ObservedPlayer → Bool
unfolding trim to_lower
has_gameplay_evidence player =
    let activity : Option String = elim player.activity [
      | none ↦ none
      | some text ↦ some (to_lower (trim text))
    ] in
    if activity == some "observer"
      || activity == some "spectating"
      || activity == some "watching"
      || activity == some "coach"
      || activity == some "coaching"
    then false
    else player.state != none
      || player.match_stats != none
      || player.weapons != none
      || player.position != none
      || player.forward != none
      || activity == some "playing"

abbrev observed_side : ObservedPlayer → Option SourceSide
observed_side player = elim player.side [ some ct ↦ some ct | some t ↦ some t | _ ↦ none ]

-- The lineup before, where it is of the map epoch and has five players on each side; the epoch is
-- never negative.
unfoldable pub is_previous_baseline : ActiveLineupResolution → Bool
is_previous_baseline r = length r.ct == 5 && length r.t == 5

unfoldable pub identity_for :
    ObservedPlayer → ActiveLineupInput → Option String × LineupIdentityEvidence
identity_for player input =
    let players : List ResolvedIdentityPlayer = elim input.identity [
      | none ↦ []
      | some identity ↦ identity.players
    ] in
    elim (find (λ p. p.source_player_id == some player.source_player_id) players) [
      | some known ↦ (some known.canonical_player_id, canonical)
      | none ↦ elim input.context [
        | some _ ↦ (none, unresolved)
        | none ↦ (none, if is_valid_steam64 player.source_player_id then observed else unresolved)
      ]
    ]

unfoldable pub to_lineup_player :
    ObservedPlayer → ActiveLineupInput → SourceSide → Evidence → ActiveLineupPlayer
unfolding identity_for
to_lineup_player player input side evidence = record {
  source_player_id = player.source_player_id;
  canonical_player_id = (identity_for player input).0;
  identity_evidence = (identity_for player input).1;
  lineup_evidence = evidence;
  observed = some player;
  side = side;
}

pub record UniqueObservedPlayers : Type 0 where
  pub players : List (String × ObservedPlayer)
  pub conflicted : List String
  pub issues : List LineupIssue

-- One round of the loop: the first player of an id is kept, and a different one makes a conflict.
unfoldable pub unique_player : ObservedPlayer → UniqueObservedPlayers → UniqueObservedPlayers
unique_player player u = elim (get_key player.source_player_id u.players) [
  | none ↦ record u { players = set_key player.source_player_id player u.players }
  | some existing ↦ record u {
    conflicted =
        if existing == player then u.conflicted else add_text player.source_player_id u.conflicted;
    issues =
        u.issues
        ++ lineup_issue duplicate_observed_identity warning (some player.source_player_id) ∷ [];
  }
]

unfoldable pub unique_all : List ObservedPlayer → UniqueObservedPlayers → UniqueObservedPlayers
unfolding unique_player observed_player_discrete
unique_all [] u = u
unique_all (p ∷ ps) u = unique_all ps (unique_player p u)

-- `json_le` is the order of the JSON texts of two players, which orders players of one id.
abbrev pub compare_observed :
    (ObservedPlayer → ObservedPlayer → Bool) → ObservedPlayer → ObservedPlayer → Bool
compare_observed json_le x y =
    if x.source_player_id == y.source_player_id
    then json_le x y
    else text_le x.source_player_id y.source_player_id

unfoldable pub unique_observed_players :
    (ObservedPlayer → ObservedPlayer → Bool) → List ObservedPlayer → UniqueObservedPlayers
unfolding unique_all
unique_observed_players json_le players =
    unique_all (sort (compare_observed json_le) players)
      (record { players = []; conflicted = []; issues = [] })

abbrev included : ActiveLineupInput → List String
included input = elim input.override [ none ↦ [] | some o ↦ o.include_source_player_ids ]

abbrev excluded : ActiveLineupInput → List String
excluded input = elim input.override [ none ↦ [] | some o ↦ o.exclude_source_player_ids ]

-- What one player of the loop adds; the excluded players, which nothing reads, are not collected: a candidate, an issue or nothing.
unfoldable pub candidate_of :
    List String → ActiveLineupInput → ObservedPlayer → List Candidate × List LineupIssue
unfolding has_gameplay_evidence
candidate_of conflicted input player =
    let id = player.source_player_id in
    if has_text id conflicted
    then ([], [])
    else if has_text id (excluded input)
    then ([], lineup_issue excluded_observed_player info (some id) ∷ [])
    else elim (observed_side player) [
      | none ↦ ([], [])
      | some side ↦
          if has_text id (included input) || has_gameplay_evidence player
          then (record { observed = player; side = side } ∷ [], [])
          else ([], [])
    ]

unfoldable pub candidate_players :
    List ObservedPlayer → List String → ActiveLineupInput → List Candidate × List LineupIssue
unfolding candidate_of
candidate_players [] conflicted input = ([], [])
candidate_players (p ∷ ps) conflicted input =
    let first = candidate_of conflicted input p in
    let rest = candidate_players ps conflicted input in (first.0 ++ rest.0, first.1 ++ rest.1)
