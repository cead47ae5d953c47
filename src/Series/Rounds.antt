-- ===== src/Series/Rounds.antt =====
-- packages/core/src/series-progress/reducer.ts: the round history of a map.
use rival_hub_broadcast.Prelude.{
  ℕ, ℤ, pos, negsuc, ◌+◌, Bool, true, false, ◌&&◌, Option, none, some, List, [], ◌∷◌, ◌++◌, map,
  String, ◌==◌, ◌!=◌, leb, ltb, eqb, nat_eq, int_eq, string_eq, option_eq, if◌then◌else◌, every,
  find, sort, length, take_last, is_safe_integer,
}
use rival_hub_broadcast.Series.Types.{
  SourceSide, RoundWinCondition, SeriesProgress, SeriesMapProgress, SeriesCompleteness,
  SeriesRoundResult, SeriesProgressIssueCode, IssueSeverity, IssueMessage, SeriesSideProof,
  RoundEnded, Entrants, side_eq, condition_eq, complete, partial, unavailable, info, warning,
}
use rival_hub_broadcast.Series.Score.{add_issue}
use rival_hub_broadcast.Series.Binding.{issue, has_order, map_for_epoch}

abbrev pub series_round_history_max : ℕ
series_round_history_max = 256

unfoldable pub valid_side_proof : Option SeriesSideProof → ℕ → ℕ → Bool
valid_side_proof none generation epoch = false
valid_side_proof (some proof) generation epoch =
    proof.source_generation == generation
    && proof.map_epoch == epoch
    && proof.a != SourceSide.unknown
    && proof.b != SourceSide.unknown
    && proof.a != proof.b

-- `entrantForSide`, with the entry that the callers put for 'a' and 'b'.
unfoldable pub entrant_for_side : Entrants → SeriesSideProof → SourceSide → Option String
entrant_for_side entrants proof side =
    if side == proof.a
    then some entrants.a.entry_id
    else if side == proof.b
    then some entrants.b.entry_id
    else none

abbrev pub round_le : SeriesRoundResult → SeriesRoundResult → Bool
round_le left right = leb left.round_number right.round_number

abbrev pub sort_rounds : List SeriesRoundResult → List SeriesRoundResult
sort_rounds rounds = sort round_le rounds

-- Every round after the first has the number after the one before it.
unfoldable pub follows : ℕ → List SeriesRoundResult → Bool
follows previous [] = true
follows previous (r ∷ rs) = eqb r.round_number (previous + 1) && follows r.round_number rs

abbrev pub has_known_winner : SeriesRoundResult → Bool
has_known_winner r = r.winner_side != SourceSide.unknown

unfoldable pub completeness_of : List SeriesRoundResult → SeriesCompleteness
completeness_of [] = unavailable
completeness_of (r ∷ rs) =
    if follows r.round_number rs && eqb r.round_number 1 && every has_known_winner (r ∷ rs)
    then complete
    else partial

unfoldable pub history_completeness : List SeriesRoundResult → SeriesCompleteness
history_completeness rounds = completeness_of (sort_rounds rounds)

unfoldable pub with_history : SeriesMapProgress → List SeriesRoundResult → SeriesMapProgress
with_history m rounds =
    let capped = take_last series_round_history_max (sort_rounds rounds) in
    record m {
      round_history = record { completeness = history_completeness capped; rounds = capped };
    }

-- `{ ...candidate, roundHistory: { ...candidate.roundHistory, completeness: 'partial' } }`
unfoldable pub make_partial : ℕ → SeriesMapProgress → SeriesMapProgress
make_partial order m =
    if has_order order m
    then record m { round_history = record (m.round_history) { completeness = partial } }
    else m

unfoldable pub mark_history_partial :
    SeriesProgress → ℕ → ℕ → IssueMessage → IssueSeverity → SeriesProgress
mark_history_partial progress order epoch message severity =
    add_issue (record progress { maps = map (make_partial order) progress.maps })
      (issue SeriesProgressIssueCode.round_history_partial severity message (some order)
        (some epoch))

abbrev pub replace_map : SeriesMapProgress → SeriesMapProgress → SeriesMapProgress
replace_map next m = if has_order next.map_order m then next else m

abbrev pub replace_in : SeriesProgress → SeriesMapProgress → SeriesProgress
replace_in progress next = record progress { maps = map (replace_map next) progress.maps }

-- The number of an ended round: an absolute one, or none.
unfoldable pub absolute_round : Option ℤ → Option ℕ
absolute_round none = none
absolute_round (some (negsuc n)) = none
absolute_round (some (pos n)) = if is_safe_integer (pos n) && ltb 0 n then some n else none

unfoldable pub round_winner : Entrants → Option SeriesSideProof → Bool → SourceSide → Option String
round_winner entrants none valid side = none
round_winner entrants (some proof) valid side =
    if valid && side != SourceSide.unknown then entrant_for_side entrants proof side else none

abbrev pub has_number : ℕ → SeriesRoundResult → Bool
has_number n r = r.round_number == n

-- `rounds[index] = { ...rounds[index], winCondition }` at the first entry of the number.
unfoldable pub set_condition :
    ℕ → RoundWinCondition → List SeriesRoundResult → List SeriesRoundResult
set_condition n condition [] = []
set_condition n condition (r ∷ rs) =
    if has_number n r
    then record r { win_condition = condition } ∷ rs
    else r ∷ set_condition n condition rs

unfoldable pub sides_conflict : SourceSide → SourceSide → Bool
sides_conflict recorded seen =
    recorded != seen && recorded != SourceSide.unknown && seen != SourceSide.unknown

-- The end of `addRound`: the new history, and the issues about it.
unfoldable pub commit_rounds :
    SeriesProgress → SeriesMapProgress → ℕ → List SeriesRoundResult → Bool → SeriesProgress
commit_rounds progress m epoch rounds proven =
    let stored = replace_in progress (with_history m rounds) in
    let capped =
      if ltb series_round_history_max (length rounds)
      then add_issue stored (
          issue SeriesProgressIssueCode.round_history_cap warning IssueMessage.history_over_cap
            (some m.map_order) (some epoch))
      else stored in
    if proven
    then capped
    else add_issue capped (
        issue SeriesProgressIssueCode.round_history_partial info IssueMessage.no_round_side_proof
          (some m.map_order) (some epoch))

abbrev is_some : Option String → Bool
is_some none = false
is_some (some _) = true

-- A round that the history has: its winner is frozen, and an unknown condition is filled in.
unfoldable pub confirm_round :
    SeriesProgress → SeriesMapProgress → RoundEnded → ℕ → Bool → SeriesRoundResult → SeriesProgress
confirm_round progress m event n proven existing =
    if sides_conflict existing.winner_side event.winner_side
    then add_issue progress (
        issue SeriesProgressIssueCode.round_history_partial warning
          IssueMessage.duplicate_round_conflict (some m.map_order) (some event.map_epoch))
    else (let condition =
          if existing.win_condition == RoundWinCondition.unknown
          then event.win_condition
          else existing.win_condition in
        if condition == existing.win_condition
        then progress
        else commit_rounds progress m event.map_epoch
            (set_condition n condition m.round_history.rounds) proven)

unfoldable pub record_round :
    SeriesProgress → SeriesMapProgress → RoundEnded → Option SeriesSideProof → ℕ → SeriesProgress
record_round progress m event side_proof n =
    let valid = valid_side_proof side_proof event.source_generation event.map_epoch in
    let winner = round_winner progress.entrants side_proof valid event.winner_side in
    let proven = valid && is_some winner && event.winner_side != SourceSide.unknown in
    elim (find (has_number n) m.round_history.rounds) [
      | some existing ↦ confirm_round progress m event n proven existing
      | none ↦
          commit_rounds progress m event.map_epoch
            (m.round_history.rounds
              ++ record {
                round_number = n;
                winner_side = event.winner_side;
                winner_entry_id = winner;
                win_condition = event.win_condition;
              }
                ∷ [])
            proven
    ]

unfoldable pub add_round : SeriesProgress → RoundEnded → Option SeriesSideProof → SeriesProgress
add_round progress event side_proof = elim (map_for_epoch progress event.map_epoch) [
  | none ↦ progress
  | some m ↦ elim (absolute_round event.round_number) [
    | none ↦ add_issue progress (
        issue SeriesProgressIssueCode.round_number_unavailable warning
          IssueMessage.no_absolute_round_number (some m.map_order) (some event.map_epoch))
    | some n ↦ record_round progress m event side_proof n
  ]
]
