-- ===== src/Series/Reconcile.antt =====
-- packages/core/src/series-progress/reducer.ts: the round wins of a snapshot, and a restored state,
-- against the history.
use rival_hub_broadcast.Prelude.{
  ℕ, ℤ, pos, ◌+◌, ◌+ℤ◌, Bool, true, false, not, ◌&&◌, Option, none, some, List, [], ◌∷◌, ◌++◌, ◌==◌,
  ◌!=◌, ltb, eqb, max, nat_eq, int_eq, string_eq, option_eq, if◌then◌else◌, find, length, int_ltb,
}
use rival_hub_broadcast.MapName.{canonical_map_name}
use rival_hub_broadcast.Series.Types.{
  RoundWinCondition, ObservedRoundWin, ObservedScore, SeriesProgress, SeriesMapProgress,
  SeriesRoundResult, SeriesProgressIssueCode, IssueMessage, RestoreConflict, SeriesMapObservation,
  side_eq, condition_eq, status_eq, info, warning, completed,
}
use rival_hub_broadcast.Series.Score.{add_issue}
use rival_hub_broadcast.Series.Binding.{issue, has_order, map_for_epoch}
use rival_hub_broadcast.Series.Rounds.{
  series_round_history_max, with_history, mark_history_partial, replace_in, has_number,
  set_condition, sides_conflict,
}

unfoldable pub score_total : ObservedScore → Option ℤ
score_total score = elim score.ct [
  | none ↦ none
  | some ct ↦ elim score.t [ none ↦ none | some t ↦ some (ct +ℤ t) ]
]

-- The wins are numbered one by one from the given number.
unfoldable pub numbered_from : ℕ → List ObservedRoundWin → Bool
numbered_from n [] = true
numbered_from n (w ∷ ws) = eqb w.round_number n && numbered_from (n + 1) ws

abbrev is_empty {ℓ} : {A : Type ℓ} → List A → Bool
is_empty [] = true
is_empty (_ ∷ _) = false

unfoldable pub safe_absolute_round_wins : SeriesMapObservation → Bool
safe_absolute_round_wins observation =
    (if is_empty observation.round_wins then false else true)
    && score_total observation.score == some (pos (length observation.round_wins))
    && numbered_from 1 observation.round_wins

-- The variables of the loop of `reconcileRoundWins`.
pub record Reconciled : Type 0 where
  pub rounds : List SeriesRoundResult
  pub changed : Bool
  pub conflict : Bool

unfoldable pub reconcile_win : Bool → ObservedRoundWin → Reconciled → Reconciled
reconcile_win direct win s = elim (find (has_number win.round_number) s.rounds) [
  | none ↦
      if direct
      then record s {
        rounds =
            s.rounds
            ++ record {
              round_number = win.round_number;
              winner_side = win.winner_side;
              winner_entry_id = none;
              win_condition = win.win_condition;
            }
              ∷ [];
        changed = true;
      }
      else s
  | some existing ↦
      if sides_conflict existing.winner_side win.winner_side
      then record s { conflict = true }
      else if existing.win_condition == RoundWinCondition.unknown
          && win.win_condition != RoundWinCondition.unknown
      then record s {
        rounds = set_condition win.round_number win.win_condition s.rounds;
        changed = true;
      }
      else s
]

unfoldable pub reconcile_wins : Bool → List ObservedRoundWin → Reconciled → Reconciled
reconcile_wins direct [] s = s
reconcile_wins direct (w ∷ ws) s = reconcile_wins direct ws (reconcile_win direct w s)

-- What follows the loop.
unfoldable pub finish_reconcile :
    SeriesProgress → SeriesMapProgress → ℕ → Bool → Reconciled → SeriesProgress
finish_reconcile progress m epoch direct s =
    let next = if s.changed then replace_in progress (with_history m s.rounds) else progress in
    if s.conflict
    then mark_history_partial next m.map_order epoch IssueMessage.round_wins_conflict warning
    else if not direct
    then mark_history_partial next m.map_order epoch IssueMessage.round_wins_not_absolute info
    else if not s.changed
    then progress
    else if ltb series_round_history_max (length s.rounds)
    then add_issue next (
        issue SeriesProgressIssueCode.round_history_cap warning IssueMessage.history_over_cap
          (some m.map_order) (some epoch))
    else next

unfoldable pub reconcile_round_wins : SeriesProgress → SeriesMapObservation → SeriesProgress
reconcile_round_wins progress observation = elim (map_for_epoch progress observation.map_epoch) [
  | none ↦ progress
  | some m ↦
      if is_empty observation.round_wins
      then progress
      else (let direct = safe_absolute_round_wins observation in
          finish_reconcile progress m observation.map_epoch direct (
            reconcile_wins direct observation.round_wins
              (record { rounds = m.round_history.rounds; changed = false; conflict = false })))
]

unfoldable pub max_round : List SeriesRoundResult → ℕ
max_round [] = 0
max_round (r ∷ rs) = max r.round_number (max_round rs)

-- `Math.max` of the numbers of the wins, null for none.
unfoldable pub snapshot_max_round : List ObservedRoundWin → Option ℕ
snapshot_max_round [] = none
snapshot_max_round (w ∷ ws) = elim (snapshot_max_round ws) [
  | none ↦ some w.round_number
  | some n ↦ some (max w.round_number n)
]

abbrev when {ℓ} : {A : Type ℓ} → Bool → A → List A
when test a = if test then a ∷ [] else []

abbrev compared {ℓ} : {A : Type ℓ} → Option ℤ → (ℤ → Bool) → (ℤ → A) → List A
compared none test found = []
compared (some n) test found = when (test n) (found n)

-- The conflicts of a snapshot's highest round.
unfoldable pub snapshot_conflicts :
    Option ℕ → ℕ → SeriesMapObservation → Option ℤ → List RestoreConflict
snapshot_conflicts none history_max observation total = []
snapshot_conflicts (some top) history_max observation total =
    compared observation.round_number (λ n. int_ltb n (pos top))
      (RestoreConflict.round_wins_after_round top)
    ++ (compared total (λ n. pos (length observation.round_wins) != n)
          (RestoreConflict.round_wins_count_off (length observation.round_wins))
        ++ when (ltb top history_max) (RestoreConflict.history_after_round_wins history_max top))

-- The checkpoint's final score against the observed total.
unfoldable pub final_conflict : SeriesMapProgress → Option ℤ → List RestoreConflict
final_conflict m total = elim m.final_score [
  | none ↦ []
  | some final ↦
      if m.status == completed
      then compared total (λ n. pos (final.a + final.b) != n) (λ n. RestoreConflict.final_score_off)
      else []
]

unfoldable pub restore_conflicts : SeriesMapProgress → SeriesMapObservation → List RestoreConflict
restore_conflicts m observation =
    let history_max = max_round m.round_history.rounds in
    let count = length m.round_history.rounds in
    let total = score_total observation.score in
    compared observation.round_number (λ n. int_ltb n (pos history_max))
      (RestoreConflict.history_after_round history_max)
    ++ (compared total (λ n. int_ltb n (pos count))
          (RestoreConflict.history_longer_than_score count)
        ++ (snapshot_conflicts (snapshot_max_round observation.round_wins) history_max observation
              total
            ++ final_conflict m total))

-- The map that a restored observation is about: the current one by its name, or that of its epoch.
unfoldable pub restored_map : SeriesProgress → SeriesMapObservation → Option SeriesMapProgress
restored_map progress observation =
    let named : Option SeriesMapProgress = elim progress.current_map_order [
      | none ↦ none
      | some order ↦
          find
            (λ m. has_order order m && elim observation.map_name [
              | none ↦ false
              | some name ↦ m.map_name == canonical_map_name name
            ])
            progress.maps
    ] in
    elim named [ some m ↦ some m | none ↦ map_for_epoch progress observation.map_epoch ]

unfoldable pub report_restored :
    SeriesProgress → SeriesMapProgress → ℕ → List RestoreConflict → SeriesProgress
report_restored progress m epoch [] = progress
report_restored progress m epoch (c ∷ cs) =
    mark_history_partial progress m.map_order epoch (IssueMessage.restore_mismatch (c ∷ cs)) warning

unfoldable pub reconcile_restored_state : SeriesProgress → SeriesMapObservation → SeriesProgress
reconcile_restored_state progress observation = elim (restored_map progress observation) [
  | none ↦ progress
  | some m ↦
      if is_empty m.round_history.rounds
      then progress
      else report_restored progress m observation.map_epoch (restore_conflicts m observation)
]
