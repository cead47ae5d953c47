-- ===== src/Series/Score.antt =====
-- packages/core/src/series-progress/reducer.ts: issues, the score and the completion of a series.
use rival_hub_broadcast.Prelude.{
  ℕ, ◌+◌, Bool, ◌&&◌, ◌||◌, Option, none, some, List, [], ◌∷◌, ◌++◌, map, String, ◌==◌, ltb, leb,
  eqb, nat_eq, string_eq, option_eq, if◌then◌else◌, any, take_last,
}
use rival_hub_broadcast.Series.Types.{
  SeriesProgress, SeriesProgressIssue, SeriesMapProgress, Score, Entrants, issue_code_eq, status_eq,
  pending, current, completed, not_played, bound,
}

abbrev pub max_series_issues : ℕ
max_series_issues = 64

-- The test of `addIssue` for an entry that says the same.
unfoldable pub is_duplicate_issue : SeriesProgressIssue → SeriesProgressIssue → Bool
is_duplicate_issue next existing =
    existing.code == next.code
    && existing.map_order == next.map_order
    && existing.map_epoch == next.map_epoch

unfoldable pub add_issue : SeriesProgress → SeriesProgressIssue → SeriesProgress
add_issue progress next =
    if any (is_duplicate_issue next) progress.issues
    then progress
    else record progress { issues = take_last max_series_issues (progress.issues ++ next ∷ []) }

unfoldable pub winner_for_score : Option Score → Entrants → Option String
winner_for_score none entrants = none
winner_for_score (some score) entrants =
    if eqb score.a score.b
    then none
    else if ltb score.b score.a
    then some entrants.a.entry_id
    else some entrants.b.entry_id

-- One round of the loop of `scoreFromCompletedMaps`.
unfoldable pub count_map : Entrants → SeriesMapProgress → Score → Score
count_map entrants m score =
    if m.status == completed
    then record {
      a = if m.winner_entry_id == some entrants.a.entry_id then score.a + 1 else score.a;
      b = if m.winner_entry_id == some entrants.b.entry_id then score.b + 1 else score.b;
    }
    else score

unfoldable pub count_from : Score → Entrants → List SeriesMapProgress → Score
count_from score entrants [] = score
count_from score entrants (m ∷ ms) = count_from (count_map entrants m score) entrants ms

unfoldable pub score_from_completed_maps : List SeriesMapProgress → Entrants → Score
score_from_completed_maps maps entrants = count_from (record { a = 0; b = 0 }) entrants maps

unfoldable pub is_playable : SeriesMapProgress → Bool
is_playable m = m.status == pending || m.status == current

unfoldable pub close_map : SeriesMapProgress → SeriesMapProgress
close_map m = if is_playable m then record m { status = not_played } else m

unfoldable pub is_decided : SeriesProgress → Bool
is_decided progress =
    leb progress.required_wins progress.score.a || leb progress.required_wins progress.score.b

unfoldable pub apply_series_completion : SeriesProgress → SeriesProgress
apply_series_completion progress =
    if is_decided progress
    then record progress {
      maps = map close_map progress.maps;
      current_map_order = none;
      binding_state = bound;
    }
    else progress

unfoldable pub recompute_score : SeriesProgress → List SeriesMapProgress → SeriesProgress
recompute_score progress maps =
    apply_series_completion
      (record progress { maps = maps; score = score_from_completed_maps maps progress.entrants })
