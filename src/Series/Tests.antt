-- ===== src/Series/Tests.antt =====
-- A series run on concrete inputs, and the theorems at them.
use rival_hub_broadcast.Prelude.{
  ℕ, pos, Bool, true, false, ◌≡◌, ◌≢◌, ◌↔◌, refl, ap, Option, none, some, List, [], ◌∷◌, map,
  String, arith, All, length,
}
use rival_hub_broadcast.Prelude.Text.{trim, to_lower, collapse_spaces, is_blank}
use rival_hub_broadcast.MapName.{canonical_map_name}
use rival_hub_broadcast.Series.Types.{
  MatchContext, MatchMapContext, MatchEntrantContext, SeriesProgress, SeriesMapProgress,
  SeriesRoundResult, SeriesProgressSyncInput, SeriesMapObservation, SeriesSideProof, MapEnded,
  RoundEnded, SeriesMapStatus, SourceSide, bo3, map_ended, round_ended, elimination, completed,
  current, pending, not_played, complete, issue_code_discrete, veto_action_discrete,
}
use rival_hub_broadcast.Series.Score.{
  add_issue, is_duplicate_issue, winner_for_score, count_map, count_from, score_from_completed_maps,
  is_playable, close_map, is_decided, apply_series_completion, recompute_score,
}
use rival_hub_broadcast.Series.Create.{
  is_decider_of, selection_for, both_scores, final_score_from_context, initial_map_status, plan_le,
  initial_map, initial_maps, create_series_progress,
}
use rival_hub_broadcast.Series.Binding.{
  next_playable_map, make_current, set_current_map, map_for_epoch, map_of_order,
  has_operator_binding, is_settled, is_held_by_operator, bind_candidates, bind_observed,
  ensure_binding, reset_map, reset_found, reset_order, reset_current_map,
  apply_map_execution_change, is_target, can_operator_bind, apply_operator_bind,
}
use rival_hub_broadcast.Series.Rounds.{
  valid_side_proof, entrant_for_side, follows, completeness_of, history_completeness, with_history,
  make_partial, mark_history_partial, absolute_round, round_winner, set_condition, sides_conflict,
  commit_rounds, confirm_round, record_round, add_round, sort_rounds,
}
use rival_hub_broadcast.Series.Reconcile.{
  score_total, numbered_from, safe_absolute_round_wins, reconcile_win, reconcile_wins,
  finish_reconcile, reconcile_round_wins,
}
use rival_hub_broadcast.Series.Sync.{
  complete_score, score_by_proof, complete_map, end_by_proof, end_map, with_known_condition,
  event_from_transition, is_for, apply_event, apply_events, restore_observed, apply_observation,
  sync_progress,
}
use rival_hub_broadcast.Series.Frozen.Relation.{Extends}
use rival_hub_broadcast.Series.Frozen.Sync.{sync_progress-Extends}
use rival_hub_broadcast.Series.History.{numbers, range, history_completeness_iff}
use rival_hub_broadcast.Series.MapResult.{IsProven, end_map-needs_proof}
use rival_hub_broadcast.Series.Invariant.{
  IsConsistent, sync_progress-IsConsistent, create_series_progress-IsConsistent,
}
use rival_hub_broadcast.Series.Monotone.{
  ◌⊑◌, outcome, sync_progress-score_mono, sync_progress-decided,
}

-- What a test computes with.
series : Unit {0}
unfolding add_issue is_duplicate_issue winner_for_score count_map count_from
    score_from_completed_maps is_playable close_map is_decided apply_series_completion
    recompute_score is_decider_of selection_for both_scores final_score_from_context
    initial_map_status plan_le initial_map initial_maps create_series_progress next_playable_map
    make_current set_current_map map_for_epoch map_of_order has_operator_binding is_settled
    is_held_by_operator bind_candidates bind_observed ensure_binding reset_map reset_found
    reset_order reset_current_map apply_map_execution_change is_target can_operator_bind
    apply_operator_bind valid_side_proof entrant_for_side follows completeness_of
    history_completeness with_history make_partial mark_history_partial absolute_round round_winner
    set_condition sides_conflict commit_rounds confirm_round record_round add_round score_total
    numbered_from safe_absolute_round_wins reconcile_win reconcile_wins finish_reconcile
    reconcile_round_wins complete_score score_by_proof complete_map end_by_proof end_map
    with_known_condition event_from_transition is_for apply_event apply_events restore_observed
    apply_observation sync_progress canonical_map_name trim to_lower collapse_spaces is_blank
    issue_code_discrete veto_action_discrete
series = tt

abbrev team : String → MatchEntrantContext
team id = record { entry_id = id; name = id; logo_url = none; players = [] }

abbrev planned : String → ℕ → String → Option ℕ → Option ℕ → MatchMapContext
planned id order name a b = record {
  map_id = id;
  map_order = order;
  map_name = name;
  picked_by_entry_id = none;
  team_a_start_side = none;
  score_a = a;
  score_b = b;
}

-- A best of three whose first map entrant a has won; the plan is listed out of order.
abbrev match : MatchContext
match = record {
  match_id = "m1";
  format = bo3;
  entrant_a = team "A";
  entrant_b = team "B";
  maps =
      planned "x" 2 "Mirage" none none
      ∷ planned "w" 1 "de_nuke" (some 13) (some 7)
      ∷ planned "y" 3 "Dust II" none none
      ∷ [];
  veto = [];
}

abbrev id_le : String → String → Bool
id_le x y = true

abbrev seen : String → ℕ → SeriesMapObservation
seen name epoch = record {
  source_generation = 0;
  map_epoch = epoch;
  map_name = some name;
  map_ended = false;
  round_number = none;
  score = record { ct = none; t = none };
  round_wins = [];
}

abbrev proof : SeriesSideProof
proof = record { source_generation = 0; map_epoch = 2; a = SourceSide.ct; b = SourceSide.t }

abbrev first_round : RoundEnded
first_round = record {
  source_generation = 0;
  map_epoch = 2;
  round_number = some (pos 1);
  winner_side = SourceSide.ct;
  win_condition = elimination;
}

abbrev final : MapEnded
final = record {
  source_generation = 0;
  map_epoch = 2;
  final_score = record { ct = some (pos 13); t = some (pos 9) };
}

-- Mirage is entered, a round is won by CT, and the map ends 13 to 9 for the side of entrant a.
abbrev played : SeriesProgressSyncInput
played = record {
  events = round_ended first_round ∷ [];
  observation = some (seen "de_mirage" 2);
  side_proof = some proof;
  restore = false;
}

abbrev ended : SeriesProgressSyncInput
ended = record {
  events = map_ended final ∷ [];
  observation = some (seen "mirage" 2);
  side_proof = some proof;
  restore = false;
}

start : SeriesProgress
unfolding series
start = create_series_progress id_le match

live : SeriesProgress
unfolding series start
live = sync_progress start played

over : SeriesProgress
unfolding series live
over = sync_progress live ended

summary : SeriesProgress → List (ℕ × SeriesMapStatus)
summary p = map (λ m. (m.map_order, m.status)) p.maps

series_runs :
    (summary start ≡ (1, completed) ∷ (2, pending) ∷ (3, pending) ∷ [])
    × (summary live ≡ (1, completed) ∷ (2, current) ∷ (3, pending) ∷ [])
    × (summary over ≡ (1, completed) ∷ (2, completed) ∷ (3, not_played) ∷ [])
    × (over.score ≡ record { a = 2; b = 0 })
unfolding summary over
series_runs = (refl, refl, refl, refl)

start-IsConsistent : IsConsistent start
unfolding start
start-IsConsistent = create_series_progress-IsConsistent id_le match (omega arith)

live-IsConsistent : IsConsistent live
unfolding live
live-IsConsistent = sync_progress-IsConsistent start played start-IsConsistent

over-IsConsistent : IsConsistent over
unfolding over
over-IsConsistent = sync_progress-IsConsistent live ended live-IsConsistent

sync_progress-IsConsistent_example : IsConsistent (sync_progress live ended)
sync_progress-IsConsistent_example = sync_progress-IsConsistent live ended live-IsConsistent

sync_progress-Extends_example : Extends live (sync_progress live ended)
sync_progress-Extends_example = sync_progress-Extends live ended live-IsConsistent.unique

sync_progress-score_mono_example : live.score ⊑ (sync_progress live ended).score
sync_progress-score_mono_example = sync_progress-score_mono live ended live-IsConsistent

over_decided : is_decided over ≡ true
unfolding over
over_decided = refl

sync_progress-decided_example :
    ((sync_progress over played).score ≡ over.score)
    × (map outcome (sync_progress over played).maps ≡ map outcome over.maps)
    × ((sync_progress over played).current_map_order ≡ none)
sync_progress-decided_example = sync_progress-decided over played over-IsConsistent over_decided

statuses : List SeriesMapProgress → List SeriesMapStatus
statuses = map (λ m. m.status)

final_changes : (end_map live final (some proof)).maps ≢ live.maps
unfolding live statuses
final_changes e = cc (ap statuses e)

end_map-needs_proof_example : IsProven live final (some proof)
end_map-needs_proof_example = end_map-needs_proof live final (some proof) final_changes

second : List SeriesMapProgress → SeriesMapProgress → SeriesMapProgress
second (_ ∷ m ∷ _) other = m
second _ other = other

-- Mirage, as it is held before its end.
running_map : SeriesMapProgress
unfolding live second initial_map
running_map = second live.maps (initial_map match (planned "" 0 "" none none))

abbrev won : ℕ → SeriesRoundResult
won n = record {
  round_number = n;
  winner_side = SourceSide.ct;
  winner_entry_id = none;
  win_condition = elimination;
}

history_completeness_iff_example : (history_completeness (won 2 ∷ won 1 ∷ []) ≡ complete) ↔ (
    (sort_rounds (won 2 ∷ won 1 ∷ []) ≢ [])
    × (numbers (sort_rounds (won 2 ∷ won 1 ∷ []))
        ≡ range 1 (length (sort_rounds (won 2 ∷ won 1 ∷ []))))
    × All (λ r. r.winner_side ≢ SourceSide.unknown) (sort_rounds (won 2 ∷ won 1 ∷ [])))
history_completeness_iff_example = history_completeness_iff (won 2 ∷ won 1 ∷ [])
