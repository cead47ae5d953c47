-- ===== src/Series/Sync.antt =====
-- packages/core/src/series-progress/reducer.ts: the end of a map, and the whole reduction.
use rival_hub_broadcast.Prelude.{
  ℕ, pos, Bool, true, false, ◌&&◌, Option, none, some, List, [], ◌∷◌, map, String, ◌==◌, ◌!=◌,
  int_eq, option_eq, nat_eq, if◌then◌else◌, find,
}
use rival_hub_broadcast.Series.Types.{
  SourceSide, RoundWinCondition, ObservedRoundWin, ObservedScore, SeriesProgress, SeriesMapProgress,
  SeriesProgressIssueCode, IssueMessage, SeriesMapObservation, SeriesSideProof, Score, RoundEnded,
  MapEnded, OperatorMapBind, SeriesProgressEvent, SeriesProgressSyncInput, side_eq, condition_eq,
  status_eq, error, warning, completed, map_execution_changed, round_ended, map_ended,
  operator_map_bind, progress_discrete,
}
use rival_hub_broadcast.Series.Score.{add_issue, winner_for_score, recompute_score}
use rival_hub_broadcast.Series.Binding.{
  issue, map_for_epoch, ensure_binding, apply_map_execution_change, apply_operator_bind,
}
use rival_hub_broadcast.Series.Rounds.{valid_side_proof, replace_map, add_round}
use rival_hub_broadcast.Series.Reconcile.{reconcile_round_wins, reconcile_restored_state}

-- The score of an ended map by sides: both known and neither negative.
unfoldable pub complete_score : ObservedScore → Option (ℕ × ℕ)
complete_score score = elim score.ct [
  | some (pos ct) ↦ elim score.t [ some (pos t) ↦ some (ct, t) | _ ↦ none ]
  | _ ↦ none
]

unfoldable pub score_by_proof : SeriesSideProof → ℕ × ℕ → Score
score_by_proof proof (ct, t) =
    if proof.a == SourceSide.ct then record { a = ct; b = t } else record { a = t; b = ct }

unfoldable pub complete_map :
    SeriesProgress → SeriesMapProgress → ℕ → Score → Option String → SeriesProgress
complete_map progress m epoch final none = add_issue progress (
    issue SeriesProgressIssueCode.final_score_conflict error IssueMessage.no_unique_winner
      (some m.map_order) (some epoch))
complete_map progress m epoch final (some winner) =
    let next = record m {
      status = completed;
      final_score = some final;
      winner_entry_id = some winner;
    } in
    recompute_score progress (map (replace_map next) progress.maps)

unfoldable pub end_by_proof :
    SeriesProgress → SeriesMapProgress → MapEnded → Option SeriesSideProof → ℕ × ℕ → SeriesProgress
end_by_proof progress m event none sides = add_issue progress (
    issue SeriesProgressIssueCode.side_mapping_unproven error IssueMessage.no_map_side_proof
      (some m.map_order) (some event.map_epoch))
end_by_proof progress m event (some proof) sides =
    if valid_side_proof (some proof) event.source_generation event.map_epoch
    then (let final = score_by_proof proof sides in
        complete_map progress m event.map_epoch final
          (winner_for_score (some final) progress.entrants))
    else add_issue progress (
        issue SeriesProgressIssueCode.side_mapping_unproven error IssueMessage.no_map_side_proof
          (some m.map_order) (some event.map_epoch))

unfoldable pub end_map : SeriesProgress → MapEnded → Option SeriesSideProof → SeriesProgress
end_map progress event side_proof = elim (map_for_epoch progress event.map_epoch) [
  | none ↦ progress
  | some m ↦ if m.status == completed then progress else elim (complete_score event.final_score) [
    | none ↦ add_issue progress (
        issue SeriesProgressIssueCode.final_score_unavailable warning
          IssueMessage.incomplete_final_score (some m.map_order) (some event.map_epoch))
    | some sides ↦ end_by_proof progress m event side_proof sides
  ]
]

unfoldable pub with_known_condition : RoundEnded → Option ObservedRoundWin → RoundEnded
with_known_condition event none = event
with_known_condition event (some win) =
    if event.win_condition != RoundWinCondition.unknown
    then event
    else record event { win_condition = win.win_condition }

unfoldable pub event_from_transition :
    SeriesProgressEvent → Option SeriesMapObservation → SeriesProgressEvent
event_from_transition (round_ended event) (some observation) = round_ended (
    with_known_condition event
      (find (λ w. some (pos w.round_number) == event.round_number) observation.round_wins))
event_from_transition event observation = event

-- The guard on an operator's binding: it is for the observed execution.
unfoldable pub is_for : OperatorMapBind → Option SeriesMapObservation → Bool
is_for event none = false
is_for event (some observation) =
    event.source_generation == observation.source_generation
    && event.map_epoch == observation.map_epoch

-- One round of the loop over the events.
unfoldable pub apply_event :
    Option SeriesMapObservation
    → Option SeriesSideProof
    → SeriesProgress
    → SeriesProgressEvent
    → SeriesProgress
apply_event observation side_proof progress (map_execution_changed event) =
    apply_map_execution_change progress event
apply_event observation side_proof progress (round_ended event) =
    add_round progress event side_proof
apply_event observation side_proof progress (map_ended event) = end_map progress event side_proof
apply_event observation side_proof progress (operator_map_bind event) =
    if is_for event observation
    then apply_operator_bind progress event
    else add_issue progress (
        issue SeriesProgressIssueCode.operator_bind_rejected error IssueMessage.bind_not_current
          (some event.map_order) (some event.map_epoch))

unfoldable pub apply_events :
    Option SeriesMapObservation
    → Option SeriesSideProof
    → SeriesProgress
    → List SeriesProgressEvent
    → SeriesProgress
apply_events observation side_proof progress [] = progress
apply_events observation side_proof progress (e ∷ es) =
    apply_events observation side_proof
      (apply_event observation side_proof progress (event_from_transition e observation)) es

unfoldable pub restore_observed :
    Bool → Option SeriesMapObservation → SeriesProgress → SeriesProgress
restore_observed true (some observation) progress = reconcile_restored_state progress observation
restore_observed restore observation progress = progress

-- What follows the loop: the snapshot's round wins and its end of the map.
unfoldable pub apply_observation :
    Option SeriesMapObservation → Option SeriesSideProof → SeriesProgress → SeriesProgress
apply_observation none side_proof progress = progress
apply_observation (some observation) side_proof progress =
    let next = reconcile_round_wins progress observation in
    if observation.map_ended
    then end_map next
        (record {
          source_generation = observation.source_generation;
          map_epoch = observation.map_epoch;
          final_score = observation.score;
        })
        side_proof
    else next

unfoldable pub sync_progress : SeriesProgress → SeriesProgressSyncInput → SeriesProgress
sync_progress progress input =
    let bound = ensure_binding progress input.observation in
    let restored = restore_observed input.restore input.observation bound in
    let applied = apply_events input.observation input.side_proof restored input.events in
    let next = apply_observation input.observation input.side_proof applied in
    recompute_score next next.maps

pub record SeriesProgressReduceResult : Type 0 where
  pub progress : SeriesProgress
  pub changed : Bool

unfoldable pub sync_series_progress :
    SeriesProgress → SeriesProgressSyncInput → SeriesProgressReduceResult
sync_series_progress progress input =
    let next = sync_progress progress input in
    record {
      progress = next;
      changed = elim (progress_discrete progress next) [ yes _ ↦ false | no _ ↦ true ];
    }
