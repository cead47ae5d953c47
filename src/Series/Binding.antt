-- ===== src/Series/Binding.antt =====
-- packages/core/src/series-progress/reducer.ts: which planned map the running map is.
use rival_hub_broadcast.Prelude.{
  ℕ, Bool, true, false, ◌&&◌, ◌||◌, Option, none, some, List, [], ◌∷◌, map, String, ◌==◌, string_eq,
  nat_eq, option_eq, if◌then◌else◌, any, find, select,
}
use rival_hub_broadcast.Prelude.Text.{is_blank, trim}
use rival_hub_broadcast.MapName.{canonical_map_name}
use rival_hub_broadcast.Series.Types.{
  SeriesProgress, SeriesMapProgress, SeriesProgressIssue, SeriesProgressIssueCode, IssueSeverity,
  IssueMessage, SeriesMapObservation, MapExecutionChanged, OperatorMapBind, ResetReason,
  issue_code_eq, status_eq, pending, current, completed, not_played, bound, needs_operator, info,
  warning, error, restore,
}
use rival_hub_broadcast.Series.Score.{add_issue, is_playable, is_decided}
use rival_hub_broadcast.Series.Create.{empty_round_history}

abbrev pub issue :
    SeriesProgressIssueCode
    → IssueSeverity
    → IssueMessage
    → Option ℕ
    → Option ℕ
    → SeriesProgressIssue
issue code severity message order epoch = record {
  code = code;
  severity = severity;
  message = message;
  map_order = order;
  map_epoch = epoch;
}

abbrev pub has_order : ℕ → SeriesMapProgress → Bool
has_order order m = m.map_order == order

unfoldable pub next_playable_map : SeriesProgress → Option SeriesMapProgress
next_playable_map progress = find is_playable progress.maps

-- What `setCurrentMap` makes of one map.
unfoldable pub make_current : ℕ → ℕ → SeriesMapProgress → SeriesMapProgress
make_current order epoch m =
    if has_order order m
    then record m { status = current; execution_map_epoch = some epoch }
    else if m.status == current
    then record m { status = pending }
    else m

unfoldable pub set_current_map : SeriesProgress → ℕ → ℕ → SeriesProgress
set_current_map progress order epoch = record progress {
  maps = map (make_current order epoch) progress.maps;
  current_map_order = some order;
  binding_state = bound;
}

unfoldable pub map_for_epoch : SeriesProgress → ℕ → Option SeriesMapProgress
map_for_epoch progress epoch =
    find (λ m. m.execution_map_epoch == some epoch && m.status == current) progress.maps

-- `progress.maps.find((map) => map.mapOrder === progress.currentMapOrder)`, none for null.
unfoldable pub map_of_order : Option ℕ → List SeriesMapProgress → Option SeriesMapProgress
map_of_order none maps = none
map_of_order (some order) maps = find (has_order order) maps

unfoldable pub has_operator_binding : SeriesProgress → ℕ → Bool
has_operator_binding progress epoch =
    any
      (λ item.
        item.code == SeriesProgressIssueCode.operator_bind_applied
        && item.map_order == progress.current_map_order
        && item.map_epoch == some epoch)
      progress.issues

-- The first early return: the current map is this one, and is finished or in this execution.
unfoldable pub is_settled : Option SeriesMapProgress → String → ℕ → Bool
is_settled none actual epoch = false
is_settled (some m) actual epoch =
    m.map_name == actual
    && (m.status == completed || (m.status == current && m.execution_map_epoch == some epoch))

-- The second early return: the operator has bound this execution.
unfoldable pub is_held_by_operator : Option SeriesMapProgress → Bool → ℕ → Bool
is_held_by_operator none held epoch = false
is_held_by_operator (some m) held epoch = m.execution_map_epoch == some epoch && held

abbrev unbind : SeriesProgress → SeriesProgress
unbind progress = record progress { current_map_order = none; binding_state = needs_operator }

-- The choice among the playable maps of the observed name.
unfoldable pub bind_candidates :
    SeriesProgress → String → ℕ → SeriesMapProgress → List SeriesMapProgress → SeriesProgress
bind_candidates progress actual epoch expected [] = add_issue (unbind progress) (
    issue SeriesProgressIssueCode.map_mismatch error (IssueMessage.not_in_plan actual) none
      (some epoch))
bind_candidates progress actual epoch expected (candidate ∷ []) =
    if candidate.map_order == expected.map_order
    then set_current_map progress candidate.map_order epoch
    else add_issue (unbind progress) (
        issue SeriesProgressIssueCode.map_order_exception error
          (IssueMessage.skips_planned_map actual) (some candidate.map_order) (some epoch))
bind_candidates progress actual epoch expected (_ ∷ _ ∷ _) = add_issue (unbind progress) (
    issue SeriesProgressIssueCode.map_ambiguous error (IssueMessage.several_slots actual) none
      (some epoch))

unfoldable pub bind_observed : SeriesProgress → String → ℕ → SeriesProgress
bind_observed progress actual epoch =
    let bound_map = map_of_order progress.current_map_order progress.maps in
    if is_settled bound_map actual epoch
      || is_held_by_operator bound_map (has_operator_binding progress epoch) epoch
    then progress
    else elim (next_playable_map progress) [
      | none ↦ add_issue progress (
          issue SeriesProgressIssueCode.map_unbound warning IssueMessage.no_playable_slot none
            (some epoch))
      | some expected ↦
          bind_candidates progress actual epoch expected
            (select (λ m. is_playable m && m.map_name == actual) progress.maps)
    ]

unfoldable pub ensure_binding : SeriesProgress → Option SeriesMapObservation → SeriesProgress
ensure_binding progress none = progress
ensure_binding progress (some observation) = elim observation.map_name [
  | none ↦ progress
  | some name ↦
      if is_decided progress
      then progress
      else bind_observed progress (canonical_map_name name) observation.map_epoch
]

abbrev pub is_closed : SeriesMapProgress → Bool
is_closed m = m.status == completed || m.status == not_played

unfoldable pub reset_map : ℕ → ℕ → SeriesMapProgress → SeriesMapProgress
reset_map order epoch m =
    if has_order order m
    then record m {
      status = current;
      execution_map_epoch = some epoch;
      final_score = none;
      winner_entry_id = none;
      round_history = empty_round_history;
    }
    else m

-- `resetCurrentMap`, once its current map is found.
unfoldable pub reset_found : SeriesProgress → ℕ → ℕ → Option SeriesMapProgress → SeriesProgress
reset_found progress order epoch none = progress
reset_found progress order epoch (some m) =
    if is_closed m
    then progress
    else record progress { maps = map (reset_map order epoch) progress.maps; binding_state = bound }

unfoldable pub reset_order : SeriesProgress → ℕ → Option ℕ → SeriesProgress
reset_order progress epoch none = progress
reset_order progress epoch (some order) =
    reset_found progress order epoch (find (has_order order) progress.maps)

unfoldable pub reset_current_map :
    SeriesProgress → MapExecutionChanged → ResetReason → SeriesProgress
reset_current_map progress event restore = progress
reset_current_map progress event _ = reset_order progress event.map_epoch progress.current_map_order

unfoldable pub apply_map_execution_change : SeriesProgress → MapExecutionChanged → SeriesProgress
apply_map_execution_change progress event = elim event.reset_reason [
  | some reason ↦ reset_current_map progress event reason
  | none ↦ ensure_binding progress (
      some (record {
        source_generation = event.source_generation;
        map_epoch = event.map_epoch;
        map_name = event.map_name;
        map_ended = false;
        round_number = none;
        score = record { ct = none; t = none };
        round_wins = [];
      }))
]

-- The guard of `applyOperatorBind`: the target slot is playable.
unfoldable pub is_target : Option SeriesMapProgress → Bool
is_target none = false
is_target (some m) = is_playable m

abbrev is_known : Option String → Bool
is_known none = false
is_known (some _) = true

unfoldable pub can_operator_bind : SeriesProgress → OperatorMapBind → Bool
can_operator_bind progress event =
    is_target (find (has_order event.map_order) progress.maps)
    && is_known event.map_name
    && (if is_blank event.reason then false else true)
    && (if is_decided progress then false else true)

unfoldable pub apply_operator_bind : SeriesProgress → OperatorMapBind → SeriesProgress
apply_operator_bind progress event =
    if can_operator_bind progress event
    then add_issue (set_current_map progress event.map_order event.map_epoch) (
        issue SeriesProgressIssueCode.operator_bind_applied info
          (IssueMessage.bind_done event.map_order (trim event.reason)) (some event.map_order)
          (some event.map_epoch))
    else add_issue progress (
        issue SeriesProgressIssueCode.operator_bind_rejected error IssueMessage.bind_refused
          (some event.map_order) (some event.map_epoch))
