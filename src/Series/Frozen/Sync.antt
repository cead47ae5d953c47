-- ===== src/Series/Frozen/Sync.antt =====
-- The whole reduction keeps the plan and the results of closed maps.
use rival_hub_broadcast.Prelude.{
  ℕ, Bool, true, false, ◌≡◌, refl, Option, none, some, List, [], ◌∷◌, inl, inr, Option-cases,
  String, ◌==◌, nat_eq, string_eq, option_eq,
}
use rival_hub_broadcast.Series.Types.{
  SeriesProgress, SeriesMapProgress, SeriesMapObservation, SeriesSideProof, Score, MapEnded,
  SeriesProgressEvent, SeriesProgressSyncInput, map_execution_changed, round_ended, map_ended,
  operator_map_bind, status_eq, completed,
}
use rival_hub_broadcast.Series.Binding.{map_for_epoch}
use rival_hub_broadcast.Series.Sync.{
  complete_map, end_by_proof, end_map, complete_score, apply_event, apply_events, restore_observed,
  apply_observation, sync_progress, event_from_transition, is_for,
}
use rival_hub_broadcast.Series.Frozen.Relation.{
  KeepsAll-refl, Unique, Extends, Extends-refl, Extends-trans, Extends-Unique,
}
use rival_hub_broadcast.Series.Frozen.Steps.{
  add_issue-Extends, replace_in-Extends, recompute_score-Extends, map_for_epoch-open,
}
use rival_hub_broadcast.Series.Frozen.Binding.{
  ensure_binding-Extends, apply_map_execution_change-Extends, apply_operator_bind-Extends,
}
use rival_hub_broadcast.Series.Frozen.Rounds.{
  Extends-if, add_round-Extends, reconcile_round_wins-Extends, reconcile_restored_state-Extends,
}

complete_map-Extends :
    (p : SeriesProgress) (m : SeriesMapProgress) (epoch : ℕ) (final : Score)
    (winner : Option String)
    → Unique p.maps
    → map_for_epoch p epoch ≡ some m
    → Extends p (complete_map p m epoch final winner)
unfolding complete_map map_for_epoch
complete_map-Extends p m epoch final none u e = add_issue-Extends p _
complete_map-Extends p m epoch final (some winner) u e =
    recompute_score-Extends p _
      (replace_in-Extends p _ m _ u e (map_for_epoch-open p epoch m e) refl
        (λ s. record { history = s.history; scored = λ h. λ k. cc })).maps

end_by_proof-Extends :
    (p : SeriesProgress) (m : SeriesMapProgress) (event : MapEnded) (proof : Option SeriesSideProof)
    (sides : ℕ × ℕ)
    → Unique p.maps
    → map_for_epoch p event.map_epoch ≡ some m
    → Extends p (end_by_proof p m event proof sides)
unfolding end_by_proof
end_by_proof-Extends p m event none sides u e = add_issue-Extends p _
end_by_proof-Extends p m event (some proof) sides u e =
    Extends-if p _ _ _ (complete_map-Extends p m event.map_epoch _ _ u e) (add_issue-Extends p _)

pub end_map-Extends :
    (p : SeriesProgress) (event : MapEnded) (proof : Option SeriesSideProof)
    → Unique p.maps
    → Extends p (end_map p event proof)
unfolding end_map
end_map-Extends p event proof u = elim (Option-cases (map_for_epoch p event.map_epoch)) [
  | inl e ↦ rw (e, end_map) (Extends-refl p)
  | inr (m, e) ↦
      rw (e, end_map)
        (Extends-if p _ _ (m.status == completed) (Extends-refl p)
          (elim (Option-cases (complete_score event.final_score)) [
            | inl bad ↦ rw (bad, end_map) (add_issue-Extends p _)
            | inr (sides, s) ↦ rw (s, end_map) (end_by_proof-Extends p m event proof sides u e)
          ]))
]

module _ (o : Option SeriesMapObservation) (proof : Option SeriesSideProof) where
  pub apply_event-Extends :
      (p : SeriesProgress) (event : SeriesProgressEvent)
      → Unique p.maps
      → Extends p (apply_event o proof p event)
  unfolding apply_event
  apply_event-Extends p (map_execution_changed event) u =
      apply_map_execution_change-Extends p event u
  apply_event-Extends p (round_ended event) u = add_round-Extends p event proof u
  apply_event-Extends p (map_ended event) u = end_map-Extends p event proof u
  apply_event-Extends p (operator_map_bind event) u =
      Extends-if p _ _ (is_for event o) (apply_operator_bind-Extends p event u)
        (add_issue-Extends p _)

  apply_events-Extends :
      (p : SeriesProgress) (events : List SeriesProgressEvent)
      → Unique p.maps
      → Extends p (apply_events o proof p events)
  unfolding apply_events
  apply_events-Extends p [] u = Extends-refl p
  apply_events-Extends p (e ∷ es) u =
      let one = apply_event-Extends p (event_from_transition e o) u in
      Extends-trans p _ _ one (
        apply_events-Extends (apply_event o proof p (event_from_transition e o)) es
          (Extends-Unique p _ one u))

restore_observed-Extends :
    (restore : Bool) (o : Option SeriesMapObservation) (p : SeriesProgress)
    → Extends p (restore_observed restore o p)
unfolding restore_observed
restore_observed-Extends true (some o) p = reconcile_restored_state-Extends p o
restore_observed-Extends true none p = Extends-refl p
restore_observed-Extends false o p = Extends-refl p

apply_observation-Extends :
    (o : Option SeriesMapObservation) (proof : Option SeriesSideProof) (p : SeriesProgress)
    → Unique p.maps
    → Extends p (apply_observation o proof p)
unfolding apply_observation
apply_observation-Extends none proof p u = Extends-refl p
apply_observation-Extends (some o) proof p u =
    let wins = reconcile_round_wins-Extends p o u in
    Extends-if p _ _ o.map_ended
      (Extends-trans p _ _ wins (end_map-Extends _ _ proof (Extends-Unique p _ wins u))) wins

-- One reduction never changes the match, its entrants, the planned maps and their order, nor the
-- status, final score or winner of a map that is completed or not played, whatever the events, the
-- observation and the side proof are; the maps must have distinct orders.
pub sync_progress-Extends :
    (p : SeriesProgress) (input : SeriesProgressSyncInput)
    → Unique p.maps
    → Extends p (sync_progress p input)
unfolding sync_progress
sync_progress-Extends p input u =
    let bound = ensure_binding-Extends p input.observation u in
    let restored =
      Extends-trans p _ _ bound (restore_observed-Extends input.restore input.observation _) in
    let applied = Extends-trans p _ _ restored (
      apply_events-Extends input.observation input.side_proof _ input.events
        (Extends-Unique p _ restored u)) in
    let next = Extends-trans p _ _ applied (
      apply_observation-Extends input.observation input.side_proof _
        (Extends-Unique p _ applied u)) in
    Extends-trans p _ _ next (recompute_score-Extends _ _ (KeepsAll-refl _))
