-- ===== src/Series/Frozen/Rounds.antt =====
-- Recording and reconciling rounds keeps the plan and the results of closed maps.
use rival_hub_broadcast.Prelude.{
  ℕ, Bool, true, false, not, ◌≡◌, Option, some, List, [], ◌∷◌, inl, inr, ltb, length, Option-cases,
  find, if◌then◌else◌, nat_eq, string_eq, option_eq,
}
use rival_hub_broadcast.Series.Types.{
  SeriesProgress, SeriesMapProgress, SeriesMapObservation, SeriesRoundResult, RoundEnded,
  SeriesSideProof, RestoreConflict, status_eq,
}
use rival_hub_broadcast.Series.Binding.{map_for_epoch}
use rival_hub_broadcast.Series.Rounds.{
  commit_rounds, confirm_round, record_round, add_round, absolute_round, has_number,
  series_round_history_max, sides_conflict,
}
use rival_hub_broadcast.Series.Reconcile.{
  Reconciled, finish_reconcile, reconcile_round_wins, reconcile_restored_state, report_restored,
  restore_conflicts, restored_map,
}
use rival_hub_broadcast.Series.Frozen.Relation.{Unique, Extends, Extends-refl, Extends-trans}
use rival_hub_broadcast.Series.Frozen.Steps.{
  add_issue-Extends, add_issue-after, with_history-Extends, mark_history_partial-Extends,
}

pub Extends-if :
    (p x y : SeriesProgress) (b : Bool) → Extends p x → Extends p y → Extends p (if b then x else y)
Extends-if p x y true h k = h
Extends-if p x y false h k = k

commit_rounds-Extends :
    (p : SeriesProgress) (m : SeriesMapProgress) (epoch : ℕ) (rounds : List SeriesRoundResult)
    (proven : Bool)
    → Unique p.maps
    → map_for_epoch p epoch ≡ some m
    → Extends p (commit_rounds p m epoch rounds proven)
unfolding commit_rounds
commit_rounds-Extends p m epoch rounds proven u e =
    let stored = with_history-Extends p epoch m rounds u e in
    let capped =
      Extends-if p _ _ (ltb series_round_history_max (length rounds)) (add_issue-after p _ _ stored)
        stored in
    Extends-if p _ _ proven capped (add_issue-after p _ _ capped)

confirm_round-Extends :
    (p : SeriesProgress) (m : SeriesMapProgress) (event : RoundEnded) (n : ℕ) (proven : Bool)
    (existing : SeriesRoundResult)
    → Unique p.maps
    → map_for_epoch p event.map_epoch ≡ some m
    → Extends p (confirm_round p m event n proven existing)
unfolding confirm_round
confirm_round-Extends p m event n proven existing u e =
    Extends-if p _ _ (sides_conflict existing.winner_side event.winner_side) (add_issue-Extends p _)
      (Extends-if p _ _ _ (Extends-refl p) (commit_rounds-Extends p m event.map_epoch _ proven u e))

record_round-Extends :
    (p : SeriesProgress) (m : SeriesMapProgress) (event : RoundEnded)
    (proof : Option SeriesSideProof) (n : ℕ)
    → Unique p.maps
    → map_for_epoch p event.map_epoch ≡ some m
    → Extends p (record_round p m event proof n)
unfolding record_round
record_round-Extends p m event proof n u e =
    elim (Option-cases (find (has_number n) m.round_history.rounds)) [
      | inl fresh ↦ rw (fresh, record_round) (commit_rounds-Extends p m event.map_epoch _ _ u e)
      | inr (r, old) ↦ rw (old, record_round) (confirm_round-Extends p m event n _ r u e)
    ]

pub add_round-Extends :
    (p : SeriesProgress) (event : RoundEnded) (proof : Option SeriesSideProof)
    → Unique p.maps
    → Extends p (add_round p event proof)
unfolding add_round
add_round-Extends p event proof u = elim (Option-cases (map_for_epoch p event.map_epoch)) [
  | inl e ↦ rw (e, add_round) (Extends-refl p)
  | inr (m, e) ↦
      rw (e, add_round)
        (elim (Option-cases (absolute_round event.round_number)) [
          | inl bad ↦ rw (bad, add_round) (add_issue-Extends p _)
          | inr (n, number) ↦ rw (number, add_round) (record_round-Extends p m event proof n u e)
        ])
]

finish_reconcile-Extends :
    (p : SeriesProgress) (m : SeriesMapProgress) (epoch : ℕ) (direct : Bool) (s : Reconciled)
    → Unique p.maps
    → map_for_epoch p epoch ≡ some m
    → Extends p (finish_reconcile p m epoch direct s)
unfolding finish_reconcile
finish_reconcile-Extends p m epoch direct s u e =
    let next =
      Extends-if p _ _ s.changed (with_history-Extends p epoch m s.rounds u e) (Extends-refl p) in
    Extends-if p _ _ s.conflict
      (Extends-trans p _ _ next (mark_history_partial-Extends _ m.map_order epoch _ _))
      (Extends-if p _ _ (not direct)
        (Extends-trans p _ _ next (mark_history_partial-Extends _ m.map_order epoch _ _))
        (Extends-if p _ _ (not s.changed) (Extends-refl p) (
          Extends-if p _ _ (ltb series_round_history_max (length s.rounds))
            (add_issue-after p _ _ next) next)))

pub reconcile_round_wins-Extends :
    (p : SeriesProgress) (o : SeriesMapObservation)
    → Unique p.maps
    → Extends p (reconcile_round_wins p o)
unfolding reconcile_round_wins
reconcile_round_wins-Extends p o u = elim (Option-cases (map_for_epoch p o.map_epoch)) [
  | inl e ↦ rw (e, reconcile_round_wins) (Extends-refl p)
  | inr (m, e) ↦
      rw (e, reconcile_round_wins)
        (Extends-if p _ _ _ (Extends-refl p) (finish_reconcile-Extends p m o.map_epoch _ _ u e))
]

report_restored-Extends :
    (p : SeriesProgress) (m : SeriesMapProgress) (epoch : ℕ) (cs : List RestoreConflict)
    → Extends p (report_restored p m epoch cs)
unfolding report_restored
report_restored-Extends p m epoch [] = Extends-refl p
report_restored-Extends p m epoch (c ∷ cs) = mark_history_partial-Extends p m.map_order epoch _ _

pub reconcile_restored_state-Extends :
    (p : SeriesProgress) (o : SeriesMapObservation) → Extends p (reconcile_restored_state p o)
unfolding reconcile_restored_state
reconcile_restored_state-Extends p o = elim (Option-cases (restored_map p o)) [
  | inl e ↦ rw (e, reconcile_restored_state) (Extends-refl p)
  | inr (m, e) ↦
      rw (e, reconcile_restored_state)
        (Extends-if p _ _ _ (Extends-refl p)
          (report_restored-Extends p m o.map_epoch (restore_conflicts m o)))
]
