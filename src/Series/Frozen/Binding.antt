-- ===== src/Series/Frozen/Binding.antt =====
-- Binding a map of a series keeps the plan and the results of closed maps.
use rival_hub_broadcast.Prelude.{
  ℕ, true, ◌||◌, ◌≡◌, refl, Option, none, some, arith, inl, inr, Bool-cases, Option-cases, find,
  find-true, String, nat_eq, string_eq, option_eq,
}
use rival_hub_broadcast.MapName.{canonical_map_name}
use rival_hub_broadcast.Series.Types.{
  SeriesProgress, SeriesMapProgress, SeriesMapObservation, MapExecutionChanged, OperatorMapBind,
  ResetReason, status_eq, restore,
}
use rival_hub_broadcast.Series.Score.{is_playable, is_decided}
use rival_hub_broadcast.Series.Binding.{
  map_of_order, bind_observed, is_settled, is_held_by_operator, has_operator_binding,
  ensure_binding, reset_order, reset_found, reset_current_map, apply_map_execution_change,
  is_target, can_operator_bind, apply_operator_bind, has_order, is_closed, next_playable_map,
}
use rival_hub_broadcast.Series.Frozen.Relation.{Unique, Extends, Extends-refl}
use rival_hub_broadcast.Series.Frozen.Steps.{
  add_issue-Extends, add_issue-after, set_current_map-Extends, reset_map-Extends,
  bind_candidates-Extends,
}

bind_observed-Extends :
    (p : SeriesProgress) (actual : String) (epoch : ℕ)
    → Unique p.maps
    → Extends p (bind_observed p actual epoch)
unfolding bind_observed
bind_observed-Extends p actual epoch u =
    elim (Bool-cases (
      is_settled (map_of_order p.current_map_order p.maps) actual epoch
      || is_held_by_operator (map_of_order p.current_map_order p.maps)
          (has_operator_binding p epoch) epoch)) [
            | inl kept ↦ rw kept (Extends-refl p)
            | inr free ↦ rw free (elim (Option-cases (next_playable_map p)) [
              | inl e ↦ rw (e, bind_observed) (add_issue-Extends p _)
              | inr (expected, e) ↦
                  rw (e, bind_observed) (bind_candidates-Extends p actual epoch expected _ u refl)
            ])
          ]

pub ensure_binding-Extends :
    (p : SeriesProgress) (o : Option SeriesMapObservation)
    → Unique p.maps
    → Extends p (ensure_binding p o)
unfolding ensure_binding
ensure_binding-Extends p none u = Extends-refl p
ensure_binding-Extends p (some o) u = elim (Option-cases o.map_name) [
  | inl e ↦ rw (e, ensure_binding) (Extends-refl p)
  | inr (name, e) ↦
      rw (e, ensure_binding)
        (elim (Bool-cases (is_decided p)) [
          | inl over ↦ rw over (Extends-refl p)
          | inr live ↦ rw live (bind_observed-Extends p (canonical_map_name name) o.map_epoch u)
        ])
]

reset_found-Extends :
    (p : SeriesProgress) (order epoch : ℕ)
    → Unique p.maps
    → Extends p (reset_found p order epoch (find (has_order order) p.maps))
unfolding reset_found
reset_found-Extends p order epoch u = elim (Option-cases (find (has_order order) p.maps)) [
  | inl e ↦ rw (e, reset_found) (Extends-refl p)
  | inr (m, e) ↦
      rw (e, reset_found)
        (elim (Bool-cases (is_closed m)) [
          | inl done ↦ rw done (Extends-refl p)
          | inr live ↦ rw live (reset_map-Extends p m order epoch u e live)
        ])
]

reset_order-Extends :
    (p : SeriesProgress) (epoch : ℕ) (order : Option ℕ)
    → Unique p.maps
    → Extends p (reset_order p epoch order)
unfolding reset_order
reset_order-Extends p epoch none u = Extends-refl p
reset_order-Extends p epoch (some order) u = reset_found-Extends p order epoch u

reset_current_map-Extends :
    (p : SeriesProgress) (event : MapExecutionChanged) (reason : ResetReason)
    → Unique p.maps
    → Extends p (reset_current_map p event reason)
unfolding reset_current_map
reset_current_map-Extends p event restore u = Extends-refl p
reset_current_map-Extends p event _ u = reset_order-Extends p event.map_epoch p.current_map_order u

pub apply_map_execution_change-Extends :
    (p : SeriesProgress) (event : MapExecutionChanged)
    → Unique p.maps
    → Extends p (apply_map_execution_change p event)
unfolding apply_map_execution_change
apply_map_execution_change-Extends p event u = elim (Option-cases event.reset_reason) [
  | inl e ↦ rw (e, apply_map_execution_change) (ensure_binding-Extends p _ u)
  | inr (reason, e) ↦
      rw (e, apply_map_execution_change) (reset_current_map-Extends p event reason u)
]

pub target_found :
    (p : SeriesProgress) (order : ℕ)
    → is_target (find (has_order order) p.maps) ≡ true
    → (m : SeriesMapProgress) × (find (has_order order) p.maps ≡ some m)
      × (is_playable m ≡ true)
      × (m.map_order ≡ order)
unfolding is_target
target_found p order h = elim (Option-cases (find (has_order order) p.maps)) [
  | inl e ↦ absurd (cc (rw (e, is_target) at h))
  | inr (m, e) ↦ (m, e, rw (e, is_target) at h, order_of m (find-true (has_order order) p.maps e))
]
  where
    order_of : (m : SeriesMapProgress) → has_order order m ≡ true → m.map_order ≡ order
    order_of m t = ground arith

pub bind_target :
    (p : SeriesProgress) (event : OperatorMapBind)
    → can_operator_bind p event ≡ true
    → is_target (find (has_order event.map_order) p.maps) ≡ true
unfolding can_operator_bind
bind_target p event h = ground arith

pub apply_operator_bind-Extends :
    (p : SeriesProgress) (event : OperatorMapBind)
    → Unique p.maps
    → Extends p (apply_operator_bind p event)
unfolding apply_operator_bind
apply_operator_bind-Extends p event u = elim (Bool-cases (can_operator_bind p event)) [
  | inr refused ↦ rw refused (add_issue-Extends p _)
  | inl allowed ↦
      let (m, e, playing, order) = target_found p event.map_order (bind_target p event allowed) in
      rw allowed (
        add_issue-after p _ _
          (rw (← order) (set_current_map-Extends p _ m event.map_epoch u e playing)))
]
