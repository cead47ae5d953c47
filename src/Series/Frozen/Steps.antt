-- ===== src/Series/Frozen/Steps.antt =====
-- Each operation of the series reducer keeps the plan and the results of closed maps.
use rival_hub_broadcast.Prelude.{
  ℕ, Bool, true, false, ◌&&◌, ◌≡◌, refl, ap, none, some, List, [], ◌∷◌, map, arith, inl, inr,
  Bool-cases, find, find-true, find-select, select, All, All-imp, All-always, any, eqb_iff, ◌==◌,
  nat_eq, eqb, String, string_eq, option_eq, ◌++◌, length-take_last-le,
}
use rival_hub_broadcast.Series.Types.{
  SeriesProgress, SeriesProgressIssue, SeriesMapProgress, SeriesBindingState, SeriesRoundResult,
  IssueMessage, IssueSeverity, status_eq, current,
}
use rival_hub_broadcast.Series.Score.{
  max_series_issues, add_issue, is_duplicate_issue, is_playable, close_map, apply_series_completion,
  recompute_score, is_decided,
}
use rival_hub_broadcast.Series.Binding.{
  make_current, set_current_map, map_for_epoch, bind_candidates, reset_map, has_order, is_closed,
}
use rival_hub_broadcast.Series.Rounds.{
  series_round_history_max, sort_rounds, make_partial, mark_history_partial, replace_map,
  replace_in, with_history,
}
use rival_hub_broadcast.Series.Frozen.Relation.{
  plan, IsSound, Keeps, Keeps-refl, KeepsAll, KeepsAll-map, KeepsAll-refl, Unique, Unique-find,
  Extends, Extends-refl, Extends-trans,
}

pub add_issue-Extends : (p : SeriesProgress) (i : SeriesProgressIssue) → Extends p (add_issue p i)
unfolding add_issue
add_issue-Extends p i = elim (Bool-cases (any (is_duplicate_issue i) p.issues)) [
  | inl old ↦ rw old (Extends-refl p)
  | inr new ↦ rw new (record {
    match_id = refl;
    format = refl;
    required_wins = refl;
    entrants = refl;
    maps = KeepsAll-refl p.maps;
    issues = λ h. length-take_last-le max_series_issues (p.issues ++ i ∷ []);
  })
]

pub add_issue-after :
    (p q : SeriesProgress) (i : SeriesProgressIssue) → Extends p q → Extends p (add_issue q i)
add_issue-after p q i h = Extends-trans p q (add_issue q i) h (add_issue-Extends q i)

-- A progress whose maps are mapped, and whose binding may change.
pub map-Extends :
    (p q : SeriesProgress) (f : SeriesMapProgress → SeriesMapProgress)
    → q.match_id ≡ p.match_id
    → q.format ≡ p.format
    → q.required_wins ≡ p.required_wins
    → q.entrants ≡ p.entrants
    → q.maps ≡ map f p.maps
    → q.issues ≡ p.issues
    → All (λ m. Keeps m (f m)) p.maps
    → Extends p q
map-Extends p q f i fo r e ms is h = record {
  match_id = i;
  format = fo;
  required_wins = r;
  entrants = e;
  maps = rw ms (KeepsAll-map f p.maps h);
  issues = λ b. rw is b;
}

-- The only map of an order, and one that is still open.
abbrev OnlyOpen : SeriesMapProgress → SeriesMapProgress → Type 0
OnlyOpen m n = n.map_order ≡ m.map_order → n ≡ m

make_current-Keeps :
    (epoch : ℕ) (m n : SeriesMapProgress)
    → is_playable m ≡ true
    → OnlyOpen m n
    → Keeps n (make_current m.map_order epoch n)
unfolding make_current is_playable
make_current-Keeps epoch m n playing only = ground arith

close_map-Keeps : (m : SeriesMapProgress) → Keeps m (close_map m)
unfolding close_map is_playable
close_map-Keeps m = ground arith

make_partial-Keeps : (order : ℕ) (m : SeriesMapProgress) → Keeps m (make_partial order m)
unfolding make_partial
make_partial-Keeps order m = ground arith

reset_map-Keeps :
    (epoch : ℕ) (m n : SeriesMapProgress)
    → is_closed m ≡ false
    → OnlyOpen m n
    → Keeps n (reset_map m.map_order epoch n)
unfolding reset_map
reset_map-Keeps epoch m n playing only = ground arith

replace_map-Keeps :
    (m next n : SeriesMapProgress)
    → is_closed m ≡ false
    → plan next ≡ plan m
    → (IsSound m → IsSound next)
    → OnlyOpen m n
    → Keeps n (replace_map next n)
replace_map-Keeps m next n live planned sound only =
    let order : next.map_order ≡ m.map_order = ap (λ q. q.map_order) planned in
    elim (Bool-cases (eqb n.map_order next.map_order)) [
      | inl hit ↦ let same : n ≡ m = only (ground arith) in rw hit (ground arith)
      | inr miss ↦ rw miss (Keeps-refl n)
    ]

pub playable-open : (m : SeriesMapProgress) → is_playable m ≡ true → is_closed m ≡ false
unfolding is_playable
playable-open m h = ground arith

pub set_current_map-Extends :
    (p : SeriesProgress) (test : SeriesMapProgress → Bool) (m : SeriesMapProgress) (epoch : ℕ)
    → Unique p.maps
    → find test p.maps ≡ some m
    → is_playable m ≡ true
    → Extends p (set_current_map p m.map_order epoch)
unfolding set_current_map
set_current_map-Extends p test m epoch u e h =
    map-Extends p _ (make_current m.map_order epoch) refl refl refl refl refl refl (
      All-imp (OnlyOpen m) _ p.maps (λ n. make_current-Keeps epoch m n h)
        (Unique-find test p.maps m u e))

pub replace_in-Extends :
    (p : SeriesProgress) (test : SeriesMapProgress → Bool) (m next : SeriesMapProgress)
    → Unique p.maps
    → find test p.maps ≡ some m
    → is_closed m ≡ false
    → plan next ≡ plan m
    → (IsSound m → IsSound next)
    → Extends p (replace_in p next)
replace_in-Extends p test m next u e h planned sound =
    map-Extends p _ (replace_map next) refl refl refl refl refl refl (
      All-imp (OnlyOpen m) _ p.maps (λ n. replace_map-Keeps m next n h planned sound)
        (Unique-find test p.maps m u e))

pub mark_history_partial-Extends :
    (p : SeriesProgress) (order epoch : ℕ) (message : IssueMessage) (severity : IssueSeverity)
    → Extends p (mark_history_partial p order epoch message severity)
unfolding mark_history_partial
mark_history_partial-Extends p order epoch message severity = add_issue-after p _ _ (
    map-Extends p (record p { maps = map (make_partial order) p.maps }) (make_partial order) refl
      refl refl refl refl refl (All-always _ p.maps (make_partial-Keeps order)))

pub apply_series_completion-Extends : (p : SeriesProgress) → Extends p (apply_series_completion p)
unfolding apply_series_completion
apply_series_completion-Extends p = elim (Bool-cases (is_decided p)) [
  | inl over ↦ rw over (
      map-Extends p _ close_map refl refl refl refl refl refl (All-always _ p.maps close_map-Keeps))
  | inr live ↦ rw live (Extends-refl p)
]

-- The score is recomputed over the maps of a later state.
pub recompute_score-Extends :
    (p : SeriesProgress) (maps : List SeriesMapProgress)
    → KeepsAll p.maps maps
    → Extends p (recompute_score p maps)
unfolding recompute_score
recompute_score-Extends p maps h =
    Extends-trans p _ _
      (record {
        match_id = refl;
        format = refl;
        required_wins = refl;
        entrants = refl;
        maps = h;
        issues = λ b. b;
      })
      (apply_series_completion-Extends _)

pub map_for_epoch-open :
    (p : SeriesProgress) (epoch : ℕ) (m : SeriesMapProgress)
    → map_for_epoch p epoch ≡ some m
    → is_closed m ≡ false
unfolding map_for_epoch
map_for_epoch-open p epoch m e =
    let hit =
      find-true (λ n. n.execution_map_epoch == some epoch && n.status == current) p.maps e in
    ground arith

unbound :
    (p : SeriesProgress)
    → Extends p
        (record p { current_map_order = none; binding_state = SeriesBindingState.needs_operator })
unbound p = record {
  match_id = refl;
  format = refl;
  required_wins = refl;
  entrants = refl;
  maps = KeepsAll-refl p.maps;
  issues = λ h. h;
}

pub bind_candidates-Extends :
    (p : SeriesProgress) (actual : String) (epoch : ℕ) (expected : SeriesMapProgress)
    (candidates : List SeriesMapProgress)
    → Unique p.maps
    → select (λ m. is_playable m && m.map_name == actual) p.maps ≡ candidates
    → Extends p (bind_candidates p actual epoch expected candidates)
unfolding bind_candidates
bind_candidates-Extends p actual epoch expected [] u e = add_issue-after p _ _ (unbound p)
bind_candidates-Extends p actual epoch expected (m ∷ []) u e =
    elim (Bool-cases (eqb m.map_order expected.map_order)) [
      | inl next ↦ rw next (
          set_current_map-Extends p _ m epoch u found
            (ground (arith, find-true (λ n. is_playable n && n.map_name == actual) p.maps found)))
      | inr other ↦ rw other (add_issue-after p _ _ (unbound p))
    ]
  where
    found : find (λ m. is_playable m && m.map_name == actual) p.maps ≡ some m
    found = find-select _ p.maps m [] e
bind_candidates-Extends p actual epoch expected (_ ∷ _ ∷ _) u e = add_issue-after p _ _ (unbound p)

-- A history belongs to the map of an execution, which is open.
pub with_history-Extends :
    (p : SeriesProgress) (epoch : ℕ) (m : SeriesMapProgress) (rounds : List SeriesRoundResult)
    → Unique p.maps
    → map_for_epoch p epoch ≡ some m
    → Extends p (replace_in p (with_history m rounds))
unfolding map_for_epoch with_history
with_history-Extends p epoch m rounds u e =
    replace_in-Extends p _ m _ u e (map_for_epoch-open p epoch m e) refl (λ s. record {
      history = length-take_last-le series_round_history_max (sort_rounds rounds);
      scored = s.scored;
    })

pub reset_map-Extends :
    (p : SeriesProgress) (m : SeriesMapProgress) (order epoch : ℕ)
    → Unique p.maps
    → find (has_order order) p.maps ≡ some m
    → is_closed m ≡ false
    → Extends p (record p {
      maps = map (reset_map order epoch) p.maps;
      binding_state = SeriesBindingState.bound;
    })
reset_map-Extends p m order epoch u e live =
    map-Extends p _ (reset_map order epoch) refl refl refl refl refl refl
      (All-imp (OnlyOpen m) _ p.maps keep (Unique-find (has_order order) p.maps m u e))
  where
    same : m.map_order ≡ order
    same = (eqb_iff _ _).0 (find-true (has_order order) p.maps e)

    keep : (n : SeriesMapProgress) → OnlyOpen m n → Keeps n (reset_map order epoch n)
    keep n only = rw (← same) (reset_map-Keeps epoch m n live only)
