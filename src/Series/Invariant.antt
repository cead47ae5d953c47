-- ===== src/Series/Invariant.antt =====
-- What holds of a series between two reductions.
use rival_hub_broadcast.Prelude.{
  ◌≤◌, Bool, true, false, ◌≡◌, ◌≢◌, refl, sym, ap, ◌∙◌, none, List, [], ◌∷◌, map, arith, inl, inr,
  Bool-cases, All, All-map, length, String, string_eq, option_eq, sort, insert_sorted, nat_eq,
}
use rival_hub_broadcast.Series.Types.{
  MatchContext, MatchMapContext, SeriesProgress, SeriesMapProgress, Score, Entrants,
  SeriesProgressSyncInput, SeriesBindingState, required_series_wins, status_eq, completed,
}
use rival_hub_broadcast.Series.Score.{
  max_series_issues, is_playable, close_map, count_map, count_from, score_from_completed_maps,
  is_decided, apply_series_completion, recompute_score,
}
use rival_hub_broadcast.Series.Create.{
  final_score_from_context, initial_map_status, initial_map, initial_maps, plan_le,
  create_series_progress, entrant_of,
}
use rival_hub_broadcast.Series.Sync.{sync_progress}
use rival_hub_broadcast.Series.Frozen.Relation.{
  IsSound, KeepsAll-IsSound, KeepsAll-refl, Unique, Extends-Unique,
}
use rival_hub_broadcast.Series.Frozen.Steps.{recompute_score-Extends}
use rival_hub_broadcast.Series.Frozen.Sync.{sync_progress-Extends}

pub record IsConsistent (p : SeriesProgress) : Type 0 where
  pub unique : Unique p.maps
  pub sound : All IsSound p.maps
  pub issues : length p.issues ≤ max_series_issues
  pub scored : p.score ≡ score_from_completed_maps p.maps p.entrants
  pub closed : is_decided p ≡ true → All (λ m. is_playable m ≡ false) p.maps
  pub unbound : is_decided p ≡ true → p.current_map_order ≡ none

close_map-playable : (m : SeriesMapProgress) → is_playable (close_map m) ≡ false
unfolding close_map is_playable
close_map-playable m = ground arith

count_map-close_map :
    (e : Entrants) (m : SeriesMapProgress) (s : Score)
    → count_map e (close_map m) s ≡ count_map e m s
unfolding count_map close_map is_playable
count_map-close_map e m s = ground arith

count_from-close_map :
    (e : Entrants) (s : Score) (ms : List SeriesMapProgress)
    → count_from s e (map close_map ms) ≡ count_from s e ms
unfolding count_from
count_from-close_map e s [] = refl
count_from-close_map e s (m ∷ ms) =
    ap (λ k. count_from k e (map close_map ms)) (count_map-close_map e m s)
    ∙ count_from-close_map e (count_map e m s) ms

-- The end of a reduction scores the maps anew and closes a decided series.
record IsScored (p : SeriesProgress) : Type 0 where
  scored : p.score ≡ score_from_completed_maps p.maps p.entrants
  closed : is_decided p ≡ true → All (λ m. is_playable m ≡ false) p.maps
  unbound : is_decided p ≡ true → p.current_map_order ≡ none

apply_series_completion-IsScored :
    (p : SeriesProgress)
    → p.score ≡ score_from_completed_maps p.maps p.entrants
    → IsScored (apply_series_completion p)
unfolding apply_series_completion is_decided score_from_completed_maps
apply_series_completion-IsScored p h = elim (Bool-cases (is_decided p)) [
  | inl over ↦ rw over (record {
    scored = h ∙ sym (count_from-close_map p.entrants _ p.maps);
    closed = λ d. All-map _ close_map p.maps close_map-playable;
    unbound = λ d. refl;
  })
  | inr live ↦ rw live (record { scored = h; closed = λ d. cc; unbound = λ d. cc })
]

recompute_score-IsScored :
    (p : SeriesProgress) (maps : List SeriesMapProgress) → IsScored (recompute_score p maps)
unfolding recompute_score
recompute_score-IsScored p maps = apply_series_completion-IsScored _ refl

-- A reduction keeps a series consistent: distinct orders, histories within 256 rounds, a score for
-- every completed map, at most 64 issues, the series score counted from the completed maps, and,
-- once a side has the required wins, no open map and no current map.
pub sync_progress-IsConsistent :
    (p : SeriesProgress) (input : SeriesProgressSyncInput)
    → IsConsistent p
    → IsConsistent (sync_progress p input)
unfolding sync_progress
sync_progress-IsConsistent p input c =
    let e = sync_progress-Extends p input c.unique in
    let s = recompute_score-IsScored _ _ in
    record {
      unique = Extends-Unique p _ e c.unique;
      sound = KeepsAll-IsSound p.maps _ e.maps c.sound;
      issues = e.issues c.issues;
      scored = s.scored;
      closed = s.closed;
      unbound = s.unbound;
    }

abbrev pub Distinct : List MatchMapContext → Type 0
Distinct [] = Unit
Distinct (m ∷ ms) = All (λ n. n.map_order ≢ m.map_order) ms × Distinct ms

module _ (le : MatchMapContext → MatchMapContext → Bool) where
  All-insert :
      (P : MatchMapContext → Type 0) (x : MatchMapContext) (xs : List MatchMapContext)
      → P x
      → All P xs
      → All P (insert_sorted le x xs)
  All-insert P x [] h a = (h, tt)
  All-insert P x (y ∷ ys) h a = elim (Bool-cases (le x y)) [
    | inl first ↦ rw first (h, a)
    | inr after ↦ rw after (a.0, All-insert P x ys h a.1)
  ]

  All-sort :
      (P : MatchMapContext → Type 0) (xs : List MatchMapContext) → All P xs → All P (sort le xs)
  All-sort P [] a = tt
  All-sort P (x ∷ xs) a = All-insert P x (sort le xs) a.0 (All-sort P xs a.1)

  insert-Distinct :
      (x : MatchMapContext) (xs : List MatchMapContext)
      → All (λ n. n.map_order ≢ x.map_order) xs
      → Distinct xs
      → Distinct (insert_sorted le x xs)
  insert-Distinct x [] a d = (tt, tt)
  insert-Distinct x (y ∷ ys) a d = elim (Bool-cases (le x y)) [
    | inl first ↦ rw first (a, d)
    | inr after ↦ rw after (
      All-insert (λ n. n.map_order ≢ y.map_order) x ys (λ e. a.0 (sym e)) d.0,
      insert-Distinct x ys a.1 d.1,
    )
  ]

  sort-Distinct : (xs : List MatchMapContext) → Distinct xs → Distinct (sort le xs)
  sort-Distinct [] d = tt
  sort-Distinct (x ∷ xs) d =
      insert-Distinct x (sort le xs) (All-sort (λ n. n.map_order ≢ x.map_order) xs d.0)
        (sort-Distinct xs d.1)

initial_map-order :
    (c : MatchContext) (m : MatchMapContext) → (initial_map c m).map_order ≡ m.map_order
unfolding initial_map
initial_map-order c m = refl

initial_map-IsSound : (c : MatchContext) (m : MatchMapContext) → IsSound (initial_map c m)
unfolding initial_map initial_map_status final_score_from_context
initial_map-IsSound c m = record { history = omega arith; scored = λ h k. scored h k }
  where
    scored : initial_map_status m ≡ completed → final_score_from_context m ≡ none → ⊥
    scored h k = ground arith

initial-Unique :
    (c : MatchContext) (ms : List MatchMapContext) → Distinct ms → Unique (map (initial_map c) ms)
initial-Unique c [] d = tt
initial-Unique c (m ∷ ms) d = (apart ms d.0, initial-Unique c ms d.1)
  where
    apart :
        (ns : List MatchMapContext)
        → All (λ n. n.map_order ≢ m.map_order) ns
        → All (λ n. n.map_order ≢ (initial_map c m).map_order) (map (initial_map c) ns)
    apart [] a = tt
    apart (n ∷ ns) a = (rw (initial_map-order c n, initial_map-order c m) a.0, apart ns a.1)

start-Unique :
    (id_le : String → String → Bool) (c : MatchContext)
    → Distinct c.maps
    → Unique (initial_maps id_le c)
unfolding initial_maps
start-Unique id_le c d = initial-Unique c _ (sort-Distinct (plan_le id_le) c.maps d)

start-IsSound :
    (id_le : String → String → Bool) (c : MatchContext) → All IsSound (initial_maps id_le c)
unfolding initial_maps
start-IsSound id_le c = All-map IsSound (initial_map c) _ (initial_map-IsSound c)

-- The progress before its first score.
abbrev started : (String → String → Bool) → MatchContext → SeriesProgress
started id_le c = record {
  match_id = c.match_id;
  format = c.format;
  required_wins = required_series_wins c.format;
  entrants = record { a = entrant_of c.entrant_a; b = entrant_of c.entrant_b };
  score = record { a = 0; b = 0 };
  maps = initial_maps id_le c;
  current_map_order = none;
  binding_state = SeriesBindingState.unbound;
  issues = [];
}

-- The series that a match context starts is consistent, if its maps have distinct orders.
pub create_series_progress-IsConsistent :
    (id_le : String → String → Bool) (c : MatchContext)
    → Distinct c.maps
    → IsConsistent (create_series_progress id_le c)
unfolding create_series_progress
create_series_progress-IsConsistent id_le c d =
    let maps = initial_maps id_le c in
    let unique = start-Unique id_le c d in
    let s = recompute_score-IsScored _ maps in
    let e = recompute_score-Extends (started id_le c) maps (KeepsAll-refl maps) in
    record {
      unique = Extends-Unique (started id_le c) _ e unique;
      sound = KeepsAll-IsSound maps _ e.maps (start-IsSound id_le c);
      issues = e.issues (omega arith);
      scored = s.scored;
      closed = s.closed;
      unbound = s.unbound;
    }

-- Any history of reductions.
pub run : SeriesProgress → List SeriesProgressSyncInput → SeriesProgress
run p [] = p
run p (input ∷ inputs) = run (sync_progress p input) inputs
