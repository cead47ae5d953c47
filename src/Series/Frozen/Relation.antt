-- ===== src/Series/Frozen/Relation.antt =====
-- From a map to a later version of it, and from a progress to a later one.
use rival_hub_broadcast.Prelude.{
  ℕ, Bool, true, ◌≡◌, ◌≢◌, refl, sym, ap, ◌∙◌, Option, none, some, List, [], ◌∷◌, map, arith, inl,
  inr, Bool-cases, find, All, length, ◌≤◌, nat_eq, subst, String,
}
use rival_hub_broadcast.Series.Types.{
  SeriesMapProgress, SeriesMapSelection, SeriesProgress, SourceSide, status_eq, completed,
}
use rival_hub_broadcast.Series.Score.{max_series_issues}
use rival_hub_broadcast.Series.Binding.{is_closed}
use rival_hub_broadcast.Series.Rounds.{series_round_history_max}

-- The plan's part of a map.
pub record Plan : Type 0 where
  pub map_id : Option String
  pub map_order : ℕ
  pub map_name : String
  pub selection : SeriesMapSelection
  pub team_a_start_side : Option SourceSide

abbrev pub plan : SeriesMapProgress → Plan
plan m = record {
  map_id = m.map_id;
  map_order = m.map_order;
  map_name = m.map_name;
  selection = m.selection;
  team_a_start_side = m.team_a_start_side;
}

-- A map that the reducer may hold: its history is within the cap, and a completed one has a score.
pub record IsSound (m : SeriesMapProgress) : Type 0 where
  pub history : length m.round_history.rounds ≤ series_round_history_max
  pub scored : m.status ≡ completed → m.final_score ≢ none

-- `n` is a later version of the map `m`: the plan is the same, and a closed map keeps its result.
pub record Keeps (m n : SeriesMapProgress) : Type 0 where
  pub planned : plan n ≡ plan m
  pub status : is_closed m ≡ true → n.status ≡ m.status
  pub final_score : is_closed m ≡ true → n.final_score ≡ m.final_score
  pub winner : is_closed m ≡ true → n.winner_entry_id ≡ m.winner_entry_id
  pub sound : IsSound m → IsSound n

pub Keeps-refl : (m : SeriesMapProgress) → Keeps m m
Keeps-refl m = record {
  planned = refl;
  status = λ h. refl;
  final_score = λ h. refl;
  winner = λ h. refl;
  sound = λ s. s;
}

closed_later : (m n : SeriesMapProgress) → Keeps m n → is_closed m ≡ true → is_closed n ≡ true
closed_later m n k h = rw (k.status h) h

pub Keeps-trans : (l m n : SeriesMapProgress) → Keeps l m → Keeps m n → Keeps l n
Keeps-trans l m n k j = record {
  planned = j.planned ∙ k.planned;
  status = λ h. j.status (closed_later l m k h) ∙ k.status h;
  final_score = λ h. j.final_score (closed_later l m k h) ∙ k.final_score h;
  winner = λ h. j.winner (closed_later l m k h) ∙ k.winner h;
  sound = λ s. j.sound (k.sound s);
}

abbrev pub KeepsAll : List SeriesMapProgress → List SeriesMapProgress → Type 0
KeepsAll [] [] = Unit
KeepsAll (m ∷ ms) (n ∷ ns) = Keeps m n × KeepsAll ms ns
KeepsAll _ _ = ⊥

pub KeepsAll-refl : (ms : List SeriesMapProgress) → KeepsAll ms ms
KeepsAll-refl [] = tt
KeepsAll-refl (m ∷ ms) = (Keeps-refl m, KeepsAll-refl ms)

pub KeepsAll-trans :
    (ls ms ns : List SeriesMapProgress) → KeepsAll ls ms → KeepsAll ms ns → KeepsAll ls ns
KeepsAll-trans [] [] [] h k = tt
KeepsAll-trans [] [] (n ∷ ns) h k = k
KeepsAll-trans [] (m ∷ ms) ns h k = absurd h
KeepsAll-trans (l ∷ ls) [] ns h k = absurd h
KeepsAll-trans (l ∷ ls) (m ∷ ms) [] h k = k
KeepsAll-trans (l ∷ ls) (m ∷ ms) (n ∷ ns) h k =
    (Keeps-trans l m n h.0 k.0, KeepsAll-trans ls ms ns h.1 k.1)

pub KeepsAll-IsSound :
    (ms ns : List SeriesMapProgress) → KeepsAll ms ns → All IsSound ms → All IsSound ns
KeepsAll-IsSound [] [] h s = tt
KeepsAll-IsSound [] (n ∷ ns) h s = absurd h
KeepsAll-IsSound (m ∷ ms) [] h s = absurd h
KeepsAll-IsSound (m ∷ ms) (n ∷ ns) h s = (h.0.sound s.0, KeepsAll-IsSound ms ns h.1 s.1)

pub KeepsAll-map :
    (f : SeriesMapProgress → SeriesMapProgress) (ms : List SeriesMapProgress)
    → All (λ m. Keeps m (f m)) ms
    → KeepsAll ms (map f ms)
KeepsAll-map f [] h = tt
KeepsAll-map f (m ∷ ms) h = (h.0, KeepsAll-map f ms h.1)

-- No two maps have one order.
abbrev pub Unique : List SeriesMapProgress → Type 0
Unique [] = Unit
Unique (m ∷ ms) = All (λ n. n.map_order ≢ m.map_order) ms × Unique ms

-- Where a search finds a map, it is the only one of its order.
pub Unique-find :
    (p : SeriesMapProgress → Bool) (ms : List SeriesMapProgress) (m : SeriesMapProgress)
    → Unique ms
    → find p ms ≡ some m
    → All (λ n. n.map_order ≡ m.map_order → n ≡ m) ms
Unique-find p [] m u e = tt
Unique-find p (n ∷ ns) m u e = elim (Bool-cases (p n)) [
  | inl hit ↦
      let same : n ≡ m = ground arith in
      ((λ h. same), only ns (subst (λ k. All (λ l. l.map_order ≢ k.map_order) ns) same u.0))
  | inr miss ↦
      let later : find p ns ≡ some m = ground arith in
      ((λ h. absurd (apart ns u.0 later h)), Unique-find p ns m u.1 later)
]
  where
    only :
        (ls : List SeriesMapProgress)
        → All (λ l. l.map_order ≢ m.map_order) ls
        → All (λ l. l.map_order ≡ m.map_order → l ≡ m) ls
    only [] h = tt
    only (l ∷ ls) h = ((λ e'. absurd (h.0 e')), only ls h.1)

    apart :
        (ls : List SeriesMapProgress)
        → All (λ l. l.map_order ≢ n.map_order) ls
        → find p ls ≡ some m
        → n.map_order ≡ m.map_order
        → ⊥
    apart [] h f e' = cc
    apart (l ∷ ls) h f e' = elim (Bool-cases (p l)) [
      | inl hit ↦ h.0 (ap (λ k. k.map_order) (let same : l ≡ m = ground arith in same) ∙ sym e')
      | inr miss ↦ apart ls h.1 (ground arith) e'
    ]

orders_apart :
    (k : SeriesMapProgress) (ms ns : List SeriesMapProgress) (l : SeriesMapProgress)
    → Keeps k l
    → KeepsAll ms ns
    → All (λ n. n.map_order ≢ k.map_order) ms
    → All (λ n. n.map_order ≢ l.map_order) ns
orders_apart k [] [] l j h a = tt
orders_apart k [] (n ∷ ns) l j h a = absurd h
orders_apart k (m ∷ ms) [] l j h a = absurd h
orders_apart k (m ∷ ms) (n ∷ ns) l j h a = (
  (λ e. a.0 (sym (ap (λ p. p.map_order) h.0.planned) ∙ e ∙ ap (λ p. p.map_order) j.planned)),
  orders_apart k ms ns l j h.1 a.1,
)

pub KeepsAll-Unique : (ms ns : List SeriesMapProgress) → KeepsAll ms ns → Unique ms → Unique ns
KeepsAll-Unique [] [] h u = tt
KeepsAll-Unique [] (n ∷ ns) h u = absurd h
KeepsAll-Unique (m ∷ ms) [] h u = absurd h
KeepsAll-Unique (m ∷ ms) (n ∷ ns) h u =
    (orders_apart m ms ns n h.0 h.1 u.0, KeepsAll-Unique ms ns h.1 u.1)

-- `q` is a later state of the series `p`.
pub record Extends (p q : SeriesProgress) : Type 0 where
  pub match_id : q.match_id ≡ p.match_id
  pub format : q.format ≡ p.format
  pub required_wins : q.required_wins ≡ p.required_wins
  pub entrants : q.entrants ≡ p.entrants
  pub maps : KeepsAll p.maps q.maps
  pub issues : length p.issues ≤ max_series_issues → length q.issues ≤ max_series_issues

pub Extends-refl : (p : SeriesProgress) → Extends p p
Extends-refl p = record {
  match_id = refl;
  format = refl;
  required_wins = refl;
  entrants = refl;
  maps = KeepsAll-refl p.maps;
  issues = λ h. h;
}

pub Extends-trans : (p q r : SeriesProgress) → Extends p q → Extends q r → Extends p r
Extends-trans p q r h k = record {
  match_id = k.match_id ∙ h.match_id;
  format = k.format ∙ h.format;
  required_wins = k.required_wins ∙ h.required_wins;
  entrants = k.entrants ∙ h.entrants;
  maps = KeepsAll-trans p.maps q.maps r.maps h.maps k.maps;
  issues = λ b. k.issues (h.issues b);
}

pub Extends-Unique : (p q : SeriesProgress) → Extends p q → Unique p.maps → Unique q.maps
Extends-Unique p q h = KeepsAll-Unique p.maps q.maps h.maps
