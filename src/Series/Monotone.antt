-- ===== src/Series/Monotone.antt =====
-- The series score never falls, and a decided series stays as it is.
use rival_hub_broadcast.Prelude.{
  ◌≤◌, true, false, ◌≡◌, refl, sym, ap, ◌∙◌, Option, none, List, [], ◌∷◌, map, arith, inl, inr,
  Bool-cases, All, String, ◌==◌, string_eq, option_eq,
}
use rival_hub_broadcast.Series.Types.{
  SeriesProgress, SeriesMapProgress, Score, Entrants, SeriesMapStatus, SeriesProgressSyncInput,
  status_eq, completed,
}
use rival_hub_broadcast.Series.Score.{
  is_playable, count_map, count_from, score_from_completed_maps, is_decided,
}
use rival_hub_broadcast.Series.Binding.{is_closed}
use rival_hub_broadcast.Series.Sync.{sync_progress}
use rival_hub_broadcast.Series.Frozen.Relation.{Keeps, KeepsAll}
use rival_hub_broadcast.Series.Frozen.Sync.{sync_progress-Extends}
use rival_hub_broadcast.Series.Invariant.{IsConsistent, sync_progress-IsConsistent}

infix 50 ◌⊑◌
abbrev pub ◌⊑◌ : Score → Score → Type 0
s ⊑ t = (s.a ≤ t.a) × (s.b ≤ t.b)

count_map-mono :
    (e : Entrants) (m n : SeriesMapProgress) (s t : Score)
    → Keeps m n
    → s ⊑ t
    → count_map e m s ⊑ count_map e n t
unfolding count_map
count_map-mono e m n s t k h = elim (Bool-cases (m.status == completed)) [
  | inl done ↦
      let same = k.winner (ground arith) in
      let status = k.status (ground arith) in rw (done, same) (ground arith)
  | inr live ↦ rw live (ground arith)
]

count_from-mono :
    (e : Entrants) (ms ns : List SeriesMapProgress) (s t : Score)
    → KeepsAll ms ns
    → s ⊑ t
    → count_from s e ms ⊑ count_from t e ns
unfolding count_from
count_from-mono e [] [] s t k h = h
count_from-mono e [] (n ∷ ns) s t k h = absurd k
count_from-mono e (m ∷ ms) [] s t k h = absurd k
count_from-mono e (m ∷ ms) (n ∷ ns) s t k h =
    count_from-mono e ms ns (count_map e m s) (count_map e n t) k.1 (count_map-mono e m n s t k.0 h)

⊑-cong : (s t s' t' : Score) → s ≡ s' → t ≡ t' → s' ⊑ t' → s ⊑ t
⊑-cong s t s' t' p q h = ground arith

-- Neither side's series score ever falls in a reduction of a consistent series.
pub sync_progress-score_mono :
    (p : SeriesProgress) (input : SeriesProgressSyncInput)
    → IsConsistent p
    → p.score ⊑ (sync_progress p input).score
unfolding score_from_completed_maps
sync_progress-score_mono p input c =
    let e = sync_progress-Extends p input c.unique in
    let d = sync_progress-IsConsistent p input c in
    let grown =
      count_from-mono p.entrants p.maps (sync_progress p input).maps (record { a = 0; b = 0 })
        (record { a = 0; b = 0 }) e.maps (omega arith) in
    ⊑-cong p.score (sync_progress p input).score _ _ c.scored
      (d.scored
        ∙ ap (λ k. count_from (record { a = 0; b = 0 }) k (sync_progress p input).maps) e.entrants)
      grown

-- What a map contributes to the result of the series.
pub record Outcome : Type 0 where
  pub status : SeriesMapStatus
  pub final_score : Option Score
  pub winner_entry_id : Option String

abbrev pub outcome : SeriesMapProgress → Outcome
outcome m = record {
  status = m.status;
  final_score = m.final_score;
  winner_entry_id = m.winner_entry_id;
}

closed-outcomes :
    (ms ns : List SeriesMapProgress)
    → KeepsAll ms ns
    → All (λ m. is_playable m ≡ false) ms
    → map outcome ns ≡ map outcome ms
unfolding is_playable
closed-outcomes [] [] k a = refl
closed-outcomes [] (n ∷ ns) k a = absurd k
closed-outcomes (m ∷ ms) [] k a = absurd k
closed-outcomes (m ∷ ms) (n ∷ ns) k a =
    let closed : is_closed m ≡ true = shut m a.0 in
    cc (k.0.status closed, k.0.final_score closed, k.0.winner closed, closed-outcomes ms ns k.1 a.1)
  where
    shut : (m : SeriesMapProgress) → is_playable m ≡ false → is_closed m ≡ true
    shut m h = ground arith

count_by_outcome :
    (e : Entrants) (m n : SeriesMapProgress) (s : Score)
    → outcome n ≡ outcome m
    → count_map e n s ≡ count_map e m s
unfolding count_map
count_by_outcome e m n s h = ground arith

counts_by_outcomes :
    (e : Entrants) (ms ns : List SeriesMapProgress) (s : Score)
    → map outcome ns ≡ map outcome ms
    → count_from s e ns ≡ count_from s e ms
unfolding count_from
counts_by_outcomes e [] [] s h = refl
counts_by_outcomes e [] (n ∷ ns) s h = cc
counts_by_outcomes e (m ∷ ms) [] s h = cc
counts_by_outcomes e (m ∷ ms) (n ∷ ns) s h =
    ap (λ k. count_from k e ns) (count_by_outcome e m n s (cc))
    ∙ counts_by_outcomes e ms ns (count_map e m s) (cc)

still_decided :
    (p q : SeriesProgress)
    → q.score ≡ p.score
    → q.required_wins ≡ p.required_wins
    → is_decided p ≡ true
    → is_decided q ≡ true
unfolding is_decided
still_decided p q s r h = ground arith

-- Once a side has the required wins, no reduction changes the score, the status, final score or
-- winner of any map, or sets a current map.
pub sync_progress-decided :
    (p : SeriesProgress) (input : SeriesProgressSyncInput)
    → IsConsistent p
    → is_decided p ≡ true
    → ((sync_progress p input).score ≡ p.score)
      × (map outcome (sync_progress p input).maps ≡ map outcome p.maps)
      × ((sync_progress p input).current_map_order ≡ none)
unfolding score_from_completed_maps
sync_progress-decided p input c over =
    let e = sync_progress-Extends p input c.unique in
    let d = sync_progress-IsConsistent p input c in
    let same = closed-outcomes p.maps (sync_progress p input).maps e.maps (c.closed over) in
    let score : (sync_progress p input).score ≡ p.score =
      d.scored
      ∙ ap (λ k. count_from (record { a = 0; b = 0 }) k (sync_progress p input).maps) e.entrants
      ∙ counts_by_outcomes p.entrants p.maps (sync_progress p input).maps _ same
      ∙ sym c.scored in
    (score, same, d.unbound (still_decided p _ score e.required_wins over))
