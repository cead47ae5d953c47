-- ===== src/Series/MapResult.antt =====
-- When the end of a map is recorded, and what is recorded then.
use rival_hub_broadcast.Prelude.{
  ℕ, true, false, ◌≡◌, ◌≢◌, Option, none, some, map, arith, inl, inr, ◌⊎◌, Bool-cases, Option-cases,
  String, ◌==◌, string_eq, option_eq, eqb, ltb, if◌then◌else◌, find-true, nat_eq, ◌&&◌,
}
use rival_hub_broadcast.Series.Types.{
  SeriesProgress, SeriesProgressIssue, SeriesMapProgress, Score, Entrants, MapEnded,
  SeriesSideProof, SourceSide, side_eq, status_eq, completed, current,
}
use rival_hub_broadcast.Series.Score.{add_issue, recompute_score, winner_for_score}
use rival_hub_broadcast.Series.Binding.{map_for_epoch}
use rival_hub_broadcast.Series.Rounds.{valid_side_proof, replace_map}
use rival_hub_broadcast.Series.Sync.{
  complete_map, end_by_proof, end_map, complete_score, score_by_proof,
}

add_issue-maps : (p : SeriesProgress) (i : SeriesProgressIssue) → (add_issue p i).maps ≡ p.maps
unfolding add_issue
add_issue-maps p i = ground arith

-- The evidence on which a map's end is recorded.
pub record IsProven (p : SeriesProgress) (event : MapEnded) (proof : Option SeriesSideProof)
    : Type 0 where
  pub running : map_for_epoch p event.map_epoch ≢ none
  pub mapped : valid_side_proof proof event.source_generation event.map_epoch ≡ true
  pub ct : ℕ
  pub t : ℕ
  pub scored : complete_score event.final_score ≡ some (ct, t)
  pub decisive : ct ≢ t

winner_none : (s : Score) (e : Entrants) → winner_for_score (some s) e ≡ none → s.a ≡ s.b
unfolding winner_for_score
winner_none s e h = ground arith

tie_by_proof :
    (proof : SeriesSideProof) (ct t : ℕ) (e : Entrants)
    → ct ≡ t
    → winner_for_score (some (score_by_proof proof (ct, t))) e ≡ none
unfolding winner_for_score score_by_proof
tie_by_proof proof ct t e h = ground arith

complete_map-tie :
    (p : SeriesProgress) (m : SeriesMapProgress) (epoch : ℕ) (final : Score) (w : Option String)
    → w ≡ none
    → (complete_map p m epoch final w).maps ≡ p.maps
unfolding complete_map
complete_map-tie p m epoch final none e = add_issue-maps p _
complete_map-tie p m epoch final (some w) e = cc

end_by_proof-cases :
    (p : SeriesProgress) (m : SeriesMapProgress) (event : MapEnded) (proof : Option SeriesSideProof)
    (ct t : ℕ)
    → ((end_by_proof p m event proof (ct, t)).maps ≡ p.maps)
      ⊎ ((valid_side_proof proof event.source_generation event.map_epoch ≡ true) × (ct ≢ t))
unfolding end_by_proof
end_by_proof-cases p m event none ct t = inl (add_issue-maps p _)
end_by_proof-cases p m event (some proof) ct t =
    elim (Bool-cases (valid_side_proof (some proof) event.source_generation event.map_epoch)) [
      | inr bad ↦ inl (rw bad (add_issue-maps p _))
      | inl good ↦ elim (Bool-cases (eqb ct t)) [
        | inl tie ↦ inl (
            rw good (
              complete_map-tie p m event.map_epoch _ _
                (tie_by_proof proof ct t p.entrants (ground arith))))
        | inr apart ↦ inr (good, ground arith)
      ]
    ]

-- The end of a map changes the maps only if the map is running in that execution, both final
-- scores are known and not negative, they differ, and the sides are proven for that execution and
-- source generation.
pub end_map-needs_proof :
    (p : SeriesProgress) (event : MapEnded) (proof : Option SeriesSideProof)
    → (end_map p event proof).maps ≢ p.maps
    → IsProven p event proof
unfolding end_map
end_map-needs_proof p event proof changed = elim (Option-cases (map_for_epoch p event.map_epoch)) [
  | inl e ↦ absurd (changed (rw (e, end_map)))
  | inr (m, e) ↦ elim (Bool-cases (m.status == completed)) [
    | inl over ↦ absurd (changed (rw (e, end_map) (rw over)))
    | inr live ↦ elim (Option-cases (complete_score event.final_score)) [
      | inl bad ↦
          absurd (changed (rw (e, end_map) (rw live (rw (bad, end_map) (add_issue-maps p _)))))
      | inr ((ct, t), s) ↦ elim (end_by_proof-cases p m event proof ct t) [
        | inl same ↦ absurd (changed (rw (e, end_map) (rw live (rw (s, end_map) same))))
        | inr (good, apart) ↦ record {
          running = λ k. cc;
          mapped = good;
          ct = ct;
          t = t;
          scored = s;
          decisive = apart;
        }
      ]
    ]
  ]
]

running-current :
    (p : SeriesProgress) (epoch : ℕ) (m : SeriesMapProgress)
    → map_for_epoch p epoch ≡ some m
    → (m.status == completed) ≡ false
unfolding map_for_epoch
running-current p epoch m e =
    let hit =
      find-true (λ n. n.execution_map_epoch == some epoch && n.status == current) p.maps e in
    ground arith

complete_map-won :
    (p : SeriesProgress) (m : SeriesMapProgress) (epoch : ℕ) (final : Score) (w : Option String)
    (winner : String)
    → w ≡ some winner
    → complete_map p m epoch final w
      ≡ recompute_score p (
          map
            (replace_map (record m {
              status = completed;
              final_score = some final;
              winner_entry_id = some winner;
            }))
            p.maps)
unfolding complete_map
complete_map-won p m epoch final none winner e = cc
complete_map-won p m epoch final (some w) winner e = let same : w ≡ winner = cc in rw same

-- With a valid proof and two different scores the running map becomes completed: the score is
-- turned to the entrants by the proof, the higher side's entry wins, and the series is scored anew.
end_map_records :
    (p : SeriesProgress) (event : MapEnded) (proof : SeriesSideProof) (m : SeriesMapProgress)
    (ct t : ℕ)
    → map_for_epoch p event.map_epoch ≡ some m
    → valid_side_proof (some proof) event.source_generation event.map_epoch ≡ true
    → complete_score event.final_score ≡ some (ct, t)
    → ct ≢ t
    → end_map p event (some proof)
      ≡ recompute_score p (
          map
            (replace_map (record m {
              status = completed;
              final_score = some (
                  if proof.a == SourceSide.ct
                  then record { a = ct; b = t }
                  else record { a = t; b = ct });
              winner_entry_id = some (
                  if proof.a == SourceSide.ct
                  then (if ltb t ct then p.entrants.a.entry_id else p.entrants.b.entry_id)
                  else if ltb ct t
                  then p.entrants.a.entry_id
                  else p.entrants.b.entry_id);
            }))
            p.maps)
unfolding end_map end_by_proof score_by_proof winner_for_score
end_map_records p event proof m ct t running mapped scored apart =
    rw (running, end_map)
      (rw (running-current p event.map_epoch m running) (
        rw (scored, end_map)
          (rw mapped (complete_map-won p m event.map_epoch _ _ _ (winner p.entrants ct t apart)))))
  where
    winner :
        (e : Entrants) (ct t : ℕ)
        → ct ≢ t
        → winner_for_score (some (score_by_proof proof (ct, t))) e
          ≡ some (
              if proof.a == SourceSide.ct
              then (if ltb t ct then e.a.entry_id else e.b.entry_id)
              else if ltb ct t
              then e.a.entry_id
              else e.b.entry_id)
    winner e ct t h = ground arith
