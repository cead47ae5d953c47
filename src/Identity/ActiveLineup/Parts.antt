-- ===== src/Identity/ActiveLineup/Parts.antt =====
-- The parts of packages/core/src/identity/active-lineup.ts keep the ids of the players apart.
use rival_hub_broadcast.Prelude.{
  ℕ, ◌+◌, ◌≤◌, ◌≡◌, refl, sym, inl, inr, Bool, true, false, List, [], ◌∷◌, ◌++◌, map, String, ◌==◌,
  string_eq, eq_of_equals, arith, Bool-cases, Option-cases, every, length, select, All, All-take,
  All-sort, All-imp, sort, has_text, get_key, set_all, values, count_key, KeysOnce,
  set_key-KeysOnce, All-set_key, All-set_all, get_key-All,
}
use rival_hub_broadcast.Series.Types.{SourceSide, ct, t, side_eq}
use rival_hub_broadcast.Runtime.PlayerStats.{is_valid_steam64}
use rival_hub_broadcast.Identity.Types.{ObservedPlayer, Evidence}
use rival_hub_broadcast.Identity.ActiveLineup.{
  ActiveLineupPlayer, ActiveLineupInput, Candidate, UniqueObservedPlayers, unique_player,
  unique_all, unique_observed_players, candidate_of, candidate_players, to_lineup_player,
  compare_observed, max_lineup_extras,
}
use rival_hub_broadcast.Identity.ActiveLineup.Resolve.{
  not_selected, extras_from, source_le, by_source_id, lineup_ids, update_player, candidate_on,
  candidate_id, lineup_of,
}

-- How often an id stands among observed players, candidates or players of the lineup.
abbrev pub observed_count : String → List ObservedPlayer → ℕ
observed_count id ps = length (select (λ p. p.source_player_id == id) ps)

abbrev pub candidate_count : String → List Candidate → ℕ
candidate_count id cs = length (select (λ c. candidate_id c == id) cs)

abbrev pub lineup_count : String → List ActiveLineupPlayer → ℕ
lineup_count id ps = length (select (λ p. p.source_player_id == id) ps)

-- An entry stands under the id of its player.
abbrev IsKeyed : String × ObservedPlayer → Type 0
IsKeyed e = e.0 ≡ e.1.source_player_id

unique_player-once :
    (p : ObservedPlayer) (u : UniqueObservedPlayers)
    → KeysOnce u.players × All IsKeyed u.players
    → KeysOnce (unique_player p u).players × All IsKeyed (unique_player p u).players
unfolding unique_player
unique_player-once p u h = elim (Option-cases (get_key p.source_player_id u.players)) [
  | inl new ↦
      rw (new, unique_player)
        (
          set_key-KeysOnce p.source_player_id p u.players h.0,
          All-set_key IsKeyed p.source_player_id p u.players refl h.1,
        )
  | inr (q, old) ↦ rw (old, unique_player) h
]

unique_all-once :
    (ps : List ObservedPlayer) (u : UniqueObservedPlayers)
    → KeysOnce u.players × All IsKeyed u.players
    → KeysOnce (unique_all ps u).players × All IsKeyed (unique_all ps u).players
unfolding unique_all
unique_all-once [] u h = h
unique_all-once (p ∷ ps) u h = unique_all-once ps (unique_player p u) (unique_player-once p u h)

observed_count-values :
    (id : String) (m : List (String × ObservedPlayer))
    → All IsKeyed m
    → observed_count id (values m) ≡ count_key id m
observed_count-values id [] h = refl
observed_count-values id ((k, p) ∷ m) h = ground (arith, observed_count-values id m h.1, h.0)

-- The unique players have different ids.
pub unique_observed_players-once :
    (json_le : ObservedPlayer → ObservedPlayer → Bool) (ps : List ObservedPlayer) (id : String)
    → observed_count id (values (unique_observed_players json_le ps).players) ≤ 1
unfolding unique_observed_players
unique_observed_players-once json_le ps id =
    let u =
      unique_all (sort (compare_observed json_le) ps)
        (record { players = []; conflicted = []; issues = [] }) in
    let h =
      unique_all-once (sort (compare_observed json_le) ps)
        (record { players = []; conflicted = []; issues = [] }) ((λ k. omega arith), tt) in
    omega (arith, observed_count-values id u.players h.1, h.0 id)

-- A player makes one candidate at most, under his id.
candidate_of-count :
    (id : String) (conflicted : List String) (input : ActiveLineupInput) (p : ObservedPlayer)
    → candidate_count id (candidate_of conflicted input p).0 ≤ observed_count id (p ∷ [])
unfolding candidate_of
candidate_of-count id conflicted input p = ground arith

candidate_count-append :
    (id : String) (xs ys : List Candidate)
    → candidate_count id (xs ++ ys) ≡ candidate_count id xs + candidate_count id ys
candidate_count-append id [] ys = omega arith
candidate_count-append id (x ∷ xs) ys = ground (arith, candidate_count-append id xs ys)

pub candidate_players-count :
    (id : String) (ps : List ObservedPlayer) (conflicted : List String) (input : ActiveLineupInput)
    → candidate_count id (candidate_players ps conflicted input).0 ≤ observed_count id ps
unfolding candidate_players
candidate_players-count id [] conflicted input = omega arith
candidate_players-count id (p ∷ ps) conflicted input = ground (
  arith,
  candidate_count-append id (candidate_of conflicted input p).0
      (candidate_players ps conflicted input).0,
  candidate_of-count id conflicted input p,
  candidate_players-count id ps conflicted input,
)

module _ (input : ActiveLineupInput) where
  -- The two sides of a lineup share no id that the candidates have once.
  pub lineup_of-count :
      (id : String) (cs : List Candidate)
      → lineup_count id (lineup_of input ct cs) + lineup_count id (lineup_of input t cs)
        ≤ candidate_count id cs
  unfolding to_lineup_player
  lineup_of-count id [] = omega arith
  lineup_of-count id (c ∷ cs) = ground (arith, lineup_of-count id cs)

  pub lineup_of-steam64 :
      (side : SourceSide) (cs : List Candidate)
      → every (λ c. is_valid_steam64 (candidate_id c)) cs ≡ true
      → All (λ p. is_valid_steam64 p.source_player_id ≡ true) (lineup_of input side cs)
  unfolding to_lineup_player
  lineup_of-steam64 side [] h = tt
  lineup_of-steam64 side (c ∷ cs) h = elim (Bool-cases (candidate_on side c)) [
    | inl on ↦ rw on (ground arith, lineup_of-steam64 side cs (ground arith))
    | inr off ↦ rw off (lineup_of-steam64 side cs (ground arith))
  ]

  pub lineup_of-side :
      (side : SourceSide) (cs : List Candidate) → All (λ p. p.side ≡ side) (lineup_of input side cs)
  unfolding to_lineup_player
  lineup_of-side side [] = tt
  lineup_of-side side (c ∷ cs) = elim (Bool-cases (candidate_on side c)) [
    | inl on ↦ rw on (eq_of_equals c.side side on, lineup_of-side side cs)
    | inr off ↦ rw off (lineup_of-side side cs)
  ]

  pub lineup_of-absent :
      (id : String) (side : SourceSide) (cs : List Candidate)
      → has_text id (map candidate_id cs) ≡ false
      → has_text id (lineup_ids (lineup_of input side cs)) ≡ false
  unfolding to_lineup_player
  lineup_of-absent id side [] h = refl
  lineup_of-absent id side (c ∷ cs) h = ground (arith, lineup_of-absent id side cs)

  module _ (players : List ObservedPlayer) (conflicted : List String) (evidence : Evidence) where
    by_source_id-IsKeyed : (ps : List ObservedPlayer) → All IsKeyed (by_source_id ps)
    by_source_id-IsKeyed [] = tt
    by_source_id-IsKeyed (p ∷ ps) = (refl, by_source_id-IsKeyed ps)

    abbrev pub update : ActiveLineupPlayer → ActiveLineupPlayer
    update = update_player (set_all [] (by_source_id players)) conflicted input evidence

    -- An update changes neither the id nor the side of a player.
    pub update_player-keeps :
        (p : ActiveLineupPlayer)
        → ((update p).source_player_id ≡ p.source_player_id) × ((update p).side ≡ p.side)
    unfolding update_player to_lineup_player
    update_player-keeps p =
        elim (Option-cases (get_key p.source_player_id (set_all [] (by_source_id players)))) [
          | inl gone ↦ rw (gone, update_player) (refl, refl)
          | inr (now, seen) ↦
              let same : p.source_player_id ≡ now.source_player_id =
                get_key-All IsKeyed p.source_player_id (set_all [] (by_source_id players))
                  (All-set_all IsKeyed [] (by_source_id players) tt (by_source_id-IsKeyed players))
                  seen in
              rw (seen, update_player)
                (elim (Bool-cases (has_text p.source_player_id conflicted)) [
                  | inl clash ↦ rw clash (refl, refl)
                  | inr clear ↦ rw clear (sym same, refl)
                ])
        ]

    pub update-ids : (ps : List ActiveLineupPlayer) → lineup_ids (map update ps) ≡ lineup_ids ps
    update-ids [] = refl
    update-ids (p ∷ ps) = cc ((update_player-keeps p).0, update-ids ps)

-- The extras are not selected.
pub select-All {ℓ} :
    {A : Type ℓ} (test : A → Bool) (xs : List A) → All (λ x. test x ≡ true) (select test xs)
select-All test [] = tt
select-All test (x ∷ xs) = elim (Bool-cases (test x)) [
  | inl hit ↦ rw hit (hit, select-All test xs)
  | inr miss ↦ rw miss (select-All test xs)
]

pub extras_from-apart :
    (players : List ObservedPlayer) (selected : List String)
    → All (λ e. has_text e.source_player_id selected ≡ false) (extras_from players selected)
unfolding extras_from
extras_from-apart players selected =
    All-imp (λ e. not_selected selected e ≡ true) _ (extras_from players selected)
      (λ e h. ground arith)
      (All-take (λ e. not_selected selected e ≡ true) max_lineup_extras
        (sort source_le (select (not_selected selected) players))
        (All-sort source_le (λ e. not_selected selected e ≡ true)
          (select (not_selected selected) players) (select-All (not_selected selected) players)))
