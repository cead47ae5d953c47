-- ===== src/Identity/ActiveLineup/Lineups.antt =====
-- Every lineup that packages/core/src/identity/active-lineup.ts returns is empty or five and five.
use rival_hub_broadcast.Prelude.{
  ℕ, ◌≤◌, ◌≡◌, refl, ◌∙◌, subst, inl, inr, Bool, true, false, ◌&&◌, Option, none, some, List, [],
  ◌∷◌, ◌++◌, map, String, ◌==◌, ◌!=◌, nat_eq, string_eq, arith, Bool-cases, Option-cases, every,
  length, length-map, length-take-le, select, All-imp, All-always, take, has_text, values,
}
use rival_hub_broadcast.Series.Types.{ct, t, side_eq}
use rival_hub_broadcast.Runtime.Types.{CoverageStatus, present, coverage_eq}
use rival_hub_broadcast.Runtime.PlayerStats.{is_valid_steam64}
use rival_hub_broadcast.Identity.Types.{ObservedPlayer, retained, current}
use rival_hub_broadcast.Identity.ActiveLineup.{
  ActiveLineupState, ActiveLineupResolution, ActiveLineupInput, Candidate, LineupIssue,
  UniqueObservedPlayers, unique_observed_players, candidate_players, is_previous_baseline,
  max_lineup_extras,
}
use rival_hub_broadcast.Identity.ActiveLineup.Resolve.{
  extras_from, baseline, no_current_evidence, candidate_on, candidate_id, has_exact_five_vs_five,
  complete_lineup, unresolved_lineup, settle_lineup, coverage_of, frame_players,
  resolve_active_lineup, empty_active_lineup, no_lineup,
}
use rival_hub_broadcast.Identity.ActiveLineup.Parts.{
  candidate_count, unique_observed_players-once, candidate_players-count, lineup_of-count,
  lineup_of-steam64, lineup_of-side, lineup_of-absent, extras_from-apart,
}
use rival_hub_broadcast.Identity.ActiveLineup.Stable.{
  IsLineup, extras_from-few, retain_previous-IsLineup,
}

-- The exact test, in its parts.
five_vs_five :
    (cs : List Candidate)
    → has_exact_five_vs_five cs ≡ true
    → (length (select (candidate_on ct) cs) ≡ 5)
      × (length (select (candidate_on t) cs) ≡ 5)
      × (every (λ c. is_valid_steam64 (candidate_id c)) cs ≡ true)
unfolding has_exact_five_vs_five
five_vs_five cs h = ground arith

no_lineup-IsLineup :
    (state : ActiveLineupState) (input : ActiveLineupInput) (extras : List ObservedPlayer)
    (issues : List LineupIssue)
    → length extras ≤ max_lineup_extras
    → IsLineup (no_lineup state input extras issues)
no_lineup-IsLineup state input extras issues few = record {
  sizes = inl (refl, refl);
  once = λ id. omega arith;
  steam64 = (tt, tt);
  sides = (tt, tt);
  apart = All-always _ extras (λ e. (refl, refl));
  few = few;
}

complete_lineup-IsLineup :
    (input : ActiveLineupInput) (players : List ObservedPlayer) (cs : List Candidate)
    (issues : List LineupIssue)
    → has_exact_five_vs_five cs ≡ true
    → ((id : String) → candidate_count id cs ≤ 1)
    → IsLineup (complete_lineup input players cs issues)
unfolding complete_lineup
complete_lineup-IsLineup input players cs issues exact once =
    let h = five_vs_five cs exact in
    record {
      sizes = inr (
        length-map _ (select (candidate_on ct) cs) ∙ h.0,
        length-map _ (select (candidate_on t) cs) ∙ h.1,
      );
      once = λ id. omega (arith, lineup_of-count input id cs, once id);
      steam64 = (lineup_of-steam64 input ct cs h.2, lineup_of-steam64 input t cs h.2);
      sides = (lineup_of-side input ct cs, lineup_of-side input t cs);
      apart =
          All-imp _ _ (extras_from players (map candidate_id cs))
            (λ e (a : has_text e.source_player_id (map candidate_id cs) ≡ false). (
              lineup_of-absent input e.source_player_id ct cs a,
              lineup_of-absent input e.source_player_id t cs a,
            ))
            (extras_from-apart players (map candidate_id cs));
      few = extras_from-few players (map candidate_id cs);
    }

-- A lineup that is kept was one, of five and five.
abbrev KeptOk : Option ActiveLineupResolution → Type 0
KeptOk none = Unit
KeptOk (some p) = IsLineup p × (is_previous_baseline p ≡ true)

settle_lineup-IsLineup :
    (input : ActiveLineupInput) (u : UniqueObservedPlayers) (cs : List Candidate)
    (issues : List LineupIssue) (kept : Option ActiveLineupResolution)
    → ((id : String) → candidate_count id cs ≤ 1)
    → KeptOk kept
    → IsLineup (settle_lineup input u cs issues kept)
unfolding settle_lineup unresolved_lineup
settle_lineup-IsLineup input u cs issues none once h =
    elim (Bool-cases (has_exact_five_vs_five cs)) [
      | inl exact ↦
          rw exact (complete_lineup-IsLineup input (values u.players) cs issues exact once)
      | inr other ↦ rw other (
          no_lineup-IsLineup _ input (take max_lineup_extras (values u.players)) _
            (length-take-le max_lineup_extras (values u.players)))
    ]
settle_lineup-IsLineup input u cs issues (some p) once h =
    elim (Bool-cases (has_exact_five_vs_five cs)) [
      | inl exact ↦
          rw exact (complete_lineup-IsLineup input (values u.players) cs issues exact once)
      | inr other ↦
          rw other (
            retain_previous-IsLineup p (values u.players) u.conflicted input issues current h.0 h.1)
    ]

no_current_evidence-IsLineup :
    (input : ActiveLineupInput) (coverage : CoverageStatus) (kept : Option ActiveLineupResolution)
    (u : UniqueObservedPlayers)
    → KeptOk kept
    → IsLineup (no_current_evidence input coverage kept u)
unfolding no_current_evidence
no_current_evidence-IsLineup input coverage none u h = no_lineup-IsLineup _ input [] _ (omega arith)
no_current_evidence-IsLineup input coverage (some p) u h =
    retain_previous-IsLineup p (values u.players) u.conflicted input _ retained h.0 h.1

baseline-KeptOk :
    (input : ActiveLineupInput)
    → ((p : ActiveLineupResolution) → input.previous ≡ some p → IsLineup p)
    → KeptOk (baseline input)
unfolding baseline
baseline-KeptOk input h = elim (Option-cases input.previous) [
  | inl none_yet ↦ rw (none_yet, baseline) tt
  | inr (p, is) ↦ elim (Bool-cases (p.map_epoch == input.map_epoch && is_previous_baseline p)) [
    | inl usable ↦ rw (is, baseline) (rw usable (h p is, ground arith))
    | inr stale ↦ rw (is, baseline) (rw stale tt)
  ]
]

module _ (json_le : ObservedPlayer → ObservedPlayer → Bool) where
  resolve_active_lineup-IsLineup :
      (input : ActiveLineupInput)
      → ((p : ActiveLineupResolution) → input.previous ≡ some p → IsLineup p)
      → IsLineup (resolve_active_lineup json_le input)
  unfolding resolve_active_lineup
  resolve_active_lineup-IsLineup input h =
      let u = unique_observed_players json_le (frame_players input) in
      let found = candidate_players (values u.players) u.conflicted input in
      elim (Bool-cases (coverage_of input != present)) [
        | inl blind ↦ rw blind (
            no_current_evidence-IsLineup input (coverage_of input) (baseline input) u
              (baseline-KeptOk input h))
        | inr seen ↦ rw seen (
            settle_lineup-IsLineup input u found.0 (u.issues ++ found.1) (baseline input)
              (λ id. omega (
                arith,
                candidate_players-count id (values u.players) u.conflicted input,
                unique_observed_players-once json_le (frame_players input) id,
              ))
              (baseline-KeptOk input h))
      ]

  -- The lineup after a list of frames, each resolved with the lineup before.
  pub run_lineups : List ActiveLineupInput → ActiveLineupResolution → ActiveLineupResolution
  run_lineups [] r = r
  run_lineups (input ∷ inputs) r =
      run_lineups inputs (resolve_active_lineup json_le (record input { previous = some r }))

  run_lineups-IsLineup :
      (inputs : List ActiveLineupInput) (r : ActiveLineupResolution)
      → IsLineup r
      → IsLineup (run_lineups inputs r)
  unfolding run_lineups
  run_lineups-IsLineup [] r h = h
  run_lineups-IsLineup (input ∷ inputs) r h = run_lineups-IsLineup inputs _ (
      resolve_active_lineup-IsLineup (record input { previous = some r })
        (λ p e. subst IsLineup (cc) h))

  -- From the empty lineup, every run of frames leads to a lineup that has nobody, or five players on
  -- each side: their ids are different and of the form of a Steam64, and each stands on his side. At
  -- most 32 other players stand beside them, none of whom is in the lineup.
  pub lineups-IsLineup :
      (inputs : List ActiveLineupInput) (generation epoch : ℕ)
      → IsLineup (run_lineups inputs (empty_active_lineup generation epoch))
  unfolding empty_active_lineup
  lineups-IsLineup inputs generation epoch =
      run_lineups-IsLineup inputs (empty_active_lineup generation epoch) (record {
        sizes = inl (refl, refl);
        once = λ id. omega arith;
        steam64 = (tt, tt);
        sides = (tt, tt);
        apart = tt;
        few = omega arith;
      })
