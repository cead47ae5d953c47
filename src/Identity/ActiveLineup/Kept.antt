-- ===== src/Identity/ActiveLineup/Kept.antt =====
-- On one map, only a frame of five and five changes the lineup of
-- packages/core/src/identity/active-lineup.ts.
use rival_hub_broadcast.Prelude.{
  ◌≡◌, ◌⊎◌, inl, inr, Bool, true, some, List, ◌++◌, ◌!=◌, nat_eq, string_eq, arith, Bool-cases,
  length, values,
}
use rival_hub_broadcast.Series.Types.{side_eq}
use rival_hub_broadcast.Runtime.Types.{CoverageStatus, present, coverage_eq}
use rival_hub_broadcast.Identity.Types.{ObservedPlayer, retained, current}
use rival_hub_broadcast.Identity.ActiveLineup.{
  ActiveLineupResolution, ActiveLineupInput, Candidate, LineupIssue, UniqueObservedPlayers,
  unique_observed_players, candidate_players, is_previous_baseline,
}
use rival_hub_broadcast.Identity.ActiveLineup.Resolve.{
  lineup_ids, baseline, no_current_evidence, has_exact_five_vs_five, settle_lineup, coverage_of,
  frame_players, resolve_active_lineup, no_evidence_issues,
}
use rival_hub_broadcast.Identity.ActiveLineup.Stable.{retain_previous-ids}

settle_lineup-ids :
    (input : ActiveLineupInput) (u : UniqueObservedPlayers) (cs : List Candidate)
    (issues : List LineupIssue) (p : ActiveLineupResolution)
    → let r = settle_lineup input u cs issues (some p) in
      (has_exact_five_vs_five cs ≡ true)
      ⊎ ((lineup_ids r.ct ≡ lineup_ids p.ct) × (lineup_ids r.t ≡ lineup_ids p.t))
unfolding settle_lineup
settle_lineup-ids input u cs issues p = elim (Bool-cases (has_exact_five_vs_five cs)) [
  | inl exact ↦ inl exact
  | inr other ↦
      rw other (inr (retain_previous-ids p (values u.players) u.conflicted input issues current))
]

baseline-some :
    (input : ActiveLineupInput) (p : ActiveLineupResolution)
    → input.previous ≡ some p
    → p.map_epoch ≡ input.map_epoch
    → length p.ct ≡ 5
    → length p.t ≡ 5
    → baseline input ≡ some p
unfolding baseline is_previous_baseline
baseline-some input p is epoch five_ct five_t = rw (is, baseline) (ground arith)

no_current_evidence-ids :
    (input : ActiveLineupInput) (coverage : CoverageStatus) (p : ActiveLineupResolution)
    (u : UniqueObservedPlayers)
    → let r = no_current_evidence input coverage (some p) u in
      (lineup_ids r.ct ≡ lineup_ids p.ct) × (lineup_ids r.t ≡ lineup_ids p.t)
unfolding no_current_evidence
no_current_evidence-ids input coverage p u =
    retain_previous-ids p (values u.players) u.conflicted input (no_evidence_issues coverage u)
      retained

-- The candidates that the frame of an input has.
abbrev pub candidates_of :
    (ObservedPlayer → ObservedPlayer → Bool) → ActiveLineupInput → List Candidate
candidates_of json_le input =
    let u = unique_observed_players json_le (frame_players input) in
    (candidate_players (values u.players) u.conflicted input).0

-- Where the lineup before has five players on each side and is of the same map epoch, the lineup has
-- the same players on the same sides in the same order, unless the frame covers all players and has
-- exactly five candidates on each side, all different and with Steam64s.
pub resolve_active_lineup-keeps :
    (json_le : ObservedPlayer → ObservedPlayer → Bool) (input : ActiveLineupInput)
    (p : ActiveLineupResolution)
    → input.previous ≡ some p
    → p.map_epoch ≡ input.map_epoch
    → length p.ct ≡ 5
    → length p.t ≡ 5
    → let r = resolve_active_lineup json_le input in
      ((coverage_of input ≡ present)
        × (has_exact_five_vs_five (candidates_of json_le input) ≡ true))
      ⊎ ((lineup_ids r.ct ≡ lineup_ids p.ct) × (lineup_ids r.t ≡ lineup_ids p.t))
unfolding resolve_active_lineup
resolve_active_lineup-keeps json_le input p is epoch five_ct five_t =
    let u = unique_observed_players json_le (frame_players input) in
    let found = candidate_players (values u.players) u.conflicted input in
    rw (baseline-some input p is epoch five_ct five_t)
      (elim (Bool-cases (coverage_of input != present)) [
        | inl blind ↦ rw blind (inr (no_current_evidence-ids input (coverage_of input) p u))
        | inr seen ↦
            let covered : coverage_of input ≡ present = ground arith in
            rw seen (elim (settle_lineup-ids input u found.0 (u.issues ++ found.1) p) [
              | inl exact ↦ inl (covered, exact)
              | inr ids ↦ inr ids
            ])
      ])
