-- ===== src/Identity/ActiveLineup/Resolve.antt =====
-- packages/core/src/identity/active-lineup.ts: the lineup kept, and the lineup found.
use rival_hub_broadcast.Prelude.{
  ℕ, Bool, true, false, not, ◌&&◌, ◌||◌, Option, none, some, List, [], ◌∷◌, ◌++◌, map, String, ◌==◌,
  ◌!=◌, nat_eq, string_eq, if◌then◌else◌, ltb, any, every, select, length, take, has_text, add_text,
  get_key, set_all, values, sort,
}
use rival_hub_broadcast.Prelude.Text.{text_le}
use rival_hub_broadcast.Series.Types.{SourceSide, ct, t, side_eq, info, warning}
use rival_hub_broadcast.Runtime.Types.{CoverageStatus, present, absent, coverage_eq}
use rival_hub_broadcast.Runtime.PlayerStats.{is_valid_steam64}
use rival_hub_broadcast.Identity.Types.{ObservedPlayer, Evidence, current, retained}
use rival_hub_broadcast.Identity.ActiveLineup.{
  ActiveLineupState, resolving, complete, degraded, LineupIssue, lineup_issue,
  allplayers_unavailable, allplayers_degraded, insufficient_candidates, ambiguous_candidates,
  retained_baseline, extra_observed_player, ActiveLineupPlayer, ActiveLineupResolution,
  ActiveLineupInput, max_lineup_extras, Candidate, is_previous_baseline, to_lineup_player,
  UniqueObservedPlayers, unique_observed_players, candidate_players,
}

abbrev pub source_le : ObservedPlayer → ObservedPlayer → Bool
source_le x y = text_le x.source_player_id y.source_player_id

abbrev pub not_selected : List String → ObservedPlayer → Bool
not_selected selected player = not (has_text player.source_player_id selected)

unfoldable pub extras_from : List ObservedPlayer → List String → List ObservedPlayer
extras_from players selected =
    take max_lineup_extras (sort source_le (select (not_selected selected) players))

abbrev pub by_source_id : List ObservedPlayer → List (String × ObservedPlayer)
by_source_id players = map (λ p. (p.source_player_id, p)) players

abbrev pub lineup_ids : List ActiveLineupPlayer → List String
lineup_ids players = map (λ p. p.source_player_id) players

-- `update` of retainPrevious: the player as the frame shows it, on the side of the lineup before.
unfoldable pub update_player :
    List (String × ObservedPlayer)
    → List String
    → ActiveLineupInput
    → Evidence
    → ActiveLineupPlayer
    → ActiveLineupPlayer
unfolding to_lineup_player
update_player shown conflicted input evidence player =
    let gone = record player { lineup_evidence = retained; observed = none } in
    elim (get_key player.source_player_id shown) [
      | none ↦ gone
      | some now ↦
          if has_text player.source_player_id conflicted
          then gone
          else to_lineup_player now input player.side evidence
    ]

abbrev is_retained : ActiveLineupPlayer → Bool
is_retained p = elim p.lineup_evidence [ retained ↦ true | current ↦ false ]

abbrev extras_issues : List ObservedPlayer → List LineupIssue
extras_issues [] = []
extras_issues (_ ∷ _) = lineup_issue extra_observed_player warning none ∷ []

unfoldable pub retain_previous :
    ActiveLineupResolution
    → List ObservedPlayer
    → List String
    → ActiveLineupInput
    → List LineupIssue
    → Evidence
    → ActiveLineupResolution
unfolding update_player extras_from
retain_previous previous players conflicted input issues evidence =
    let update = update_player (set_all [] (by_source_id players)) conflicted input evidence in
    let ct_players = map update previous.ct in
    let t_players = map update previous.t in
    let extras = extras_from players (lineup_ids (ct_players ++ t_players)) in
    record {
      state = degraded;
      source_generation = input.source_generation;
      map_epoch = input.map_epoch;
      ct = ct_players;
      t = t_players;
      extras = extras;
      issues =
          issues
          ++ (extras_issues extras
              ++ (if any is_retained ct_players || any is_retained t_players
                  then lineup_issue retained_baseline info none ∷ []
                  else []));
    }

-- The lineup before, where it may be kept.
unfoldable pub baseline : ActiveLineupInput → Option ActiveLineupResolution
unfolding is_previous_baseline
baseline input = elim input.previous [
  | none ↦ none
  | some p ↦ if p.map_epoch == input.map_epoch && is_previous_baseline p then some p else none
]

abbrev pub no_lineup :
    ActiveLineupState
    → ActiveLineupInput
    → List ObservedPlayer
    → List LineupIssue
    → ActiveLineupResolution
no_lineup state input extras issues = record {
  state = state;
  source_generation = input.source_generation;
  map_epoch = input.map_epoch;
  ct = [];
  t = [];
  extras = extras;
  issues = issues;
}

abbrev is_degraded : CoverageStatus → Bool
is_degraded coverage = coverage == CoverageStatus.degraded

abbrev pub no_evidence_issues : CoverageStatus → UniqueObservedPlayers → List LineupIssue
no_evidence_issues coverage u =
    u.issues
    ++ lineup_issue (if is_degraded coverage then allplayers_degraded else allplayers_unavailable)
        warning none
      ∷ []

-- `coverage` is not `present`.
unfoldable pub no_current_evidence :
    ActiveLineupInput
    → CoverageStatus
    → Option ActiveLineupResolution
    → UniqueObservedPlayers
    → ActiveLineupResolution
unfolding retain_previous
no_current_evidence input coverage kept u =
    let issues = no_evidence_issues coverage u in
    elim kept [
      | some p ↦ retain_previous p (values u.players) u.conflicted input issues retained
      | none ↦ no_lineup (if is_degraded coverage then degraded else resolving) input [] issues
    ]

abbrev pub candidate_on : SourceSide → Candidate → Bool
candidate_on side c = c.side == side

abbrev pub candidate_id : Candidate → String
candidate_id c = c.observed.source_player_id

abbrev distinct_ids : List Candidate → List String
distinct_ids [] = []
distinct_ids (c ∷ cs) = add_text (candidate_id c) (distinct_ids cs)

-- `hasExactFiveVsFive`
unfoldable pub has_exact_five_vs_five : List Candidate → Bool
unfolding is_valid_steam64
has_exact_five_vs_five candidates =
    length (select (candidate_on ct) candidates) == 5
    && length (select (candidate_on t) candidates) == 5
    && length (distinct_ids candidates) == 10
    && every (λ c. is_valid_steam64 (candidate_id c)) candidates

abbrev pub lineup_of : ActiveLineupInput → SourceSide → List Candidate → List ActiveLineupPlayer
lineup_of input side candidates =
    map (λ c. to_lineup_player c.observed input c.side current)
      (select (candidate_on side) candidates)

unfoldable pub complete_lineup :
    ActiveLineupInput
    → List ObservedPlayer
    → List Candidate
    → List LineupIssue
    → ActiveLineupResolution
unfolding extras_from to_lineup_player
complete_lineup input players candidates issues =
    let extras = extras_from players (map candidate_id candidates) in
    record {
      state = complete;
      source_generation = input.source_generation;
      map_epoch = input.map_epoch;
      ct = lineup_of input ct candidates;
      t = lineup_of input t candidates;
      extras = extras;
      issues = issues ++ extras_issues extras;
    }

-- Neither five on each side nor a lineup to keep.
unfoldable pub unresolved_lineup :
    ActiveLineupInput
    → List ObservedPlayer
    → List Candidate
    → List LineupIssue
    → ActiveLineupResolution
unresolved_lineup input players candidates issues =
    let too_many =
      ltb 5 (length (select (candidate_on ct) candidates))
      || ltb 5 (length (select (candidate_on t) candidates)) in
    no_lineup resolving input (take max_lineup_extras players) (
      issues
      ++ lineup_issue (if too_many then ambiguous_candidates else insufficient_candidates) warning
          none
        ∷ [])

-- A frame that covers all players.
unfoldable pub settle_lineup :
    ActiveLineupInput
    → UniqueObservedPlayers
    → List Candidate
    → List LineupIssue
    → Option ActiveLineupResolution
    → ActiveLineupResolution
unfolding has_exact_five_vs_five complete_lineup retain_previous unresolved_lineup
settle_lineup input u candidates issues kept =
    if has_exact_five_vs_five candidates
    then complete_lineup input (values u.players) candidates issues
    else elim kept [
      | some p ↦ retain_previous p (values u.players) u.conflicted input issues current
      | none ↦ unresolved_lineup input (values u.players) candidates issues
    ]

unfoldable pub coverage_of : ActiveLineupInput → CoverageStatus
coverage_of input = elim input.all_players_coverage [ none ↦ absent | some c ↦ c ]

abbrev pub frame_players : ActiveLineupInput → List ObservedPlayer
frame_players input = elim input.all_players [ none ↦ [] | some players ↦ players ]

unfoldable pub resolve_active_lineup :
    (ObservedPlayer → ObservedPlayer → Bool) → ActiveLineupInput → ActiveLineupResolution
unfolding coverage_of unique_observed_players candidate_players no_current_evidence settle_lineup
    baseline
resolve_active_lineup json_le input =
    let u = unique_observed_players json_le (frame_players input) in
    let found = candidate_players (values u.players) u.conflicted input in
    if coverage_of input != present
    then no_current_evidence input (coverage_of input) (baseline input) u
    else settle_lineup input u found.0 (u.issues ++ found.1) (baseline input)

unfoldable pub empty_active_lineup : ℕ → ℕ → ActiveLineupResolution
empty_active_lineup generation epoch = record {
  state = resolving;
  source_generation = generation;
  map_epoch = epoch;
  ct = [];
  t = [];
  extras = [];
  issues = [];
}
