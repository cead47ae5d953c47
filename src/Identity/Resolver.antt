-- ===== src/Identity/Resolver.antt =====
-- packages/core/src/identity/resolve.ts: resolveIdentity, and the resolver that keeps its result.
use rival_hub_broadcast.Prelude.{
  ℕ, Bool, true, false, not, ◌&&◌, ◌||◌, Option, none, some, List, [], ◌∷◌, ◌++◌, map, String, ◌==◌,
  ◌!=◌, nat_eq, string_eq, option_eq, if◌then◌else◌, leb, any, every, select, length, has_key,
  set_key, set_all, values,
}
use rival_hub_broadcast.Series.Types.{
  MatchContext, MatchEntrantContext, SourceSide, ct, t, side_eq, info, warning, error,
}
use rival_hub_broadcast.Runtime.Types.{CoverageStatus, absent, present, coverage_eq}
use rival_hub_broadcast.Runtime.PlayerStats.{is_valid_steam64}
use rival_hub_broadcast.Identity.Types.{
  IdentityState, resolving, matched, mismatch, state_eq, IdentityIssue, issue, no_details,
  IdentityObservationInput, NormalizedIdentityEvidence, ResolvedIdentityPlayer, IdentitySideMapping,
  IdentityResolution, retained, ObservedPlayer, normalize_identity_evidence, identity_code_eq,
  severity_eq, allplayers_unavailable, allplayers_degraded, partial_roster_evidence,
  source_generation_changed, map_epoch_changed, ambiguous_side_mapping,
  lineup_differs_from_expected,
}
use rival_hub_broadcast.Identity.CanonicalIndex.{
  CanonicalPlayer, CanonicalIndex, build_canonical_index,
}
use rival_hub_broadcast.Identity.SideMapping.{derive_side_mapping}
use rival_hub_broadcast.Identity.Players.{
  ResolvedPlayers, resolve_current_players, sort_resolved_players,
}
use rival_hub_broadcast.Identity.Resolve.{
  unknown_sides, is_side_complete, create_resolution, known_map_issue, add_canonical_issues,
  initial_resolving_resolution, unbound_identity_resolution,
}

-- The resolution before, where it is of the same source generation and map epoch.
abbrev pub compatible : ℕ → ℕ → IdentityResolution → Bool
compatible generation epoch previous =
    previous.source_generation == generation && previous.map_epoch == epoch

unfoldable pub compatible_previous :
    NormalizedIdentityEvidence → Option IdentityResolution → Option IdentityResolution
compatible_previous evidence none = none
compatible_previous evidence (some previous) =
    if compatible evidence.source_generation evidence.map_epoch previous
    then some previous
    else none

unfoldable pub baseline_issues :
    NormalizedIdentityEvidence → Option IdentityResolution → List IdentityIssue
baseline_issues evidence none = []
baseline_issues evidence (some previous) =
    (if previous.source_generation == evidence.source_generation
      then []
      else issue source_generation_changed info no_details ∷ [])
    ++ (if previous.map_epoch == evidence.map_epoch
        then []
        else issue map_epoch_changed info no_details ∷ [])

abbrev pub of_entry : String → ResolvedIdentityPlayer → Bool
of_entry entry_id p = p.entry_id == entry_id

abbrev canonical_of_entry : String → CanonicalPlayer → Bool
canonical_of_entry entry_id p = p.entry_id == entry_id

abbrev has_steam64 : CanonicalPlayer → Bool
has_steam64 p = elim p.steam64 [ none ↦ false | some id ↦ is_valid_steam64 id ]

abbrev five_listed : (CanonicalPlayer → Bool) → CanonicalIndex → MatchEntrantContext → Bool
five_listed test canonical entrant =
    leb 5 (length (select (λ p. canonical_of_entry entrant.entry_id p && test p) canonical.all))

-- `canonicalRosterComplete`
unfoldable pub roster_complete : MatchContext → CanonicalIndex → Bool
roster_complete context canonical =
    five_listed (λ p. true) canonical context.entrant_a
    && five_listed (λ p. true) canonical context.entrant_b

-- `canonicalFiveSteam64Ready`
unfoldable pub five_steam64_ready : MatchContext → CanonicalIndex → Bool
unfolding is_valid_steam64
five_steam64_ready context canonical =
    length canonical.duplicate_steam64 == 0
    && five_listed has_steam64 canonical context.entrant_a
    && five_listed has_steam64 canonical context.entrant_b

abbrev pub retain : ResolvedIdentityPlayer → ResolvedIdentityPlayer
retain p = record p { evidence = retained }

-- The previous resolution again, in a state and with the players marked as retained.
unfoldable pub retained_resolution :
    IdentityState
    → NormalizedIdentityEvidence
    → IdentityResolution
    → List IdentityIssue
    → IdentityResolution
unfolding create_resolution
retained_resolution state evidence previous issues =
    create_resolution state evidence.source_generation evidence.map_epoch
      (map retain previous.players) previous.unresolved previous.side_mapping issues

abbrev pub retained_state : IdentityState → IdentityState
retained_state mismatch = mismatch
retained_state matched = matched
retained_state _ = IdentityState.degraded

-- The branch with no roster in the frame.
unfoldable pub without_roster :
    NormalizedIdentityEvidence → Option IdentityResolution → List IdentityIssue → IdentityResolution
unfolding retained_resolution create_resolution
without_roster evidence previous before =
    let code =
      if evidence.all_players_coverage == CoverageStatus.degraded
      then allplayers_degraded
      else allplayers_unavailable in
    let issues = before ++ issue code warning no_details ∷ [] in
    let pending =
      create_resolution resolving evidence.source_generation evidence.map_epoch [] [] unknown_sides
        issues in
    elim previous [
      | none ↦ pending
      | some p ↦
          if length p.players == 0
          then pending
          else retained_resolution (retained_state p.state) evidence p issues
    ]

abbrev pub on_side : SourceSide → ObservedPlayer → Bool
on_side side p = p.side == some side

-- `currentObservedFiveVsFiveEvidence`
unfoldable pub observed_five_vs_five :
    NormalizedIdentityEvidence → List ObservedPlayer → Bool → Bool
observed_five_vs_five evidence players duplicate_observed =
    evidence.all_players_coverage == present
    && length players == 10
    && not duplicate_observed
    && every (λ p. on_side ct p || on_side t p) players
    && length (select (on_side ct) players) == 5
    && length (select (on_side t) players) == 5

-- `currentCanonicalFiveVsFiveEvidence`
unfoldable pub canonical_five_vs_five :
    MatchContext → Bool → ResolvedPlayers → IdentitySideMapping → Bool
unfolding is_side_complete
canonical_five_vs_five context observed_five r side_mapping =
    observed_five
    && length r.current_resolved == 10
    && length r.unresolved == 0
    && length (select (of_entry context.entrant_a.entry_id) r.current_resolved) == 5
    && length (select (of_entry context.entrant_b.entry_id) r.current_resolved) == 5
    && every (λ p. p.side != SourceSide.unknown) r.current_resolved
    && is_side_complete side_mapping

abbrev is_ambiguous : IdentityIssue → Bool
is_ambiguous i = i.code == ambiguous_side_mapping && i.severity == error

-- `currentPositiveContradiction`
unfoldable pub is_contradicted : ResolvedPlayers → Bool → List IdentityIssue → CanonicalIndex → Bool
is_contradicted r map_mismatched issues canonical =
    r.duplicate_observed
    || map_mismatched
    || any is_ambiguous issues
    || not (length canonical.duplicate_player_ids == 0)
    || not (length canonical.duplicate_steam64 == 0)

abbrev pub by_canonical_id : List ResolvedIdentityPlayer → List (String × ResolvedIdentityPlayer)
by_canonical_id players = map (λ p. (p.canonical_player_id, p)) players

-- The players of the resolution before that this frame does not show, added as retained.
unfoldable pub add_retained :
    List (String × ResolvedIdentityPlayer)
    → List ResolvedIdentityPlayer
    → List (String × ResolvedIdentityPlayer)
add_retained entries [] = entries
add_retained entries (p ∷ ps) =
    add_retained
      (if has_key p.canonical_player_id entries
        then entries
        else set_key p.canonical_player_id (retain p) entries)
      ps

abbrev starter_seen : List ResolvedIdentityPlayer → CanonicalPlayer → Bool
starter_seen players p = any (λ r. r.is_starter && r.canonical_player_id == p.player_id) players

abbrev lineup_differs : CanonicalIndex → List ResolvedIdentityPlayer → Bool
lineup_differs canonical players =
    any (λ r. not r.is_starter) players
    || any (λ p. p.is_starter && not (starter_seen players p)) canonical.all

unfoldable pub lineup_issues :
    Bool → CanonicalIndex → List ResolvedIdentityPlayer → List IdentityIssue
lineup_issues five canonical players =
    if five && lineup_differs canonical players
    then issue lineup_differs_from_expected warning no_details ∷ []
    else []

unfoldable pub final_state : Bool → MatchContext → CanonicalIndex → Bool → IdentityState
unfolding roster_complete five_steam64_ready
final_state contradicted context canonical five =
    if contradicted
    then mismatch
    else if roster_complete context canonical && five_steam64_ready context canonical && five
    then matched
    else IdentityState.degraded

abbrev pub merged :
    Option IdentityResolution
    → Bool
    → Bool
    → List ResolvedIdentityPlayer
    → List (String × ResolvedIdentityPlayer)
merged none observed_five contradicted players = set_all [] (by_canonical_id players)
merged (some previous) observed_five contradicted players =
    if not observed_five && not contradicted
    then add_retained (set_all [] (by_canonical_id players)) previous.players
    else set_all [] (by_canonical_id players)

-- Whether a degraded frame leaves a matched resolution as it is.
abbrev pub keeps_match : NormalizedIdentityEvidence → Bool → IdentityResolution → Bool
keeps_match evidence contradicted previous =
    evidence.all_players_coverage == CoverageStatus.degraded
    && previous.state == matched
    && not (length previous.players == 0)
    && not contradicted

-- The resolution of a frame with a roster, where no resolution before is kept.
unfoldable pub fresh_resolution :
    MatchContext
    → NormalizedIdentityEvidence
    → CanonicalIndex
    → Option IdentityResolution
    → ResolvedPlayers
    → IdentitySideMapping
    → List IdentityIssue
    → Bool
    → Bool
    → IdentityResolution
unfolding add_retained sort_resolved_players lineup_issues final_state create_resolution
    canonical_five_vs_five
fresh_resolution context evidence canonical previous r side_mapping issues observed_five
      contradicted =
    let five = canonical_five_vs_five context observed_five r side_mapping in
    create_resolution (final_state contradicted context canonical five) evidence.source_generation
      evidence.map_epoch
      (sort_resolved_players
        (values (merged previous observed_five contradicted r.current_resolved)))
      r.unresolved side_mapping (issues ++ lineup_issues five canonical r.current_resolved)

abbrev pub partial_issues : Bool → List IdentityIssue
partial_issues observed_five =
    if observed_five then [] else issue partial_roster_evidence warning no_details ∷ []

-- The end of that branch: a match that is kept, or the fresh resolution.
unfoldable pub settle_roster :
    MatchContext
    → NormalizedIdentityEvidence
    → CanonicalIndex
    → Option IdentityResolution
    → ResolvedPlayers
    → IdentitySideMapping
    → List IdentityIssue
    → Bool
    → Bool
    → IdentityResolution
unfolding retained_resolution fresh_resolution
settle_roster context evidence canonical none r sides issues observed_five contradicted =
    fresh_resolution context evidence canonical none r sides issues observed_five contradicted
settle_roster context evidence canonical (some p) r sides issues observed_five contradicted =
    if keeps_match evidence contradicted p
    then retained_resolution matched evidence p issues
    else fresh_resolution context evidence canonical (some p) r sides issues observed_five
        contradicted

abbrev pub noted_issues : NormalizedIdentityEvidence → List IdentityIssue → List IdentityIssue
noted_issues evidence before =
    if evidence.all_players_coverage == CoverageStatus.degraded
    then before ++ issue allplayers_degraded warning no_details ∷ []
    else before

-- The branch with a roster in the frame. `previous` is the compatible one.
unfoldable pub with_roster :
    MatchContext
    → NormalizedIdentityEvidence
    → CanonicalIndex
    → Option IdentityResolution
    → List ObservedPlayer
    → Bool
    → List IdentityIssue
    → IdentityResolution
unfolding resolve_current_players derive_side_mapping observed_five_vs_five is_contradicted
    settle_roster
with_roster context evidence canonical previous players map_mismatched before =
    let r = resolve_current_players players canonical (noted_issues evidence before) in
    let sides = derive_side_mapping context evidence r.current_resolved previous in
    let five = observed_five_vs_five evidence players r.duplicate_observed in
    let issues = r.issues ++ (sides.1 ++ partial_issues five) in
    settle_roster context evidence canonical previous r sides.0 issues five
      (is_contradicted r map_mismatched issues canonical)

-- What the frame has of a roster decides between the two. `kept` is the compatible resolution.
unfoldable pub resolve_roster :
    MatchContext
    → NormalizedIdentityEvidence
    → CanonicalIndex
    → Option IdentityResolution
    → Option (List ObservedPlayer)
    → Bool
    → List IdentityIssue
    → IdentityResolution
unfolding without_roster with_roster
resolve_roster context evidence canonical kept none map_mismatched before =
    without_roster evidence kept before
resolve_roster context evidence canonical kept (some players) map_mismatched before =
    if evidence.all_players_coverage == absent
    then without_roster evidence kept before
    else with_roster context evidence canonical kept players map_mismatched before

abbrev pub has_roster : NormalizedIdentityEvidence → Bool
has_roster evidence = elim evidence.all_players [ none ↦ false | some _ ↦ true ]

unfoldable pub resolve_bound :
    MatchContext → NormalizedIdentityEvidence → Option IdentityResolution → IdentityResolution
unfolding compatible_previous baseline_issues build_canonical_index add_canonical_issues
    known_map_issue resolve_roster
resolve_bound context evidence previous =
    let canonical = build_canonical_index context in
    let map_check = known_map_issue context evidence (has_roster evidence) in
    resolve_roster context evidence canonical (compatible_previous evidence previous)
      evidence.all_players map_check.0
      (baseline_issues evidence previous ++ (add_canonical_issues context canonical ++ map_check.1))

unfoldable pub resolve_identity :
    Option MatchContext → IdentityObservationInput → Option IdentityResolution → IdentityResolution
unfolding resolve_bound normalize_identity_evidence unbound_identity_resolution
resolve_identity none input previous = unbound_identity_resolution
resolve_identity (some context) input previous =
    resolve_bound context (normalize_identity_evidence input) previous

-- `IdentityResolver`
pub record IdentityResolver : Type 0 where
  pub context : Option MatchContext
  pub resolution : IdentityResolution

unfoldable pub create_identity_resolver : Option MatchContext → IdentityResolver
unfolding initial_resolving_resolution unbound_identity_resolution
create_identity_resolver none = record { context = none; resolution = unbound_identity_resolution }
create_identity_resolver (some context) = record {
  context = some context;
  resolution = initial_resolving_resolution;
}

unfoldable pub bind : MatchContext → IdentityResolver → IdentityResolver
unfolding initial_resolving_resolution
bind context r = record r { context = some context; resolution = initial_resolving_resolution }

unfoldable pub unbind : IdentityResolver → IdentityResolver
unfolding unbound_identity_resolution
unbind r = record r { context = none; resolution = unbound_identity_resolution }

unfoldable pub resolve : IdentityObservationInput → IdentityResolver → IdentityResolver
unfolding resolve_identity
resolve input r = record r { resolution = resolve_identity r.context input (some r.resolution) }
