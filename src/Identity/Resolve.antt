-- ===== src/Identity/Resolve.antt =====
-- packages/core/src/identity/resolve.ts: the identity of the observed players, from the roster, the
-- evidence and the resolution before.
use rival_hub_broadcast.Prelude.{
  ℕ, Bool, true, false, not, ◌&&◌, ◌||◌, Option, none, some, List, [], ◌∷◌, ◌++◌, map, String, ◌==◌,
  ◌!=◌, nat_eq, string_eq, option_eq, if◌then◌else◌, leb, ltb, any, every, length, add_text,
  max_safe_integer,
}
use rival_hub_broadcast.Prelude.Text.{trim}
use rival_hub_broadcast.Series.Types.{
  MatchContext, MatchFormat, MatchMapContext, MatchEntrantContext, bo1, bo3, bo5, SourceSide,
  side_eq, info, warning, error,
}
use rival_hub_broadcast.Runtime.Types.{coverage_eq, MapPhase, map_phase_eq}
use rival_hub_broadcast.Identity.Types.{
  IdentityState, unbound, resolving, matched, mismatch, state_eq, IdentityIssue, issue, no_details,
  NormalizedIdentityEvidence, ResolvedIdentityPlayer, UnresolvedObservedPlayer, IdentitySideMapping,
  IdentityCapabilities, IdentityResolution, identity_code_eq, severity_eq, context_unbound,
  roster_evidence_pending, roster_incomplete, missing_canonical_steam64,
  missing_canonical_display_name, duplicate_canonical_player_id, duplicate_canonical_steam64,
  map_not_confirmed, map_mismatch,
}
use rival_hub_broadcast.Identity.CanonicalIndex.{CanonicalPlayer, CanonicalIndex}

abbrev pub unknown_sides : IdentitySideMapping
unknown_sides = record { a = SourceSide.unknown; b = SourceSide.unknown }

unfoldable pub is_side_complete : IdentitySideMapping → Bool
is_side_complete m = m.a != SourceSide.unknown && m.b != SourceSide.unknown && m.a != m.b

-- The different entries of a list of players, as a set.
abbrev entries_of : List ResolvedIdentityPlayer → List String
entries_of [] = []
entries_of (p ∷ ps) = add_text p.entry_id (entries_of ps)

unfoldable pub capabilities_for :
    IdentityState → List ResolvedIdentityPlayer → IdentitySideMapping → IdentityCapabilities
unfolding is_side_complete
capabilities_for state players side_mapping = record {
  canonical_player_mapping = state != mismatch && not (length players == 0);
  canonical_team_branding =
      state == matched
      || (state == IdentityState.degraded
          && is_side_complete side_mapping
          && length (entries_of players) == 2);
  identity_dependent_result = state == matched;
  neutral_telemetry = true;
}

unfoldable pub create_resolution :
    IdentityState
    → ℕ
    → ℕ
    → List ResolvedIdentityPlayer
    → List UnresolvedObservedPlayer
    → IdentitySideMapping
    → List IdentityIssue
    → IdentityResolution
unfolding capabilities_for
create_resolution state generation epoch players unresolved side_mapping issues = record {
  state = state;
  source_generation = generation;
  map_epoch = epoch;
  players = players;
  unresolved = unresolved;
  side_mapping = side_mapping;
  issues = issues;
  capabilities = capabilities_for state players side_mapping;
}

abbrev maximum_map_count : MatchFormat → ℕ
maximum_map_count bo1 = 1
maximum_map_count bo3 = 3
maximum_map_count bo5 = 5

abbrev valid_slot : ℕ → MatchMapContext → Bool
valid_slot expected m =
    leb m.map_order max_safe_integer
    && leb 1 m.map_order
    && leb m.map_order expected
    && not (trim m.map_name == "")

-- The size of the set of the orders.
abbrev order_count : List ℕ → List MatchMapContext → ℕ
order_count seen [] = length seen
order_count seen (m ∷ ms) =
    order_count (if any (λ o. o == m.map_order) seen then seen else m.map_order ∷ seen) ms

unfoldable pub has_complete_canonical_map_set : MatchContext → Bool
unfolding trim
has_complete_canonical_map_set context =
    let expected = maximum_map_count context.format in
    length context.maps == expected
    && every (valid_slot expected) context.maps
    && order_count [] context.maps == expected

-- Whether a live map is not of the series, with the issue on an unknown map.
unfoldable pub known_map_issue :
    MatchContext → NormalizedIdentityEvidence → Bool → Bool × List IdentityIssue
unfolding has_complete_canonical_map_set trim
known_map_issue context evidence has_current_evidence = elim evidence.map_name [
  | none ↦ (false, [])
  | some name ↦
      if not has_current_evidence || trim name == "" || any (λ m. m.map_name == name) context.maps
      then (false, [])
      else if not (has_complete_canonical_map_set context)
      then (false, issue map_not_confirmed warning no_details ∷ [])
      else if evidence.map_phase == some MapPhase.live
      then (true, issue map_mismatch error no_details ∷ [])
      else (false, issue map_not_confirmed warning no_details ∷ [])
]

abbrev is_missing : Option String → Bool
is_missing none = true
is_missing (some text) = trim text == ""

unfoldable pub player_issues : CanonicalPlayer → List IdentityIssue
unfolding trim
player_issues p =
    let details = record no_details {
      canonical_player_id = some p.player_id;
      entry_id = some p.entry_id;
    } in
    (if is_missing p.steam64 then issue missing_canonical_steam64 warning details ∷ [] else [])
    ++ (if is_missing p.display_name
        then issue missing_canonical_display_name warning details ∷ []
        else [])

abbrev all_player_issues : List CanonicalPlayer → List IdentityIssue
all_player_issues [] = []
all_player_issues (p ∷ ps) = player_issues p ++ all_player_issues ps

abbrev roster_issues : MatchEntrantContext → List IdentityIssue
roster_issues entrant =
    if ltb (length entrant.players) 5
    then issue roster_incomplete warning (record no_details { entry_id = some entrant.entry_id })
      ∷ []
    else []

-- The issues of the roster itself.
unfoldable pub add_canonical_issues : MatchContext → CanonicalIndex → List IdentityIssue
unfolding player_issues
add_canonical_issues context canonical =
    all_player_issues canonical.all
    ++ (map
          (λ (id : String).
            issue duplicate_canonical_player_id error
              (record no_details { canonical_player_id = some id }))
          canonical.duplicate_player_ids
        ++ (map
              (λ (id : String).
                issue duplicate_canonical_steam64 error (record no_details { steam64 = some id }))
              canonical.duplicate_steam64
            ++ (roster_issues context.entrant_a ++ roster_issues context.entrant_b)))

unfoldable pub initial_resolving_resolution : IdentityResolution
unfolding create_resolution
initial_resolving_resolution =
    create_resolution resolving 0 0 [] [] unknown_sides
      (issue roster_evidence_pending info no_details ∷ [])

unfoldable pub unbound_identity_resolution : IdentityResolution
unfolding create_resolution
unbound_identity_resolution =
    create_resolution unbound 0 0 [] [] unknown_sides
      (issue context_unbound warning no_details ∷ [])
