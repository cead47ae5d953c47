-- ===== src/Identity/Players.antt =====
-- packages/core/src/identity/resolve.ts, resolveCurrentPlayers: the observed players, one by one.
use rival_hub_broadcast.Prelude.{
  Bool, true, false, Option, none, some, List, [], ◌∷◌, ◌++◌, String, ◌==◌, string_eq,
  if◌then◌else◌, has_text, has_key, get_key, set_key, values, sort,
}
use rival_hub_broadcast.Prelude.Text.{text_le}
use rival_hub_broadcast.Series.Types.{SourceSide, side_eq, warning, error}
use rival_hub_broadcast.Runtime.PlayerStats.{is_valid_steam64}
use rival_hub_broadcast.Identity.Types.{
  ObservedPlayer, ResolvedIdentityPlayer, UnresolvedObservedPlayer, IdentityIssue, current, issue,
  no_details, bot_or_noncanonical_source_id, duplicate_observed_identity, unexpected_human_steam64,
  unknown_observed_side,
}
use rival_hub_broadcast.Identity.CanonicalIndex.{CanonicalPlayer, CanonicalIndex}

abbrev pub resolved_le : ResolvedIdentityPlayer → ResolvedIdentityPlayer → Bool
resolved_le x y =
    if x.entry_id == y.entry_id
    then text_le x.canonical_player_id y.canonical_player_id
    else text_le x.entry_id y.entry_id

unfoldable pub sort_resolved_players : List ResolvedIdentityPlayer → List ResolvedIdentityPlayer
sort_resolved_players players = sort resolved_le players

unfoldable pub sort_unresolved : List UnresolvedObservedPlayer → List UnresolvedObservedPlayer
sort_unresolved players = sort (λ x y. text_le x.source_player_id y.source_player_id) players

abbrev pub side_of : ObservedPlayer → SourceSide
side_of observed = elim observed.side [ none ↦ SourceSide.unknown | some side ↦ side ]

unfoldable pub unresolved_from_observed : ObservedPlayer → UnresolvedObservedPlayer
unresolved_from_observed observed = record {
  source_player_id = observed.source_player_id;
  display_name = observed.display_name;
  side = side_of observed;
  observer_slot = observed.observer_slot;
}

abbrev pub resolved_from : CanonicalPlayer → ObservedPlayer → ResolvedIdentityPlayer
resolved_from player observed = record {
  canonical_player_id = player.player_id;
  entry_id = player.entry_id;
  steam64 = observed.source_player_id;
  display_name = player.display_name;
  avatar_url = player.avatar_url;
  is_starter = player.is_starter;
  source_player_id = some observed.source_player_id;
  observed_display_name = observed.display_name;
  observer_slot = observed.observer_slot;
  side = side_of observed;
  evidence = current;
}

-- What the loop carries: the resolved players by their canonical id, in the order found.
pub record Resolving : Type 0 where
  pub resolved : List (String × ResolvedIdentityPlayer)
  pub unresolved : List UnresolvedObservedPlayer
  pub seen : List String
  pub duplicate_observed : Bool
  pub unexpected_human : Bool
  pub issues : List IdentityIssue

abbrev bot_issue : String → IdentityIssue
bot_issue id =
    issue bot_or_noncanonical_source_id warning (record no_details { source_player_id = some id })

abbrev repeated_issue : String → IdentityIssue
repeated_issue id =
    issue duplicate_observed_identity warning
      (record no_details { source_player_id = some id; steam64 = some id })

abbrev unexpected_issue : String → IdentityIssue
unexpected_issue id =
    issue unexpected_human_steam64 warning
      (record no_details { source_player_id = some id; steam64 = some id })

abbrev ambiguous_issue : String → String → IdentityIssue
ambiguous_issue id player_id = issue duplicate_observed_identity error (record no_details {
  source_player_id = some id;
  steam64 = some id;
  canonical_player_id = some player_id;
})

abbrev side_unknown_issues : CanonicalPlayer → ObservedPlayer → List IdentityIssue
side_unknown_issues player observed =
    if side_of observed == SourceSide.unknown
    then issue unknown_observed_side warning (record no_details {
      source_player_id = some observed.source_player_id;
      canonical_player_id = some player.player_id;
    })
      ∷ []
    else []

-- The end of one round, where the roster has the player of a Steam64.
unfoldable pub resolve_as : CanonicalPlayer → ObservedPlayer → Resolving → Resolving
resolve_as player observed st =
    if has_key player.player_id st.resolved
    then record st {
      duplicate_observed = true;
      issues = st.issues ++ ambiguous_issue observed.source_player_id player.player_id ∷ [];
    }
    else record st {
      resolved = set_key player.player_id (resolved_from player observed) st.resolved;
      issues = st.issues ++ side_unknown_issues player observed;
    }

-- The roster's player of a Steam64, if there is one.
unfoldable pub resolve_canonical : Option CanonicalPlayer → ObservedPlayer → Resolving → Resolving
unfolding resolve_as unresolved_from_observed
resolve_canonical (some player) observed st = resolve_as player observed st
resolve_canonical none observed st = record st {
  unexpected_human = true;
  issues = st.issues ++ unexpected_issue observed.source_player_id ∷ [];
  unresolved = st.unresolved ++ unresolved_from_observed observed ∷ [];
}

-- One round of the loop.
unfoldable pub resolve_observed : CanonicalIndex → ObservedPlayer → Resolving → Resolving
unfolding resolve_canonical unresolved_from_observed is_valid_steam64
resolve_observed canonical observed st =
    let id = observed.source_player_id in
    if is_valid_steam64 id
    then (if has_text id st.seen
        then record st { issues = st.issues ++ repeated_issue id ∷ [] }
        else resolve_canonical (get_key id canonical.by_steam64) observed
            (record st { seen = st.seen ++ id ∷ [] }))
    else record st {
      issues = st.issues ++ bot_issue id ∷ [];
      unresolved = st.unresolved ++ unresolved_from_observed observed ∷ [];
    }

unfoldable pub resolve_all : CanonicalIndex → List ObservedPlayer → Resolving → Resolving
unfolding resolve_observed
resolve_all canonical [] st = st
resolve_all canonical (p ∷ ps) st = resolve_all canonical ps (resolve_observed canonical p st)

abbrev pub nothing_resolved : List IdentityIssue → Resolving
nothing_resolved issues = record {
  resolved = [];
  unresolved = [];
  seen = [];
  duplicate_observed = false;
  unexpected_human = false;
  issues = issues;
}

pub record ResolvedPlayers : Type 0 where
  pub current_resolved : List ResolvedIdentityPlayer
  pub unresolved : List UnresolvedObservedPlayer
  pub duplicate_observed : Bool
  pub unexpected_human : Bool
  pub issues : List IdentityIssue

unfoldable pub resolve_current_players :
    List ObservedPlayer → CanonicalIndex → List IdentityIssue → ResolvedPlayers
unfolding resolve_all sort_resolved_players sort_unresolved
resolve_current_players players canonical issues =
    let sorted = sort (λ x y. text_le x.source_player_id y.source_player_id) players in
    let st = resolve_all canonical sorted (nothing_resolved issues) in
    record {
      current_resolved = sort_resolved_players (values st.resolved);
      unresolved = sort_unresolved st.unresolved;
      duplicate_observed = st.duplicate_observed;
      unexpected_human = st.unexpected_human;
      issues = st.issues;
    }
