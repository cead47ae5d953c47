-- ===== src/Identity/SideMapping.antt =====
-- packages/core/src/identity/side-mapping.ts: which entrant plays on which side.
use rival_hub_broadcast.Prelude.{
  Bool, ◌&&◌, Option, none, some, List, [], ◌∷◌, ◌++◌, String, ◌==◌, ◌!=◌, string_eq, option_eq,
  if◌then◌else◌, any,
}
use rival_hub_broadcast.Prelude.Text.{trim}
use rival_hub_broadcast.Series.Types.{MatchContext, SourceSide, ct, t, side_eq, warning, error}
use rival_hub_broadcast.Identity.Types.{
  NormalizedIdentityEvidence, MapSideNames, ResolvedIdentityPlayer, IdentityResolution,
  IdentitySideMapping, IdentityIssue, ambiguous_side_mapping, side_mapping_conflict, issue,
  no_details,
}

pub data Entry : Type 0 where
  entry_a entry_b : Entry

unfoldable pub previous_side : Option IdentityResolution → Entry → SourceSide
previous_side none entry = SourceSide.unknown
previous_side (some previous) entry_a = previous.side_mapping.a
previous_side (some previous) entry_b = previous.side_mapping.b

-- `name?.trim()`
abbrev trimmed : Option String → Option String
trimmed none = none
trimmed (some name) = some (trim name)

abbrev side_name : (MapSideNames → Option String) → Option MapSideNames → Option String
side_name side none = none
side_name side (some names) = trimmed (side names)

abbrev entrant_name : MatchContext → String → String
entrant_name context entry_id =
    if context.entrant_a.entry_id == entry_id
    then trim context.entrant_a.name
    else if context.entrant_b.entry_id == entry_id
    then trim context.entrant_b.name
    else ""

-- The side whose name is the entrant's, unless both or none are.
abbrev side_by_names : Option String → Option String → String → Option SourceSide
side_by_names ct_name t_name name =
    let on_ct = ct_name == some name in
    let on_t = t_name == some name in
    if on_ct then (if on_t then none else some ct) else if on_t then some t else none

unfoldable pub derive_side_from_map_names :
    MatchContext → NormalizedIdentityEvidence → String → Option SourceSide
derive_side_from_map_names context evidence entry_id =
    let ct_name = side_name (λ n. n.ct) evidence.map_side_names in
    let t_name = side_name (λ n. n.t) evidence.map_side_names in
    if ct_name == none && t_name == none
    then none
    else let name = entrant_name context entry_id in
      if name == "" then none else side_by_names ct_name t_name name

abbrev seen_on : SourceSide → String → List ResolvedIdentityPlayer → Bool
seen_on side entry_id players = any (λ p. p.entry_id == entry_id && p.side == side) players

abbrev side_issue : String → IdentityIssue
side_issue entry_id =
    issue ambiguous_side_mapping error (record no_details { entry_id = some entry_id })

-- The known sides of an entrant's players: none if no player shows one, `unknown` if they differ.
unfoldable pub derive_side_from_players :
    String → List ResolvedIdentityPlayer → Option SourceSide × List IdentityIssue
derive_side_from_players entry_id players =
    if seen_on ct entry_id players
    then (if seen_on t entry_id players
        then (some SourceSide.unknown, side_issue entry_id ∷ [])
        else (some ct, []))
    else if seen_on t entry_id players
    then (some t, [])
    else (none, [])

abbrev conflict_issue : String → SourceSide → SourceSide → IdentityIssue
conflict_issue entry_id observed map_side = issue side_mapping_conflict warning (record no_details {
  entry_id = some entry_id;
  observed_side = some observed;
  map_side = some map_side;
})

-- A player's side is the proof; the names on the map only stand in where there is none.
abbrev choose_side :
    String → Option SourceSide → Option SourceSide → SourceSide → SourceSide × List IdentityIssue
choose_side entry_id (some SourceSide.unknown) map_side old = (SourceSide.unknown, [])
choose_side entry_id (some side) none old = (side, [])
choose_side entry_id (some side) (some other) old =
    (side, if other == side then [] else conflict_issue entry_id side other ∷ [])
choose_side entry_id none (some other) old = (other, [])
choose_side entry_id none none old = (old, [])

-- The side of an entry with the issues that it adds.
unfoldable pub derive_entry_side :
    MatchContext
    → NormalizedIdentityEvidence
    → String
    → List ResolvedIdentityPlayer
    → Option IdentityResolution
    → Entry
    → SourceSide × List IdentityIssue
unfolding derive_side_from_players derive_side_from_map_names previous_side
derive_entry_side context evidence entry_id players previous entry =
    let seen = derive_side_from_players entry_id players in
    let map_side = derive_side_from_map_names context evidence entry_id in
    let chosen = choose_side entry_id seen.0 map_side (previous_side previous entry) in
    (chosen.0, seen.1 ++ chosen.1)

unfoldable pub derive_side_mapping :
    MatchContext
    → NormalizedIdentityEvidence
    → List ResolvedIdentityPlayer
    → Option IdentityResolution
    → IdentitySideMapping × List IdentityIssue
unfolding derive_entry_side
derive_side_mapping context evidence players previous =
    let a =
      derive_entry_side context evidence context.entrant_a.entry_id players previous entry_a in
    let b =
      derive_entry_side context evidence context.entrant_b.entry_id players previous entry_b in
    let clash = a.0 != SourceSide.unknown && b.0 != SourceSide.unknown && a.0 == b.0 in
    (
      record { a = a.0; b = b.0 },
      a.1 ++ (b.1 ++ (if clash then issue ambiguous_side_mapping error no_details ∷ [] else [])),
    )
