-- ===== src/Identity/Matching.antt =====
-- What a matched identity of packages/core/src/identity/resolve.ts is worth: ten players of the
-- roster, five of each entrant, and a side for each.
use rival_hub_broadcast.Prelude.{
  ◌≡◌, ◌≢◌, refl, ap, ◌∙◌, inl, inr, Bool, true, false, Option, none, some, List, [], ◌∷◌, map,
  String, ◌==◌, nat_eq, string_eq, arith, Bool-cases, length, select, All, has_key, set_key,
  set_all, values, count_key, set_all-KeysOnce, set_all-append, All-set_all, count-map, length-map,
}
use rival_hub_broadcast.Series.Types.{MatchContext, SourceSide, side_eq}
use rival_hub_broadcast.Runtime.Types.{coverage_eq}
use rival_hub_broadcast.Identity.Types.{
  IdentityState, matched, state_eq, IdentityIssue, IdentityResolution, IdentitySideMapping,
  ResolvedIdentityPlayer, NormalizedIdentityEvidence,
}
use rival_hub_broadcast.Identity.Resolve.{create_resolution, is_side_complete}
use rival_hub_broadcast.Identity.Resolver.{
  of_entry, retain, retained_resolution, retained_state, without_roster, merged, add_retained,
  by_canonical_id,
}
use rival_hub_broadcast.Identity.Rosters.{IsRostered, IdsOnce}
use rival_hub_broadcast.Identity.Observed.{IsEntry, AreEntries, set_key-AreEntries}

-- The sides of the entrants are known and different.
abbrev pub AreKnownSides : IdentitySideMapping → Type 0
AreKnownSides m = (m.a ≢ SourceSide.unknown) × (m.b ≢ SourceSide.unknown) × (m.a ≢ m.b)

-- Ten players, five of each entrant, and a side for each entrant.
pub record IsMatch (context : MatchContext) (players : List ResolvedIdentityPlayer)
    (sides : IdentitySideMapping) : Type 0 where
  pub ten : length players ≡ 10
  pub five_a : length (select (of_entry context.entrant_a.entry_id) players) ≡ 5
  pub five_b : length (select (of_entry context.entrant_b.entry_id) players) ≡ 5
  pub known : AreKnownSides sides

-- The players of a resolution are different players of the roster, and if it is matched they are a
-- match.
pub record IsGrounded (context : MatchContext) (r : IdentityResolution) : Type 0 where
  pub rostered : All (IsRostered context) r.players
  pub once : IdsOnce r.players
  pub five : r.state ≡ matched → IsMatch context r.players r.side_mapping
  pub gated : r.capabilities.identity_dependent_result ≡ (r.state == matched)

pub is_side_complete-AreKnownSides :
    (m : IdentitySideMapping) → is_side_complete m ≡ true → AreKnownSides m
unfolding is_side_complete
is_side_complete-AreKnownSides m h = ground arith

pub retained_state-matched :
    (state : IdentityState) → retained_state state ≡ matched → state ≡ matched
retained_state-matched state h = ground arith

-- Different players, put into a map by their ids, are its values.
by_canonical_id-count :
    (id : String) (ps : List ResolvedIdentityPlayer)
    → count_key id (by_canonical_id ps) ≡ length (select (λ p. p.canonical_player_id == id) ps)
by_canonical_id-count id [] = refl
by_canonical_id-count id (p ∷ ps) = ground (arith, by_canonical_id-count id ps)

values-by_canonical_id : (ps : List ResolvedIdentityPlayer) → values (by_canonical_id ps) ≡ ps
values-by_canonical_id [] = refl
values-by_canonical_id (p ∷ ps) =
    ap (λ (l : List ResolvedIdentityPlayer). p ∷ l) (values-by_canonical_id ps)

pub values-set_all :
    (ps : List ResolvedIdentityPlayer) → IdsOnce ps → values (set_all [] (by_canonical_id ps)) ≡ ps
values-set_all ps once =
    ap values (
      set_all-append [] (by_canonical_id ps)
        (λ id. omega (arith, by_canonical_id-count id ps, once id)))
    ∙ values-by_canonical_id ps

module _ (context : MatchContext) where
  retain-IsRostered :
      (ps : List ResolvedIdentityPlayer)
      → All (IsRostered context) ps
      → All (IsRostered context) (map retain ps)
  retain-IsRostered [] h = tt
  retain-IsRostered (p ∷ ps) h = (h.0, retain-IsRostered ps h.1)

  retain-IsMatch :
      (ps : List ResolvedIdentityPlayer) (sides : IdentitySideMapping)
      → IsMatch context ps sides
      → IsMatch context (map retain ps) sides
  retain-IsMatch ps sides h = record {
    ten = length-map retain ps ∙ h.ten;
    five_a = count-map retain (of_entry context.entrant_a.entry_id) ps (λ p. refl) ∙ h.five_a;
    five_b = count-map retain (of_entry context.entrant_b.entry_id) ps (λ p. refl) ∙ h.five_b;
    known = h.known;
  }

  pub retained_resolution-IsGrounded :
      (state : IdentityState) (evidence : NormalizedIdentityEvidence)
      (previous : IdentityResolution) (issues : List IdentityIssue)
      → (state ≡ matched → previous.state ≡ matched)
      → IsGrounded context previous
      → IsGrounded context (retained_resolution state evidence previous issues)
  unfolding retained_resolution create_resolution
  retained_resolution-IsGrounded state evidence previous issues kept h = record {
    rostered = retain-IsRostered previous.players h.rostered;
    once = λ id. omega (
      arith,
      count-map retain (λ (p : ResolvedIdentityPlayer). p.canonical_player_id == id)
          previous.players (λ p. refl),
      h.once id,
    );
    five = λ e. retain-IsMatch previous.players previous.side_mapping (h.five (kept e));
    gated = refl;
  }

  pub without_roster-IsGrounded :
      (evidence : NormalizedIdentityEvidence) (previous : Option IdentityResolution)
      (issues : List IdentityIssue)
      → ((p : IdentityResolution) → previous ≡ some p → IsGrounded context p)
      → IsGrounded context (without_roster evidence previous issues)
  unfolding without_roster create_resolution
  without_roster-IsGrounded evidence none issues h = record {
    rostered = tt;
    once = λ id. omega arith;
    five = λ e. cc;
    gated = refl;
  }
  without_roster-IsGrounded evidence (some p) issues h = elim (Bool-cases (length p.players == 0)) [
    | inl empty ↦
        rw empty (record { rostered = tt; once = λ id. omega arith; five = λ e. cc; gated = refl })
    | inr some_left ↦ rw some_left (
        retained_resolution-IsGrounded (retained_state p.state) evidence p _
          (retained_state-matched p.state) (h p refl))
  ]

  by_canonical_id-IsEntry :
      (ps : List ResolvedIdentityPlayer)
      → All (IsRostered context) ps
      → All (IsEntry context) (by_canonical_id ps)
  by_canonical_id-IsEntry [] h = tt
  by_canonical_id-IsEntry (p ∷ ps) h = ((h.0, refl), by_canonical_id-IsEntry ps h.1)

  set_all-AreEntries :
      (ps : List ResolvedIdentityPlayer)
      → All (IsRostered context) ps
      → AreEntries context (set_all [] (by_canonical_id ps))
  set_all-AreEntries ps h = (
    All-set_all (IsEntry context) [] (by_canonical_id ps) tt (by_canonical_id-IsEntry ps h),
    set_all-KeysOnce [] (by_canonical_id ps) (λ id. omega arith),
  )

  add_retained-AreEntries :
      (m : List (String × ResolvedIdentityPlayer)) (ps : List ResolvedIdentityPlayer)
      → AreEntries context m
      → All (IsRostered context) ps
      → AreEntries context (add_retained m ps)
  unfolding add_retained
  add_retained-AreEntries m [] entries h = entries
  add_retained-AreEntries m (p ∷ ps) entries h =
      elim (Bool-cases (has_key p.canonical_player_id m)) [
        | inl old ↦ rw old (add_retained-AreEntries m ps entries h.1)
        | inr new ↦ rw new (
            add_retained-AreEntries (set_key p.canonical_player_id (retain p) m) ps
              (set_key-AreEntries context (retain p) m h.0 entries) h.1)
      ]

  pub merged-AreEntries :
      (previous : Option IdentityResolution) (observed_five contradicted : Bool)
      (ps : List ResolvedIdentityPlayer)
      → ((p : IdentityResolution) → previous ≡ some p → IsGrounded context p)
      → All (IsRostered context) ps
      → AreEntries context (merged previous observed_five contradicted ps)
  merged-AreEntries none five c ps before h = set_all-AreEntries ps h
  merged-AreEntries (some p) true c ps before h = set_all-AreEntries ps h
  merged-AreEntries (some p) false true ps before h = set_all-AreEntries ps h
  merged-AreEntries (some p) false false ps before h =
      add_retained-AreEntries _ p.players (set_all-AreEntries ps h) (before p refl).rostered
