-- ===== src/Identity/Grounds.antt =====
-- When packages/core/src/identity/resolve.ts says that an identity is matched.
use rival_hub_broadcast.Prelude.{
  ◌≡◌, ◌⊎◌, refl, ap, subst, inl, inr, Bool, true, false, Option, none, some, List, ◌++◌, map, ◌==◌,
  nat_eq, arith, Bool-cases, length, select,
}
use rival_hub_broadcast.Series.Types.{MatchContext, side_eq, ct, t}
use rival_hub_broadcast.Runtime.Types.{coverage_eq, absent, present}
use rival_hub_broadcast.Identity.Types.{
  matched, state_eq, IdentityIssue, IdentityResolution, IdentitySideMapping,
  NormalizedIdentityEvidence, IdentityObservationInput, ObservedPlayer, normalize_identity_evidence,
}
use rival_hub_broadcast.Identity.CanonicalIndex.{CanonicalIndex, build_canonical_index}
use rival_hub_broadcast.Identity.SideMapping.{derive_side_mapping}
use rival_hub_broadcast.Identity.Players.{ResolvedPlayers, resolve_current_players}
use rival_hub_broadcast.Identity.Resolve.{create_resolution, known_map_issue}
use rival_hub_broadcast.Identity.Resolver.{
  on_side, retain, retained_resolution, without_roster, observed_five_vs_five, fresh_resolution,
  settle_roster, with_roster, keeps_match, noted_issues, partial_issues, compatible,
  compatible_previous, resolve_roster, resolve_bound, resolve_identity, is_contradicted,
}
use rival_hub_broadcast.Identity.Matching.{retained_state-matched}
use rival_hub_broadcast.Identity.Proof.{final_state-IsConfirmed}

-- A frame that covers all players, ten of them, five on each side, on a map of the series.
pub record IsFullFrame (context : MatchContext) (evidence : NormalizedIdentityEvidence)
    (players : List ObservedPlayer) : Type 0 where
  pub given : evidence.all_players ≡ some players
  pub covered : evidence.all_players_coverage ≡ present
  pub ten : length players ≡ 10
  pub five_ct : length (select (on_side ct) players) ≡ 5
  pub five_t : length (select (on_side t) players) ≡ 5
  pub on_plan : (known_map_issue context evidence true).0 ≡ false

-- A resolution that keeps the match of the one before, of the same source generation and map epoch.
pub record IsKept (evidence : NormalizedIdentityEvidence) (p r : IdentityResolution) : Type 0 where
  pub was : p.state ≡ matched
  pub generation : p.source_generation ≡ evidence.source_generation
  pub epoch : p.map_epoch ≡ evidence.map_epoch
  pub players : r.players ≡ map retain p.players
  pub sides : r.side_mapping ≡ p.side_mapping

-- The two grounds of a match.
abbrev pub Grounds :
    MatchContext
    → NormalizedIdentityEvidence
    → Option IdentityResolution
    → IdentityResolution
    → Type 0
Grounds context evidence previous r =
    ((players : List ObservedPlayer) × IsFullFrame context evidence players)
    ⊎ ((p : IdentityResolution) × (previous ≡ some p) × IsKept evidence p r)

compatible_previous-compatible :
    (evidence : NormalizedIdentityEvidence) (previous : Option IdentityResolution)
    (p : IdentityResolution)
    → compatible_previous evidence previous ≡ some p
    → (previous ≡ some p)
      × (p.source_generation ≡ evidence.source_generation)
      × (p.map_epoch ≡ evidence.map_epoch)
unfolding compatible_previous
compatible_previous-compatible evidence none p e = cc
compatible_previous-compatible evidence (some q) p e =
    elim (Bool-cases (compatible evidence.source_generation evidence.map_epoch q)) [
      | inr other ↦ cc (other, e)
      | inl same ↦
          let found : q ≡ p = ground arith in
          (
            ap some found,
            subst (λ (x : IdentityResolution). x.source_generation ≡ evidence.source_generation)
                found (ground arith),
            subst (λ (x : IdentityResolution). x.map_epoch ≡ evidence.map_epoch) found
                (ground arith),
          )
    ]

observed_five-IsFullFrame :
    (context : MatchContext) (evidence : NormalizedIdentityEvidence) (players : List ObservedPlayer)
    (duplicate : Bool)
    → evidence.all_players ≡ some players
    → (known_map_issue context evidence true).0 ≡ false
    → observed_five_vs_five evidence players duplicate ≡ true
    → IsFullFrame context evidence players
unfolding observed_five_vs_five
observed_five-IsFullFrame context evidence players duplicate given plan h = record {
  given = given;
  covered = ground arith;
  ten = ground arith;
  five_ct = ground arith;
  five_t = ground arith;
  on_plan = plan;
}

is_contradicted-calm :
    (r : ResolvedPlayers) (mm : Bool) (issues : List IdentityIssue) (canonical : CanonicalIndex)
    → is_contradicted r mm issues canonical ≡ false
    → mm ≡ false
unfolding is_contradicted
is_contradicted-calm r mm issues canonical h = ground arith

without_roster-kept :
    (evidence : NormalizedIdentityEvidence) (kept : Option IdentityResolution)
    (before : List IdentityIssue)
    → (without_roster evidence kept before).state ≡ matched
    → (p : IdentityResolution) × (kept ≡ some p)
      × (p.state ≡ matched)
      × ((without_roster evidence kept before).players ≡ map retain p.players)
      × ((without_roster evidence kept before).side_mapping ≡ p.side_mapping)
unfolding without_roster retained_resolution create_resolution
without_roster-kept evidence none before h = cc
without_roster-kept evidence (some p) before h = elim (Bool-cases (length p.players == 0)) [
  | inl empty ↦ cc (rw empty at h)
  | inr there ↦ rw there (p, refl, retained_state-matched p.state (rw there at h), refl, refl)
]

-- A fresh resolution is matched on a full frame only.
fresh_resolution-matched :
    (context : MatchContext) (evidence : NormalizedIdentityEvidence) (canonical : CanonicalIndex)
    (previous : Option IdentityResolution) (r : ResolvedPlayers) (sides : IdentitySideMapping)
    (issues : List IdentityIssue) (observed_five contradicted : Bool)
    → (fresh_resolution context evidence canonical previous r sides issues observed_five
        contradicted).state
      ≡ matched
    → (contradicted ≡ false) × (observed_five ≡ true)
unfolding fresh_resolution create_resolution
fresh_resolution-matched context evidence canonical previous r sides issues five c h =
    let k = final_state-IsConfirmed context canonical r sides five c h in (k.calm, k.observed)

settle_roster-matched :
    (context : MatchContext) (evidence : NormalizedIdentityEvidence) (canonical : CanonicalIndex)
    (kept : Option IdentityResolution) (r : ResolvedPlayers) (sides : IdentitySideMapping)
    (issues : List IdentityIssue) (observed_five contradicted : Bool)
    → let result =
        settle_roster context evidence canonical kept r sides issues observed_five contradicted in
      result.state ≡ matched
      → ((contradicted ≡ false) × (observed_five ≡ true))
        ⊎ ((p : IdentityResolution) × (kept ≡ some p)
            × (p.state ≡ matched)
            × (result.players ≡ map retain p.players)
            × (result.side_mapping ≡ p.side_mapping))
unfolding settle_roster retained_resolution create_resolution
settle_roster-matched context evidence canonical none r sides issues five c h =
    inl (fresh_resolution-matched context evidence canonical none r sides issues five c h)
settle_roster-matched context evidence canonical (some p) r sides issues five c h =
    elim (Bool-cases (keeps_match evidence c p)) [
      | inl kept ↦
          let was : p.state ≡ matched = ground arith in rw kept (inr (p, refl, was, refl, refl))
      | inr fresh ↦ inl (
          fresh_resolution-matched context evidence canonical (some p) r sides issues five c
            (rw fresh at h))
    ]

kept-Grounds :
    (context : MatchContext) (evidence : NormalizedIdentityEvidence)
    (previous : Option IdentityResolution) (r p : IdentityResolution)
    → compatible_previous evidence previous ≡ some p
    → p.state ≡ matched
    → r.players ≡ map retain p.players
    → r.side_mapping ≡ p.side_mapping
    → Grounds context evidence previous r
kept-Grounds context evidence previous r p e was players sides =
    let c = compatible_previous-compatible evidence previous p e in
    inr (
      p,
      c.0,
      record { was = was; generation = c.1; epoch = c.2; players = players; sides = sides },
    )

module _ (context : MatchContext) (evidence : NormalizedIdentityEvidence)
    (previous : Option IdentityResolution) where
  with_roster-Grounds :
      (players : List ObservedPlayer) (before : List IdentityIssue)
      → let mm = (known_map_issue context evidence true).0 in
        let result =
          with_roster context evidence
            (build_canonical_index context)
            (compatible_previous evidence previous)
            players
            mm
            before in
        evidence.all_players ≡ some players
        → result.state ≡ matched
        → Grounds context evidence previous result
  unfolding with_roster
  with_roster-Grounds players before given h =
      let canonical = build_canonical_index context in
      let kept = compatible_previous evidence previous in
      let mm = (known_map_issue context evidence true).0 in
      let r = resolve_current_players players canonical (noted_issues evidence before) in
      let sides = derive_side_mapping context evidence r.current_resolved kept in
      let five = observed_five_vs_five evidence players r.duplicate_observed in
      let issues = r.issues ++ (sides.1 ++ partial_issues five) in
      elim (settle_roster-matched context evidence canonical kept r sides.0 issues five
        (is_contradicted r mm issues canonical) h) [
          | inl shown ↦ inl (
            players,
            observed_five-IsFullFrame context evidence players r.duplicate_observed given
                (is_contradicted-calm r mm issues canonical shown.0) shown.1,
          )
          | inr (p, e, was, ps, ss) ↦ kept-Grounds context evidence previous _ p e was ps ss
        ]

  without_roster-Grounds :
      (before : List IdentityIssue)
      → let result = without_roster evidence (compatible_previous evidence previous) before in
        result.state ≡ matched → Grounds context evidence previous result
  without_roster-Grounds before h =
      let k = without_roster-kept evidence (compatible_previous evidence previous) before h in
      kept-Grounds context evidence previous
        (without_roster evidence (compatible_previous evidence previous) before) k.0 k.1 k.2 k.3 k.4

  resolve_roster-Grounds :
      (players : Option (List ObservedPlayer)) (before : List IdentityIssue)
      → let result =
          resolve_roster context evidence
            (build_canonical_index context)
            (compatible_previous evidence previous)
            players
            (known_map_issue context evidence
              (elim players as (λ _. Bool) [ none ↦ false | some _ ↦ true ])).0
            before in
        evidence.all_players ≡ players
        → result.state ≡ matched
        → Grounds context evidence previous result
  unfolding resolve_roster
  resolve_roster-Grounds none before given h = without_roster-Grounds before h
  resolve_roster-Grounds (some players) before given h =
      elim (Bool-cases (evidence.all_players_coverage == absent)) [
        | inl gone ↦ rw gone (without_roster-Grounds before (rw gone at h))
        | inr there ↦ rw there (with_roster-Grounds players before given (rw there at h))
      ]

  resolve_bound-Grounds :
      (resolve_bound context evidence previous).state ≡ matched
      → Grounds context evidence previous (resolve_bound context evidence previous)
  unfolding resolve_bound
  resolve_bound-Grounds h = resolve_roster-Grounds evidence.all_players _ refl h

-- A resolution is matched on one of two grounds only: the frame covers all players, ten of them, five
-- on each side, on a map that the series does not exclude; or the resolution before, of the same
-- source generation and map epoch, was matched, and its players and sides are kept, marked as
-- retained.
pub resolve_identity-Grounds :
    (context : MatchContext) (input : IdentityObservationInput)
    (previous : Option IdentityResolution)
    → (resolve_identity (some context) input previous).state ≡ matched
    → Grounds context
        (normalize_identity_evidence input)
        previous
        (resolve_identity (some context) input previous)
unfolding resolve_identity
resolve_identity-Grounds context input previous h =
    resolve_bound-Grounds context (normalize_identity_evidence input) previous h
