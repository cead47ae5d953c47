-- ===== src/Identity/Proof.antt =====
-- The identity of packages/core/src/identity/resolve.ts is a proof: it is matched only on what the
-- frame shows or on a match kept, in every run of the resolver.
use rival_hub_broadcast.Prelude.{
  ◌≡◌, refl, sym, ◌∙◌, subst, inl, inr, Bool, true, false, Option, none, some, List, [], ◌∷◌, ◌++◌,
  ◌==◌, nat_eq, if◌then◌else◌, arith, Bool-cases, length, select, All, values, count-sort,
  length-sort,
}
use rival_hub_broadcast.Series.Types.{MatchContext, side_eq}
use rival_hub_broadcast.Runtime.Types.{coverage_eq, absent}
use rival_hub_broadcast.Identity.Types.{
  matched, state_eq, IdentityIssue, IdentityResolution, IdentitySideMapping, ResolvedIdentityPlayer,
  NormalizedIdentityEvidence, IdentityObservationInput, ObservedPlayer, normalize_identity_evidence,
}
use rival_hub_broadcast.Identity.CanonicalIndex.{CanonicalIndex, build_canonical_index}
use rival_hub_broadcast.Identity.SideMapping.{derive_side_mapping}
use rival_hub_broadcast.Identity.Players.{
  ResolvedPlayers, resolve_current_players, sort_resolved_players, resolved_le,
}
use rival_hub_broadcast.Identity.Resolve.{
  known_map_issue, create_resolution, is_side_complete, initial_resolving_resolution,
  unbound_identity_resolution,
}
use rival_hub_broadcast.Identity.Resolver.{
  of_entry, retained_resolution, canonical_five_vs_five, observed_five_vs_five, final_state, merged,
  fresh_resolution, with_roster, keeps_match, settle_roster, resolve_roster, has_roster,
  noted_issues, partial_issues, compatible_previous, resolve_bound, resolve_identity,
  IdentityResolver, create_identity_resolver, bind, unbind, resolve, is_contradicted,
}
use rival_hub_broadcast.Identity.Rosters.{IsRostered, IdsOnce, build_canonical_index-IsIndexed}
use rival_hub_broadcast.Identity.Observed.{
  AreEntries-values, sort_resolved_players-IsRostered, resolve_current_players-IsRostered,
}
use rival_hub_broadcast.Identity.Matching.{
  IsMatch, IsGrounded, values-set_all, retained_resolution-IsGrounded, without_roster-IsGrounded,
  merged-AreEntries, is_side_complete-AreKnownSides,
}

-- A matched state needs a full frame that is resolved completely, and no contradiction.
pub record IsConfirmed (context : MatchContext) (r : ResolvedPlayers) (sides : IdentitySideMapping)
    (observed_five contradicted : Bool) : Type 0 where
  pub calm : contradicted ≡ false
  pub observed : observed_five ≡ true
  pub ten : length r.current_resolved ≡ 10
  pub five_a : length (select (of_entry context.entrant_a.entry_id) r.current_resolved) ≡ 5
  pub five_b : length (select (of_entry context.entrant_b.entry_id) r.current_resolved) ≡ 5
  pub complete : is_side_complete sides ≡ true

pub final_state-IsConfirmed :
    (context : MatchContext) (canonical : CanonicalIndex) (r : ResolvedPlayers)
    (sides : IdentitySideMapping) (observed_five contradicted : Bool)
    → final_state contradicted context canonical
        (canonical_five_vs_five context observed_five r sides)
      ≡ matched
    → IsConfirmed context r sides observed_five contradicted
unfolding final_state canonical_five_vs_five
final_state-IsConfirmed context canonical r sides observed_five contradicted h = ground arith

merged-observed :
    (previous : Option IdentityResolution) (contradicted : Bool) (ps : List ResolvedIdentityPlayer)
    → IdsOnce ps
    → values (merged previous true contradicted ps) ≡ ps
merged-observed none c ps once = values-set_all ps once
merged-observed (some p) c ps once = values-set_all ps once

module _ (context : MatchContext) where
  sorted-IsMatch :
      (r : ResolvedPlayers) (sides : IdentitySideMapping) (observed_five contradicted : Bool)
      → IsConfirmed context r sides observed_five contradicted
      → IsMatch context (sort_resolved_players r.current_resolved) sides
  unfolding sort_resolved_players
  sorted-IsMatch r sides observed_five contradicted h = record {
    ten = length-sort resolved_le r.current_resolved ∙ h.ten;
    five_a =
        count-sort resolved_le (of_entry context.entrant_a.entry_id) r.current_resolved ∙ h.five_a;
    five_b =
        count-sort resolved_le (of_entry context.entrant_b.entry_id) r.current_resolved ∙ h.five_b;
    known = is_side_complete-AreKnownSides sides h.complete;
  }

  fresh_resolution-IsGrounded :
      (evidence : NormalizedIdentityEvidence) (canonical : CanonicalIndex)
      (previous : Option IdentityResolution) (r : ResolvedPlayers) (sides : IdentitySideMapping)
      (issues : List IdentityIssue) (observed_five contradicted : Bool)
      → ((p : IdentityResolution) → previous ≡ some p → IsGrounded context p)
      → All (IsRostered context) r.current_resolved × IdsOnce r.current_resolved
      → IsGrounded context (
          fresh_resolution context evidence canonical previous r sides issues observed_five
            contradicted)
  unfolding fresh_resolution create_resolution
  fresh_resolution-IsGrounded evidence canonical previous r sides issues observed_five contradicted
        before now =
      let grounded = sort_resolved_players-IsRostered context _ (
        AreEntries-values context _ (
          merged-AreEntries context previous observed_five contradicted r.current_resolved before
            now.0)) in
      record {
        rostered = grounded.0;
        once = grounded.1;
        gated = refl;
        five = λ e.
            let c =
              final_state-IsConfirmed context canonical r sides observed_five contradicted e in
            subst
              (λ (l : List ResolvedIdentityPlayer). IsMatch context (sort_resolved_players l) sides)
              (sym (
                subst
                  (λ (b : Bool).
                    values (merged previous b contradicted r.current_resolved) ≡ r.current_resolved)
                  (sym c.observed)
                  (merged-observed previous contradicted r.current_resolved now.1)))
              (sorted-IsMatch r sides observed_five contradicted c);
      }

  -- A degraded frame keeps the match, or the fresh resolution stands.
  with_kept-IsGrounded :
      (evidence : NormalizedIdentityEvidence) (p : IdentityResolution) (contradicted : Bool)
      (issues : List IdentityIssue) (fresh : IdentityResolution)
      → IsGrounded context p
      → IsGrounded context fresh
      → IsGrounded context (
          if keeps_match evidence contradicted p
          then retained_resolution matched evidence p issues
          else fresh)
  with_kept-IsGrounded evidence p contradicted issues fresh h hf =
      elim (Bool-cases (keeps_match evidence contradicted p)) [
        | inr lost ↦ rw lost hf
        | inl kept ↦
            let was : p.state ≡ matched = ground arith in
            rw kept (retained_resolution-IsGrounded context matched evidence p issues (λ e. was) h)
      ]

  settle_roster-IsGrounded :
      (evidence : NormalizedIdentityEvidence) (canonical : CanonicalIndex)
      (previous : Option IdentityResolution) (r : ResolvedPlayers) (sides : IdentitySideMapping)
      (issues : List IdentityIssue) (observed_five contradicted : Bool)
      → ((p : IdentityResolution) → previous ≡ some p → IsGrounded context p)
      → All (IsRostered context) r.current_resolved × IdsOnce r.current_resolved
      → IsGrounded context (
          settle_roster context evidence canonical previous r sides issues observed_five
            contradicted)
  unfolding settle_roster
  settle_roster-IsGrounded evidence canonical none r sides issues five c before now =
      fresh_resolution-IsGrounded evidence canonical none r sides issues five c before now
  settle_roster-IsGrounded evidence canonical (some p) r sides issues five c before now =
      with_kept-IsGrounded evidence p c issues
        (fresh_resolution context evidence canonical (some p) r sides issues five c) (before p refl)
        (fresh_resolution-IsGrounded evidence canonical (some p) r sides issues five c before now)

  with_roster-IsGrounded :
      (evidence : NormalizedIdentityEvidence) (previous : Option IdentityResolution)
      (players : List ObservedPlayer) (map_mismatched : Bool) (before : List IdentityIssue)
      → ((p : IdentityResolution) → previous ≡ some p → IsGrounded context p)
      → IsGrounded context (
          with_roster context evidence
            (build_canonical_index context)
            previous
            players
            map_mismatched
            before)
  unfolding with_roster
  with_roster-IsGrounded evidence previous players map_mismatched before h =
      let canonical = build_canonical_index context in
      let r = resolve_current_players players canonical (noted_issues evidence before) in
      let sides = derive_side_mapping context evidence r.current_resolved previous in
      let five = observed_five_vs_five evidence players r.duplicate_observed in
      let issues = r.issues ++ (sides.1 ++ partial_issues five) in
      settle_roster-IsGrounded evidence canonical previous r sides.0 issues five
        (is_contradicted r map_mismatched issues canonical) h
        (resolve_current_players-IsRostered context canonical
          (build_canonical_index-IsIndexed context) players (noted_issues evidence before))

  compatible_previous-IsGrounded :
      (evidence : NormalizedIdentityEvidence) (previous : Option IdentityResolution)
      → ((p : IdentityResolution) → previous ≡ some p → IsGrounded context p)
      → (p : IdentityResolution) → compatible_previous evidence previous ≡ some p
      → IsGrounded context p
  unfolding compatible_previous
  compatible_previous-IsGrounded evidence none h p e = cc
  compatible_previous-IsGrounded evidence (some q) h p e = h p (ground arith)

  resolve_roster-IsGrounded :
      (evidence : NormalizedIdentityEvidence) (kept : Option IdentityResolution)
      (players : Option (List ObservedPlayer)) (map_mismatched : Bool) (before : List IdentityIssue)
      → ((p : IdentityResolution) → kept ≡ some p → IsGrounded context p)
      → IsGrounded context (
          resolve_roster context evidence
            (build_canonical_index context)
            kept
            players
            map_mismatched
            before)
  unfolding resolve_roster
  resolve_roster-IsGrounded evidence kept none map_mismatched before h =
      without_roster-IsGrounded context evidence kept before h
  resolve_roster-IsGrounded evidence kept (some players) map_mismatched before h =
      elim (Bool-cases (evidence.all_players_coverage == absent)) [
        | inl gone ↦ rw gone (without_roster-IsGrounded context evidence kept before h)
        | inr there ↦
            rw there (with_roster-IsGrounded evidence kept players map_mismatched before h)
      ]

  resolve_bound-IsGrounded :
      (evidence : NormalizedIdentityEvidence) (previous : Option IdentityResolution)
      → ((p : IdentityResolution) → previous ≡ some p → IsGrounded context p)
      → IsGrounded context (resolve_bound context evidence previous)
  unfolding resolve_bound
  resolve_bound-IsGrounded evidence previous h =
      resolve_roster-IsGrounded evidence (compatible_previous evidence previous)
        evidence.all_players (known_map_issue context evidence (has_roster evidence)).0 _
        (compatible_previous-IsGrounded evidence previous h)

-- The calls of a resolver.
pub data ResolverCall : Type 0 where
  binds : MatchContext → ResolverCall
  unbinds : ResolverCall
  resolves : IdentityObservationInput → ResolverCall

unfoldable pub run_calls : List ResolverCall → IdentityResolver → IdentityResolver
unfolding bind unbind resolve
run_calls [] r = r
run_calls (binds context ∷ calls) r = run_calls calls (bind context r)
run_calls (unbinds ∷ calls) r = run_calls calls (unbind r)
run_calls (resolves input ∷ calls) r = run_calls calls (resolve input r)

-- Without a match nothing is matched, and with one the resolution is grounded in its roster.
abbrev pub IsProvenFor : Option MatchContext → IdentityResolution → Type 0
IsProvenFor none r = r.capabilities.identity_dependent_result ≡ false
IsProvenFor (some context) r = IsGrounded context r

abbrev pub IsProven : IdentityResolver → Type 0
IsProven r = IsProvenFor r.context r.resolution

initial-IsGrounded : (context : MatchContext) → IsGrounded context initial_resolving_resolution
unfolding initial_resolving_resolution create_resolution
initial-IsGrounded context = record {
  rostered = tt;
  once = λ id. omega arith;
  five = λ e. cc;
  gated = refl;
}

resolve_identity-IsProven :
    (context : Option MatchContext) (input : IdentityObservationInput) (p : IdentityResolution)
    → IsProvenFor context p
    → IsProvenFor context (resolve_identity context input (some p))
unfolding resolve_identity unbound_identity_resolution create_resolution
resolve_identity-IsProven none input p h = refl
resolve_identity-IsProven (some context) input p h =
    resolve_bound-IsGrounded context (normalize_identity_evidence input) (some p)
      (λ q e. subst (IsGrounded context) (cc) h)

create-IsProven : (context : Option MatchContext) → IsProven (create_identity_resolver context)
unfolding create_identity_resolver unbound_identity_resolution create_resolution
create-IsProven none = refl
create-IsProven (some context) = initial-IsGrounded context

run_calls-IsProven :
    (calls : List ResolverCall) (r : IdentityResolver) → IsProven r → IsProven (run_calls calls r)
unfolding run_calls bind unbind unbound_identity_resolution create_resolution resolve
run_calls-IsProven [] r h = h
run_calls-IsProven (binds context ∷ calls) r h =
    run_calls-IsProven calls (bind context r) (initial-IsGrounded context)
run_calls-IsProven (unbinds ∷ calls) r h = run_calls-IsProven calls (unbind r) refl
run_calls-IsProven (resolves input ∷ calls) r h =
    run_calls-IsProven calls (resolve input r)
      (resolve_identity-IsProven r.context input r.resolution h)

-- After any calls of a new resolver: without a bound match no result depends on the identity; with
-- one, the players of the resolution stand on its roster under the Steam64 they have, no player
-- twice, and where the resolution is matched, which is when results may depend on the identity,
-- there are ten, five of each entrant, and the entrants are on different known sides.
pub resolver-IsProven :
    (context : Option MatchContext) (calls : List ResolverCall)
    → IsProven (run_calls calls (create_identity_resolver context))
resolver-IsProven context calls =
    run_calls-IsProven calls (create_identity_resolver context) (create-IsProven context)
