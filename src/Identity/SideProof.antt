-- ===== src/Identity/SideProof.antt =====
-- apps/companion/src/projections/projection-coordinator.ts, seriesSideProofFor: the side proof that
-- the series takes from the identity.
use rival_hub_broadcast.Prelude.{
  ℕ, ◌≡◌, sym, ◌∙◌, subst, true, not, ◌||◌, Option, none, some, List, ◌==◌, ◌!=◌, nat_eq,
  eq_of_equals, if◌then◌else◌, arith,
}
use rival_hub_broadcast.Series.Types.{MatchContext, SourceSide, side_eq, SeriesSideProof}
use rival_hub_broadcast.Series.Rounds.{valid_side_proof}
use rival_hub_broadcast.Identity.Types.{IdentityResolution, matched, state_eq}
use rival_hub_broadcast.Identity.Resolver.{create_identity_resolver}
use rival_hub_broadcast.Identity.Matching.{IsMatch}
use rival_hub_broadcast.Identity.Proof.{ResolverCall, run_calls, IsProvenFor, resolver-IsProven}

-- `generation` and `epoch` are those of the runtime state.
unfoldable pub series_side_proof_for : ℕ → ℕ → IdentityResolution → Option SeriesSideProof
series_side_proof_for generation epoch identity =
    if not identity.capabilities.identity_dependent_result
      || identity.source_generation != generation
      || identity.map_epoch != epoch
      || identity.side_mapping.a == SourceSide.unknown
      || identity.side_mapping.b == SourceSide.unknown
      || identity.side_mapping.a == identity.side_mapping.b
    then none
    else some (record {
      source_generation = generation;
      map_epoch = epoch;
      a = identity.side_mapping.a;
      b = identity.side_mapping.b;
    })

-- What a side proof rests on, in the match it is for.
abbrev pub Rests : Option MatchContext → IdentityResolution → SeriesSideProof → Type 0
Rests none r proof = ⊥
Rests (some context) r proof = IsMatch context r.players (record { a = proof.a; b = proof.b })

side_proof-valid :
    (generation epoch : ℕ) (r : IdentityResolution) (proof : SeriesSideProof)
    → series_side_proof_for generation epoch r ≡ some proof
    → valid_side_proof (some proof) generation epoch ≡ true
unfolding series_side_proof_for valid_side_proof
side_proof-valid generation epoch r proof h = ground arith

side_proof-sides :
    (generation epoch : ℕ) (r : IdentityResolution) (proof : SeriesSideProof)
    → series_side_proof_for generation epoch r ≡ some proof
    → (r.capabilities.identity_dependent_result ≡ true)
      × (r.side_mapping ≡ record { a = proof.a; b = proof.b })
unfolding series_side_proof_for
side_proof-sides generation epoch r proof h = ground arith

side_proof-Rests :
    (context : Option MatchContext) (generation epoch : ℕ) (r : IdentityResolution)
    (proof : SeriesSideProof)
    → IsProvenFor context r
    → series_side_proof_for generation epoch r ≡ some proof
    → Rests context r proof
side_proof-Rests none generation epoch r proof known h =
    cc (known, (side_proof-sides generation epoch r proof h).0)
side_proof-Rests (some context) generation epoch r proof known h =
    let k = side_proof-sides generation epoch r proof h in
    let is : (r.state == matched) ≡ true = sym known.gated ∙ k.0 in
    subst (IsMatch context r.players) k.1 (known.five (eq_of_equals r.state matched is))

-- A side proof that the identity gives to the series, after any calls of its resolver, passes the
-- check of the series for its source generation and map epoch. It is given for a bound match only,
-- where ten players of the roster are resolved, five of each entrant, and it has the sides that the
-- identity found for the entrants.
pub side_proof-proven :
    (start : Option MatchContext) (calls : List ResolverCall) (generation epoch : ℕ)
    (proof : SeriesSideProof)
    → let r = run_calls calls (create_identity_resolver start) in
      series_side_proof_for generation epoch r.resolution ≡ some proof
      → (valid_side_proof (some proof) generation epoch ≡ true)
        × Rests r.context r.resolution proof
        × (r.resolution.side_mapping ≡ record { a = proof.a; b = proof.b })
side_proof-proven start calls generation epoch proof h =
    let r = run_calls calls (create_identity_resolver start) in
    (
      side_proof-valid generation epoch r.resolution proof h,
      side_proof-Rests r.context generation epoch r.resolution proof (resolver-IsProven start calls)
          h,
      (side_proof-sides generation epoch r.resolution proof h).1,
    )
