-- ===== src/Identity/Tests.antt =====
-- A match of two rosters of five in packages/core/src/identity, and the frames that show it.
use rival_hub_broadcast.Prelude.{
  true, Option, none, some, List, [], ◌∷◌, ◌++◌, map, String, ◌≡◌, refl, length,
}
use rival_hub_broadcast.Series.Types.{
  MatchContext, MatchEntrantContext, MatchPlayerContext, bo1, SourceSide, ct, t, SeriesSideProof,
}
use rival_hub_broadcast.Identity.Types.{
  ObservedPlayer, IdentityObservationInput, IdentityResolution, matched, identity_code_discrete,
  normalize_identity_evidence,
}
use rival_hub_broadcast.Identity.Resolver.{resolve_identity, create_identity_resolver}
use rival_hub_broadcast.Identity.Proof.{
  ResolverCall, resolves, run_calls, IsProven, resolver-IsProven,
}
use rival_hub_broadcast.Identity.Grounds.{Grounds, resolve_identity-Grounds}
use rival_hub_broadcast.Identity.SideProof.{series_side_proof_for, Rests, side_proof-proven}
use rival_hub_broadcast.Series.Rounds.{valid_side_proof}

abbrev listed : String → MatchPlayerContext
listed id = record {
  player_id = id;
  steam64 = some id;
  display_name = some id;
  avatar_url = none;
  is_starter = true;
}

abbrev pub ids_a : List String
ids_a =
    "76561198000000001" ∷ "76561198000000002" ∷ "76561198000000003" ∷ "76561198000000004"
    ∷ "76561198000000005" ∷ []

abbrev pub ids_b : List String
ids_b =
    "76561198000000011" ∷ "76561198000000012" ∷ "76561198000000013" ∷ "76561198000000014"
    ∷ "76561198000000015" ∷ []

abbrev team : String → List String → MatchEntrantContext
team id ids = record { entry_id = id; name = id; logo_url = none; players = map listed ids }

abbrev final : MatchContext
final = record {
  match_id = "m1";
  format = bo1;
  entrant_a = team "A" ids_a;
  entrant_b = team "B" ids_b;
  maps = [];
  veto = [];
}

abbrev pub observed : SourceSide → String → ObservedPlayer
observed side id = record {
  source_player_id = id;
  display_name = none;
  side = some side;
  observer_slot = none;
  activity = some "playing";
  state = none;
  match_stats = none;
  weapons = none;
  position = none;
  forward = none;
}

abbrev input : Option (List ObservedPlayer) → IdentityObservationInput
input players = record {
  source_generation = 0;
  map_epoch = 1;
  all_players = players;
  all_players_coverage = none;
  map_name = none;
  map_phase = none;
  map_side_names = none;
}

abbrev full_frame : IdentityObservationInput
full_frame = input (some (map (observed ct) ids_a ++ map (observed t) ids_b))

abbrev resolution : IdentityResolution
resolution = resolve_identity (some final) full_frame none

full_frame_matches : resolution.state ≡ matched
unfolding resolve_identity
full_frame_matches = refl

full_frame_sides : resolution.side_mapping.b ≡ t
unfolding resolve_identity
full_frame_sides = refl

nobody_left : length resolution.unresolved ≡ 0
unfolding resolve_identity
nobody_left = refl

abbrev calls : List ResolverCall
calls = resolves full_frame ∷ resolves (input none) ∷ []

resolver-IsProven_example : IsProven (run_calls calls (create_identity_resolver (some final)))
resolver-IsProven_example = resolver-IsProven (some final) calls

resolve_identity-Grounds_example :
    Grounds final
      (normalize_identity_evidence (input none))
      (some resolution)
      (resolve_identity (some final) (input none) (some resolution))
unfolding resolve_identity
resolve_identity-Grounds_example =
    resolve_identity-Grounds final (input none) (some resolution) refl

-- The frame after the full one has no roster, and the match is kept.
side_proof-proven_example :
    let proof : SeriesSideProof = record { source_generation = 0; map_epoch = 1; a = ct; b = t } in
    let r = run_calls calls (create_identity_resolver (some final)) in
    (valid_side_proof (some proof) 0 1 ≡ true)
    × Rests r.context r.resolution proof
    × (r.resolution.side_mapping ≡ record { a = ct; b = t })
unfolding run_calls create_identity_resolver series_side_proof_for identity_code_discrete
side_proof-proven_example =
    side_proof-proven (some final) calls 0 1
      (record { source_generation = 0; map_epoch = 1; a = ct; b = t }) refl
