-- ===== src/Identity/ActiveLineup/Tests.antt =====
-- Lineups of packages/core/src/identity/active-lineup.ts: a full frame, and one that lost its players.
use rival_hub_broadcast.Prelude.{
  Bool, true, Option, none, some, List, [], ◌∷◌, ◌++◌, map, ◌≡◌, ◌⊎◌, refl,
}
use rival_hub_broadcast.Series.Types.{ct, t}
use rival_hub_broadcast.Runtime.Types.{present}
use rival_hub_broadcast.Identity.Types.{ObservedPlayer}
use rival_hub_broadcast.Identity.Tests.{observed, ids_a, ids_b}
use rival_hub_broadcast.Identity.ActiveLineup.{
  ActiveLineupInput, ActiveLineupResolution, complete, degraded,
}
use rival_hub_broadcast.Identity.ActiveLineup.Resolve.{
  resolve_active_lineup, empty_active_lineup, lineup_ids, coverage_of, has_exact_five_vs_five,
}
use rival_hub_broadcast.Identity.ActiveLineup.Stable.{IsLineup}
use rival_hub_broadcast.Identity.ActiveLineup.Lineups.{run_lineups, lineups-IsLineup}
use rival_hub_broadcast.Identity.ActiveLineup.Kept.{candidates_of, resolve_active_lineup-keeps}

abbrev json_le : ObservedPlayer → ObservedPlayer → Bool
json_le x y = true

abbrev frame : Option ActiveLineupResolution → List ObservedPlayer → ActiveLineupInput
frame previous players = record {
  source_generation = 0;
  map_epoch = 1;
  all_players = some players;
  all_players_coverage = some present;
  context = none;
  identity = none;
  previous = previous;
  override = none;
}

abbrev everybody : List ObservedPlayer
everybody = map (observed ct) ids_a ++ map (observed t) ids_b

abbrev lineup : ActiveLineupResolution
lineup = resolve_active_lineup json_le (frame none everybody)

everybody_is_complete : lineup.state ≡ complete
unfolding resolve_active_lineup
everybody_is_complete = refl

-- A frame of one side only.
abbrev half : ActiveLineupInput
half = frame (some lineup) (map (observed t) ids_a)

half_is_degraded : (resolve_active_lineup json_le half).state ≡ degraded
unfolding resolve_active_lineup
half_is_degraded = refl

lineups-IsLineup_example :
    IsLineup (run_lineups json_le (frame none everybody ∷ half ∷ []) (empty_active_lineup 0 0))
lineups-IsLineup_example = lineups-IsLineup json_le (frame none everybody ∷ half ∷ []) 0 0

resolve_active_lineup-keeps_example :
    let r = resolve_active_lineup json_le half in
    ((coverage_of half ≡ present) × (has_exact_five_vs_five (candidates_of json_le half) ≡ true))
    ⊎ ((lineup_ids r.ct ≡ lineup_ids lineup.ct) × (lineup_ids r.t ≡ lineup_ids lineup.t))
unfolding resolve_active_lineup
resolve_active_lineup-keeps_example =
    resolve_active_lineup-keeps json_le half lineup refl refl refl refl
