-- ===== src/Identity/ActiveLineup/Stable.antt =====
-- The lineup of packages/core/src/identity/active-lineup.ts is empty or five and five, and a frame
-- that does not show five and five cannot change it on the same map.
use rival_hub_broadcast.Prelude.{
  ◌+◌, ◌≤◌, ◌≡◌, ◌⊎◌, refl, sym, ap, ◌∙◌, subst, inr, true, false, ◌&&◌, List, [], ◌∷◌, ◌++◌, map,
  String, ◌==◌, nat_eq, string_eq, arith, length, length-map, length-take-le, All, All-imp,
  has_text, count-map,
}
use rival_hub_broadcast.Series.Types.{SourceSide, ct, t, side_eq}
use rival_hub_broadcast.Runtime.Types.{coverage_eq}
use rival_hub_broadcast.Runtime.PlayerStats.{is_valid_steam64}
use rival_hub_broadcast.Identity.Types.{ObservedPlayer, Evidence}
use rival_hub_broadcast.Identity.ActiveLineup.{
  ActiveLineupPlayer, ActiveLineupResolution, ActiveLineupInput, LineupIssue, is_previous_baseline,
  max_lineup_extras,
}
use rival_hub_broadcast.Identity.ActiveLineup.Resolve.{extras_from, lineup_ids, retain_previous}
use rival_hub_broadcast.Identity.ActiveLineup.Parts.{
  lineup_count, update, update_player-keeps, update-ids, extras_from-apart,
}

abbrev HasSteam64 : ActiveLineupPlayer → Type 0
HasSteam64 p = is_valid_steam64 p.source_player_id ≡ true

-- Nobody, or five players on each side with different Steam64s, and at most 32 others beside them.
pub record IsLineup (r : ActiveLineupResolution) : Type 0 where
  pub sizes : ((length r.ct ≡ 0) × (length r.t ≡ 0)) ⊎ ((length r.ct ≡ 5) × (length r.t ≡ 5))
  pub once : (id : String) → lineup_count id r.ct + lineup_count id r.t ≤ 1
  pub steam64 : All HasSteam64 r.ct × All HasSteam64 r.t
  pub sides : All (λ p. p.side ≡ ct) r.ct × All (λ p. p.side ≡ t) r.t
  pub apart :
      All
        (λ e.
          (has_text e.source_player_id (lineup_ids r.ct) ≡ false)
          × (has_text e.source_player_id (lineup_ids r.t) ≡ false))
        r.extras
  pub few : length r.extras ≤ max_lineup_extras

absent-append :
    (id : String) (xs ys : List ActiveLineupPlayer)
    → has_text id (lineup_ids (xs ++ ys)) ≡ false
    → (has_text id (lineup_ids xs) ≡ false) × (has_text id (lineup_ids ys) ≡ false)
absent-append id [] ys h = (refl, h)
absent-append id (x ∷ xs) ys h = ground (arith, absent-append id xs ys)

pub extras_from-few :
    (players : List ObservedPlayer) (selected : List String)
    → length (extras_from players selected) ≤ max_lineup_extras
unfolding extras_from
extras_from-few players selected = length-take-le max_lineup_extras _

-- A test on the id or side of a player holds of the updated players.
All-update :
    (P : ActiveLineupPlayer → Type 0) (f : ActiveLineupPlayer → ActiveLineupPlayer)
    (ps : List ActiveLineupPlayer)
    → ((p : ActiveLineupPlayer) → P p → P (f p))
    → All P ps
    → All P (map f ps)
All-update P f [] k h = tt
All-update P f (p ∷ ps) k h = (k p h.0, All-update P f ps k h.1)

five_of :
    (xs ys : List ActiveLineupPlayer)
    → (length xs == 5 && length ys == 5) ≡ true
    → (length xs ≡ 5) × (length ys ≡ 5)
five_of xs ys h = ground arith

module _ (previous : ActiveLineupResolution) (players : List ObservedPlayer)
    (conflicted : List String) (input : ActiveLineupInput) (issues : List LineupIssue)
    (evidence : Evidence) where
  abbrev kept : ActiveLineupPlayer → ActiveLineupPlayer
  kept = update input players conflicted evidence

  kept-count :
      (id : String) (ps : List ActiveLineupPlayer)
      → lineup_count id (map kept ps) ≡ lineup_count id ps
  kept-count id ps =
      count-map kept (λ p. p.source_player_id == id) ps
        (λ p.
          ap (λ (k : String). k == id) (update_player-keeps input players conflicted evidence p).0)

  kept-steam64 : (p : ActiveLineupPlayer) → HasSteam64 p → HasSteam64 (kept p)
  kept-steam64 p h =
      subst (λ (k : String). is_valid_steam64 k ≡ true)
        (sym (update_player-keeps input players conflicted evidence p).0) h

  kept-side : (side : SourceSide) (p : ActiveLineupPlayer) → p.side ≡ side → (kept p).side ≡ side
  kept-side side p h = (update_player-keeps input players conflicted evidence p).1 ∙ h

  pub retain_previous-IsLineup :
      IsLineup previous
      → is_previous_baseline previous ≡ true
      → IsLineup (retain_previous previous players conflicted input issues evidence)
  unfolding retain_previous is_previous_baseline
  retain_previous-IsLineup h five = record {
    sizes = inr (
      omega (arith, length-map kept previous.ct, five_of previous.ct previous.t five),
      omega (arith, length-map kept previous.t, five_of previous.ct previous.t five),
    );
    once = λ id. omega (arith, kept-count id previous.ct, kept-count id previous.t, h.once id);
    steam64 = (
      All-update HasSteam64 kept previous.ct kept-steam64 h.steam64.0,
      All-update HasSteam64 kept previous.t kept-steam64 h.steam64.1,
    );
    sides = (
      All-update (λ p. p.side ≡ ct) kept previous.ct (kept-side ct) h.sides.0,
      All-update (λ p. p.side ≡ t) kept previous.t (kept-side t) h.sides.1,
    );
    apart =
        All-imp _ _ _
          (λ e
              (a : has_text e.source_player_id
                  (lineup_ids (map kept previous.ct ++ map kept previous.t))
                ≡ false).
            absent-append e.source_player_id (map kept previous.ct) (map kept previous.t) a)
          (extras_from-apart players (lineup_ids (map kept previous.ct ++ map kept previous.t)));
    few = extras_from-few players (lineup_ids (map kept previous.ct ++ map kept previous.t));
  }

  pub retain_previous-ids :
      let r = retain_previous previous players conflicted input issues evidence in
      (lineup_ids r.ct ≡ lineup_ids previous.ct) × (lineup_ids r.t ≡ lineup_ids previous.t)
  unfolding retain_previous
  retain_previous-ids = (
    update-ids input players conflicted evidence previous.ct,
    update-ids input players conflicted evidence previous.t,
  )
