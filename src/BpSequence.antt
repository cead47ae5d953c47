-- ===== src/BpSequence.antt =====
-- packages/core/src/projection/bp-sequence.ts: the fixed order of bans, picks and sides before a match.
use rival_hub_broadcast.Prelude.{
  ℕ, zero, suc, ◌+◌, Bool, true, false, not, ◌&&◌, ◌||◌, ◌≡◌, ap, Option, none, some, List, [], ◌∷◌,
  String, ◌==◌, nat_eq, if◌then◌else◌, length, select, map, arith,
}
use rival_hub_broadcast.Series.Types.{MatchFormat, bo1, bo3, bo5, required_series_wins}
use rival_hub_broadcast.MapName.{canonical_map_name}
mod Tests

pub data Entrant : Type 0 where
  a b : Entrant

pub data SideTarget : Type 0 where
  of_pick of_decider : SideTarget

pub data BpSequenceAction : Type 0 where
  ban : Entrant → ℕ → BpSequenceAction
  pick : Entrant → ℕ → BpSequenceAction
  side_pick : Entrant → SideTarget → ℕ → BpSequenceAction
  decider : BpSequenceAction

abbrev pub default_local_bp_map_pool : List String
default_local_bp_map_pool =
    "de_mirage" ∷ "de_inferno" ∷ "de_nuke" ∷ "de_ancient" ∷ "de_dust2" ∷ "de_anubis" ∷ "de_cache"
    ∷ []

unfoldable pub other : Entrant → Entrant
other a = b
other b = a

unfoldable pub local_bp_sequence : MatchFormat → Entrant → List BpSequenceAction
local_bp_sequence bo1 x =
    ban x 0
    ∷ ban x 1
    ∷ ban (other x) 2
    ∷ ban (other x) 3
    ∷ ban (other x) 4
    ∷ ban x 5
    ∷ decider
    ∷ side_pick (other x) of_decider 0
    ∷ []
local_bp_sequence bo3 x =
    ban x 0
    ∷ ban (other x) 1
    ∷ pick x 0
    ∷ side_pick (other x) of_pick 0
    ∷ pick (other x) 1
    ∷ side_pick x of_pick 1
    ∷ ban (other x) 2
    ∷ ban x 3
    ∷ decider
    ∷ side_pick (other x) of_decider 0
    ∷ []
local_bp_sequence bo5 x =
    ban x 0
    ∷ ban (other x) 1
    ∷ pick x 0
    ∷ side_pick (other x) of_pick 0
    ∷ pick (other x) 1
    ∷ side_pick x of_pick 1
    ∷ pick x 2
    ∷ side_pick (other x) of_pick 2
    ∷ pick (other x) 3
    ∷ side_pick x of_pick 3
    ∷ decider
    ∷ []

-- The numbers of the slots that are filled: of bans, of picks, and the deciders.
abbrev pub ban_indices : List BpSequenceAction → List ℕ
ban_indices [] = []
ban_indices (ban _ i ∷ xs) = i ∷ ban_indices xs
ban_indices (_ ∷ xs) = ban_indices xs

abbrev pub pick_indices : List BpSequenceAction → List ℕ
pick_indices [] = []
pick_indices (pick _ i ∷ xs) = i ∷ pick_indices xs
pick_indices (_ ∷ xs) = pick_indices xs

abbrev pub deciders : List BpSequenceAction → ℕ
deciders [] = 0
deciders (decider ∷ xs) = suc (deciders xs)
deciders (_ ∷ xs) = deciders xs

-- 0, 1, …, below a number, counted from a start.
abbrev pub count_up : ℕ → ℕ → List ℕ
count_up start zero = []
count_up start (suc n) = start ∷ count_up (suc start) n

-- After each pick the other entrant picks the side on that map, and after a decider no pick follows.
abbrev pub sides_answer : List BpSequenceAction → Bool
sides_answer [] = true
sides_answer (pick a i ∷ side_pick b of_pick j ∷ xs) = i == j && sides_answer xs
sides_answer (pick b i ∷ side_pick a of_pick j ∷ xs) = i == j && sides_answer xs
sides_answer (pick _ _ ∷ _) = false
sides_answer (side_pick _ of_pick _ ∷ _) = false
sides_answer (_ ∷ xs) = sides_answer xs

-- A sequence fills every map of the pool once, in slots that are numbered from 0, plays as many maps as
-- the format needs, and lets the other entrant answer each pick with the side.
pub record IsComplete (format : MatchFormat) (xs : List BpSequenceAction) : Type 0 where
  pub bans : ban_indices xs ≡ count_up 0 (length (ban_indices xs))
  pub picks : pick_indices xs ≡ count_up 0 (length (pick_indices xs))
  pub one_decider : deciders xs ≡ 1
  pub pool :
      length (ban_indices xs) + length (pick_indices xs) + deciders xs
      ≡ length default_local_bp_map_pool
  pub maps :
      length (pick_indices xs) + deciders xs + 1
      ≡ required_series_wins format + required_series_wins format
  pub sides : sides_answer xs ≡ true
