-- ===== src/Identity/CanonicalIndex.antt =====
-- packages/core/src/identity/canonical-index.ts: the roster of a match by player and by Steam64.
use rival_hub_broadcast.Prelude.{
  Bool, Option, none, some, List, [], ◌∷◌, ◌++◌, String, string_eq, if◌then◌else◌, add_text,
  has_key, set_key,
}
use rival_hub_broadcast.Series.Types.{MatchContext, MatchPlayerContext}
use rival_hub_broadcast.Runtime.PlayerStats.{is_valid_steam64}

pub record CanonicalPlayer : Type 0 where
  pub player_id : String
  pub steam64 : Option String
  pub display_name : Option String
  pub avatar_url : Option String
  pub is_starter : Bool
  pub entry_id : String

pub record CanonicalIndex : Type 0 where
  pub all : List CanonicalPlayer
  pub by_player_id : List (String × CanonicalPlayer)
  pub by_steam64 : List (String × CanonicalPlayer)
  pub duplicate_player_ids : List String
  pub duplicate_steam64 : List String

abbrev pub canonical_of : String → MatchPlayerContext → CanonicalPlayer
canonical_of entry_id player = record {
  player_id = player.player_id;
  steam64 = player.steam64;
  display_name = player.display_name;
  avatar_url = player.avatar_url;
  is_starter = player.is_starter;
  entry_id = entry_id;
}

-- The second half of one round of the loop: the player under a Steam64 of 17 digits. A Steam64 that
-- is taken stays with the player who had it.
unfoldable pub index_steam64 : Option String → CanonicalPlayer → CanonicalIndex → CanonicalIndex
index_steam64 none player index = index
index_steam64 (some id) player index =
    if is_valid_steam64 id
    then (if has_key id index.by_steam64
        then record index { duplicate_steam64 = add_text id index.duplicate_steam64 }
        else record index { by_steam64 = set_key id player index.by_steam64 })
    else index

unfoldable pub index_player : CanonicalPlayer → CanonicalIndex → CanonicalIndex
unfolding index_steam64
index_player player index = index_steam64 player.steam64 player (record index {
  all = index.all ++ player ∷ [];
  by_player_id = set_key player.player_id player index.by_player_id;
  duplicate_player_ids =
      if has_key player.player_id index.by_player_id
      then add_text player.player_id index.duplicate_player_ids
      else index.duplicate_player_ids;
})

unfoldable pub index_entrant : String → List MatchPlayerContext → CanonicalIndex → CanonicalIndex
unfolding index_player
index_entrant entry_id [] index = index
index_entrant entry_id (p ∷ ps) index =
    index_entrant entry_id ps (index_player (canonical_of entry_id p) index)

abbrev pub empty_index : CanonicalIndex
empty_index = record {
  all = [];
  by_player_id = [];
  by_steam64 = [];
  duplicate_player_ids = [];
  duplicate_steam64 = [];
}

unfoldable pub build_canonical_index : MatchContext → CanonicalIndex
unfolding index_entrant
build_canonical_index context =
    index_entrant context.entrant_b.entry_id context.entrant_b.players
      (index_entrant context.entrant_a.entry_id context.entrant_a.players empty_index)
