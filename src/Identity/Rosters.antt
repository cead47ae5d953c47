-- ===== src/Identity/Rosters.antt =====
-- Every player that packages/core/src/identity resolves stands on the roster of the match under the
-- Steam64 that was observed, and no player is resolved twice.
use rival_hub_broadcast.Prelude.{
  ◌≤◌, ◌≡◌, refl, inl, inr, Bool, true, ◌&&◌, ◌||◌, Option, none, some, List, [], ◌∷◌, String, ◌==◌,
  string_eq, option_eq, equals_self, arith, Bool-cases, any, length, select, All, All-imp, has_key,
  All-set_key,
}
use rival_hub_broadcast.Series.Types.{MatchContext, MatchEntrantContext, MatchPlayerContext}
use rival_hub_broadcast.Runtime.PlayerStats.{is_valid_steam64}
use rival_hub_broadcast.Identity.Types.{ResolvedIdentityPlayer}
use rival_hub_broadcast.Identity.CanonicalIndex.{
  CanonicalPlayer, CanonicalIndex, canonical_of, index_steam64, index_player, index_entrant,
  empty_index, build_canonical_index,
}

-- A roster lists a player under a Steam64.
abbrev lists : String → String → MatchPlayerContext → Bool
lists player_id id m = m.player_id == player_id && m.steam64 == some id

abbrev entrant_lists : String → String → String → MatchEntrantContext → Bool
entrant_lists entry_id player_id id entrant =
    entrant.entry_id == entry_id && any (lists player_id id) entrant.players

-- The match has a player of an entry under a Steam64.
abbrev pub is_listed : MatchContext → String → String → String → Bool
is_listed context entry_id player_id id =
    entrant_lists entry_id player_id id context.entrant_a
    || entrant_lists entry_id player_id id context.entrant_b

abbrev pub IsRostered : MatchContext → ResolvedIdentityPlayer → Type 0
IsRostered context p = is_listed context p.entry_id p.canonical_player_id p.steam64 ≡ true

abbrev pub IdsOnce : List ResolvedIdentityPlayer → Type 0
IdsOnce players = (id : String) → length (select (λ p. p.canonical_player_id == id) players) ≤ 1

-- The entries of the index by Steam64.
abbrev pub IsIndexed : MatchContext → String × CanonicalPlayer → Type 0
IsIndexed context e = is_listed context e.1.entry_id e.1.player_id e.0 ≡ true

module _ (context : MatchContext) where
  -- What an entrant's player becomes in the index is on the roster.
  abbrev CanIndex : String → MatchPlayerContext → Type 0
  CanIndex entry_id m =
      (id : String) → m.steam64 ≡ some id → IsIndexed context (id, canonical_of entry_id m)

  index_steam64-IsIndexed :
      (steam64 : Option String) (p : CanonicalPlayer) (index : CanonicalIndex)
      → ((id : String) → steam64 ≡ some id → IsIndexed context (id, p))
      → All (IsIndexed context) index.by_steam64
      → All (IsIndexed context) (index_steam64 steam64 p index).by_steam64
  unfolding index_steam64
  index_steam64-IsIndexed none p index can h = h
  index_steam64-IsIndexed (some id) p index can h = elim (Bool-cases (is_valid_steam64 id)) [
    | inr bad ↦ rw bad h
    | inl good ↦ elim (Bool-cases (has_key id index.by_steam64)) [
      | inl taken ↦ rw (good, taken) h
      | inr free ↦
          rw (good, free) (All-set_key (IsIndexed context) id p index.by_steam64 (can id refl) h)
    ]
  ]

  index_entrant-IsIndexed :
      (entry_id : String) (ps : List MatchPlayerContext) (index : CanonicalIndex)
      → All (CanIndex entry_id) ps
      → All (IsIndexed context) index.by_steam64
      → All (IsIndexed context) (index_entrant entry_id ps index).by_steam64
  unfolding index_entrant index_player
  index_entrant-IsIndexed entry_id [] index can h = h
  index_entrant-IsIndexed entry_id (p ∷ ps) index can h =
      index_entrant-IsIndexed entry_id ps (index_player (canonical_of entry_id p) index) can.1
        (index_steam64-IsIndexed p.steam64 (canonical_of entry_id p) _ can.0 h)

-- Each entry of a list is found by its own test.
any_self {ℓ} :
    {A : Type ℓ} (test : A → A → Bool) (xs : List A)
    → ((a : A) → test a a ≡ true)
    → All (λ a. any (test a) xs ≡ true) xs
any_self test [] self = tt
any_self test (x ∷ xs) self = (
  rw (self x) refl,
  All-imp _ _ xs (λ a (h : any (test a) xs ≡ true). ground arith) (any_self test xs self),
)

entrant-CanIndex :
    (context : MatchContext) (entrant : MatchEntrantContext)
    → ((player_id id : String)
        → entrant_lists entrant.entry_id player_id id entrant ≡ true
        → is_listed context entrant.entry_id player_id id ≡ true)
    → All (CanIndex context entrant.entry_id) entrant.players
entrant-CanIndex context entrant shown =
    All-imp _ _ entrant.players
      (λ m
          (h : any (λ n. n.player_id == m.player_id && n.steam64 == m.steam64) entrant.players
            ≡ true)
          id e.
        shown m.player_id id (rw (equals_self entrant.entry_id) (rw e at h)))
      (any_self (λ m n. n.player_id == m.player_id && n.steam64 == m.steam64) entrant.players
        (λ m. rw (equals_self m.player_id, equals_self m.steam64) refl))

pub build_canonical_index-IsIndexed :
    (context : MatchContext) → All (IsIndexed context) (build_canonical_index context).by_steam64
unfolding build_canonical_index
build_canonical_index-IsIndexed context =
    index_entrant-IsIndexed context context.entrant_b.entry_id context.entrant_b.players _
      (entrant-CanIndex context context.entrant_b (λ player_id id h. ground arith))
      (index_entrant-IsIndexed context context.entrant_a.entry_id context.entrant_a.players
        empty_index (entrant-CanIndex context context.entrant_a (λ player_id id h. ground arith))
        tt)
