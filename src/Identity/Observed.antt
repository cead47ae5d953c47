-- ===== src/Identity/Observed.antt =====
-- The loop over the observed players in packages/core/src/identity/resolve.ts resolves each player of
-- the roster at most once, under the Steam64 that the roster has.
use rival_hub_broadcast.Prelude.{
  ◌≡◌, refl, sym, inl, inr, Option, none, some, List, [], ◌∷◌, String, ◌==◌, string_eq, arith,
  Bool-cases, length, select, All, All-imp, has_text, has_key, get_key, set_key, values, count_key,
  KeysOnce, set_key-KeysOnce, All-set_key, get_key-All, All-values, All-sort, count-sort, sort,
}
use rival_hub_broadcast.Prelude.Text.{text_le}
use rival_hub_broadcast.Series.Types.{MatchContext}
use rival_hub_broadcast.Runtime.PlayerStats.{is_valid_steam64}
use rival_hub_broadcast.Identity.Types.{ObservedPlayer, ResolvedIdentityPlayer, IdentityIssue}
use rival_hub_broadcast.Identity.CanonicalIndex.{CanonicalPlayer, CanonicalIndex}
use rival_hub_broadcast.Identity.Players.{
  Resolving, resolve_as, resolve_canonical, resolve_observed, resolve_all, nothing_resolved,
  resolve_current_players, sort_resolved_players, resolved_from, resolved_le,
}
use rival_hub_broadcast.Identity.Rosters.{IsRostered, IdsOnce, IsIndexed}

-- An entry under its own id, of a player on the roster.
abbrev pub IsEntry : MatchContext → String × ResolvedIdentityPlayer → Type 0
IsEntry context e = IsRostered context e.1 × (e.0 ≡ e.1.canonical_player_id)

-- Entries for different players of the roster.
abbrev pub AreEntries : MatchContext → List (String × ResolvedIdentityPlayer) → Type 0
AreEntries context m = All (IsEntry context) m × KeysOnce m

pub set_key-AreEntries :
    (context : MatchContext) (p : ResolvedIdentityPlayer)
    (m : List (String × ResolvedIdentityPlayer))
    → IsRostered context p
    → AreEntries context m
    → AreEntries context (set_key p.canonical_player_id p m)
set_key-AreEntries context p m h entries = (
  All-set_key (IsEntry context) p.canonical_player_id p m (h, refl) entries.0,
  set_key-KeysOnce p.canonical_player_id p m entries.1,
)

-- The values of entries have different ids.
values-IdsOnce :
    (context : MatchContext) (id : String) (m : List (String × ResolvedIdentityPlayer))
    → All (IsEntry context) m
    → length (select (λ p. p.canonical_player_id == id) (values m)) ≡ count_key id m
values-IdsOnce context id [] h = refl
values-IdsOnce context id ((k, p) ∷ m) h = ground (arith, values-IdsOnce context id m h.1, h.0.1)

pub AreEntries-values :
    (context : MatchContext) (m : List (String × ResolvedIdentityPlayer))
    → AreEntries context m
    → All (IsRostered context) (values m) × IdsOnce (values m)
AreEntries-values context m h = (
  All-values (IsRostered context) m (All-imp (IsEntry context) _ m (λ e r. r.0) h.0),
  λ id. omega (arith, values-IdsOnce context id m h.0, h.1 id),
)

-- The sort by entry and id keeps all that.
pub sort_resolved_players-IsRostered :
    (context : MatchContext) (players : List ResolvedIdentityPlayer)
    → All (IsRostered context) players × IdsOnce players
    → All (IsRostered context) (sort_resolved_players players)
      × IdsOnce (sort_resolved_players players)
unfolding sort_resolved_players
sort_resolved_players-IsRostered context players h = (
  All-sort resolved_le (IsRostered context) players h.0,
  λ id. omega (
    arith,
    count-sort resolved_le (λ (p : ResolvedIdentityPlayer). p.canonical_player_id == id) players,
    h.1 id,
  ),
)

module _ (context : MatchContext) (canonical : CanonicalIndex)
    (indexed : All (IsIndexed context) canonical.by_steam64) where
  resolve_as-AreEntries :
      (c : CanonicalPlayer) (p : ObservedPlayer) (st : Resolving)
      → IsIndexed context (p.source_player_id, c)
      → AreEntries context st.resolved
      → AreEntries context (resolve_as c p st).resolved
  unfolding resolve_as
  resolve_as-AreEntries c p st h entries = elim (Bool-cases (has_key c.player_id st.resolved)) [
    | inl old ↦ rw old entries
    | inr new ↦ rw new (set_key-AreEntries context (resolved_from c p) st.resolved h entries)
  ]

  resolve_canonical-AreEntries :
      (found : Option CanonicalPlayer) (p : ObservedPlayer) (st : Resolving)
      → found ≡ get_key p.source_player_id canonical.by_steam64
      → AreEntries context st.resolved
      → AreEntries context (resolve_canonical found p st).resolved
  unfolding resolve_canonical
  resolve_canonical-AreEntries none p st e entries = entries
  resolve_canonical-AreEntries (some c) p st e entries =
      resolve_as-AreEntries c p st
        (get_key-All (IsIndexed context) p.source_player_id canonical.by_steam64 indexed (sym e))
        entries

  resolve_observed-AreEntries :
      (p : ObservedPlayer) (st : Resolving)
      → AreEntries context st.resolved
      → AreEntries context (resolve_observed canonical p st).resolved
  unfolding resolve_observed
  resolve_observed-AreEntries p st entries =
      elim (Bool-cases (is_valid_steam64 p.source_player_id)) [
        | inr bad ↦ rw bad entries
        | inl good ↦ elim (Bool-cases (has_text p.source_player_id st.seen)) [
          | inl again ↦ rw (good, again) entries
          | inr first ↦
              rw (good, first)
                (resolve_canonical-AreEntries (get_key p.source_player_id canonical.by_steam64) p _
                  refl entries)
        ]
      ]

  resolve_all-AreEntries :
      (ps : List ObservedPlayer) (st : Resolving)
      → AreEntries context st.resolved
      → AreEntries context (resolve_all canonical ps st).resolved
  unfolding resolve_all
  resolve_all-AreEntries [] st entries = entries
  resolve_all-AreEntries (p ∷ ps) st entries =
      resolve_all-AreEntries ps (resolve_observed canonical p st)
        (resolve_observed-AreEntries p st entries)

  -- The players that a frame resolves.
  pub resolve_current_players-IsRostered :
      (players : List ObservedPlayer) (issues : List IdentityIssue)
      → let r = resolve_current_players players canonical issues in
        All (IsRostered context) r.current_resolved × IdsOnce r.current_resolved
  unfolding resolve_current_players
  resolve_current_players-IsRostered players issues = sort_resolved_players-IsRostered context _ (
      AreEntries-values context _ (
        resolve_all-AreEntries (sort (λ x y. text_le x.source_player_id y.source_player_id) players)
          (nothing_resolved issues) (tt, λ id. omega arith)))
