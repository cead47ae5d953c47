-- ===== src/MapName.antt =====
-- packages/core/src/map-name.ts: one identity for the names of a map.
use rival_hub_broadcast.Prelude.{
  Bool, true, false, Option, none, some, List, [], ◌∷◌, String, ◌==◌, string_eq, option_eq,
  if◌then◌else◌, ◌≡◌, refl, ◌&&◌,
}
use rival_hub_broadcast.Prelude.Text.{trim, to_lower, collapse_spaces}

abbrev pub cs2_map_aliases : List (String × String)
cs2_map_aliases =
    ("ancient", "de_ancient")
    ∷ ("anubis", "de_anubis")
    ∷ ("cache", "de_cache")
    ∷ ("dust2", "de_dust2")
    ∷ ("dust 2", "de_dust2")
    ∷ ("dust ii", "de_dust2")
    ∷ ("inferno", "de_inferno")
    ∷ ("mirage", "de_mirage")
    ∷ ("nuke", "de_nuke")
    ∷ ("overpass", "de_overpass")
    ∷ ("train", "de_train")
    ∷ ("vertigo", "de_vertigo")
    ∷ []

-- `CS2_MAP_ALIASES[normalized] ?? normalized`
alias_of : List (String × String) → String → String
alias_of [] name = name
alias_of ((alias, name') ∷ aliases) name = if alias == name then name' else alias_of aliases name

unfoldable pub canonicalize_cs2_map_name : String → Option String
unfolding alias_of trim to_lower collapse_spaces
canonicalize_cs2_map_name value =
    let normalized = collapse_spaces (to_lower (trim value)) in
    if normalized == "" then none else some (alias_of cs2_map_aliases normalized)

is_some : Option String → Bool
is_some none = false
is_some (some _) = true

unfoldable pub cs2_map_names_equal : String → String → Bool
unfolding canonicalize_cs2_map_name is_some
cs2_map_names_equal left right =
    let canonical_left = canonicalize_cs2_map_name left in
    is_some canonical_left && canonical_left == canonicalize_cs2_map_name right

-- `canonicalMapName` of the series reducer: the fallback is for blank names.
unfoldable pub canonical_map_name : String → String
unfolding canonicalize_cs2_map_name
canonical_map_name value = elim (canonicalize_cs2_map_name value) [
  | none ↦ to_lower (trim value)
  | some name ↦ name
]

canonical_map_name_runs :
    (canonical_map_name "  Dust   II " ≡ "de_dust2") × (canonical_map_name " " ≡ "")
unfolding canonical_map_name
canonical_map_name_runs = (refl, refl)
