-- ===== src/Runtime/PlayerLimits.antt =====
-- What packages/core/src/runtime/player-stats.ts keeps of a map: how many players, and which rounds.
use rival_hub_broadcast.Prelude.{
  ℕ, ◌+◌, ◌≤◌, Bool, ◌≡◌, refl, sym, ap, subst, some, List, [], ◌∷◌, String, arith, inl, inr,
  Bool-cases, Option-cases, ◌==◌, nat_eq, string_eq, suc, if◌then◌else◌, length, sort,
  insert_sorted,
}
use rival_hub_broadcast.Runtime.Types.{ObservedPlayer, BySteam64, round_phase_eq}
use rival_hub_broadcast.Runtime.PlayerStats.{
  is_valid_steam64, known_amount, max_tracked_map_players, is_full, put, raise_damage,
  copy_damage_of, copy_money_of, copy_all, copy_player_damage, copy_start_money, sorted_damage,
  add_damage, add_all, value_of,
}

length-insert_sorted {ℓ} :
    {A : Type ℓ} (le : A → A → Bool) (x : A) (xs : List A)
    → length (insert_sorted le x xs) ≡ length xs + 1
unfolding insert_sorted length
length-insert_sorted le x [] = refl
length-insert_sorted le x (y ∷ ys) =
    let rest : length (insert_sorted le x ys) ≡ length ys + 1 = length-insert_sorted le x ys in
    ground arith

length-sort {ℓ} : {A : Type ℓ} (le : A → A → Bool) (xs : List A) → length (sort le xs) ≡ length xs
unfolding sort length
length-sort le [] = refl
length-sort le (x ∷ xs) =
    let rest : length (sort le xs) ≡ length xs = length-sort le xs in
    let one_more = length-insert_sorted le x (sort le xs) in ground arith

-- A known id keeps the length.
length-put_known :
    (id : String) (value old : ℕ) (entries : BySteam64)
    → value_of id entries ≡ some old
    → length (put id value entries) ≡ length entries
unfolding put value_of length
length-put_known id value old [] e = absurd (cc e)
length-put_known id value old ((k, v) ∷ entries) e = elim (Bool-cases (k == id)) [
  | inl found ↦ rw found refl
  | inr other ↦ rw other (ap suc (length-put_known id value old entries (rw other at e)))
]

length-put :
    (id : String) (value : ℕ) (entries : BySteam64)
    → length (put id value entries) ≤ length entries + 1
unfolding put length
length-put id value [] = ground arith
length-put id value ((k, v) ∷ entries) =
    let rest : length (put id value entries) ≤ length entries + 1 = length-put id value entries in
    ground arith

-- At most the tracked players.
abbrev pub IsBounded : BySteam64 → Type 0
IsBounded entries = length entries ≤ max_tracked_map_players

put_new-IsBounded :
    (id : String) (value : ℕ) (entries : BySteam64)
    → IsBounded entries
    → IsBounded (if is_full entries then entries else put id value entries)
put_new-IsBounded id value entries b =
    let grown : length (put id value entries) ≤ length entries + 1 = length-put id value entries in
    ground arith

put_known-IsBounded :
    (id : String) (value old : ℕ) (entries : BySteam64)
    → value_of id entries ≡ some old
    → IsBounded entries
    → IsBounded (put id value entries)
put_known-IsBounded id value old entries e b =
    let same : length (put id value entries) ≡ length entries =
      length-put_known id value old entries e in
    ground arith

pub sorted_damage-IsBounded :
    (entries : BySteam64) → IsBounded entries → IsBounded (sorted_damage entries)
unfolding sorted_damage
sorted_damage-IsBounded entries b =
    subst (λ n. n ≤ max_tracked_map_players) (sym (length-sort _ entries)) b

raise_damage-IsBounded :
    (id : String) (damage : ℕ) (entries : BySteam64)
    → IsBounded entries
    → IsBounded (raise_damage id damage entries)
unfolding raise_damage
raise_damage-IsBounded id damage entries b = elim (Option-cases (value_of id entries)) [
  | inl new ↦ rw (new, raise_damage) (put_new-IsBounded id damage entries b)
  | inr (old, known) ↦ rw (known, raise_damage) (put_known-IsBounded id _ old entries known b)
]

add_damage-IsBounded :
    (id : String) (damage : ℕ) (entries : BySteam64)
    → IsBounded entries
    → IsBounded (add_damage id damage entries)
unfolding add_damage
add_damage-IsBounded id damage entries b = elim (Option-cases (value_of id entries)) [
  | inl new ↦ rw (new, add_damage) (put_new-IsBounded id damage entries b)
  | inr (old, known) ↦ rw (known, add_damage) (put_known-IsBounded id _ old entries known b)
]

pub add_all-IsBounded :
    (entries completed : BySteam64) → IsBounded completed → IsBounded (add_all entries completed)
unfolding add_all
add_all-IsBounded [] completed b = b
add_all-IsBounded ((id, damage) ∷ entries) completed b =
    add_all-IsBounded entries (add_damage id damage completed)
      (add_damage-IsBounded id damage completed b)

copy_damage_of-IsBounded :
    (p : ObservedPlayer) (entries : BySteam64)
    → IsBounded entries
    → IsBounded (copy_damage_of p entries)
unfolding copy_damage_of
copy_damage_of-IsBounded p entries b = elim (Bool-cases (is_valid_steam64 p.source_player_id)) [
  | inr foreign ↦ rw foreign b
  | inl valid ↦ rw valid (elim (Option-cases (known_amount p.round_total_damage)) [
    | inl missing ↦ rw missing b
    | inr (damage, known) ↦ rw known (raise_damage-IsBounded p.source_player_id damage entries b)
  ])
]

copy_money_of-IsBounded :
    (p : ObservedPlayer) (entries : BySteam64)
    → IsBounded entries
    → IsBounded (copy_money_of p entries)
unfolding copy_money_of
copy_money_of-IsBounded p entries b = elim (Bool-cases (is_valid_steam64 p.source_player_id)) [
  | inr foreign ↦ rw foreign b
  | inl valid ↦ rw valid (elim (Option-cases (value_of p.source_player_id entries)) [
    | inr (old, seen) ↦ rw seen b
    | inl new ↦ rw new (elim (Option-cases (known_amount p.money)) [
      | inl missing ↦ rw missing b
      | inr (money, known) ↦ rw known (put_new-IsBounded p.source_player_id money entries b)
    ])
  ])
]

copy_all-IsBounded :
    (copy : ObservedPlayer → BySteam64 → BySteam64)
    → ((p : ObservedPlayer) (entries : BySteam64) → IsBounded entries → IsBounded (copy p entries))
    → (ps : List ObservedPlayer) (entries : BySteam64) → IsBounded entries
    → IsBounded (copy_all copy ps entries)
unfolding copy_all
copy_all-IsBounded copy keeps [] entries b = b
copy_all-IsBounded copy keeps (p ∷ ps) entries b =
    copy_all-IsBounded copy keeps ps (copy p entries) (keeps p entries b)

pub copy_player_damage-IsBounded :
    (entries : BySteam64) (ps : List ObservedPlayer)
    → IsBounded entries
    → IsBounded (copy_player_damage entries ps)
unfolding copy_player_damage
copy_player_damage-IsBounded entries ps b =
    sorted_damage-IsBounded _
      (copy_all-IsBounded copy_damage_of copy_damage_of-IsBounded _ entries b)

pub copy_start_money-IsBounded :
    (entries : BySteam64) (ps : List ObservedPlayer)
    → IsBounded entries
    → IsBounded (copy_start_money entries ps)
unfolding copy_start_money
copy_start_money-IsBounded entries ps b =
    sorted_damage-IsBounded _ (copy_all-IsBounded copy_money_of copy_money_of-IsBounded _ entries b)
