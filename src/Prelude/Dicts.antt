-- ===== src/Prelude/Dicts.antt =====
-- The `Map` and `Set` of JavaScript over texts, in the order of insertion.
use Prim.Native.Nat.{ℕ, ◌+◌, ◌≤◌}
use Prim.Native.String.{String}
use mathlib.Core.Path.{◌≡◌, refl, ◌∙◌, sym, subst}
use mathlib.Core.Logic.{inl, inr}
use mathlib.Core.Bool.{Bool, true, false}
use mathlib.Core.Option.{Option, none, some}
use mathlib.Core.List.{List, [], ◌∷◌, ◌++◌, append-nil, append_assoc}
use native.Mathlib.Omega.{arith}
use rival_hub_broadcast.Prelude.Tests.{if◌then◌else◌, Bool-cases}
use rival_hub_broadcast.Prelude.Lists.{All, length, select}
use rival_hub_broadcast.Prelude.Classes.{◌==◌, string_eq, eq_of_equals, equals_self}

pair_path {ℓ κ} :
    {A : Type ℓ} {B : Type κ} {a a' : A} {b b' : B}
    → a ≡ a'
    → b ≡ b'
    → ◌≡◌ {A = A × B} (a, b) (a', b')
pair_path p q = cc

-- `Set.has` and `Set.add`.
abbrev pub has_text : String → List String → Bool
has_text k [] = false
has_text k (j ∷ js) = if j == k then true else has_text k js

abbrev pub add_text : String → List String → List String
add_text k js = if has_text k js then js else js ++ k ∷ []

module _ {ℓ} {A : Type ℓ} where
  -- `Map.has`, `Map.get`, `Map.set` and `Map.values`.
  abbrev pub has_key : String → List (String × A) → Bool
  has_key k [] = false
  has_key k ((j, v) ∷ m) = if j == k then true else has_key k m

  abbrev pub get_key : String → List (String × A) → Option A
  get_key k [] = none
  get_key k ((j, v) ∷ m) = if j == k then some v else get_key k m

  abbrev pub set_key : String → A → List (String × A) → List (String × A)
  set_key k v [] = (k, v) ∷ []
  set_key k v ((j, w) ∷ m) = if j == k then (k, v) ∷ m else (j, w) ∷ set_key k v m

  abbrev pub values : List (String × A) → List A
  values [] = []
  values ((j, v) ∷ m) = v ∷ values m

  -- `new Map` of a list of pairs.
  abbrev pub set_all : List (String × A) → List (String × A) → List (String × A)
  set_all m [] = m
  set_all m ((k, v) ∷ ps) = set_all (set_key k v m) ps

  -- How often a key stands in the entries of a map.
  abbrev pub count_key : String → List (String × A) → ℕ
  count_key k m = length (select (λ e. e.0 == k) m)

  pub count_key-append :
      (k : String) (m n : List (String × A)) → count_key k (m ++ n) ≡ count_key k m + count_key k n
  count_key-append k [] n = omega arith
  count_key-append k ((j, v) ∷ m) n = ground (arith, count_key-append k m n)

  pub has_key-absent :
      (k : String) (m : List (String × A)) → count_key k m ≡ 0 → has_key k m ≡ false
  has_key-absent k [] h = refl
  has_key-absent k ((j, v) ∷ m) h = ground (arith, has_key-absent k m)

  pub count_key-absent :
      (k : String) (m : List (String × A)) → has_key k m ≡ false → count_key k m ≡ 0
  count_key-absent k [] h = refl
  count_key-absent k ((j, v) ∷ m) h = ground (arith, count_key-absent k m)

  pub set_key-append :
      (k : String) (v : A) (m : List (String × A))
      → has_key k m ≡ false
      → set_key k v m ≡ m ++ (k, v) ∷ []
  set_key-append k v [] h = refl
  set_key-append k v ((j, w) ∷ m) h = ground (arith, set_key-append k v m)

  abbrev pub KeysOnce : List (String × A) → Type 0
  KeysOnce m = (k : String) → count_key k m ≤ 1

  -- A key that the map has is counted as before, and a new one is counted once.
  count_key-replace :
      (i k : String) (v : A) (m : List (String × A))
      → has_key k m ≡ true
      → count_key i (set_key k v m) ≡ count_key i m
  count_key-replace i k v [] h = cc
  count_key-replace i k v ((j, w) ∷ m) h = elim (Bool-cases (j == k)) [
    | inl hit ↦ ground (arith, eq_of_equals j k)
    | inr miss ↦ ground (arith, count_key-replace i k v m)
  ]

  pub set_key-KeysOnce :
      (k : String) (v : A) (m : List (String × A)) → KeysOnce m → KeysOnce (set_key k v m)
  set_key-KeysOnce k v m once i = elim (Bool-cases (has_key k m)) [
    | inl old ↦ omega (arith, count_key-replace i k v m old, once i)
    | inr new ↦ rw (set_key-append k v m new) (elim (Bool-cases (k == i)) [
      | inl hit ↦
          let e = eq_of_equals k i hit in
          let none_yet : count_key i m ≡ 0 = rw (← e) (count_key-absent k m new) in
          ground (arith, count_key-append i m ((k, v) ∷ []))
      | inr miss ↦ ground (arith, count_key-append i m ((k, v) ∷ []), once i)
    ])
  ]

  pub set_all-KeysOnce : (m ps : List (String × A)) → KeysOnce m → KeysOnce (set_all m ps)
  set_all-KeysOnce m [] once = once
  set_all-KeysOnce m ((k, v) ∷ ps) once =
      set_all-KeysOnce (set_key k v m) ps (set_key-KeysOnce k v m once)

  -- A list of pairs with different keys is the map of them.
  pub set_all-append : (m ps : List (String × A)) → KeysOnce (m ++ ps) → set_all m ps ≡ m ++ ps
  set_all-append m [] once = sym (append-nil m)
  set_all-append m ((k, v) ∷ ps) once =
      let self : k == k ≡ true = equals_self k in
      let new : has_key k m ≡ false =
        has_key-absent k m (ground (arith, once k, count_key-append k m ((k, v) ∷ ps))) in
      let moved : (m ++ (k, v) ∷ []) ++ ps ≡ m ++ (k, v) ∷ ps = append_assoc m ((k, v) ∷ []) ps in
      rw (set_key-append k v m new)
        (set_all-append (m ++ (k, v) ∷ []) ps (λ i. rw moved (once i)) ∙ moved)

module _ {ℓ κ} {A : Type ℓ} (P : String × A → Type κ) where
  pub All-set_key :
      (k : String) (v : A) (m : List (String × A)) → P (k, v) → All P m → All P (set_key k v m)
  All-set_key k v [] p h = (p, tt)
  All-set_key k v ((j, w) ∷ m) p h = elim (Bool-cases (j == k)) [
    | inl hit ↦ rw hit (p, h.1)
    | inr miss ↦ rw miss (h.0, All-set_key k v m p h.1)
  ]

  pub All-set_all : (m ps : List (String × A)) → All P m → All P ps → All P (set_all m ps)
  All-set_all m [] h hs = h
  All-set_all m ((k, v) ∷ ps) h hs = All-set_all (set_key k v m) ps (All-set_key k v m hs.0 h) hs.1

  pub get_key-All :
      (k : String) (m : List (String × A)) {v : A} → All P m → get_key k m ≡ some v → P (k, v)
  get_key-All k [] h e = cc
  get_key-All k ((j, w) ∷ m) {v} h e = elim (Bool-cases (j == k)) [
    | inl hit ↦ subst P (pair_path (eq_of_equals j k hit) (ground arith)) h.0
    | inr miss ↦ get_key-All k m h.1 (ground arith)
  ]

pub All-values {ℓ κ} :
    {A : Type ℓ} (P : A → Type κ) (m : List (String × A)) → All (λ e. P e.1) m → All P (values m)
All-values P [] h = tt
All-values P ((k, v) ∷ m) h = (h.0, All-values P m h.1)
