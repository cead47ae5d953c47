-- ===== src/Outbox/Keys.antt =====
-- The keys of the records of apps/companion/src/output/reliable-outbox.ts are distinct.
use rival_hub_broadcast.Prelude.{
  ℕ, zero, suc, Bool, true, false, not, ◌≡◌, ◌≢◌, sym, ◌∙◌, List, [], ◌∷◌, ◌++◌, String, inl, inr,
  Bool-cases, All, All-append, any, select, drop, map, string_eq,
}
use rival_hub_broadcast.Outbox.{OutboxRecord, has_key}

abbrev pub key : OutboxRecord → String
key r = r.event.idempotency_key

-- Another record has another key.
abbrev pub IsOther : OutboxRecord → OutboxRecord → Type 0
IsOther r s = key r ≢ key s

abbrev pub Distinct : List OutboxRecord → Type 0
Distinct [] = Unit
Distinct (r ∷ rs) = All (IsOther r) rs × Distinct rs

pub All-select {ℓ κ} :
    {A : Type ℓ} (P : A → Type κ) (p : A → Bool) (xs : List A) → All P xs → All P (select p xs)
All-select P p [] h = tt
All-select P p (x ∷ xs) h =
    let rest = All-select P p xs h.1 in
    elim (Bool-cases (p x)) [ inl hit ↦ rw hit (h.0, rest) | inr miss ↦ rw miss rest ]

pub select-Distinct :
    (p : OutboxRecord → Bool) (rs : List OutboxRecord) → Distinct rs → Distinct (select p rs)
select-Distinct p [] d = tt
select-Distinct p (r ∷ rs) d =
    let rest = select-Distinct p rs d.1 in
    elim (Bool-cases (p r)) [
      | inl hit ↦ rw hit (All-select (IsOther r) p rs d.0, rest)
      | inr miss ↦ rw miss rest
    ]

pub drop-Distinct : (n : ℕ) (rs : List OutboxRecord) → Distinct rs → Distinct (drop n rs)
drop-Distinct zero rs d = d
drop-Distinct (suc n) [] d = d
drop-Distinct (suc n) (r ∷ rs) d = drop-Distinct n rs d.1

-- Every record of the one list is another than every record of the other.
abbrev pub Apart : List OutboxRecord → List OutboxRecord → Type 0
Apart rs ss = All (λ r. All (IsOther r) ss) rs

pub append-Distinct :
    (rs ss : List OutboxRecord) → Distinct rs → Distinct ss → Apart rs ss → Distinct (rs ++ ss)
append-Distinct [] ss d e apart = e
append-Distinct (r ∷ rs) ss d e apart =
    (All-append (IsOther r) rs ss d.0 apart.0, append-Distinct rs ss d.1 e apart.1)

Apart-cons :
    (s : OutboxRecord) (rs ss : List OutboxRecord)
    → All (IsOther s) rs
    → Apart rs ss
    → Apart rs (s ∷ ss)
Apart-cons s [] ss h apart = tt
Apart-cons s (r ∷ rs) ss h apart = (((λ e. h.0 (sym e)), apart.0), Apart-cons s rs ss h.1 apart.1)

-- The records that pass a test are apart from those that do not.
pub select-Apart :
    (p : OutboxRecord → Bool) (rs : List OutboxRecord)
    → Distinct rs
    → Apart (select (λ r. not (p r)) rs) (select p rs)
select-Apart p [] d = tt
select-Apart p (r ∷ rs) d =
    let rest = select-Apart p rs d.1 in
    elim (Bool-cases (p r)) [
      | inl hit ↦ rw hit (Apart-cons r _ _ (All-select (IsOther r) (λ s. not (p s)) rs d.0) rest)
      | inr miss ↦ rw miss (All-select (IsOther r) p rs d.0, rest)
    ]

-- No record has the key.
pub has_key-IsOther :
    (r : OutboxRecord) (rs : List OutboxRecord)
    → any (has_key (key r)) rs ≡ false
    → All (λ s. IsOther s r) rs
has_key-IsOther r [] h = tt
has_key-IsOther r (s ∷ rs) h = elim (Bool-cases (has_key (key r) s)) [
  | inl hit ↦ absurd (cc (rw hit at h))
  | inr miss ↦ (
    (λ e. let hit : has_key (key r) s ≡ true = (string_eq.equals_iff (key s) (key r)).1 e in cc),
    has_key-IsOther r rs (rw miss at h),
  )
]

-- A change of the records that keeps their keys keeps them distinct.
pub map-Distinct :
    (f : OutboxRecord → OutboxRecord) (rs : List OutboxRecord)
    → ((r : OutboxRecord) → key (f r) ≡ key r)
    → Distinct rs
    → Distinct (map f rs)
map-Distinct f [] same d = tt
map-Distinct f (r ∷ rs) same d = (map_others rs d.0, map-Distinct f rs same d.1)
  where
    map_others : (ss : List OutboxRecord) → All (IsOther r) ss → All (IsOther (f r)) (map f ss)
    map_others [] h = tt
    map_others (s ∷ ss) h = ((λ e. h.0 (sym (same r) ∙ e ∙ same s)), map_others ss h.1)
