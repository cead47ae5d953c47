-- ===== src/Outbox/Trim.antt =====
-- The cut of the records in apps/companion/src/output/reliable-outbox.ts loses no pending record.
use rival_hub_broadcast.Prelude.{
  ℕ, ◌-◌, ◌≤◌, Bool, false, ◌≡◌, refl, ap, ◌∙◌, List, [], ◌∷◌, ◌++◌, arith, inl, inr, Bool-cases,
  All, All-drop, select, drop, take_last, length, length-append, length-take_last-le,
}
use rival_hub_broadcast.Outbox.{
  OutboxRecord, is_pending, is_terminal, trim, max_terminal, max_records,
}
use rival_hub_broadcast.Outbox.Keys.{
  Distinct, select-Distinct, drop-Distinct, append-Distinct, select-Apart,
}

-- A list that is short enough is not cut.
take_last-all {ℓ} : {A : Type ℓ} (n : ℕ) (xs : List A) → length xs ≤ n → take_last n xs ≡ xs
take_last-all n xs h = let uncut : length xs - n ≡ 0 = omega arith in ap (λ k. drop k xs) uncut

pub select-append {ℓ} :
    {A : Type ℓ} (p : A → Bool) (xs ys : List A) → select p (xs ++ ys) ≡ select p xs ++ select p ys
select-append p [] ys = refl
select-append p (x ∷ xs) ys = elim (Bool-cases (p x)) [
  | inl hit ↦ rw hit (ap (λ zs. x ∷ zs) (select-append p xs ys))
  | inr miss ↦ rw miss (select-append p xs ys)
]

select-none {ℓ} :
    {A : Type ℓ} (p : A → Bool) (xs : List A) → All (λ x. p x ≡ false) xs → select p xs ≡ []
select-none p [] h = refl
select-none p (x ∷ xs) h = rw h.0 (select-none p xs h.1)

select-twice {ℓ} : {A : Type ℓ} (p : A → Bool) (xs : List A) → select p (select p xs) ≡ select p xs
select-twice p [] = refl
select-twice p (x ∷ xs) = elim (Bool-cases (p x)) [
  | inl hit ↦ rw (hit, hit) (ap (λ zs. x ∷ zs) (select-twice p xs))
  | inr miss ↦ rw miss (select-twice p xs)
]

terminal_not_pending :
    (rs : List OutboxRecord) → All (λ r. is_pending r ≡ false) (select is_terminal rs)
terminal_not_pending [] = tt
terminal_not_pending (r ∷ rs) =
    let rest = terminal_not_pending rs in
    elim (Bool-cases (is_pending r)) [ inl hit ↦ rw hit rest | inr miss ↦ rw miss (miss, rest) ]

-- The newest terminal records.
abbrev pub kept_terminal : List OutboxRecord → List OutboxRecord
kept_terminal rs = take_last max_terminal (select is_terminal rs)

-- Where at most 128 records are pending, the last cut takes nothing away.
pub trim-whole :
    (rs : List OutboxRecord)
    → length (select is_pending rs) ≤ 128
    → trim rs ≡ kept_terminal rs ++ select is_pending rs
unfolding trim
trim-whole rs h =
    let few = length-take_last-le max_terminal (select is_terminal rs) in
    let all = length-append (kept_terminal rs) (select is_pending rs) in
    take_last-all max_records _ (omega arith)

-- The cut keeps the pending records, all of them and in their order, if at most 128 are pending.
pub trim-pending :
    (rs : List OutboxRecord)
    → length (select is_pending rs) ≤ 128
    → select is_pending (trim rs) ≡ select is_pending rs
trim-pending rs h =
    let old : select is_pending (kept_terminal rs) ≡ [] =
      select-none is_pending (kept_terminal rs) (
        All-drop (λ r. is_pending r ≡ false) (length (select is_terminal rs) - max_terminal) _
          (terminal_not_pending rs)) in
    ap (select is_pending) (trim-whole rs h)
    ∙ select-append is_pending (kept_terminal rs) (select is_pending rs)
    ∙ ap (λ xs. xs ++ select is_pending (select is_pending rs)) old
    ∙ select-twice is_pending rs

pub trim-Distinct : (rs : List OutboxRecord) → Distinct rs → Distinct (trim rs)
unfolding trim
trim-Distinct rs d = drop-Distinct _ _ (
    append-Distinct (kept_terminal rs) (select is_pending rs)
      (drop-Distinct _ _ (select-Distinct is_terminal rs d)) (select-Distinct is_pending rs d)
      (All-drop _ (length (select is_terminal rs) - max_terminal) _ (select-Apart is_pending rs d)))

pub length-trim-le : (rs : List OutboxRecord) → length (trim rs) ≤ 192
unfolding trim
length-trim-le rs = length-take_last-le max_records (kept_terminal rs ++ select is_pending rs)
