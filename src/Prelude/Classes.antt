-- ===== src/Prelude/Classes.antt =====
-- One equality test for every type that the program compares by `===`.
use Prim.Native.Nat.{ℕ}
use Prim.Native.String.{String}
use mathlib.Core.Path.{◌≡◌, refl, ap, sym, ◌∙◌}
use mathlib.Core.Logic.{◌↔◌, inl, inr}
use mathlib.Core.Bool.{Bool, true, false, ◌&&◌, false≢true}
use mathlib.Core.Option.{Option, none, some}
use mathlib.Core.List.{List, [], ◌∷◌}
use native.Mathlib.Omega.{arith}
use text.Mathlib.Text.{◌==◌ as str_eq}
use text.Mathlib.TextEquality.{eq_iff}
use rival_hub_broadcast.Prelude.Tests.{eqb, eqb_iff, Bool-cases}
use rival_hub_broadcast.Prelude.Int.{ℤ, int_eqb}

pub record Eq {ℓ} (A : Type ℓ) : Type ℓ where
  pub equals : A → A → Bool
  pub equals_iff : (a b : A) → (equals a b ≡ true) ↔ (a ≡ b)

infix 50 ◌==◌
abbrev pub ◌==◌ {ℓ} : {A : Type ℓ} ⦃e : Eq A⦄ → A → A → Bool
◌==◌ ⦃e⦄ = e.equals

infix 50 ◌!=◌
abbrev pub ◌!=◌ {ℓ} : {A : Type ℓ} ⦃e : Eq A⦄ → A → A → Bool
a != b = elim (a == b) [ true ↦ false | false ↦ true ]

pub eq_of_equals {ℓ} : {A : Type ℓ} ⦃e : Eq A⦄ (a b : A) → a == b ≡ true → a ≡ b
eq_of_equals ⦃e⦄ a b h = (e.equals_iff a b).0 h

pub equals_self {ℓ} : {A : Type ℓ} ⦃e : Eq A⦄ (a : A) → a == a ≡ true
equals_self ⦃e⦄ a = (e.equals_iff a a).1 refl

instance abbrev pub nat_eq : Eq ℕ
nat_eq = record { equals = eqb; equals_iff = eqb_iff }

instance abbrev pub string_eq : Eq String
string_eq = record { equals = str_eq; equals_iff = eq_iff }

pub int_eqb_iff : (a b : ℤ) → (int_eqb a b ≡ true) ↔ (a ≡ b)
int_eqb_iff a b = ground arith

instance abbrev pub int_eq : Eq ℤ
int_eq = record { equals = int_eqb; equals_iff = int_eqb_iff }

abbrev pub option_eqb {ℓ} : {A : Type ℓ} → (A → A → Bool) → Option A → Option A → Bool
option_eqb t none none = true
option_eqb t (some a) (some b) = t a b
option_eqb t _ _ = false

pub option_eqb_iff {ℓ} :
    {A : Type ℓ} (e : Eq A) (a b : Option A) → (option_eqb e.equals a b ≡ true) ↔ (a ≡ b)
option_eqb_iff e none none = ((λ h. refl), (λ h. refl))
option_eqb_iff e none (some b) = ((λ h. cc), (λ h. cc))
option_eqb_iff e (some a) none = ((λ h. cc), (λ h. cc))
option_eqb_iff e (some a) (some b) =
    ((λ h. ap some ((e.equals_iff a b).0 h)), (λ h. (e.equals_iff a b).1 (cc)))

instance abbrev pub option_eq {ℓ} : {A : Type ℓ} ⦃e : Eq A⦄ → Eq (Option A)
option_eq ⦃e⦄ = record { equals = option_eqb e.equals; equals_iff = option_eqb_iff e }

and_true : (a b : Bool) → a && b ≡ true → (a ≡ true) × (b ≡ true)
and_true true b h = (refl, h)
and_true false b h = (cc, cc)

abbrev pub list_eqb {ℓ} : {A : Type ℓ} → (A → A → Bool) → List A → List A → Bool
list_eqb t [] [] = true
list_eqb t (a ∷ xs) (b ∷ ys) = t a b && list_eqb t xs ys
list_eqb t _ _ = false

pub list_eqb_iff {ℓ} :
    {A : Type ℓ} (e : Eq A) (xs ys : List A) → (list_eqb e.equals xs ys ≡ true) ↔ (xs ≡ ys)
list_eqb_iff e [] [] = ((λ h. refl), (λ h. refl))
list_eqb_iff e [] (b ∷ ys) = ((λ h. cc), (λ h. cc))
list_eqb_iff e (a ∷ xs) [] = ((λ h. cc), (λ h. cc))
list_eqb_iff e (a ∷ xs) (b ∷ ys) = (
  (λ h.
      let k = and_true (e.equals a b) (list_eqb e.equals xs ys) h in
      let first = (e.equals_iff a b).0 k.0 in let rest = (list_eqb_iff e xs ys).0 k.1 in cc),
  (λ h.
      let first = (e.equals_iff a b).1 (cc) in
      let rest = (list_eqb_iff e xs ys).1 (cc) in rw (first, rest) refl),
)

instance abbrev pub list_eq {ℓ} : {A : Type ℓ} ⦃e : Eq A⦄ → Eq (List A)
list_eq ⦃e⦄ = record { equals = list_eqb e.equals; equals_iff = list_eqb_iff e }

pub record Both {ℓ κ} (A : Type ℓ) (B : Type κ) : Type (ℓ ⊔ κ) where
  pub first : A
  pub second : B

abbrev pub both {ℓ κ} : {A : Type ℓ} {B : Type κ} → A → B → Both A B
both a b = record { first = a; second = b }

abbrev pub both_eqb {ℓ κ} : {A : Type ℓ} {B : Type κ} → Eq A → Eq B → Both A B → Both A B → Bool
both_eqb e f x y = e.equals x.first y.first && f.equals x.second y.second

pub both_eqb_iff {ℓ κ} :
    {A : Type ℓ} {B : Type κ} (e : Eq A) (f : Eq B) (x y : Both A B)
    → (both_eqb e f x y ≡ true) ↔ (x ≡ y)
both_eqb_iff e f x y = (
  (λ h.
      let k = and_true (e.equals x.first y.first) (f.equals x.second y.second) h in
      let same_first = (e.equals_iff x.first y.first).0 k.0 in
      let same_second = (f.equals_iff x.second y.second).0 k.1 in cc),
  (λ h.
      let same_first = (e.equals_iff x.first y.first).1 (ap (λ p. p.first) h) in
      let same_second = (f.equals_iff x.second y.second).1 (ap (λ p. p.second) h) in
      rw (same_first, same_second) refl),
)

instance abbrev pub both_eq {ℓ κ} : {A : Type ℓ} {B : Type κ} ⦃e : Eq A⦄ ⦃f : Eq B⦄ → Eq (Both A B)
both_eq ⦃e⦄ ⦃f⦄ = record { equals = both_eqb e f; equals_iff = both_eqb_iff e f }

-- Equality by a code that can be read back.
pub by_code_iff {ℓ κ} :
    {A : Type ℓ} {B : Type κ} (e : Eq B) (code : A → B) (back : B → A)
    → ((a : A) → back (code a) ≡ a)
    → (a b : A) → (e.equals (code a) (code b) ≡ true) ↔ (a ≡ b)
by_code_iff e code back inverse a b = (
  (λ h. sym (inverse a) ∙ ap back ((e.equals_iff (code a) (code b)).0 h) ∙ inverse b),
  (λ h. (e.equals_iff (code a) (code b)).1 (ap code h)),
)

abbrev pub eq_by {ℓ κ} :
    {A : Type ℓ} {B : Type κ} ⦃e : Eq B⦄ (code : A → B) (back : B → A)
    → ((a : A) → back (code a) ≡ a)
    → Eq A
eq_by ⦃e⦄ code back inverse = record {
  equals = λ a b. e.equals (code a) (code b);
  equals_iff = by_code_iff e code back inverse;
}

-- Structural equality of data, decided field by field.
pub String-discrete : Discrete String
String-discrete a b = elim (Bool-cases (str_eq a b)) [
  | inl same ↦ yes ((eq_iff a b).0 same)
  | inr other ↦ no (λ e. false≢true (sym other ∙ (eq_iff a b).1 e))
]

abbrev pub same {ℓ} : {A : Type ℓ} → Discrete A → A → A → Bool
same d a b = elim (d a b) [ yes _ ↦ true | no _ ↦ false ]

pub same_iff {ℓ} : {A : Type ℓ} (d : Discrete A) (a b : A) → (same d a b ≡ true) ↔ (a ≡ b)
same_iff d a b = elim (d a b) as (λ r. (elim r [ yes _ ↦ true | no _ ↦ false ] ≡ true) ↔ (a ≡ b)) [
  | yes p ↦ ((λ h. p), (λ h. refl))
  | no n ↦ ((λ h. cc), (λ h. absurd (n h)))
]

abbrev pub eq_of_discrete {ℓ} : {A : Type ℓ} → Discrete A → Eq A
eq_of_discrete d = record { equals = same d; equals_iff = same_iff d }
