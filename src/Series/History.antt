-- ===== src/Series/History.antt =====
-- The rounds of a map: sorted, within the cap, and complete when none is missing.
use rival_hub_broadcast.Prelude.{
  ℕ, zero, suc, ◌+◌, Bool, true, false, ◌&&◌, ◌≡◌, ◌≢◌, ◌↔◌, refl, sym, ap, ◌∙◌, List, [], ◌∷◌, map,
  arith, inl, inr, Bool-cases, All, length, every, nat_eq, if◌then◌else◌, eqb, eqb_iff,
}
use mathlib.Core.Path.{ap₂}
use mathlib.Core.Bool.{false≢true}
use rival_hub_broadcast.Series.Types.{SeriesRoundResult, SourceSide, side_eq, complete, partial}
use rival_hub_broadcast.Series.Rounds.{
  sort_rounds, follows, has_known_winner, completeness_of, history_completeness,
}

abbrev pub numbers : List SeriesRoundResult → List ℕ
numbers = map (λ r. r.round_number)

-- n, n + 1, …: as many numbers as said.
abbrev pub range : ℕ → ℕ → List ℕ
range n zero = []
range n (suc k) = n ∷ range (n + 1) k

cons-inv : {A : Type 0} (a b : A) (xs ys : List A) → a ∷ xs ≡ b ∷ ys → (a ≡ b) × (xs ≡ ys)
cons-inv a b xs ys e = (cc, cc)

follows_iff :
    (n : ℕ) (rs : List SeriesRoundResult)
    → (follows n rs ≡ true) ↔ (numbers rs ≡ range (n + 1) (length rs))
unfolding follows
follows_iff n [] = ((λ h. refl), (λ h. refl))
follows_iff n (r ∷ rs) = elim (Bool-cases (eqb r.round_number (n + 1))) [
  | inl hit ↦
      let next : r.round_number ≡ n + 1 = (eqb_iff _ _).0 hit in
      let rest = follows_iff r.round_number rs in
      rw hit (
        (λ h. ap₂ (◌∷◌) next (rest.0 h ∙ ap (λ k. range (k + 1) (length rs)) next)),
        (λ h. rest.1 ((cons-inv _ _ _ _ h).1 ∙ sym (ap (λ k. range (k + 1) (length rs)) next))),
      )
  | inr miss ↦
      rw miss
        ((λ h. cc), (λ h. absurd (false≢true (sym miss ∙ (eqb_iff _ _).1 (cons-inv _ _ _ _ h).0))))
]

every_iff :
    (rs : List SeriesRoundResult)
    → (every has_known_winner rs ≡ true) ↔ All (λ r. r.winner_side ≢ SourceSide.unknown) rs
every_iff [] = ((λ h. tt), (λ h. refl))
every_iff (r ∷ rs) = ground (arith, every_iff rs)

both_iff :
    {E P Q : Type 0} (a b c : Bool)
    → E
    → ((b && a) ≡ true) ↔ P
    → (c ≡ true) ↔ Q
    → ((if a && b && c then complete else partial) ≡ complete) ↔ (E × P × Q)
both_iff true true true e f g = ((λ h. (e, f.0 refl, g.0 refl)), (λ h. refl))
both_iff true true false e f g = ((λ h. cc), (λ h. absurd (false≢true (g.1 h.2))))
both_iff true false c e f g = ((λ h. cc), (λ h. absurd (false≢true (f.1 h.1))))
both_iff false true c e f g = ((λ h. cc), (λ h. absurd (false≢true (f.1 h.1))))
both_iff false false c e f g = ((λ h. cc), (λ h. absurd (false≢true (f.1 h.1))))

completeness_of_iff :
    (rs : List SeriesRoundResult)
    → (completeness_of rs ≡ complete) ↔ (
        (rs ≢ [])
        × (numbers rs ≡ range 1 (length rs))
        × All (λ r. r.winner_side ≢ SourceSide.unknown) rs)
unfolding completeness_of follows
completeness_of_iff [] = ((λ h. cc), (λ h. absurd (h.0 refl)))
completeness_of_iff (r ∷ rs) =
    both_iff (follows r.round_number rs) (eqb r.round_number 1) (every has_known_winner (r ∷ rs))
      (λ e. cc) (follows_iff 0 (r ∷ rs)) (every_iff (r ∷ rs))

-- A history is complete exactly when its rounds, sorted, are numbered 1, 2, … without a gap or a
-- duplicate and the winner's side of each is known; an empty history is not.
pub history_completeness_iff :
    (rs : List SeriesRoundResult)
    → (history_completeness rs ≡ complete) ↔ (
        (sort_rounds rs ≢ [])
        × (numbers (sort_rounds rs) ≡ range 1 (length (sort_rounds rs)))
        × All (λ r. r.winner_side ≢ SourceSide.unknown) (sort_rounds rs))
unfolding history_completeness
history_completeness_iff rs = completeness_of_iff (sort_rounds rs)
