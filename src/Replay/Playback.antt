-- ===== src/Replay/Playback.antt =====
-- What the playback timer of packages/replay/src/session.ts shows.
use rival_hub_broadcast.Prelude.{
  ℕ, zero, suc, ◌+◌, ◌-◌, ◌≤◌, ◌<◌, Bool, true, false, ◌≡◌, refl, sym, ap, ◌∙◌, some, List, [], ◌∷◌,
  arith, inl, inr, Bool-cases, if◌then◌else◌, ltb, length, get_elem?, drop, length-drop, subst,
}
use rival_hub_broadcast.Replay.{
  Source, Session, Frame, is_due, count_while, due_frames, tick, show_index, stop_or_go,
}

module _ {ℓ} {A : Type ℓ} (p : A → Bool) where
  count_while-le : (xs : List A) → count_while p xs ≤ length xs
  unfolding count_while
  count_while-le [] = omega arith
  count_while-le (x ∷ xs) =
      let rest : count_while p xs ≤ length xs = count_while-le xs in ground arith

  -- What the loop passes is on the test, and what it stops at is off it.
  count_while-passed :
      (xs : List A) (k : ℕ) (x : A) → k < count_while p xs → get_elem? xs k ≡ some x → p x ≡ true
  unfolding count_while
  count_while-passed [] k x h e = absurd (cc e)
  count_while-passed (y ∷ xs) zero x h e = elim (Bool-cases (p y)) [
    | inl on ↦ subst (λ z. p z ≡ true) (ground arith) on
    | inr off ↦ absurd (ground arith)
  ]
  count_while-passed (y ∷ xs) (suc k) x h e = count_while-passed xs k x (ground arith) e

  count_while-stopped :
      (xs : List A) (x : A) → get_elem? xs (count_while p xs) ≡ some x → p x ≡ false
  unfolding count_while
  count_while-stopped [] x e = absurd (cc e)
  count_while-stopped (y ∷ xs) x e = elim (Bool-cases (p y)) [
    | inl on ↦ count_while-stopped xs x (rw on at e)
    | inr off ↦ subst (λ z. p z ≡ false) (ground arith) off
  ]

get_elem?-drop {ℓ} :
    {A : Type ℓ} (n k : ℕ) (xs : List A) → get_elem? (drop n xs) k ≡ get_elem? xs (n + k)
get_elem?-drop zero k xs = ap (get_elem? xs) (omega arith)
get_elem?-drop (suc n) k [] = refl
get_elem?-drop (suc n) k (x ∷ xs) =
    let rest = get_elem?-drop n k xs in
    let next : suc n + k ≡ suc (n + k) = omega arith in rest ∙ ap (get_elem? (x ∷ xs)) (sym next)

-- What the timer shows of a session that plays at an index.
pub record Shows {ℓ} {C : Type ℓ} (source : Source C) (s : Session C) (now i : ℕ) (t : Session C)
    : Type ℓ where
  pub index : ℕ
  pub shown : t.current_index ≡ some index
  pub forward : i ≤ index
  pub inside : index < length source.frames
  pub passed :
      (k : ℕ) (f : Frame C)
      → i < k
      → k ≤ index
      → get_elem? source.frames k ≡ some f
      → is_due s now f ≡ true
  pub next : (f : Frame C) → get_elem? source.frames (index + 1) ≡ some f → is_due s now f ≡ false
  pub playing : t.is_playing ≡ ltb (index + 1) (length source.frames)
  pub timer : t.timer ≡ t.is_playing

-- The session that the callback leaves at a target.
abbrev pub left_at {ℓ} : {C : Type ℓ} → Source C → Session C → ℕ → ℕ → Session C
left_at source s i target =
    stop_or_go source (if ltb i target then show_index source s target else s) target

left_at-index {ℓ} :
    {C : Type ℓ} (source : Source C) (s : Session C) (i n : ℕ)
    → s.current_index ≡ some i
    → (left_at source s i (i + n)).current_index ≡ some (i + n)
left_at-index source s i n e = ground arith

left_at-playing {ℓ} :
    {C : Type ℓ} (source : Source C) (s : Session C) (i target : ℕ)
    → s.is_playing ≡ true
    → target < length source.frames
    → ((left_at source s i target).is_playing ≡ ltb (target + 1) (length source.frames))
      × ((left_at source s i target).timer ≡ (left_at source s i target).is_playing)
left_at-playing source s i target e h = (ground arith, ground arith)

pub tick-left {ℓ} :
    {C : Type ℓ} (source : Source C) (s : Session C) (now i : ℕ)
    → s.disposed ≡ false
    → s.is_playing ≡ true
    → s.current_index ≡ some i
    → tick source s now ≡ left_at source s i (i + due_frames s now (drop (i + 1) source.frames))
unfolding tick
tick-left source s now i live plays at = rw (live, plays, at) refl

pub due_frames-inside {ℓ} :
    {C : Type ℓ} (source : Source C) (s : Session C) (now i : ℕ)
    → i < length source.frames
    → i + due_frames s now (drop (i + 1) source.frames) < length source.frames
due_frames-inside source s now i inside =
    let few = count_while-le (is_due s now) (drop (i + 1) source.frames) in
    let left = length-drop (i + 1) source.frames in omega arith

-- When the timer of a playing session fires, the index shown does not go back and stays within the
-- frames; every frame passed is due, the one behind it is not, and playback goes on exactly if there is
-- a frame behind it.
pub tick-Shows {ℓ} :
    {C : Type ℓ} (source : Source C) (s : Session C) (now i : ℕ)
    → s.disposed ≡ false
    → s.is_playing ≡ true
    → s.current_index ≡ some i
    → i < length source.frames
    → Shows source s now i (tick source s now)
tick-Shows {C = C} source s now i live plays at inside =
    subst (Shows source s now i) (sym (tick-left source s now i live plays at)) (record {
      index = i + due_frames s now rest_frames;
      shown = left_at-index source s i _ at;
      forward = omega arith;
      inside = in_range;
      passed = λ k f later upto e.
          count_while-passed (is_due s now) rest_frames (k - (i + 1)) f (omega arith) (
            get_elem?-drop (i + 1) (k - (i + 1)) source.frames
            ∙ ap (get_elem? source.frames) (omega arith)
            ∙ e);
      next = λ f e.
          count_while-stopped (is_due s now) rest_frames f (
            get_elem?-drop (i + 1) _ source.frames
            ∙ ap (get_elem? source.frames) (omega arith)
            ∙ e);
      playing = (left_at-playing source s i _ plays in_range).0;
      timer = (left_at-playing source s i _ plays in_range).1;
    })
  where
    rest_frames : List (Frame C)
    rest_frames = drop (i + 1) source.frames

    in_range : i + due_frames s now rest_frames < length source.frames
    in_range = due_frames-inside source s now i inside
