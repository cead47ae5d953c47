-- ===== src/Replay/Invariant.antt =====
-- What holds of a session of packages/replay/src/session.ts between two calls.
use rival_hub_broadcast.Prelude.{
  ℕ, ◌<◌, true, false, not, ◌||◌, ◌≡◌, refl, sym, ap, ◌∙◌, Option, none, some, arith, String, inl,
  inr, Bool-cases, if_true, if_false, ltb, length, get_elem?, ◌!=◌, nat_eq, subst,
}
use rival_hub_broadcast.Replay.{
  Source, Session, Frame, Seek, Rebuilt, rebuilt, failed, play, pause, begin_seek, end_seek, abort,
  dispose, tick, index_or_zero, take_result, fail_seek, SeekError, mismatched_cursor,
  rebuild_failed, stop_or_go, show_index,
}
use rival_hub_broadcast.Replay.Playback.{left_at, tick-left, due_frames-inside}

pub record IsConsistent {ℓ} {C : Type ℓ} (source : Source C) (s : Session C) : Type ℓ where
  pub shown : s.disposed ≡ false → s.current_index ≡ some (index_or_zero s.current_index)
  pub inside : index_or_zero s.current_index < length source.frames
  pub cursor : (f : Frame C) → s.current ≡ some f → s.current_index ≡ some f.cursor.capture_index
  pub timed : s.timer ≡ s.is_playing
  pub ended :
      s.disposed ≡ true → (s.is_playing ≡ false) × (s.is_seeking ≡ false) × (s.current ≡ none)

-- The frames that the constructor takes stand at their capture index.
unfoldable pub IsIndexed {ℓ} : {C : Type ℓ} → Source C → Type ℓ
IsIndexed {C = C} source =
    (j : ℕ) (f : Frame C) → get_elem? source.frames j ≡ some f → f.cursor.capture_index ≡ j

-- A change that leaves the frame shown and the disposal as they are.
keeps {ℓ} :
    {C : Type ℓ} (source : Source C) (s t : Session C)
    → t.current ≡ s.current
    → t.current_index ≡ s.current_index
    → t.disposed ≡ s.disposed
    → t.timer ≡ t.is_playing
    → (t.disposed ≡ true → (t.is_playing ≡ false) × (t.is_seeking ≡ false))
    → IsConsistent source s
    → IsConsistent source t
keeps source s t current index disposed timed ended i = record {
  shown = λ h. index ∙ i.shown (sym disposed ∙ h) ∙ ap (λ n. some (index_or_zero n)) (sym index);
  inside = subst (λ n. index_or_zero n < length source.frames) (sym index) i.inside;
  cursor = λ f h. index ∙ i.cursor f (sym current ∙ h);
  timed = timed;
  ended = λ h. ((ended h).0, (ended h).1, current ∙ (i.ended (sym disposed ∙ h)).2);
}

pub play-IsConsistent {ℓ} :
    {C : Type ℓ} (source : Source C) (s t : Session C) (now over under : ℕ)
    → play source s now over under ≡ some t
    → IsConsistent source s
    → IsConsistent source t
unfolding play
play-IsConsistent source s t now over under e i =
    keeps source s t (ground arith) (ground arith) (ground arith) (ground arith) (ground arith) i

pub pause-IsConsistent {ℓ} :
    {C : Type ℓ} (source : Source C) (s : Session C)
    → IsConsistent source s
    → IsConsistent source (pause s)
unfolding pause
pause-IsConsistent source s i =
    keeps source s (pause s) (ground arith) (ground arith) (ground arith) (ground arith)
      (ground arith) i

pub begin_seek-IsConsistent {ℓ} :
    {C : Type ℓ} (source : Source C) (s t : Session C) (target : ℕ) (event_id : Option String)
    (seek : Seek)
    → begin_seek source s target event_id ≡ some (t, seek)
    → IsConsistent source s
    → IsConsistent source t
unfolding begin_seek
begin_seek-IsConsistent source s t target event_id seek e i =
    keeps source s t (ground arith) (ground arith) (ground arith) (ground arith) (ground arith) i

pub begin_seek-target {ℓ} :
    {C : Type ℓ} (source : Source C) (s t : Session C) (target : ℕ) (event_id : Option String)
    (seek : Seek)
    → begin_seek source s target event_id ≡ some (t, seek)
    → seek.target < length source.frames
unfolding begin_seek
begin_seek-target source s t target event_id seek e = ground arith

pub abort-IsConsistent {ℓ} :
    {C : Type ℓ} (source : Source C) (s : Session C)
    → IsConsistent source s
    → IsConsistent source (abort s)
unfolding abort
abort-IsConsistent source s i =
    keeps source s (abort s) (ground arith) (ground arith) (ground arith) (ground arith)
      (ground arith) i

pub dispose-IsConsistent {ℓ} :
    {C : Type ℓ} (source : Source C) (s : Session C)
    → IsConsistent source s
    → IsConsistent source (dispose s)
unfolding dispose
dispose-IsConsistent source s i = elim (Bool-cases s.disposed) [
  | inl gone ↦ subst (IsConsistent source) (sym (if_true _ _ gone)) i
  | inr live ↦ subst (IsConsistent source) (sym (if_false _ _ live)) (record {
    shown = λ h. absurd (cc h);
    inside = let some_frame = i.inside in omega arith;
    cursor = λ f h. absurd (cc h);
    timed = refl;
    ended = λ h. (refl, refl, refl);
  })
]

fail_seek-IsConsistent {ℓ} :
    {C : Type ℓ} (source : Source C) (s : Session C) (e : SeekError)
    → s.disposed ≡ false
    → IsConsistent source s
    → IsConsistent source (fail_seek s e)
fail_seek-IsConsistent source s e live i =
    keeps source s (fail_seek s e) refl refl refl i.timed (λ h. absurd (cc h)) i

take_result-IsConsistent {ℓ} :
    {C : Type ℓ} (source : Source C) (s : Session C) (seek : Seek) (result : Rebuilt C)
    → s.disposed ≡ false
    → seek.target < length source.frames
    → IsConsistent source s
    → IsConsistent source (take_result source s seek result)
unfolding take_result
take_result-IsConsistent source s seek (failed message) live h i =
    fail_seek-IsConsistent source s (rebuild_failed message) live i
take_result-IsConsistent source s seek (rebuilt f) live h i =
    elim (Bool-cases (f.cursor.capture_index != seek.target)) [
      | inl off ↦
          subst (IsConsistent source) (sym (if_true _ _ off))
            (fail_seek-IsConsistent source s mismatched_cursor live i)
      | inr on ↦
          let same : f.cursor.capture_index ≡ seek.target = ground arith in
          subst (IsConsistent source) (sym (if_false _ _ on)) (record {
            shown = λ d. refl;
            inside = h;
            cursor = λ g e.
                ap some (sym same)
                ∙ ap
                    (λ (k : Option (Frame _)). elim k [
                      | none ↦ none
                      | some x ↦ some x.cursor.capture_index
                    ])
                    e;
            timed = i.timed;
            ended = λ d. absurd (cc d);
          })
    ]

pub end_seek-IsConsistent {ℓ} :
    {C : Type ℓ} (source : Source C) (s : Session C) (seek : Seek) (result : Rebuilt C)
    → seek.target < length source.frames
    → IsConsistent source s
    → IsConsistent source (end_seek source s seek result)
unfolding end_seek
end_seek-IsConsistent source s seek result h i =
    elim (Bool-cases (s.disposed || seek.generation != s.generation)) [
      | inl late ↦ subst (IsConsistent source) (sym (if_true _ _ late)) i
      | inr now ↦
          let live : s.disposed ≡ false = ground arith in
          subst (IsConsistent source) (sym (if_false _ _ now))
            (take_result-IsConsistent source s seek result live h i)
    ]

show_index-IsConsistent {ℓ} :
    {C : Type ℓ} (source : Source C) (s : Session C) (index : ℕ)
    → IsIndexed source
    → index < length source.frames
    → s.disposed ≡ false
    → IsConsistent source s
    → IsConsistent source (show_index source s index)
unfolding IsIndexed
show_index-IsConsistent source s index indexed inside live i = record {
  shown = λ d. refl;
  inside = inside;
  cursor = λ f e. ap some (sym (indexed index f e));
  timed = i.timed;
  ended = λ d. absurd (cc d);
}

stop_or_go-IsConsistent {ℓ} :
    {C : Type ℓ} (source : Source C) (s : Session C) (index : ℕ)
    → s.disposed ≡ false
    → s.is_playing ≡ true
    → IsConsistent source s
    → IsConsistent source (stop_or_go source s index)
stop_or_go-IsConsistent source s index live going i =
    keeps source s (stop_or_go source s index) (ground arith) (ground arith) (ground arith)
      (ground arith) (ground arith) i

left_at-IsConsistent {ℓ} :
    {C : Type ℓ} (source : Source C) (s : Session C) (i target : ℕ)
    → IsIndexed source
    → s.disposed ≡ false
    → s.is_playing ≡ true
    → target < length source.frames
    → IsConsistent source s
    → IsConsistent source (left_at source s i target)
left_at-IsConsistent {C = C} source s i target indexed live going inside c =
    elim (Bool-cases (ltb i target)) [
      | inr stays ↦
          subst (λ (x : Session C). IsConsistent source (stop_or_go source x target))
            (sym (if_false _ _ stays)) (stop_or_go-IsConsistent source s target live going c)
      | inl moves ↦
          subst (λ (x : Session C). IsConsistent source (stop_or_go source x target))
            (sym (if_true _ _ moves))
            (stop_or_go-IsConsistent source (show_index source s target) target live going
              (show_index-IsConsistent source s target indexed inside live c))
    ]

pub tick-IsConsistent {ℓ} :
    {C : Type ℓ} (source : Source C) (s : Session C) (now : ℕ)
    → IsIndexed source
    → IsConsistent source s
    → IsConsistent source (tick source s now)
unfolding tick
tick-IsConsistent source s now indexed i = elim (Bool-cases (s.disposed || not s.is_playing)) [
  | inl idle ↦
      let ended = i.ended in
      let quiet : s.is_playing ≡ false = ground arith in
      subst (IsConsistent source) (sym (if_true _ _ idle)) (
        keeps source s (record s { timer = false }) refl refl refl (sym quiet)
          (λ h. ((i.ended h).0, (i.ended h).1)) i)
  | inr runs ↦
      let live : s.disposed ≡ false = ground arith in
      let going : s.is_playing ≡ true = ground arith in
      let index = index_or_zero s.current_index in
      subst (IsConsistent source) (sym (tick-left source s now index live going (i.shown live))) (
        left_at-IsConsistent source s index _ indexed live going
          (due_frames-inside source s now index i.inside) i)
]
