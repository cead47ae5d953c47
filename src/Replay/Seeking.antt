-- ===== src/Replay/Seeking.antt =====
-- Which seek of packages/replay/src/session.ts may move the session.
use rival_hub_broadcast.Prelude.{
  ℕ, ◌+◌, ◌≤◌, ◌<◌, true, ◌≡◌, Option, some, arith, String, ◌!=◌, nat_eq,
}
use rival_hub_broadcast.Replay.{
  Source, Session, Seek, Rebuilt, rebuilt, failed, take_result, play, pause, begin_seek, end_seek,
  abort, dispose, tick,
}

-- One call, callback or end of a seek. What ends may be any seek that a call
-- has made.
pub data Step {ℓ} {C : Type ℓ} (source : Source C) : Session C → Session C → Type ℓ where
  plays :
      {s t : Session C} (now over under : ℕ)
      → play source s now over under ≡ some t
      → Step source s t
  pauses : {s : Session C} → Step source s (pause s)
  seeks :
      {s t : Session C} {seek : Seek} (target : ℕ) (event_id : Option String)
      → begin_seek source s target event_id ≡ some (t, seek)
      → Step source s t
  ends :
      {s : Session C} (before made : Session C) (seek : Seek) (target : ℕ)
      (event_id : Option String) (result : Rebuilt C)
      → begin_seek source before target event_id ≡ some (made, seek)
      → Step source s (end_seek source s seek result)
  ticks : {s : Session C} (now : ℕ) → Step source s (tick source s now)
  aborts : {s : Session C} → Step source s (abort s)
  disposes : {s : Session C} → Step source s (dispose s)

pub data Steps {ℓ} {C : Type ℓ} (source : Source C) : Session C → Session C → Type ℓ where
  stay : {s : Session C} → Steps source s s
  move : {s t u : Session C} → Step source s t → Steps source t u → Steps source s u

pub begin_seek-generation {ℓ} :
    {C : Type ℓ} (source : Source C) (s : Session C) (target : ℕ) (event_id : Option String)
    (t : Session C) (seek : Seek)
    → begin_seek source s target event_id ≡ some (t, seek)
    → (t.generation ≡ s.generation + 1) × (seek.generation ≡ s.generation + 1)
unfolding begin_seek
begin_seek-generation source s target event_id t seek e = (ground arith, ground arith)

Step-generation {ℓ} :
    {C : Type ℓ} (source : Source C) (s t : Session C)
    → Step source s t
    → s.generation ≤ t.generation
unfolding play pause end_seek take_result tick abort dispose
Step-generation source s t (plays now over under e) = ground arith
Step-generation source s _ pauses = ground arith
Step-generation source s t (seeks target event_id e) =
    let grown = (begin_seek-generation source s target event_id t _ e).0 in omega arith
Step-generation source s _ (ends before made seek target event_id (rebuilt f) e) = ground arith
Step-generation source s _ (ends before made seek target event_id (failed message) e) = ground arith
Step-generation source s _ (ticks now) = ground arith
Step-generation source s _ aborts = ground arith
Step-generation source s _ disposes = ground arith

Steps-generation {ℓ} :
    {C : Type ℓ} (source : Source C) {s t : Session C}
    → Steps source s t
    → s.generation ≤ t.generation
Steps-generation source stay = omega arith
Steps-generation source (move step more) =
    let first = Step-generation source _ _ step in
    let rest = Steps-generation source more in omega arith

other_generation-ignored {ℓ} :
    {C : Type ℓ} (source : Source C) (s : Session C) (seek : Seek) (result : Rebuilt C)
    → seek.generation < s.generation
    → end_seek source s seek result ≡ s
unfolding end_seek
other_generation-ignored source s seek result h =
    let other : (seek.generation != s.generation) ≡ true = ground arith in ground arith

-- A seek that is followed by another one never changes the session again, whatever happens between,
-- before and after them and with whatever its rebuild ends.
pub superseded_seek-ignored {ℓ} :
    {C : Type ℓ} (source : Source C) (s s1 s2 s3 s4 : Session C) (old new : Seek)
    (target next_target : ℕ) (event_id next_event_id : Option String) (result : Rebuilt C)
    → begin_seek source s target event_id ≡ some (s1, old)
    → Steps source s1 s2
    → begin_seek source s2 next_target next_event_id ≡ some (s3, new)
    → Steps source s3 s4
    → end_seek source s4 old result ≡ s4
superseded_seek-ignored source s s1 s2 s3 s4 old new target next_target event_id next_event_id
      result e m e' m' =
    let made = begin_seek-generation source s target event_id s1 old e in
    let between = Steps-generation source m in
    let remade = begin_seek-generation source s2 next_target next_event_id s3 new e' in
    let behind = Steps-generation source m' in
    let older : old.generation < s4.generation = omega arith in
    other_generation-ignored source s4 old result older
