-- ===== src/Replay.antt =====
-- packages/replay/src/session.ts: the cursor of a replay, its seeks and its playback. A seek waits for a
-- frame that the source rebuilds; its end is an event of its own, so seeks may end in any order. Instants
-- of the clock and of the capture are counts, and a speed is a fraction of two of them. Listeners, which
-- are told of a snapshot and change nothing, are left out.
use rival_hub_broadcast.Prelude.{
  ℕ, zero, suc, ◌+◌, ◌-◌, ◌*◌, min, Bool, true, false, not, ◌&&◌, ◌||◌, Option, none, some, List,
  [], ◌∷◌, String, arith, ◌==◌, ◌!=◌, nat_eq, string_eq, if◌then◌else◌, ltb, leb, eqb, length,
  get_elem?, drop, any, find,
}
pub mod Playback
pub mod Invariant
pub mod Seeking
pub mod History
mod Tests

pub record Cursor : Type 0 where
  pub capture_index : ℕ
  pub sequence : ℕ
  pub scheduled_elapsed_us : ℕ

pub record Frame {ℓ} (C : Type ℓ) : Type ℓ where
  pub cursor : Cursor
  pub content : C

pub record Event : Type 0 where
  pub id : String
  pub capture_index : ℕ

pub record Source {ℓ} (C : Type ℓ) : Type ℓ where
  pub frames : List (Frame C)
  pub events : List Event

-- The error that a seek leaves: the session's own, or that of the rebuild.
pub data SeekError : Type 0 where
  mismatched_cursor : SeekError
  rebuild_failed : String → SeekError

-- A call of `seekCaptureIndex` that waits for its frame, with its generation.
pub record Seek : Type 0 where
  pub generation : ℕ
  pub target : ℕ
  pub event_id : Option String

-- `current_index` is none where the source has -1.
pub record Session {ℓ} (C : Type ℓ) : Type ℓ where
  pub current : Option (Frame C)
  pub current_index : Option ℕ
  pub current_event_id : Option String
  pub presentation_revision : ℕ
  pub is_playing : Bool
  pub is_seeking : Bool
  pub error : Option SeekError
  pub timer : Bool
  pub generation : ℕ
  pub disposed : Bool
  pub wall_anchor_ms : ℕ
  pub capture_anchor_us : ℕ
  pub speed_over : ℕ
  pub speed_under : ℕ

-- `eventIdAt`: the last event that is not after the frame.
unfoldable pub event_id_at : List Event → ℕ → Option String
event_id_at [] index = none
event_id_at (e ∷ es) index = elim (event_id_at es index) [
  | some id ↦ some id
  | none ↦ if leb e.capture_index index then some e.id else none
]

-- The loop of the constructor, from the frame of an index on, behind a frame of an elapsed time.
unfoldable pub valid_frames {ℓ} : {C : Type ℓ} → ℕ → ℕ → List (Frame C) → Bool
valid_frames index elapsed [] = true
valid_frames index elapsed (f ∷ fs) =
    let rest = valid_frames (index + 1) f.cursor.scheduled_elapsed_us fs in
    f.cursor.capture_index == index && leb elapsed f.cursor.scheduled_elapsed_us && rest

abbrev pub first_session {ℓ} : {C : Type ℓ} → Source C → Frame C → Session C
first_session source f = record {
  current = some f;
  current_index = some 0;
  current_event_id = event_id_at source.events 0;
  presentation_revision = 0;
  is_playing = false;
  is_seeking = false;
  error = none;
  timer = false;
  generation = 0;
  disposed = false;
  wall_anchor_ms = 0;
  capture_anchor_us = 0;
  speed_over = 1;
  speed_under = 1;
}

-- None where the constructor throws.
unfoldable pub create {ℓ} : {C : Type ℓ} → Source C → Option (Session C)
create source = elim source.frames [
  | [] ↦ none
  | f ∷ fs ↦ if valid_frames 0 0 (f ∷ fs) then some (first_session source f) else none
]

abbrev pub last_index {ℓ} : {C : Type ℓ} → Source C → ℕ
last_index source = length source.frames - 1

-- The index, with the source's -1 at 0: both are asked only whether they are at the last frame.
abbrev pub index_or_zero : Option ℕ → ℕ
index_or_zero none = 0
index_or_zero (some i) = i

abbrev pub elapsed_of {ℓ} : {C : Type ℓ} → Option (Frame C) → ℕ
elapsed_of none = 0
elapsed_of (some f) = f.cursor.scheduled_elapsed_us

-- The elapsed time of the current frame, or else of the first.
abbrev pub anchor_of {ℓ} : {C : Type ℓ} → Source C → Option (Frame C) → ℕ
anchor_of source none = elapsed_of (get_elem? source.frames 0)
anchor_of source (some f) = f.cursor.scheduled_elapsed_us

-- A speed is over / under with both positive; none where the call throws. Before the last frame there is
-- a next one, so `scheduleNextFrame` sets the timer.
unfoldable pub play {ℓ} : {C : Type ℓ} → Source C → Session C → ℕ → ℕ → ℕ → Option (Session C)
play source s now over under =
    if s.disposed || eqb over 0 || eqb under 0
    then none
    else if leb (last_index source) (index_or_zero s.current_index) || s.is_playing
    then some s
    else some (record s {
      speed_over = over;
      speed_under = under;
      capture_anchor_us = anchor_of source s.current;
      wall_anchor_ms = now;
      is_playing = true;
      error = none;
      timer = true;
    })

unfoldable pub pause {ℓ} : {C : Type ℓ} → Session C → Session C
pause s =
    if s.disposed || not s.is_playing then s else record s { timer = false; is_playing = false }

abbrev pub is_event_at : String → ℕ → Event → Bool
is_event_at id index e = e.id == id && e.capture_index == index

abbrev pub is_known_event : List Event → Option String → ℕ → Bool
is_known_event events none index = true
is_known_event events (some id) index = any (is_event_at id index) events

-- `seekCaptureIndex` up to its wait: the session and the call that waits.
unfoldable pub begin_seek {ℓ} :
    {C : Type ℓ} → Source C → Session C → ℕ → Option String → Option (Session C × Seek)
begin_seek source s target event_id =
    if s.disposed
      || leb (length source.frames) target
      || not (is_known_event source.events event_id target)
    then none
    else some (
      record s {
        generation = s.generation + 1;
        timer = false;
        is_playing = false;
        is_seeking = true;
        error = none;
      },
      record { generation = s.generation + 1; target = target; event_id = event_id },
    )

pub data Rebuilt {ℓ} (C : Type ℓ) : Type ℓ where
  rebuilt : Frame C → Rebuilt C
  failed : String → Rebuilt C

abbrev pub event_or {ℓ} : {C : Type ℓ} → Source C → Option String → ℕ → Option String
event_or source none target = event_id_at source.events target
event_or source (some id) target = some id

abbrev pub fail_seek {ℓ} : {C : Type ℓ} → Session C → SeekError → Session C
fail_seek s e = record s { is_seeking = false; error = some e }

-- The end of a seek that is still the newest of its session.
unfoldable pub take_result {ℓ} : {C : Type ℓ} → Source C → Session C → Seek → Rebuilt C → Session C
take_result source s seek (failed message) = fail_seek s (rebuild_failed message)
take_result source s seek (rebuilt f) =
    if f.cursor.capture_index != seek.target then fail_seek s mismatched_cursor else record s {
      current = some f;
      current_index = some seek.target;
      current_event_id = event_or source seek.event_id seek.target;
      presentation_revision = s.presentation_revision + 1;
      is_seeking = false;
    }

-- `seekCaptureIndex` behind its wait.
unfoldable pub end_seek {ℓ} : {C : Type ℓ} → Source C → Session C → Seek → Rebuilt C → Session C
end_seek source s seek result =
    if s.disposed || seek.generation != s.generation then s else take_result source s seek result

unfoldable pub abort {ℓ} : {C : Type ℓ} → Session C → Session C
abort s = if s.disposed then s else record s {
  generation = s.generation + 1;
  timer = false;
  is_playing = false;
  is_seeking = false;
}

unfoldable pub dispose {ℓ} : {C : Type ℓ} → Session C → Session C
dispose s = if s.disposed then s else record (abort s) {
  disposed = true;
  timer = false;
  current = none;
  current_index = none;
  current_event_id = none;
  is_playing = false;
  is_seeking = false;
  error = none;
}

-- The frame's time has come: both sides of the source's comparison, times the speed's denominator and
-- with the clock's anchor moved over, so that nothing is subtracted.
abbrev pub is_due {ℓ} : {C : Type ℓ} → Session C → ℕ → Frame C → Bool
is_due s now f =
    leb (f.cursor.scheduled_elapsed_us * s.speed_under + s.wall_anchor_ms * 1000 * s.speed_over)
      (s.capture_anchor_us * s.speed_under + now * 1000 * s.speed_over)

-- How many entries a loop passes that stops at the first one off the test.
unfoldable pub count_while {ℓ} : {A : Type ℓ} → (A → Bool) → List A → ℕ
count_while p [] = 0
count_while p (x ∷ xs) = let rest = count_while p xs in if p x then suc rest else 0

-- How many frames the `while` loop passes.
abbrev pub due_frames {ℓ} : {C : Type ℓ} → Session C → ℕ → List (Frame C) → ℕ
due_frames s now fs = count_while (is_due s now) fs

abbrev pub show_index {ℓ} : {C : Type ℓ} → Source C → Session C → ℕ → Session C
show_index source s index = record s {
  current = get_elem? source.frames index;
  current_index = some index;
  current_event_id = event_id_at source.events index;
}

-- The end of the callback: playback stops at the last frame, or the timer is set again.
abbrev pub stop_or_go {ℓ} : {C : Type ℓ} → Source C → Session C → ℕ → Session C
stop_or_go source s index =
    if leb (last_index source) index
    then record s { is_playing = false; timer = false }
    else record s { timer = true }

-- The callback of the playback timer.
unfoldable pub tick {ℓ} : {C : Type ℓ} → Source C → Session C → ℕ → Session C
tick source s now =
    if s.disposed || not s.is_playing
    then record s { timer = false }
    else (let index = index_or_zero s.current_index in
        let target = index + due_frames s now (drop (index + 1) source.frames) in
        stop_or_go source (if ltb index target then show_index source s target else s) target)

-- The loop of `seekElapsedUs` over the frames behind the first.
abbrev pub frames_until {ℓ} : {C : Type ℓ} → ℕ → List (Frame C) → ℕ
frames_until elapsed fs = count_while (λ f. leb f.cursor.scheduled_elapsed_us elapsed) fs

-- A time below zero is the time zero.
unfoldable pub seek_elapsed {ℓ} :
    {C : Type ℓ} → Source C → Session C → ℕ → Option (Session C × Seek)
seek_elapsed source s elapsed =
    if s.disposed
    then none
    else begin_seek source s (frames_until elapsed (drop 1 source.frames)) none

unfoldable pub seek_event {ℓ} :
    {C : Type ℓ} → Source C → Session C → String → Option (Session C × Seek)
seek_event source s id = if s.disposed then none else elim (find (λ e. e.id == id) source.events) [
  | none ↦ none
  | some e ↦ begin_seek source s e.capture_index (some e.id)
]

pub data Direction : Type 0 where
  back forth : Direction

unfoldable pub step_frame {ℓ} :
    {C : Type ℓ} → Source C → Session C → Direction → Option (Session C × Seek)
step_frame source s back =
    begin_seek source s (min (last_index source) (index_or_zero s.current_index - 1)) none
step_frame source s forth =
    begin_seek source s (min (last_index source) (index_or_zero s.current_index + 1)) none

-- `findIndex`, none for -1.
unfoldable pub find_index {ℓ} : {A : Type ℓ} → (A → Bool) → List A → Option ℕ
find_index p [] = none
find_index p (x ∷ xs) =
    if p x then some 0 else elim (find_index p xs) [ none ↦ none | some i ↦ some (suc i) ]

-- The index one on or back from -1 or from an index, none below 0.
abbrev pub next_index : Option ℕ → Direction → Option ℕ
next_index none back = none
next_index none forth = some 0
next_index (some zero) back = none
next_index (some (suc i)) back = some i
next_index (some i) forth = some (suc i)

abbrev pub is_current_event : Option String → Event → Bool
is_current_event none e = false
is_current_event (some id) e = e.id == id

-- `events[index]`, undefined without an index.
abbrev pub event_at : List Event → Option ℕ → Option Event
event_at events none = none
event_at events (some i) = get_elem? events i

abbrev pub start_index {ℓ} : {C : Type ℓ} → Source C → Session C → Option ℕ
start_index source s = elim (find_index (is_current_event s.current_event_id) source.events) [
  | some i ↦ some i
  | none ↦ find_index (λ e. leb (index_or_zero s.current_index) e.capture_index) source.events
]

-- Without an event to go to, the session stays, and no seek waits.
unfoldable pub step_event {ℓ} :
    {C : Type ℓ} → Source C → Session C → Direction → Option (Session C × Option Seek)
step_event source s direction =
    if s.disposed
    then none
    else elim (event_at source.events (next_index (start_index source s) direction)) [
      | none ↦ some (s, none)
      | some e ↦ elim (begin_seek source s e.capture_index (some e.id)) [
        | none ↦ none
        | some (next, seek) ↦ some (next, some seek)
      ]
    ]
