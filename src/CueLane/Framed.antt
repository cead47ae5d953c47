-- ===== src/CueLane/Framed.antt =====
-- Lists of the messages of apps/companion/src/local-protocol/program-cue-publisher.ts, the newest first:
-- their order, and the baselines that the cues stand under.
use rival_hub_broadcast.Prelude.{
  ℕ, ◌+◌, ◌≤◌, ◌<◌, ◌≡◌, refl, sym, ap, subst, Option, none, some, List, [], ◌∷◌, ◌++◌, arith, All,
  All-imp,
}
use rival_hub_broadcast.CueLane.{CueCursor, LaneKind, baseline, cue, LaneMessage, PendingCue}

-- The cursor of the last baseline.
abbrev pub next_cursor : LaneKind → CueCursor → Option CueCursor → Option CueCursor
next_cursor baseline c before = some c
next_cursor cue c before = before

abbrev pub last_cursor : List LaneMessage → Option CueCursor
last_cursor [] = none
last_cursor (m ∷ ms) = next_cursor m.kind m.cursor (last_cursor ms)

-- A cue stands under a baseline of its cursor.
abbrev pub Follows : LaneKind → CueCursor → Option CueCursor → Type 0
Follows baseline c before = Unit
Follows cue c before = before ≡ some c

abbrev pub AreBelow : ℕ → List LaneMessage → Type 0
AreBelow n ms = All (λ m. m.channel_seq ≤ n) ms

-- Sent in the order of the channel, each cue after a baseline of its cursor and with none of another
-- cursor in between.
abbrev pub Framed : List LaneMessage → Type 0
Framed [] = Unit
Framed (m ∷ ms) =
    All (λ k. k.channel_seq < m.channel_seq) ms
    × Follows m.kind m.cursor (last_cursor ms)
    × Framed ms

-- A list of messages is as good as another one.
pub record Keeps (ms' ms : List LaneMessage) : Type 1 where
  pub same_cursor : last_cursor ms' ≡ last_cursor ms
  pub below : (P : LaneMessage → Type 0) → All P ms → All P ms'
  pub framed : Framed ms → Framed ms'

Keeps-cons : (m : LaneMessage) (ms' ms : List LaneMessage) → Keeps ms' ms → Keeps (m ∷ ms') (m ∷ ms)
Keeps-cons m ms' ms k = record {
  same_cursor = ap (next_cursor m.kind m.cursor) k.same_cursor;
  below = λ P h. (h.0, k.below P h.1);
  framed = λ h. (
    k.below (λ j. j.channel_seq < m.channel_seq) h.0,
    subst (Follows m.kind m.cursor) (sym k.same_cursor) h.1,
    k.framed h.2,
  );
}

-- The cues that wait, on top of the messages before them.
abbrev pub onto : List PendingCue → List LaneMessage → List LaneMessage
onto [] ms = ms
onto (p ∷ ps) ms = onto ps (p.message ∷ ms)

pub onto-Keeps :
    (ps : List PendingCue) (ms' ms : List LaneMessage)
    → Keeps ms' ms
    → Keeps (onto ps ms') (onto ps ms)
onto-Keeps [] ms' ms k = k
onto-Keeps (p ∷ ps) ms' ms k =
    onto-Keeps ps (p.message ∷ ms') (p.message ∷ ms) (Keeps-cons p.message ms' ms k)

-- Without a cue, a list is as good as with it.
pub drop_cue-Keeps : (m : LaneMessage) (ms : List LaneMessage) → m.kind ≡ cue → Keeps ms (m ∷ ms)
drop_cue-Keeps m ms is_cue = record {
  same_cursor = rw is_cue refl;
  below = λ P h. h.1;
  framed = λ h. h.2;
}

pub onto-append :
    (ps : List PendingCue) (p : PendingCue) (ms : List LaneMessage)
    → onto (ps ++ p ∷ []) ms ≡ p.message ∷ onto ps ms
onto-append [] p ms = refl
onto-append (q ∷ ps) p ms = onto-append ps p (q.message ∷ ms)

-- What lies below the waiting cues.
pub onto-Framed : (ps : List PendingCue) (ms : List LaneMessage) → Framed (onto ps ms) → Framed ms
onto-Framed [] ms h = h
onto-Framed (p ∷ ps) ms h = (onto-Framed ps (p.message ∷ ms) h).2

pub onto-AreBelow :
    (n : ℕ) (ps : List PendingCue) (ms : List LaneMessage) → AreBelow n (onto ps ms) → AreBelow n ms
onto-AreBelow n [] ms h = h
onto-AreBelow n (p ∷ ps) ms h = (onto-AreBelow n ps (p.message ∷ ms) h).1

pub AreBelow-later : (n n' : ℕ) (ms : List LaneMessage) → n ≤ n' → AreBelow n ms → AreBelow n' ms
AreBelow-later n n' ms le h =
    All-imp (λ m. m.channel_seq ≤ n) (λ m. m.channel_seq ≤ n') ms
      (λ m (k : m.channel_seq ≤ n). omega arith) h

pub AreBelow-strict :
    (n : ℕ) (ms : List LaneMessage) → AreBelow n ms → All (λ m. m.channel_seq < n + 1) ms
AreBelow-strict n ms h =
    All-imp (λ m. m.channel_seq ≤ n) (λ m. m.channel_seq < n + 1) ms
      (λ m (k : m.channel_seq ≤ n). omega arith) h
