-- ===== src/CueLane/Subscriber.antt =====
-- One subscriber of apps/companion/src/local-protocol/program-cue-publisher.ts: its messages.
use rival_hub_broadcast.Prelude.{
  ℕ, ◌+◌, ◌≤◌, ◌<◌, ◌≡◌, refl, sym, ap, ◌∙◌, subst, inl, inr, Bool, true, false, not, ◌||◌, Option,
  none, some, List, [], ◌∷◌, ◌++◌, arith, All, All-append, if◌then◌else◌, ltb, leb, Bool-cases,
  if_cases, length, length-append, ◌==◌, nat_eq,
}
use rival_hub_broadcast.CueLane.{
  CueCursor, baseline, cue, LaneMessage, PendingCue, CueSubscriber, LaneOptions, is_closing, start,
  drain_cues, drain, offer_baseline, offer_cue, make_room, queue_cue, is_free, finish_close, close,
  close_timed_out, new_subscriber, complete,
}
use rival_hub_broadcast.CueLane.Framed.{
  last_cursor, Framed, AreBelow, onto, onto-Keeps, drop_cue-Keeps, onto-append, onto-Framed,
  onto-AreBelow, AreBelow-later, AreBelow-strict,
}

abbrev pub reset_on : Option LaneMessage → List LaneMessage → List LaneMessage
reset_on none ms = ms
reset_on (some r) ms = r ∷ ms

-- What a subscriber has sent and what waits, the newest first.
abbrev pub stream : CueSubscriber → List LaneMessage
stream x = onto x.pending_cues (reset_on x.pending_reset x.send_calls)

-- Its messages are in order and under their baselines, none is newer than the channel, no more cues
-- wait than may, and while it is listed and open its last baseline is the publisher's.
pub record IsSound (o : LaneOptions) (n : ℕ) (current : Option CueCursor) (listed : Bool)
    (x : CueSubscriber) : Type 0 where
  pub framed : Framed (stream x)
  pub below : AreBelow n (stream x)
  pub queued : All (λ p. p.message.kind ≡ cue) x.pending_cues
  pub room : length x.pending_cues ≤ o.pending_max
  pub under : listed ≡ true → is_closing x.lifecycle ≡ false → last_cursor (stream x) ≡ current

reset_on-Framed :
    (r : Option LaneMessage) (ms : List LaneMessage) → Framed (reset_on r ms) → Framed ms
reset_on-Framed none ms h = h
reset_on-Framed (some m) ms h = h.2

reset_on-AreBelow :
    (n : ℕ) (r : Option LaneMessage) (ms : List LaneMessage)
    → AreBelow n (reset_on r ms)
    → AreBelow n ms
reset_on-AreBelow n none ms h = h
reset_on-AreBelow n (some m) ms h = h.1

pub sent-Framed : (x : CueSubscriber) → Framed (stream x) → Framed x.send_calls
sent-Framed x h =
    reset_on-Framed x.pending_reset x.send_calls
      (onto-Framed x.pending_cues (reset_on x.pending_reset x.send_calls) h)

sent-AreBelow : (n : ℕ) (x : CueSubscriber) → AreBelow n (stream x) → AreBelow n x.send_calls
sent-AreBelow n x h =
    reset_on-AreBelow n x.pending_reset x.send_calls
      (onto-AreBelow n x.pending_cues (reset_on x.pending_reset x.send_calls) h)

-- A subscriber that closes sends nothing more.
ended-IsSound :
    (o : LaneOptions) (n : ℕ) (current : Option CueCursor) (listed : Bool) (x y : CueSubscriber)
    → y.pending_cues ≡ []
    → y.pending_reset ≡ none
    → y.send_calls ≡ x.send_calls
    → is_closing y.lifecycle ≡ true
    → IsSound o n current listed x
    → IsSound o n current listed y
ended-IsSound o n current listed x y no_cues no_reset same ends h = record {
  framed = rw (no_cues, no_reset, same) (sent-Framed x h.framed);
  below = rw (no_cues, no_reset, same) (sent-AreBelow n x h.below);
  queued = rw no_cues tt;
  room = omega (arith, ap (λ (l : List PendingCue). length l) no_cues);
  under = λ l opened. cc;
}

module _ (o : LaneOptions) (n : ℕ) (current : Option CueCursor) (listed : Bool) where
  drain_cues-IsSound :
      (now : ℕ) (ps : List PendingCue) (x : CueSubscriber)
      → x.pending_reset ≡ none
      → is_closing x.lifecycle ≡ false
      → IsSound o n current listed (record x { pending_cues = ps })
      → IsSound o n current listed (drain_cues o now ps x)
  unfolding drain_cues
  drain_cues-IsSound now [] x none_reset opened h = record {
    framed = h.framed;
    below = h.below;
    queued = tt;
    room = omega arith;
    under = λ l e. h.under l opened;
  }
  drain_cues-IsSound now (p ∷ ps) x none_reset opened h =
      elim (Bool-cases (ltb (p.queued_at + o.pending_max_age) now)) [
        | inl old ↦
            let below_it = reset_on x.pending_reset x.send_calls in
            let k =
              onto-Keeps ps below_it (p.message ∷ below_it)
                (drop_cue-Keeps p.message below_it h.queued.0) in
            rw old (
              drain_cues-IsSound now ps (record x { expired = x.expired + 1 }) none_reset opened
                (record {
                  framed = k.framed h.framed;
                  below = k.below (λ m. m.channel_seq ≤ n) h.below;
                  queued = h.queued.1;
                  room = omega (arith, h.room);
                  under = λ l e. k.same_cursor ∙ h.under l opened;
                }))
        | inr fresh ↦
            let same : onto ps (p.message ∷ reset_on x.pending_reset x.send_calls)
                ≡ onto ps (reset_on x.pending_reset (p.message ∷ x.send_calls)) =
              rw none_reset refl in
            rw fresh (record {
              framed = subst Framed same h.framed;
              below = subst (AreBelow n) same h.below;
              queued = h.queued.1;
              room = omega (arith, h.room);
              under = λ l e. ap last_cursor (sym same) ∙ h.under l opened;
            })
      ]

  abbrev Sound : CueSubscriber → Type 0
  Sound x = IsSound o n current listed x

  reset_drain-IsSound :
      (now : ℕ) (reset : Option LaneMessage) (x : CueSubscriber)
      → x.pending_reset ≡ reset
      → is_closing x.lifecycle ≡ false
      → Sound x
      → Sound (elim reset as (λ _. CueSubscriber) [
        | none ↦ drain_cues o now x.pending_cues x
        | some r ↦ start r (record x { pending_reset = none })
      ])
  reset_drain-IsSound now none x e opened h = drain_cues-IsSound now x.pending_cues x e opened h
  reset_drain-IsSound now (some r) x e opened h =
      let same : stream x ≡ onto x.pending_cues (r ∷ x.send_calls) =
        ap (λ (q : Option LaneMessage). onto x.pending_cues (reset_on q x.send_calls)) e in
      record {
        framed = subst Framed same h.framed;
        below = subst (AreBelow n) same h.below;
        queued = h.queued;
        room = h.room;
        under = λ l e'. ap last_cursor (sym same) ∙ h.under l opened;
      }

  pub drain-IsSound : (now : ℕ) (x : CueSubscriber) → Sound x → Sound (drain o now x)
  unfolding drain
  drain-IsSound now x h =
      if_cases Sound (is_closing x.lifecycle || x.in_flight) _ _ (λ busy. h)
        (λ free. reset_drain-IsSound now x.pending_reset x refl (ground (arith, free)) h)

  pub finish_close-IsSound :
      (x y : CueSubscriber) → y.send_calls ≡ x.send_calls → Sound x → Sound (finish_close y)
  unfolding finish_close
  finish_close-IsSound x y same h =
      ended-IsSound o n current listed x (finish_close y) refl refl same refl h

  pub close-IsSound : (x : CueSubscriber) → Sound x → Sound (close o x)
  unfolding close finish_close
  close-IsSound x h =
      if_cases Sound x.close_called _ _ (λ again. h)
        (λ first.
          if_cases Sound (not x.in_flight) _ _
            (λ quiet. ended-IsSound o n current listed x _ refl refl refl refl h)
            (λ busy.
              if_cases Sound (o.close_timeout == 0) _ _
                (λ at_once. ended-IsSound o n current listed x _ refl refl refl refl h)
                (λ later. ended-IsSound o n current listed x _ refl refl refl refl h)))

  pub close_timed_out-IsSound : (x : CueSubscriber) → Sound x → Sound (close_timed_out x)
  unfolding close_timed_out
  close_timed_out-IsSound x h =
      if_cases Sound x.timer _ _
        (λ runs. finish_close-IsSound x (record x { failed = x.failed + 1 }) refl h) (λ stopped. h)

  pub complete-IsSound :
      (now : ℕ) (ok : Bool) (x : CueSubscriber) → Sound x → Sound (complete o now ok x)
  unfolding complete
  complete-IsSound now ok x h =
      let y : CueSubscriber = record x {
        in_flight = false;
        sent = if ok then x.sent + 1 else x.sent;
        failed = if ok then x.failed else x.failed + 1;
      } in
      if_cases Sound (not x.in_flight) _ _ (λ idle. h)
        (λ busy.
          if_cases Sound (is_closing x.lifecycle) _ _ (λ ends. finish_close-IsSound x y refl h)
            (λ opened. drain-IsSound now y (record {
              framed = h.framed;
              below = h.below;
              queued = h.queued;
              room = h.room;
              under = h.under;
            })))

-- The numbers of a channel go on.
pub IsSound-later :
    (o : LaneOptions) (n n' : ℕ) (current current' : Option CueCursor) (x : CueSubscriber)
    → n ≤ n'
    → IsSound o n current false x
    → IsSound o n' current' false x
IsSound-later o n n' current current' x le h = record {
  framed = h.framed;
  below = AreBelow-later n n' (stream x) le h.below;
  queued = h.queued;
  room = h.room;
  under = λ l e. cc;
}

-- A subscriber that its publisher has taken off its list.
pub unlisted-IsSound :
    (o : LaneOptions) (n : ℕ) (current : Option CueCursor) (listed : Bool) (x : CueSubscriber)
    → IsSound o n current listed x
    → IsSound o n current false x
unlisted-IsSound o n current listed x h = record {
  framed = h.framed;
  below = h.below;
  queued = h.queued;
  room = h.room;
  under = λ l e. cc;
}

closing-IsSound :
    (o : LaneOptions) (n n' : ℕ) (current current' : Option CueCursor) (x : CueSubscriber)
    → n ≤ n'
    → is_closing x.lifecycle ≡ true
    → IsSound o n current true x
    → IsSound o n' current' true x
closing-IsSound o n n' current current' x le ends h = record {
  framed = h.framed;
  below = AreBelow-later n n' (stream x) le h.below;
  queued = h.queued;
  room = h.room;
  under = λ l e. cc;
}

-- A baseline with the channel's next number.
pub offer_baseline-IsSound :
    (o : LaneOptions) (n now : ℕ) (current : Option CueCursor) (m : LaneMessage) (x : CueSubscriber)
    → m.kind ≡ baseline
    → m.channel_seq ≡ n + 1
    → IsSound o n current true x
    → IsSound o (n + 1) (some m.cursor) true (offer_baseline o now m x)
unfolding offer_baseline
offer_baseline-IsSound o n now current m x kind next h =
    if_cases (IsSound o (n + 1) (some m.cursor) true) (is_closing x.lifecycle) _ _
      (λ ends. closing-IsSound o n (n + 1) current (some m.cursor) x (omega arith) ends h)
      (λ opened.
        let y : CueSubscriber = record x {
          offered = x.offered + 1;
          pending_cues = [];
          pending_reset = some m;
        } in
        drain-IsSound o (n + 1) (some m.cursor) true now y (record {
          framed = (
            subst (λ (k : ℕ). All (λ j. j.channel_seq < k) x.send_calls) (sym next)
                (AreBelow-strict n x.send_calls (sent-AreBelow n x h.below)),
            rw kind tt,
            sent-Framed x h.framed,
          );
          below = (
            omega (arith, next),
            AreBelow-later n (n + 1) x.send_calls (omega arith) (sent-AreBelow n x h.below),
          );
          queued = tt;
          room = omega arith;
          under = λ l e. rw kind refl;
        }))

-- A cue with the channel's next number on top of what is there.
module _ (o : LaneOptions) (n : ℕ) (current : Option CueCursor) (m : LaneMessage)
    (is_cue : m.kind ≡ cue) (next : m.channel_seq ≡ n + 1) (fits : current ≡ some m.cursor) where
  added-IsSound :
      (x y : CueSubscriber)
      → stream y ≡ m ∷ stream x
      → All (λ p. p.message.kind ≡ cue) y.pending_cues
      → length y.pending_cues ≤ o.pending_max
      → is_closing x.lifecycle ≡ false
      → IsSound o n current true x
      → IsSound o (n + 1) current true y
  added-IsSound x y more queued room opened h =
      let last = h.under refl opened in
      record {
        framed = subst Framed (sym more) (
          subst (λ (k : ℕ). All (λ j. j.channel_seq < k) (stream x)) (sym next)
              (AreBelow-strict n (stream x) h.below),
          rw is_cue (last ∙ fits),
          h.framed,
        );
        below =
            subst (AreBelow (n + 1)) (sym more)
              (omega (arith, next), AreBelow-later n (n + 1) (stream x) (omega arith) h.below);
        queued = queued;
        room = room;
        under = λ l e. ap last_cursor more ∙ rw is_cue last;
      }

  abbrev HasRoom : CueSubscriber → Type 0
  HasRoom x =
      IsSound o n current true x
      × (length x.pending_cues + 1 ≤ o.pending_max)
      × (is_closing x.lifecycle ≡ false)

  roomy_from :
      (ps : List PendingCue) (x : CueSubscriber)
      → x.pending_cues ≡ ps
      → 1 ≤ o.pending_max
      → is_closing x.lifecycle ≡ false
      → IsSound o n current true x
      → HasRoom (elim ps as (λ _. CueSubscriber) [
        | [] ↦ record x { dropped = x.dropped + 1 }
        | _ ∷ rest ↦ record x { pending_cues = rest; dropped = x.dropped + 1 }
      ])
  roomy_from [] x e some_room opened h = (
    record {
      framed = h.framed;
      below = h.below;
      queued = h.queued;
      room = h.room;
      under = h.under;
    },
    omega (arith, some_room, ap (λ (l : List PendingCue). length l) e),
    opened,
  )
  roomy_from (p ∷ ps) x e some_room opened h =
      let base = reset_on x.pending_reset x.send_calls in
      let queued = subst (λ (l : List PendingCue). All (λ q. q.message.kind ≡ cue) l) e h.queued in
      let same : stream x ≡ onto ps (p.message ∷ base) =
        ap (λ (l : List PendingCue). onto l base) e in
      let k = onto-Keeps ps base (p.message ∷ base) (drop_cue-Keeps p.message base queued.0) in
      let shorter = ap (λ (l : List PendingCue). length l) e in
      (
        record {
          framed = k.framed (subst Framed same h.framed);
          below = k.below (λ j. j.channel_seq ≤ n) (subst (AreBelow n) same h.below);
          queued = queued.1;
          room = omega (arith, shorter, h.room);
          under = λ l e'. k.same_cursor ∙ ap last_cursor (sym same) ∙ h.under l e';
        },
        omega (arith, shorter, h.room),
        opened,
      )

  appended-IsSound :
      (now : ℕ) (x : CueSubscriber)
      → HasRoom x
      → IsSound o (n + 1) current true (record x {
        pending_cues = x.pending_cues ++ record { message = m; queued_at = now } ∷ [];
      })
  appended-IsSound now x h =
      let q : PendingCue = record { message = m; queued_at = now } in
      added-IsSound x (record x { pending_cues = x.pending_cues ++ q ∷ [] })
        (onto-append x.pending_cues q (reset_on x.pending_reset x.send_calls))
        (All-append (λ (p : PendingCue). p.message.kind ≡ cue) x.pending_cues (q ∷ []) h.0.queued
          (is_cue, tt))
        (omega (arith, length-append x.pending_cues (q ∷ []), h.1)) h.2 h.0

  queue_cue-IsSound :
      (now : ℕ) (x : CueSubscriber)
      → 1 ≤ o.pending_max
      → is_closing x.lifecycle ≡ false
      → IsSound o n current true x
      → IsSound o (n + 1) current true (queue_cue o now m x)
  queue_cue-IsSound now x some_room opened h =
      if_cases
        (λ r. IsSound o (n + 1) current true (record r {
          pending_cues = r.pending_cues ++ record { message = m; queued_at = now } ∷ [];
        }))
        (leb o.pending_max (length x.pending_cues)) (make_room o x) x
        (λ full.
          appended-IsSound now (make_room o x)
            (roomy_from x.pending_cues x refl some_room opened h))
        (λ roomy. appended-IsSound now x (h, ground (arith, roomy), opened))

  free_parts :
      (x : CueSubscriber) → is_free x ≡ true → (x.pending_reset ≡ none) × (x.pending_cues ≡ [])
  free_parts x h = ground (arith, h)

  start-stream :
      (ps : List PendingCue) (r : Option LaneMessage) (ms : List LaneMessage)
      → r ≡ none
      → ps ≡ []
      → onto ps (reset_on r (m ∷ ms)) ≡ m ∷ onto ps (reset_on r ms)
  start-stream ps r ms no_reset no_cues = rw (no_reset, no_cues) refl

  pub offer_cue-IsSound :
      (now : ℕ) (x : CueSubscriber)
      → 1 ≤ o.pending_max
      → IsSound o n current true x
      → IsSound o (n + 1) current true (offer_cue o now m x)
  unfolding offer_cue
  offer_cue-IsSound now x some_room h =
      let y : CueSubscriber = record x { offered = x.offered + 1 } in
      if_cases (IsSound o (n + 1) current true) (is_closing x.lifecycle) _ _
        (λ ends. closing-IsSound o n (n + 1) current current x (omega arith) ends h)
        (λ opened.
          if_cases (IsSound o (n + 1) current true) (is_free x) _ _
            (λ free.
              let parts = free_parts x free in
              added-IsSound x (start m y)
                (start-stream x.pending_cues x.pending_reset x.send_calls parts.0 parts.1) h.queued
                h.room opened h)
            (λ busy. queue_cue-IsSound now y some_room opened (record {
              framed = h.framed;
              below = h.below;
              queued = h.queued;
              room = h.room;
              under = h.under;
            })))

pub IsSound-more :
    (o : LaneOptions) (n n' : ℕ) (current : Option CueCursor) (listed : Bool) (x : CueSubscriber)
    → n ≤ n'
    → IsSound o n current listed x
    → IsSound o n' current listed x
IsSound-more o n n' current listed x le h = record {
  framed = h.framed;
  below = AreBelow-later n n' (stream x) le h.below;
  queued = h.queued;
  room = h.room;
  under = h.under;
}

pub new_subscriber-IsSound : (o : LaneOptions) (n : ℕ) → IsSound o n none true new_subscriber
new_subscriber-IsSound o n = record {
  framed = tt;
  below = tt;
  queued = tt;
  room = omega arith;
  under = λ l e. refl;
}
