-- ===== src/CueLane.antt =====
-- apps/companion/src/local-protocol/program-cue-publisher.ts: the lane of baselines and cues. The end of a
-- send, a close and its time-out are events in any order; the clock is read once in an event.
use rival_hub_broadcast.Prelude.{
  ℕ, ◌+◌, Bool, true, false, not, ◌&&◌, ◌||◌, Option, none, some, List, [], ◌∷◌, ◌++◌, map, String,
  ◌==◌, nat_eq, string_eq, option_eq, if◌then◌else◌, ltb, leb, length,
}
mod Framed
mod Subscriber
mod Lane
mod Tests

pub record CueCursor : Type 0 where
  pub producer_instance_id : String
  pub live_session_id : Option String
  pub map_epoch : ℕ
  pub cstv_program_generation : ℕ

pub data LaneKind : Type 0 where
  baseline cue : LaneKind

-- A baseline or a cue; the payload by its text.
pub record LaneMessage : Type 0 where
  pub kind : LaneKind
  pub channel_seq : ℕ
  pub cursor : CueCursor
  pub payload : String

pub data LaneState : Type 0 where
  idle sending closing closed : LaneState

pub record PendingCue : Type 0 where
  pub message : LaneMessage
  pub queued_at : ℕ

pub record LaneOptions : Type 0 where
  pub pending_max : ℕ
  pub pending_max_age : ℕ
  pub close_timeout : ℕ

abbrev pub default_lane_options : LaneOptions
default_lane_options = record { pending_max = 32; pending_max_age = 1000; close_timeout = 10000 }

-- `send_calls` holds what `send` was called with, the newest first.
pub record CueSubscriber : Type 0 where
  pub lifecycle : LaneState
  pub in_flight : Bool
  pub pending_cues : List PendingCue
  pub pending_reset : Option LaneMessage
  pub offered : ℕ
  pub sent : ℕ
  pub dropped : ℕ
  pub expired : ℕ
  pub failed : ℕ
  pub close_called : Bool
  pub timer : Bool
  pub resolved : Bool
  pub send_calls : List LaneMessage

abbrev pub new_subscriber : CueSubscriber
new_subscriber = record {
  lifecycle = idle;
  in_flight = false;
  pending_cues = [];
  pending_reset = none;
  offered = 0;
  sent = 0;
  dropped = 0;
  expired = 0;
  failed = 0;
  close_called = false;
  timer = false;
  resolved = false;
  send_calls = [];
}

abbrev pub is_closing : LaneState → Bool
is_closing closing = true
is_closing closed = true
is_closing _ = false

unfoldable pub same_cursor : CueCursor → CueCursor → Bool
same_cursor l r =
    l.producer_instance_id == r.producer_instance_id
    && l.live_session_id == r.live_session_id
    && l.map_epoch == r.map_epoch
    && l.cstv_program_generation == r.cstv_program_generation

abbrev pub start : LaneMessage → CueSubscriber → CueSubscriber
start m x = record x { in_flight = true; lifecycle = sending; send_calls = m ∷ x.send_calls }

-- The loop over the waiting cues: the ones that have waited too long expire, the next one is sent.
unfoldable pub drain_cues : LaneOptions → ℕ → List PendingCue → CueSubscriber → CueSubscriber
drain_cues o now [] x = record x { pending_cues = []; lifecycle = idle }
drain_cues o now (p ∷ ps) x =
    let rest = drain_cues o now ps (record x { expired = x.expired + 1 }) in
    if ltb (p.queued_at + o.pending_max_age) now
    then rest
    else start p.message (record x { pending_cues = ps })

unfoldable pub drain : LaneOptions → ℕ → CueSubscriber → CueSubscriber
unfolding drain_cues
drain o now x = if is_closing x.lifecycle || x.in_flight then x else elim x.pending_reset [
  | none ↦ drain_cues o now x.pending_cues x
  | some reset ↦ start reset (record x { pending_reset = none })
]

unfoldable pub offer_baseline : LaneOptions → ℕ → LaneMessage → CueSubscriber → CueSubscriber
unfolding drain
offer_baseline o now m x =
    if is_closing x.lifecycle
    then x
    else drain o now
        (record x { offered = x.offered + 1; pending_cues = []; pending_reset = some m })

-- The oldest cue makes room.
abbrev pub make_room : LaneOptions → CueSubscriber → CueSubscriber
make_room o x = elim x.pending_cues [
  | [] ↦ record x { dropped = x.dropped + 1 }
  | _ ∷ ps ↦ record x { pending_cues = ps; dropped = x.dropped + 1 }
]

abbrev pub queue_cue : LaneOptions → ℕ → LaneMessage → CueSubscriber → CueSubscriber
queue_cue o now m x =
    let roomy = if leb o.pending_max (length x.pending_cues) then make_room o x else x in
    record roomy {
      pending_cues = roomy.pending_cues ++ record { message = m; queued_at = now } ∷ [];
    }

abbrev pub is_free : CueSubscriber → Bool
is_free x =
    not x.in_flight
    && elim x.pending_reset as (λ _. Bool) [ none ↦ true | some _ ↦ false ]
    && elim x.pending_cues as (λ _. Bool) [ [] ↦ true | _ ∷ _ ↦ false ]

unfoldable pub offer_cue : LaneOptions → ℕ → LaneMessage → CueSubscriber → CueSubscriber
offer_cue o now m x =
    if is_closing x.lifecycle
    then x
    else if is_free x
    then start m (record x { offered = x.offered + 1 })
    else queue_cue o now m (record x { offered = x.offered + 1 })

unfoldable pub finish_close : CueSubscriber → CueSubscriber
finish_close x = record x {
  timer = false;
  lifecycle = closed;
  pending_cues = [];
  pending_reset = none;
  resolved = x.resolved || x.close_called;
}

unfoldable pub close : LaneOptions → CueSubscriber → CueSubscriber
unfolding finish_close
close o x =
    let y = record x {
      lifecycle = closing;
      pending_cues = [];
      pending_reset = none;
      close_called = true;
    } in
    if x.close_called
    then x
    else if not x.in_flight
    then finish_close y
    else if o.close_timeout == 0
    then finish_close (record y { failed = y.failed + 1 })
    else record y { timer = true }

unfoldable pub close_timed_out : CueSubscriber → CueSubscriber
unfolding finish_close
close_timed_out x = if x.timer then finish_close (record x { failed = x.failed + 1 }) else x

-- The end of a send that is under way.
unfoldable pub complete : LaneOptions → ℕ → Bool → CueSubscriber → CueSubscriber
unfolding finish_close drain
complete o now succeeded x =
    let y = record x {
      in_flight = false;
      sent = if succeeded then x.sent + 1 else x.sent;
      failed = if succeeded then x.failed else x.failed + 1;
    } in
    if not x.in_flight then x else if is_closing x.lifecycle then finish_close y else drain o now y

-- A subscription: whether its end is still open, whether the publisher lists it, and its subscriber.
pub record CueSubscription : Type 0 where
  pub number : ℕ
  pub active : Bool
  pub listed : Bool
  pub subscriber : CueSubscriber

pub record CuePublisher : Type 0 where
  pub subscriptions : List CueSubscription
  pub current : Option LaneMessage
  pub channel_seq : ℕ
  pub subscriber_sequence : ℕ
  pub closed : Bool

abbrev pub new_publisher : CuePublisher
new_publisher = record {
  subscriptions = [];
  current = none;
  channel_seq = 0;
  subscriber_sequence = 0;
  closed = false;
}

-- A change of the listed subscribers.
abbrev pub if_listed : (CueSubscriber → CueSubscriber) → CueSubscription → CueSubscription
if_listed f u = if u.listed then record u { subscriber = f u.subscriber } else u

-- `accepts` is the schema of the message.
unfoldable pub publish_baseline :
    (LaneMessage → Bool) → LaneOptions → ℕ → CueCursor → String → CuePublisher → CuePublisher
unfolding offer_baseline
publish_baseline accepts o now cursor payload p =
    let m : LaneMessage = record {
      kind = baseline;
      channel_seq = p.channel_seq + 1;
      cursor = cursor;
      payload = payload;
    } in
    if p.closed || not (accepts m) then p else record p {
      channel_seq = p.channel_seq + 1;
      current = some m;
      subscriptions = map (if_listed (offer_baseline o now m)) p.subscriptions;
    }

abbrev pub is_current : CueCursor → Option LaneMessage → Bool
is_current cursor none = false
is_current cursor (some b) = same_cursor cursor b.cursor

unfoldable pub publish_cue :
    (LaneMessage → Bool) → LaneOptions → ℕ → CueCursor → String → CuePublisher → CuePublisher
unfolding offer_cue same_cursor
publish_cue accepts o now cursor payload p =
    let m : LaneMessage = record {
      kind = cue;
      channel_seq = p.channel_seq + 1;
      cursor = cursor;
      payload = payload;
    } in
    if p.closed || not (accepts m) || not (is_current cursor p.current) then p else record p {
      channel_seq = p.channel_seq + 1;
      subscriptions = map (if_listed (offer_cue o now m)) p.subscriptions;
    }

abbrev pub greeted : LaneOptions → ℕ → Option LaneMessage → CueSubscriber
greeted o now none = new_subscriber
greeted o now (some b) = offer_baseline o now b new_subscriber

-- A new subscription starts with the current baseline.
unfoldable pub subscribe : LaneOptions → ℕ → CuePublisher → CuePublisher
unfolding offer_baseline
subscribe o now p =
    let numbered = record p { subscriber_sequence = p.subscriber_sequence + 1 } in
    if p.closed then numbered else record numbered {
      subscriptions =
          p.subscriptions
          ++ record {
            number = p.subscriber_sequence + 1;
            active = true;
            listed = true;
            subscriber = greeted o now p.current;
          }
            ∷ [];
    }

abbrev pub change : ℕ → (CueSubscription → CueSubscription) → CuePublisher → CuePublisher
change n f p = record p {
  subscriptions = map (λ u. if u.number == n then f u else u) p.subscriptions;
}

-- The end of a subscription by its owner, and by `guardedSend` when a send has failed.
unfoldable pub close_subscription : LaneOptions → CueSubscription → CueSubscription
unfolding close
close_subscription o u =
    if u.active
    then record u { active = false; listed = false; subscriber = close o u.subscriber }
    else u

abbrev pub unlist : LaneOptions → CueSubscription → CueSubscription
unlist o u = if u.listed then record u { listed = false; subscriber = close o u.subscriber } else u

unfoldable pub close_publisher : LaneOptions → CuePublisher → CuePublisher
unfolding close
close_publisher o p =
    if p.closed
    then p
    else record p { closed = true; subscriptions = map (unlist o) p.subscriptions }

pub data LaneEvent : Type 0 where
  publishes_baseline publishes_cue : ℕ → CueCursor → String → LaneEvent
  subscribes : ℕ → LaneEvent
  completes : ℕ → ℕ → Bool → LaneEvent
  ends times_out : ℕ → LaneEvent
  closes : LaneEvent

unfoldable pub lane_step :
    (LaneMessage → Bool) → LaneOptions → LaneEvent → CuePublisher → CuePublisher
unfolding publish_baseline publish_cue subscribe complete close_subscription close_timed_out
    close_publisher
lane_step accepts o (publishes_baseline now cursor payload) p =
    publish_baseline accepts o now cursor payload p
lane_step accepts o (publishes_cue now cursor payload) p =
    publish_cue accepts o now cursor payload p
lane_step accepts o (subscribes now) p = subscribe o now p
lane_step accepts o (completes n now ok) p =
    change n (λ u. record u { subscriber = complete o now ok u.subscriber }) p
lane_step accepts o (ends n) p = change n (close_subscription o) p
lane_step accepts o (times_out n) p =
    change n (λ u. record u { subscriber = close_timed_out u.subscriber }) p
lane_step accepts o closes p = close_publisher o p

unfoldable pub run_lane :
    (LaneMessage → Bool) → LaneOptions → List LaneEvent → CuePublisher → CuePublisher
unfolding lane_step
run_lane accepts o [] p = p
run_lane accepts o (e ∷ es) p = run_lane accepts o es (lane_step accepts o e p)
