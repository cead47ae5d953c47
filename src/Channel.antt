-- ===== src/Channel.antt =====
-- apps/companion/src/local-protocol/channel-publisher.ts with the consumers of runtime/latest-wins.ts,
-- and packages/protocol/src/acceptance.ts at the other end: the snapshots of a local channel. The schema is
-- an argument, the same one at both ends.
use rival_hub_broadcast.Prelude.{
  ℕ, ◌+◌, Bool, true, false, not, ◌&&◌, ◌||◌, Option, none, some, List, [], ◌∷◌, ◌++◌, map, String,
  ◌==◌, ◌!=◌, nat_eq, string_eq, option_eq, if◌then◌else◌, ltb, leb,
}
use rival_hub_broadcast.LatestWins.{
  Consumer, fresh, offer, complete_delivery, close, close_timed_out, latest_wins_close_timeout_ms,
}
mod Received
mod Subscriber
mod Published
mod Tests

pub record SnapshotCursor : Type 0 where
  pub producer_instance_id : String
  pub live_session_id : Option String
  pub runtime_seq : ℕ
  pub program_source_generation : ℕ
  pub program_receive_sequence : Option ℕ
  pub map_epoch : ℕ

pub record Snapshot : Type 0 where
  pub channel : String
  pub channel_seq : ℕ
  pub cursor : SnapshotCursor
  pub payload : String

-- The acceptance of a renderer.
pub record SnapshotAcceptanceState : Type 0 where
  pub channel : Option String
  pub producer_instance_id : Option String
  pub last_accepted_channel_seq : Option ℕ
  pub last_accepted_runtime_seq : Option ℕ
  pub last_cursor : Option SnapshotCursor

abbrev pub create_snapshot_acceptance_state : SnapshotAcceptanceState
create_snapshot_acceptance_state = record {
  channel = none;
  producer_instance_id = none;
  last_accepted_channel_seq = none;
  last_accepted_runtime_seq = none;
  last_cursor = none;
}

pub record SnapshotResetSignals : Type 0 where
  pub live_session_changed : Bool
  pub program_source_generation_changed : Bool
  pub map_epoch_changed : Bool

abbrev pub no_resets : SnapshotResetSignals
no_resets = record {
  live_session_changed = false;
  program_source_generation_changed = false;
  map_epoch_changed = false;
}

pub data RejectionReason : Type 0 where
  schema_invalid channel_changed producer_changed runtime_seq_regression : RejectionReason

pub data AcceptanceKind : Type 0 where
  accepted ignored : AcceptanceKind
  rejected : RejectionReason → AcceptanceKind

pub record SnapshotAcceptanceResult : Type 0 where
  pub kind : AcceptanceKind
  pub state : SnapshotAcceptanceState
  pub reset : SnapshotResetSignals

abbrev pub differs : Option String → String → Bool
differs none x = false
differs (some y) x = y != x

abbrev pub is_old : Option ℕ → ℕ → Bool
is_old none n = false
is_old (some last) n = leb n last

abbrev pub regresses : Option ℕ → ℕ → Bool
regresses none n = false
regresses (some last) n = ltb n last

abbrev pub reset_signals : Option SnapshotCursor → SnapshotCursor → SnapshotResetSignals
reset_signals none c = no_resets
reset_signals (some b) c = record {
  live_session_changed = b.live_session_id != c.live_session_id;
  program_source_generation_changed = b.program_source_generation != c.program_source_generation;
  map_epoch_changed = b.map_epoch != c.map_epoch;
}

abbrev pub state_of : Snapshot → SnapshotAcceptanceState
state_of s = record {
  channel = some s.channel;
  producer_instance_id = some s.cursor.producer_instance_id;
  last_accepted_channel_seq = some s.channel_seq;
  last_accepted_runtime_seq = some s.cursor.runtime_seq;
  last_cursor = some s.cursor;
}

abbrev pub refused : AcceptanceKind → SnapshotAcceptanceState → SnapshotAcceptanceResult
refused kind previous = record { kind = kind; state = previous; reset = no_resets }

unfoldable pub accept_snapshot :
    (Snapshot → Bool) → Snapshot → SnapshotAcceptanceState → SnapshotAcceptanceResult
accept_snapshot accepts s previous =
    if not (accepts s)
    then refused (rejected schema_invalid) previous
    else if differs previous.channel s.channel
    then refused (rejected channel_changed) previous
    else if differs previous.producer_instance_id s.cursor.producer_instance_id
    then refused (rejected producer_changed) previous
    else if is_old previous.last_accepted_channel_seq s.channel_seq
    then refused ignored previous
    else if regresses previous.last_accepted_runtime_seq s.cursor.runtime_seq
    then refused (rejected runtime_seq_regression) previous
    else record {
      kind = accepted;
      state = state_of s;
      reset = reset_signals previous.last_cursor s.cursor;
    }

-- The publisher's end. A snapshot without its number is a draft.
pub record Draft : Type 0 where
  pub channel : String
  pub cursor : SnapshotCursor
  pub payload : String

pub record Subscription : Type 0 where
  pub number : ℕ
  pub active : Bool
  pub listed : Bool
  pub consumer : Consumer Snapshot

pub record ChannelPublisher : Type 0 where
  pub id : String
  pub subscriptions : List Subscription
  pub current : Option Snapshot
  pub channel_seq : ℕ
  pub subscriber_sequence : ℕ
  pub closed : Bool

abbrev pub new_channel : String → ChannelPublisher
new_channel id = record {
  id = id;
  subscriptions = [];
  current = none;
  channel_seq = 0;
  subscriber_sequence = 0;
  closed = false;
}

abbrev pub numbered : ℕ → Draft → Snapshot
numbered n d = record {
  channel = d.channel;
  channel_seq = n;
  cursor = d.cursor;
  payload = d.payload;
}

abbrev pub offer_listed : Snapshot → Subscription → Subscription
offer_listed s u = if u.listed then record u { consumer = offer u.consumer s } else u

unfoldable pub publish : (Snapshot → Bool) → Draft → ChannelPublisher → ChannelPublisher
unfolding offer
publish accepts d p =
    let s = numbered (p.channel_seq + 1) d in
    if p.closed || not (accepts s) then p else record p {
      channel_seq = p.channel_seq + 1;
      current = some s;
      subscriptions = map (offer_listed s) p.subscriptions;
    }

abbrev pub offered_current : Option Snapshot → Consumer Snapshot → Consumer Snapshot
offered_current none c = c
offered_current (some s) c = offer c s

-- The id of the subscriber counts for nothing here.
unfoldable pub subscribe : ChannelPublisher → ChannelPublisher
unfolding offer
subscribe p =
    if p.closed then record p { subscriber_sequence = p.subscriber_sequence + 1 } else record p {
      subscriber_sequence = p.subscriber_sequence + 1;
      subscriptions =
          p.subscriptions
          ++ record {
            number = p.subscriber_sequence + 1;
            active = true;
            listed = true;
            consumer = offered_current p.current (fresh p.id latest_wins_close_timeout_ms);
          }
            ∷ [];
    }

abbrev pub change : ℕ → (Subscription → Subscription) → ChannelPublisher → ChannelPublisher
change n f p = record p {
  subscriptions = map (λ u. if u.number == n then f u else u) p.subscriptions;
}

-- The end of a subscription by its owner, and by `guardedSend` when a send has failed.
unfoldable pub close_subscription : Subscription → Subscription
unfolding close
close_subscription u =
    if u.active then record u { active = false; listed = false; consumer = close u.consumer } else u

abbrev pub unlist : Subscription → Subscription
unlist u = if u.listed then record u { listed = false; consumer = close u.consumer } else u

unfoldable pub close_channel : ChannelPublisher → ChannelPublisher
unfolding close
close_channel p =
    if p.closed then p else record p { closed = true; subscriptions = map unlist p.subscriptions }

abbrev pub settle : Bool → Subscription → Subscription
settle ok u =
    if u.consumer.in_flight then record u { consumer = complete_delivery u.consumer ok } else u

abbrev pub time_out : Subscription → Subscription
time_out u = if u.consumer.timer then record u { consumer = close_timed_out u.consumer } else u

pub data ChannelEvent : Type 0 where
  publishes : Draft → ChannelEvent
  subscribes closes : ChannelEvent
  settles : ℕ → Bool → ChannelEvent
  ends times_out : ℕ → ChannelEvent

unfoldable pub channel_step : (Snapshot → Bool) → ChannelEvent → ChannelPublisher → ChannelPublisher
unfolding publish subscribe close_subscription close_channel complete_delivery close_timed_out
channel_step accepts (publishes d) p = publish accepts d p
channel_step accepts subscribes p = subscribe p
channel_step accepts closes p = close_channel p
channel_step accepts (settles n ok) p = change n (settle ok) p
channel_step accepts (ends n) p = change n close_subscription p
channel_step accepts (times_out n) p = change n time_out p

unfoldable pub run_channel :
    (Snapshot → Bool) → List ChannelEvent → ChannelPublisher → ChannelPublisher
unfolding channel_step
run_channel accepts [] p = p
run_channel accepts (e ∷ es) p = run_channel accepts es (channel_step accepts e p)
