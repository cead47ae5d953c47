-- ===== src/Channel/Tests.antt =====
-- A channel of apps/companion/src/local-protocol/channel-publisher.ts, run: a slow renderer skips to the
-- newest snapshot, and a replayed snapshot is ignored.
use rival_hub_broadcast.Prelude.{
  ℕ, ◌≡◌, refl, Bool, true, false, none, some, List, [], ◌∷◌, map, All, arith, nat_eq,
}
use rival_hub_broadcast.LatestWins.{start, health_state, accepting, not_requested}
use rival_hub_broadcast.Channel.{
  Snapshot, Draft, ChannelPublisher, Subscription, new_channel, ChannelEvent, publishes, subscribes,
  settles, run_channel, accept_snapshot, ignored, state_of, numbered,
}
use rival_hub_broadcast.Channel.Received.{AreAccepted, received}
use rival_hub_broadcast.Channel.Published.{FitsFrom, up_to, channel-AreAccepted, idle-up_to}

abbrev draft : ℕ → Draft
draft runtime = record {
  channel = "program";
  cursor = record {
    producer_instance_id = "p";
    live_session_id = some "l";
    runtime_seq = runtime;
    program_source_generation = 0;
    program_receive_sequence = none;
    map_epoch = 1;
  };
  payload = "";
}

abbrev accepts : Snapshot → Bool
accepts s = true

abbrev run : List ChannelEvent → ChannelPublisher
run es = run_channel accepts es (new_channel "program")

abbrev slow : List ChannelEvent
slow =
    publishes (draft 3)
    ∷ subscribes
    ∷ publishes (draft 4)
    ∷ publishes (draft 4)
    ∷ settles 1 true
    ∷ settles 1 true
    ∷ []

abbrev sent_numbers : ChannelPublisher → List (List ℕ)
sent_numbers p =
    map (λ (u : Subscription). map (λ (s : Snapshot). s.channel_seq) u.consumer.sends)
      p.subscriptions

slow_skips : sent_numbers (run slow) ≡ (3 ∷ 1 ∷ []) ∷ []
unfolding run_channel start
slow_skips = refl

replayed_is_ignored :
    (accept_snapshot accepts (numbered 3 (draft 4)) (state_of (numbered 3 (draft 4)))).kind
    ≡ ignored
unfolding accept_snapshot
replayed_is_ignored = refl

slow-FitsFrom : FitsFrom "program" "p" 0 slow
slow-FitsFrom = (refl, refl, omega arith, (refl, refl, omega arith, (refl, refl, omega arith, tt)))

abbrev renderer : Subscription
renderer = record {
  number = 1;
  active = true;
  listed = true;
  consumer = record {
    id = "program";
    close_timeout_ms = 10000;
    lifecycle = accepting;
    in_flight = false;
    pending_latest = none;
    offered = 3;
    sent = 2;
    coalesced = 1;
    failed = 0;
    last_error_code = none;
    close_promise = not_requested;
    timer = false;
    sends = numbered 3 (draft 4) ∷ numbered 1 (draft 3) ∷ [];
    diagnostics = [];
  };
}

channel-AreAccepted_example :
    All (λ (u : Subscription). AreAccepted accepts u.consumer.sends) (run slow).subscriptions
channel-AreAccepted_example = channel-AreAccepted accepts "program" "p" "program" slow slow-FitsFrom

idle-up_to_example : received accepts renderer.consumer.sends ≡ up_to (run slow).current
unfolding run_channel start health_state
idle-up_to_example =
    idle-up_to accepts "program" "p" "program" slow 1 renderer slow-FitsFrom refl refl refl
