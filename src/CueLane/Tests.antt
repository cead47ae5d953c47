-- ===== src/CueLane/Tests.antt =====
-- The cue lane of apps/companion/src/local-protocol/program-cue-publisher.ts, run: a cue waits for the
-- baseline before it, a new baseline sweeps the waiting cues away, and old cues expire.
use rival_hub_broadcast.Prelude.{
  ℕ, ◌≡◌, refl, Bool, true, false, some, List, [], ◌∷◌, ◌++◌, map, All, arith,
}
use rival_hub_broadcast.CueLane.{
  CueCursor, LaneMessage, CuePublisher, CueSubscription, LaneEvent, publishes_baseline,
  publishes_cue, subscribes, completes, ends, new_publisher, run_lane, default_lane_options,
}
use rival_hub_broadcast.CueLane.Lane.{IsServed, lane-IsServed}

abbrev cursor : ℕ → CueCursor
cursor epoch = record {
  producer_instance_id = "p";
  live_session_id = some "l";
  map_epoch = epoch;
  cstv_program_generation = 0;
}

abbrev accepts : LaneMessage → Bool
accepts m = true

abbrev run : List LaneEvent → CuePublisher
run es = run_lane accepts default_lane_options es new_publisher

abbrev sent_numbers : CuePublisher → List (List ℕ)
sent_numbers p =
    map (λ (u : CueSubscription). map (λ (m : LaneMessage). m.channel_seq) u.subscriber.send_calls)
      p.subscriptions

-- Two cues wait for the baseline; the second of them waits too long.
abbrev cues : List LaneEvent
cues =
    publishes_baseline 0 (cursor 1) "b"
    ∷ subscribes 0
    ∷ publishes_cue 900 (cursor 1) "old"
    ∷ publishes_cue 2000 (cursor 1) "new"
    ∷ publishes_cue 2000 (cursor 2) "of another map"
    ∷ []

cues_wait : sent_numbers (run cues) ≡ (1 ∷ []) ∷ []
unfolding run_lane
cues_wait = refl

old_cue_expires : sent_numbers (run (cues ++ completes 1 2100 true ∷ [])) ≡ (3 ∷ 1 ∷ []) ∷ []
unfolding run_lane
old_cue_expires = refl

new_baseline_sweeps :
    sent_numbers (
      run (
        cues
        ++ publishes_baseline 2050 (cursor 2) "b"
          ∷ completes 1 2100 true
          ∷ completes 1 2200 true
          ∷ []))
    ≡ (4 ∷ 1 ∷ []) ∷ []
unfolding run_lane
new_baseline_sweeps = refl

failed_send_ends :
    sent_numbers
      (run (cues ++ ends 1 ∷ completes 1 2100 false ∷ publishes_cue 2200 (cursor 1) "x" ∷ []))
    ≡ (1 ∷ []) ∷ []
unfolding run_lane
failed_send_ends = refl

lane-IsServed_example :
    All (IsServed default_lane_options) (run (cues ++ completes 1 2100 true ∷ [])).subscriptions
lane-IsServed_example =
    lane-IsServed accepts default_lane_options (cues ++ completes 1 2100 true ∷ []) (omega arith)
