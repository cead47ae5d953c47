-- ===== src/CueLane/Lane.antt =====
-- The publisher of apps/companion/src/local-protocol/program-cue-publisher.ts with its subscribers, over
-- every run.
use rival_hub_broadcast.Prelude.{
  ℕ, ◌+◌, ◌-◌, ◌≤◌, ◌≡◌, refl, sym, ap, subst, inl, inr, Bool, true, false, not, ◌||◌, Option, none,
  some, List, [], ◌∷◌, String, arith, All, All-append, All-imp, map-All, if◌then◌else◌, if_cases,
  Bool-cases, length, ◌==◌, nat_eq, string_eq, option_eq, eq_of_equals,
}
use rival_hub_broadcast.CueLane.{
  CueCursor, baseline, cue, LaneMessage, CueSubscriber, CueSubscription, CuePublisher, LaneOptions,
  LaneEvent, publishes_baseline, publishes_cue, subscribes, completes, ends, times_out, closes,
  new_subscriber, new_publisher, same_cursor, is_current, if_listed, publish_baseline, publish_cue,
  offer_baseline, offer_cue, greeted, subscribe, change, close_subscription, unlist,
  close_publisher, complete, close_timed_out, lane_step, run_lane,
}
use rival_hub_broadcast.CueLane.Framed.{Framed}
use rival_hub_broadcast.CueLane.Subscriber.{
  IsSound-more, new_subscriber-IsSound, IsSound, sent-Framed, IsSound-later, unlisted-IsSound,
  offer_baseline-IsSound, offer_cue-IsSound, close-IsSound, close_timed_out-IsSound,
  complete-IsSound,
}

abbrev pub current_cursor : Option LaneMessage → Option CueCursor
current_cursor none = none
current_cursor (some b) = some b.cursor

abbrev pub SoundSubscription : LaneOptions → ℕ → Option CueCursor → CueSubscription → Type 0
SoundSubscription o n current u = IsSound o n current u.listed u.subscriber

abbrev pub CurrentFits : Option LaneMessage → ℕ → Type 0
CurrentFits none n = Unit
CurrentFits (some b) n = (b.kind ≡ baseline) × (1 ≤ b.channel_seq) × (b.channel_seq ≤ n)

-- Every subscription is sound; the current baseline is one, numbered within the channel.
pub record IsSoundLane (o : LaneOptions) (p : CuePublisher) : Type 0 where
  pub subscribers :
      All (SoundSubscription o p.channel_seq (current_cursor p.current)) p.subscriptions
  pub current_old : CurrentFits p.current p.channel_seq

CurrentFits-later :
    (b : Option LaneMessage) (n n' : ℕ) → n ≤ n' → CurrentFits b n → CurrentFits b n'
CurrentFits-later none n n' le h = tt
CurrentFits-later (some b) n n' le h = (h.0, h.1, omega (arith, h.2))

module _ (o : LaneOptions) where
  if_listed-Sound :
      (n n' : ℕ) (current current' : Option CueCursor) (f : CueSubscriber → CueSubscriber)
      → n ≤ n'
      → ((x : CueSubscriber) → IsSound o n current true x → IsSound o n' current' true (f x))
      → (u : CueSubscription) → SoundSubscription o n current u
      → SoundSubscription o n' current' (if_listed f u)
  if_listed-Sound n n' current current' f le keeps u h = elim (Bool-cases u.listed) [
    | inl is_listed ↦
        let s =
          keeps u.subscriber
            (subst (λ (b : Bool). IsSound o n current b u.subscriber) is_listed h) in
        if_cases (SoundSubscription o n' current') u.listed _ _
          (λ e. subst (λ (b : Bool). IsSound o n' current' b (f u.subscriber)) (sym is_listed) s)
          (λ e. cc)
    | inr is_off ↦
        let s =
          IsSound-later o n n' current current' u.subscriber le
            (subst (λ (b : Bool). IsSound o n current b u.subscriber) is_off h) in
        if_cases (SoundSubscription o n' current') u.listed _ _ (λ e. cc)
          (λ e. subst (λ (b : Bool). IsSound o n' current' b u.subscriber) (sym is_off) s)
  ]

  publish_baseline-IsSoundLane :
      (accepts : LaneMessage → Bool) (now : ℕ) (cursor : CueCursor) (payload : String)
      (p : CuePublisher)
      → IsSoundLane o p
      → IsSoundLane o (publish_baseline accepts o now cursor payload p)
  unfolding publish_baseline
  publish_baseline-IsSoundLane accepts now cursor payload p h =
      let m : LaneMessage = record {
        kind = baseline;
        channel_seq = p.channel_seq + 1;
        cursor = cursor;
        payload = payload;
      } in
      if_cases (IsSoundLane o) (p.closed || not (accepts m)) _ _ (λ refused. h)
        (λ taken. record {
          subscribers =
              map-All _ _ (if_listed (offer_baseline o now m)) p.subscriptions
                (if_listed-Sound p.channel_seq (p.channel_seq + 1) (current_cursor p.current)
                  (some cursor) (offer_baseline o now m) (omega arith)
                  (λ x s.
                    offer_baseline-IsSound o p.channel_seq now (current_cursor p.current) m x refl
                      refl s))
                h.subscribers;
          current_old = (refl, omega arith, omega arith);
        })

  same_cursor_lem : (l r : CueCursor) → same_cursor l r ≡ true → l ≡ r
  unfolding same_cursor
  same_cursor_lem l r h =
      let a = eq_of_equals l.producer_instance_id r.producer_instance_id (ground (arith, h)) in
      let b = eq_of_equals l.live_session_id r.live_session_id (ground (arith, h)) in
      let c = eq_of_equals l.map_epoch r.map_epoch (ground (arith, h)) in
      let d =
        eq_of_equals l.cstv_program_generation r.cstv_program_generation (ground (arith, h)) in
      cc

  is_current_lem :
      (cursor : CueCursor) (current : Option LaneMessage)
      → is_current cursor current ≡ true
      → current_cursor current ≡ some cursor
  is_current_lem cursor none h = cc
  is_current_lem cursor (some b) h = ap some (sym (same_cursor_lem cursor b.cursor h))

  publish_cue-IsSoundLane :
      (accepts : LaneMessage → Bool) (now : ℕ) (cursor : CueCursor) (payload : String)
      (p : CuePublisher)
      → 1 ≤ o.pending_max
      → IsSoundLane o p
      → IsSoundLane o (publish_cue accepts o now cursor payload p)
  unfolding publish_cue
  publish_cue-IsSoundLane accepts now cursor payload p some_room h =
      let m : LaneMessage = record {
        kind = cue;
        channel_seq = p.channel_seq + 1;
        cursor = cursor;
        payload = payload;
      } in
      if_cases (IsSoundLane o) (p.closed || not (accepts m) || not (is_current cursor p.current)) _
        _ (λ refused. h)
        (λ taken.
          let fits = is_current_lem cursor p.current (ground (arith, taken)) in
          record {
            subscribers =
                map-All _ _ (if_listed (offer_cue o now m)) p.subscriptions
                  (if_listed-Sound p.channel_seq (p.channel_seq + 1) (current_cursor p.current)
                    (current_cursor p.current) (offer_cue o now m) (omega arith)
                    (λ x s.
                      offer_cue-IsSound o p.channel_seq (current_cursor p.current) m refl refl fits
                        now x some_room s))
                  h.subscribers;
            current_old =
                CurrentFits-later p.current p.channel_seq (p.channel_seq + 1) (omega arith)
                  h.current_old;
          })

  greeted-IsSound :
      (n now : ℕ) (current : Option LaneMessage)
      → CurrentFits current n
      → IsSound o n (current_cursor current) true (greeted o now current)
  greeted-IsSound n now none h = new_subscriber-IsSound o n
  greeted-IsSound n now (some b) h =
      let before = b.channel_seq - 1 in
      IsSound-more o (before + 1) n (some b.cursor) true (offer_baseline o now b new_subscriber)
        (omega (arith, h.1, h.2))
        (offer_baseline-IsSound o before now none b new_subscriber h.0 (omega (arith, h.1))
          (new_subscriber-IsSound o before))

  subscribe-IsSoundLane :
      (now : ℕ) (p : CuePublisher) → IsSoundLane o p → IsSoundLane o (subscribe o now p)
  unfolding subscribe
  subscribe-IsSoundLane now p h =
      let u : CueSubscription = record {
        number = p.subscriber_sequence + 1;
        active = true;
        listed = true;
        subscriber = greeted o now p.current;
      } in
      if_cases (IsSoundLane o) p.closed _ _
        (λ refused. record { subscribers = h.subscribers; current_old = h.current_old })
        (λ taken. record {
          subscribers =
              All-append (SoundSubscription o p.channel_seq (current_cursor p.current))
                p.subscriptions (u ∷ []) h.subscribers
                (greeted-IsSound p.channel_seq now p.current h.current_old, tt);
          current_old = h.current_old;
        })

  -- A change of one subscription.
  change-IsSoundLane :
      (n : ℕ) (f : CueSubscription → CueSubscription) (p : CuePublisher)
      → ((u : CueSubscription)
          → SoundSubscription o p.channel_seq (current_cursor p.current) u
          → SoundSubscription o p.channel_seq (current_cursor p.current) (f u))
      → IsSoundLane o p
      → IsSoundLane o (change n f p)
  change-IsSoundLane n f p keeps h = record {
    subscribers =
        map-All _ _ (λ u. if u.number == n then f u else u) p.subscriptions
          (λ u s.
            if_cases (SoundSubscription o p.channel_seq (current_cursor p.current)) (u.number == n)
              (f u) u (λ hit. keeps u s) (λ miss. s))
          h.subscribers;
    current_old = h.current_old;
  }

  close_subscription-Sound :
      (n : ℕ) (current : Option CueCursor) (u : CueSubscription)
      → SoundSubscription o n current u
      → SoundSubscription o n current (close_subscription o u)
  unfolding close_subscription
  close_subscription-Sound n current u h =
      if_cases (SoundSubscription o n current) u.active _ _
        (λ e.
          close-IsSound o n current false u.subscriber
            (unlisted-IsSound o n current u.listed u.subscriber h))
        (λ e. h)

  unlist-Sound :
      (n : ℕ) (current : Option CueCursor) (u : CueSubscription)
      → SoundSubscription o n current u
      → SoundSubscription o n current (unlist o u)
  unlist-Sound n current u h =
      if_cases (SoundSubscription o n current) u.listed _ _
        (λ e.
          close-IsSound o n current false u.subscriber
            (unlisted-IsSound o n current u.listed u.subscriber h))
        (λ e. h)

  close_publisher-IsSoundLane :
      (p : CuePublisher) → IsSoundLane o p → IsSoundLane o (close_publisher o p)
  unfolding close_publisher
  close_publisher-IsSoundLane p h =
      if_cases (IsSoundLane o) p.closed _ _ (λ again. h)
        (λ first. record {
          subscribers =
              map-All _ _ (unlist o) p.subscriptions
                (unlist-Sound p.channel_seq (current_cursor p.current)) h.subscribers;
          current_old = h.current_old;
        })

  lane_step-IsSoundLane :
      (accepts : LaneMessage → Bool) (e : LaneEvent) (p : CuePublisher)
      → 1 ≤ o.pending_max
      → IsSoundLane o p
      → IsSoundLane o (lane_step accepts o e p)
  unfolding lane_step
  lane_step-IsSoundLane accepts (publishes_baseline now cursor payload) p room h =
      publish_baseline-IsSoundLane accepts now cursor payload p h
  lane_step-IsSoundLane accepts (publishes_cue now cursor payload) p room h =
      publish_cue-IsSoundLane accepts now cursor payload p room h
  lane_step-IsSoundLane accepts (subscribes now) p room h = subscribe-IsSoundLane now p h
  lane_step-IsSoundLane accepts (completes n now ok) p room h =
      change-IsSoundLane n (λ u. record u { subscriber = complete o now ok u.subscriber }) p
        (λ u s.
          complete-IsSound o p.channel_seq (current_cursor p.current) u.listed now ok u.subscriber
            s)
        h
  lane_step-IsSoundLane accepts (ends n) p room h =
      change-IsSoundLane n (close_subscription o) p
        (close_subscription-Sound p.channel_seq (current_cursor p.current)) h
  lane_step-IsSoundLane accepts (times_out n) p room h =
      change-IsSoundLane n (λ u. record u { subscriber = close_timed_out u.subscriber }) p
        (λ u s.
          close_timed_out-IsSound o p.channel_seq (current_cursor p.current) u.listed u.subscriber
            s)
        h
  lane_step-IsSoundLane accepts closes p room h = close_publisher-IsSoundLane p h

  run_lane-IsSoundLane :
      (accepts : LaneMessage → Bool) (es : List LaneEvent) (p : CuePublisher)
      → 1 ≤ o.pending_max
      → IsSoundLane o p
      → IsSoundLane o (run_lane accepts o es p)
  unfolding run_lane
  run_lane-IsSoundLane accepts [] p room h = h
  run_lane-IsSoundLane accepts (e ∷ es) p room h =
      run_lane-IsSoundLane accepts es (lane_step accepts o e p) room
        (lane_step-IsSoundLane accepts e p room h)

-- What a subscription's `send` was called with, and how many cues wait for it.
pub record IsServed (o : LaneOptions) (u : CueSubscription) : Type 0 where
  pub calls : Framed u.subscriber.send_calls
  pub waiting : length u.subscriber.pending_cues ≤ o.pending_max

-- In every order of publications, subscriptions, ends of sends, closes and time-outs, with room for a cue:
-- what each subscriber is sent has ascending channel numbers, each cue comes after a baseline of its own
-- cursor with no baseline of another one in between, and no more cues wait than may.
pub lane-IsServed :
    (accepts : LaneMessage → Bool) (o : LaneOptions) (es : List LaneEvent)
    → 1 ≤ o.pending_max
    → All (IsServed o) (run_lane accepts o es new_publisher).subscriptions
lane-IsServed accepts o es room =
    let p = run_lane accepts o es new_publisher in
    let h =
      run_lane-IsSoundLane o accepts es new_publisher room
        (record { subscribers = tt; current_old = tt }) in
    All-imp (SoundSubscription o p.channel_seq (current_cursor p.current)) (IsServed o)
      p.subscriptions
      (λ u (s : SoundSubscription o p.channel_seq (current_cursor p.current) u). record {
        calls = sent-Framed u.subscriber s.framed;
        waiting = s.room;
      })
      h.subscribers
