-- ===== src/Channel/Published.antt =====
-- A channel of apps/companion/src/local-protocol/channel-publisher.ts and its renderers, over every run.
use rival_hub_broadcast.Prelude.{
  ℕ, ◌+◌, ◌-◌, ◌≤◌, ◌≡◌, refl, sym, ap, ◌∙◌, subst, Bool, true, false, not, ◌||◌, Option, none,
  some, List, [], ◌∷◌, String, arith, All, All-append, All-imp, map-All, All-find, find,
  if◌then◌else◌, if_cases, ◌==◌, nat_eq,
}
use rival_hub_broadcast.LatestWins.{
  accepting, offer, fresh, latest_wins_close_timeout_ms, health_state, idle,
}
use rival_hub_broadcast.LatestWins.Newest.{head}
use rival_hub_broadcast.Channel.{
  Snapshot, Draft, SnapshotAcceptanceState, create_snapshot_acceptance_state, state_of,
  Subscription, ChannelPublisher, new_channel, numbered, offer_listed, publish, offered_current,
  subscribe, change, close_subscription, unlist, close_channel, settle, time_out, ChannelEvent,
  publishes, subscribes, closes, settles, ends, times_out, channel_step, run_channel,
}
use rival_hub_broadcast.Channel.Received.{
  received, AreAccepted, IsChain, IsOf, chain-AreAccepted, chain-last,
}
use rival_hub_broadcast.Channel.Subscriber.{
  IsFed, stream, waiting_on, sent-IsChain, close-IsFed, close_timed_out-IsFed,
  complete_delivery-IsFed, later-IsFed, offer-IsFed, more-IsFed, unlisted-IsFed, fresh-IsFed,
}

-- The drafts are those of one producer on one channel, and their runtime numbers do not fall.
abbrev pub FitsFrom : String → String → ℕ → List ChannelEvent → Type 0
FitsFrom channel producer floor [] = Unit
FitsFrom channel producer floor (publishes d ∷ es) =
    (d.channel ≡ channel)
    × (d.cursor.producer_instance_id ≡ producer)
    × (floor ≤ d.cursor.runtime_seq)
    × FitsFrom channel producer d.cursor.runtime_seq es
FitsFrom channel producer floor (_ ∷ es) = FitsFrom channel producer floor es

-- The state of a renderer that has received the current snapshot.
abbrev pub up_to : Option Snapshot → SnapshotAcceptanceState
up_to none = create_snapshot_acceptance_state
up_to (some s) = state_of s

module _ (accepts : Snapshot → Bool) (channel producer : String) where
  abbrev pub FedSubscription : ℕ → ℕ → Option Snapshot → Subscription → Type 0
  FedSubscription n runtime current u =
      IsFed accepts channel producer n runtime current u.listed u.consumer

  abbrev pub CurrentFits : Option Snapshot → ℕ → ℕ → Type 0
  CurrentFits none n runtime = Unit
  CurrentFits (some s) n runtime =
      IsOf accepts channel producer s
      × (1 ≤ s.channel_seq)
      × (s.channel_seq ≤ n)
      × (s.cursor.runtime_seq ≤ runtime)

  -- Every consumer is fed, up to the last runtime number.
  pub record IsFeeding (runtime : ℕ) (p : ChannelPublisher) : Type 0 where
    pub fed : All (FedSubscription p.channel_seq runtime p.current) p.subscriptions
    pub current_fits : CurrentFits p.current p.channel_seq runtime

  CurrentFits-later :
      (current : Option Snapshot) (n runtime runtime' : ℕ)
      → runtime ≤ runtime'
      → CurrentFits current n runtime
      → CurrentFits current n runtime'
  CurrentFits-later none n runtime runtime' le h = tt
  CurrentFits-later (some s) n runtime runtime' le h = (h.0, h.1, h.2, omega (arith, h.3))

  later-IsFeeding :
      (runtime runtime' : ℕ) (p : ChannelPublisher)
      → runtime ≤ runtime'
      → IsFeeding runtime p
      → IsFeeding runtime' p
  later-IsFeeding runtime runtime' p le h = record {
    fed =
        All-imp (FedSubscription p.channel_seq runtime p.current)
          (FedSubscription p.channel_seq runtime' p.current) p.subscriptions
          (λ u k.
            more-IsFed accepts channel producer p.channel_seq p.channel_seq runtime runtime'
              p.current u.listed u.consumer (omega arith) le k)
          h.fed;
    current_fits = CurrentFits-later p.current p.channel_seq runtime runtime' le h.current_fits;
  }

  offer_listed-Fed :
      (n runtime : ℕ) (current : Option Snapshot) (s : Snapshot)
      → IsOf accepts channel producer s
      → s.channel_seq ≡ n + 1
      → runtime ≤ s.cursor.runtime_seq
      → (u : Subscription) → FedSubscription n runtime current u
      → FedSubscription (n + 1) s.cursor.runtime_seq (some s) (offer_listed s u)
  offer_listed-Fed n runtime current s from next rises u h =
      let Fed' = FedSubscription (n + 1) s.cursor.runtime_seq (some s) in
      if_cases Fed' u.listed _ u
        (λ on.
          subst
            (λ (b : Bool).
              IsFed accepts channel producer (n + 1) s.cursor.runtime_seq (some s) b
                (offer u.consumer s))
            (sym on)
            (offer-IsFed accepts channel producer n runtime current s u.consumer from next rises (
              subst (λ (b : Bool). IsFed accepts channel producer n runtime current b u.consumer) on
                h)))
        (λ off.
          later-IsFed accepts channel producer n (n + 1) runtime s.cursor.runtime_seq current
            (some s) u.listed u.consumer (omega arith) rises (λ on a. cc) h)

  publish-IsFeeding :
      (runtime : ℕ) (d : Draft) (p : ChannelPublisher)
      → d.channel ≡ channel
      → d.cursor.producer_instance_id ≡ producer
      → runtime ≤ d.cursor.runtime_seq
      → IsFeeding runtime p
      → IsFeeding d.cursor.runtime_seq (publish accepts d p)
  unfolding publish
  publish-IsFeeding runtime d p on_channel by_producer rises h =
      let s = numbered (p.channel_seq + 1) d in
      if_cases (IsFeeding d.cursor.runtime_seq) (p.closed || not (accepts s)) _ _
        (λ refused. later-IsFeeding runtime d.cursor.runtime_seq p rises h)
        (λ taken.
          let fits : accepts s ≡ true = ground (arith, taken) in
          let from : IsOf accepts channel producer s = (fits, on_channel, by_producer) in
          record {
            fed =
                map-All _ _ (offer_listed s) p.subscriptions
                  (offer_listed-Fed p.channel_seq runtime p.current s from refl rises) h.fed;
            current_fits = (from, omega arith, omega arith, omega arith);
          })

  greeted-IsFed :
      (n runtime : ℕ) (id : String) (timeout : ℕ) (current : Option Snapshot)
      → CurrentFits current n runtime
      → IsFed accepts channel producer n runtime current true
          (offered_current current (fresh id timeout))
  greeted-IsFed n runtime id timeout none h =
      fresh-IsFed accepts channel producer n runtime id timeout
  greeted-IsFed n runtime id timeout (some s) h =
      let before = s.channel_seq - 1 in
      more-IsFed accepts channel producer (before + 1) n s.cursor.runtime_seq runtime (some s) true
        (offer (fresh id timeout) s) (omega (arith, h.1, h.2)) h.3
        (offer-IsFed accepts channel producer before 0 none s (fresh id timeout) h.0
          (omega (arith, h.1)) (omega arith)
          (fresh-IsFed accepts channel producer before 0 id timeout))

  subscribe-IsFeeding :
      (runtime : ℕ) (p : ChannelPublisher) → IsFeeding runtime p → IsFeeding runtime (subscribe p)
  unfolding subscribe
  subscribe-IsFeeding runtime p h =
      if_cases (IsFeeding runtime) p.closed _ _
        (λ refused. record { fed = h.fed; current_fits = h.current_fits })
        (λ taken. record {
          fed =
              All-append (FedSubscription p.channel_seq runtime p.current) p.subscriptions _ h.fed (
                greeted-IsFed p.channel_seq runtime p.id latest_wins_close_timeout_ms p.current
                    h.current_fits,
                tt,
              );
          current_fits = h.current_fits;
        })

  close_subscription-Fed :
      (n runtime : ℕ) (current : Option Snapshot) (u : Subscription)
      → FedSubscription n runtime current u
      → FedSubscription n runtime current (close_subscription u)
  unfolding close_subscription
  close_subscription-Fed n runtime current u h =
      if_cases (FedSubscription n runtime current) u.active _ u
        (λ e.
          close-IsFed accepts channel producer n runtime current false u.consumer
            (unlisted-IsFed accepts channel producer n runtime current u.listed u.consumer h))
        (λ e. h)

  unlist-Fed :
      (n runtime : ℕ) (current : Option Snapshot) (u : Subscription)
      → FedSubscription n runtime current u
      → FedSubscription n runtime current (unlist u)
  unlist-Fed n runtime current u h =
      if_cases (FedSubscription n runtime current) u.listed _ u
        (λ e.
          close-IsFed accepts channel producer n runtime current false u.consumer
            (unlisted-IsFed accepts channel producer n runtime current u.listed u.consumer h))
        (λ e. h)

  settle-Fed :
      (n runtime : ℕ) (current : Option Snapshot) (ok : Bool) (u : Subscription)
      → FedSubscription n runtime current u
      → FedSubscription n runtime current (settle ok u)
  settle-Fed n runtime current ok u h =
      if_cases (FedSubscription n runtime current) u.consumer.in_flight _ u
        (λ e.
          complete_delivery-IsFed accepts channel producer n runtime current u.listed u.consumer ok
            h)
        (λ e. h)

  time_out-Fed :
      (n runtime : ℕ) (current : Option Snapshot) (u : Subscription)
      → FedSubscription n runtime current u
      → FedSubscription n runtime current (time_out u)
  time_out-Fed n runtime current u h =
      if_cases (FedSubscription n runtime current) u.consumer.timer _ u
        (λ e.
          close_timed_out-IsFed accepts channel producer n runtime current u.listed u.consumer h)
        (λ e. h)

  change-IsFeeding :
      (runtime n : ℕ) (f : Subscription → Subscription) (p : ChannelPublisher)
      → ((u : Subscription)
          → FedSubscription p.channel_seq runtime p.current u
          → FedSubscription p.channel_seq runtime p.current (f u))
      → IsFeeding runtime p
      → IsFeeding runtime (change n f p)
  change-IsFeeding runtime n f p keeps h = record {
    fed =
        map-All _ _ (λ u. if u.number == n then f u else u) p.subscriptions
          (λ u k.
            if_cases (FedSubscription p.channel_seq runtime p.current) (u.number == n) (f u) u
              (λ hit. keeps u k) (λ miss. k))
          h.fed;
    current_fits = h.current_fits;
  }

  close_channel-IsFeeding :
      (runtime : ℕ) (p : ChannelPublisher)
      → IsFeeding runtime p
      → IsFeeding runtime (close_channel p)
  unfolding close_channel
  close_channel-IsFeeding runtime p h =
      if_cases (IsFeeding runtime) p.closed _ _ (λ again. h)
        (λ first. record {
          fed =
              map-All _ _ unlist p.subscriptions (unlist-Fed p.channel_seq runtime p.current) h.fed;
          current_fits = h.current_fits;
        })

  -- The run goes on from a channel that feeds its consumers, whatever the last runtime number is then.
  run_channel-IsFeeding :
      (es : List ChannelEvent) (runtime : ℕ) (p : ChannelPublisher)
      → FitsFrom channel producer runtime es
      → IsFeeding runtime p
      → (last : ℕ) × IsFeeding last (run_channel accepts es p)
  unfolding run_channel channel_step
  run_channel-IsFeeding [] runtime p fits h = (runtime, h)
  run_channel-IsFeeding (publishes d ∷ es) runtime p fits h =
      run_channel-IsFeeding es d.cursor.runtime_seq (publish accepts d p) fits.3
        (publish-IsFeeding runtime d p fits.0 fits.1 fits.2 h)
  run_channel-IsFeeding (subscribes ∷ es) runtime p fits h =
      run_channel-IsFeeding es runtime (subscribe p) fits (subscribe-IsFeeding runtime p h)
  run_channel-IsFeeding (closes ∷ es) runtime p fits h =
      run_channel-IsFeeding es runtime (close_channel p) fits (close_channel-IsFeeding runtime p h)
  run_channel-IsFeeding (settles n ok ∷ es) runtime p fits h =
      run_channel-IsFeeding es runtime (change n (settle ok) p) fits
        (change-IsFeeding runtime n (settle ok) p (settle-Fed p.channel_seq runtime p.current ok) h)
  run_channel-IsFeeding (ends n ∷ es) runtime p fits h =
      run_channel-IsFeeding es runtime (change n close_subscription p) fits (
        change-IsFeeding runtime n close_subscription p
          (close_subscription-Fed p.channel_seq runtime p.current) h)
  run_channel-IsFeeding (times_out n ∷ es) runtime p fits h =
      run_channel-IsFeeding es runtime (change n time_out p) fits
        (change-IsFeeding runtime n time_out p (time_out-Fed p.channel_seq runtime p.current) h)

-- A producer publishes on one channel and its runtime numbers do not fall: in every order of publications,
-- subscriptions, ends of sends, closes and time-outs, a renderer that receives what a subscription is sent
-- accepts each snapshot, so that it never ignores or rejects one.
pub channel-AreAccepted :
    (accepts : Snapshot → Bool) (channel producer id : String) (es : List ChannelEvent)
    → FitsFrom channel producer 0 es
    → All
        (λ u. AreAccepted accepts u.consumer.sends)
        (run_channel accepts es (new_channel id)).subscriptions
channel-AreAccepted accepts channel producer id es fits =
    let p = run_channel accepts es (new_channel id) in
    let h =
      run_channel-IsFeeding accepts channel producer es 0 (new_channel id) fits
        (record { fed = tt; current_fits = tt }) in
    All-imp (FedSubscription accepts channel producer p.channel_seq h.0 p.current)
      (λ (u : Subscription). AreAccepted accepts u.consumer.sends) p.subscriptions
      (λ u k.
        chain-AreAccepted accepts channel producer u.consumer.sends
          (sent-IsChain accepts channel producer p.channel_seq h.0 p.current u.listed u.consumer k))
      h.1.fed

idle-received :
    (accepts : Snapshot → Bool) (channel producer : String) (current : Option Snapshot)
    (ss : List Snapshot)
    → IsChain accepts channel producer ss
    → head ss ≡ current
    → received accepts ss ≡ up_to current
idle-received accepts channel producer current [] chain newest = ap up_to newest
idle-received accepts channel producer current (s ∷ ss) chain newest =
    chain-last accepts channel producer s ss chain ∙ ap up_to newest

-- Under the same conditions, a renderer whose subscription is listed and has no send under way stands at
-- the channel's current snapshot, and at the start if there is none.
pub idle-up_to :
    (accepts : Snapshot → Bool) (channel producer id : String) (es : List ChannelEvent) (n : ℕ)
    (u : Subscription)
    → FitsFrom channel producer 0 es
    → find (λ v. v.number == n) (run_channel accepts es (new_channel id)).subscriptions ≡ some u
    → u.listed ≡ true
    → health_state u.consumer ≡ idle
    → received accepts u.consumer.sends ≡ up_to (run_channel accepts es (new_channel id)).current
unfolding health_state
idle-up_to accepts channel producer id es n u fits found on rests =
    let p = run_channel accepts es (new_channel id) in
    let h =
      run_channel-IsFeeding accepts channel producer es 0 (new_channel id) fits
        (record { fed = tt; current_fits = tt }) in
    let k =
      All-find (FedSubscription accepts channel producer p.channel_seq h.0 p.current)
        (λ (v : Subscription). v.number == n) p.subscriptions h.1.fed found in
    let opened : u.consumer.lifecycle ≡ accepting = ground (arith, rests) in
    let quiet : u.consumer.in_flight ≡ false = ground (arith, rests) in
    let whole : stream u.consumer ≡ u.consumer.sends =
      ap (λ (o : Option Snapshot). waiting_on o u.consumer.sends) (k.behind quiet) in
    idle-received accepts channel producer p.current u.consumer.sends
      (subst (IsChain accepts channel producer) whole k.chain)
      (ap head (sym whole) ∙ k.newest on opened)
