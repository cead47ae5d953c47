-- ===== src/Channel/Subscriber.antt =====
-- One subscriber of apps/companion/src/local-protocol/channel-publisher.ts: the snapshots of its consumer.
use rival_hub_broadcast.Prelude.{
  ℕ, ◌+◌, ◌≤◌, ◌≡◌, refl, sym, ap, ◌∙◌, subst, Bool, true, false, Option, none, some, List, ◌∷◌,
  String, arith, All, All-imp, if_cases, ◌==◌, nat_eq,
}
use rival_hub_broadcast.LatestWins.{
  Lifecycle, accepting, closing, closed, Consumer, offer, start, complete_delivery, close,
  close_timed_out, finish_close, report, ClosePromise, not_requested, waiting, resolved, settled,
  fresh,
}
use rival_hub_broadcast.LatestWins.Newest.{head}
use rival_hub_broadcast.Channel.{Snapshot}
use rival_hub_broadcast.Channel.Received.{IsChain, IsOf, Precedes}

abbrev pub waiting_on : Option Snapshot → List Snapshot → List Snapshot
waiting_on none ss = ss
waiting_on (some s) ss = s ∷ ss

-- What a consumer has sent and what waits, the newest first.
abbrev pub stream : Consumer Snapshot → List Snapshot
stream c = waiting_on c.pending_latest c.sends

abbrev pub AreBelow : ℕ → ℕ → List Snapshot → Type 0
AreBelow n runtime ss = All (λ s. (s.channel_seq ≤ n) × (s.cursor.runtime_seq ≤ runtime)) ss

-- The snapshots of a consumer are in order and not newer than the channel, a snapshot waits only behind
-- a delivery, and while it is listed and open its newest one is the channel's.
pub record IsFed (accepts : Snapshot → Bool) (channel producer : String) (n runtime : ℕ)
    (current : Option Snapshot) (listed : Bool) (c : Consumer Snapshot) : Type 0 where
  pub chain : IsChain accepts channel producer (stream c)
  pub below : AreBelow n runtime (stream c)
  pub behind : c.in_flight ≡ false → c.pending_latest ≡ none
  pub newest : listed ≡ true → c.lifecycle ≡ accepting → head (stream c) ≡ current

lifecycle_cases {ℓ κ} :
    {A : Type ℓ} (P : A → Type κ) (l : Lifecycle) (x y z : A)
    → (l ≡ accepting → P x)
    → (l ≡ closing → P y)
    → (l ≡ closed → P z)
    → P (elim l as (λ _. A) [ accepting ↦ x | closing ↦ y | closed ↦ z ])
lifecycle_cases P accepting x y z f g h = f refl
lifecycle_cases P closing x y z f g h = g refl
lifecycle_cases P closed x y z f g h = h refl

promise_cases {ℓ κ} :
    {A : Type ℓ} (P : A → Type κ) (p : ClosePromise) (x y z : A)
    → P x
    → P y
    → P z
    → P (elim p as (λ _. A) [ waiting ↦ x | resolved ↦ y | not_requested ↦ z ])
promise_cases P waiting x y z f g h = f
promise_cases P resolved x y z f g h = g
promise_cases P not_requested x y z f g h = h

pub AreBelow-later :
    (n n' runtime runtime' : ℕ) (ss : List Snapshot)
    → n ≤ n'
    → runtime ≤ runtime'
    → AreBelow n runtime ss
    → AreBelow n' runtime' ss
AreBelow-later n n' runtime runtime' ss le le' h =
    All-imp (λ (s : Snapshot). (s.channel_seq ≤ n) × (s.cursor.runtime_seq ≤ runtime))
      (λ (s : Snapshot). (s.channel_seq ≤ n') × (s.cursor.runtime_seq ≤ runtime')) ss
      (λ s (k : (s.channel_seq ≤ n) × (s.cursor.runtime_seq ≤ runtime)).
        (omega (arith, k.0), omega (arith, k.1)))
      h

module _ (accepts : Snapshot → Bool) (channel producer : String) where
  waiting_on-IsChain :
      (pending : Option Snapshot) (ss : List Snapshot)
      → IsChain accepts channel producer (waiting_on pending ss)
      → IsChain accepts channel producer ss
  waiting_on-IsChain none ss h = h
  waiting_on-IsChain (some s) ss h = h.2

  waiting_on-AreBelow :
      (n runtime : ℕ) (pending : Option Snapshot) (ss : List Snapshot)
      → AreBelow n runtime (waiting_on pending ss)
      → AreBelow n runtime ss
  waiting_on-AreBelow n runtime none ss h = h
  waiting_on-AreBelow n runtime (some s) ss h = h.1

  pub sent-IsChain :
      (n runtime : ℕ) (current : Option Snapshot) (listed : Bool) (c : Consumer Snapshot)
      → IsFed accepts channel producer n runtime current listed c
      → IsChain accepts channel producer c.sends
  sent-IsChain n runtime current listed c h = waiting_on-IsChain c.pending_latest c.sends h.chain

  -- A consumer that ends keeps only what it has sent.
  ended-IsFed :
      (n runtime : ℕ) (current : Option Snapshot) (listed : Bool) (c d : Consumer Snapshot)
      → d.sends ≡ c.sends
      → d.pending_latest ≡ none
      → (d.lifecycle ≡ accepting → ⊥)
      → IsFed accepts channel producer n runtime current listed c
      → IsFed accepts channel producer n runtime current listed d
  ended-IsFed n runtime current listed c d same no_pending ends h =
      let whole : stream d ≡ c.sends =
        ap (λ (o : Option Snapshot). waiting_on o d.sends) no_pending ∙ same in
      record {
        chain =
            subst (IsChain accepts channel producer) (sym whole)
              (waiting_on-IsChain c.pending_latest c.sends h.chain);
        below =
            subst (AreBelow n runtime) (sym whole)
              (waiting_on-AreBelow n runtime c.pending_latest c.sends h.below);
        behind = λ e. no_pending;
        newest = λ l a. absurd (ends a);
      }

  module _ (n runtime : ℕ) (current : Option Snapshot) (listed : Bool) where
    abbrev Fed : Consumer Snapshot → Type 0
    Fed c = IsFed accepts channel producer n runtime current listed c

    pub close-IsFed : (c : Consumer Snapshot) → Fed c → Fed (close c)
    unfolding close close_timed_out finish_close report
    close-IsFed c h = promise_cases Fed c.close_promise c c _ h h (
        if_cases Fed c.in_flight _ _
          (λ busy.
            if_cases Fed (c.close_timeout_ms == 0) _ _
              (λ at_once. ended-IsFed n runtime current listed c _ refl refl (λ e. cc) h)
              (λ later. ended-IsFed n runtime current listed c _ refl refl (λ e. cc) h))
          (λ quiet. ended-IsFed n runtime current listed c _ refl refl (λ e. cc) h))

    pub close_timed_out-IsFed : (c : Consumer Snapshot) → Fed c → Fed (close_timed_out c)
    unfolding close_timed_out finish_close report
    close_timed_out-IsFed c h = ended-IsFed n runtime current listed c _ refl refl (λ e. cc) h

    -- The snapshot that waits is sent when a delivery has ended.
    sent_next :
        (pending : Option Snapshot) (c d : Consumer Snapshot)
        → c.pending_latest ≡ pending
        → d.sends ≡ c.sends
        → d.pending_latest ≡ c.pending_latest
        → d.lifecycle ≡ c.lifecycle
        → Fed c
        → Fed (elim pending as (λ _. Consumer Snapshot) [
          | some s ↦ start (record d { pending_latest = none }) s
          | none ↦ d
        ])
    unfolding start
    sent_next none c d e sends same life h =
        let whole : stream d ≡ stream c =
          ap (λ (o : Option Snapshot). waiting_on o d.sends) same
          ∙ ap (waiting_on c.pending_latest) sends in
        record {
          chain = subst (IsChain accepts channel producer) (sym whole) h.chain;
          below = subst (AreBelow n runtime) (sym whole) h.below;
          behind = λ f. same ∙ e;
          newest = λ l a. ap head whole ∙ h.newest l (sym life ∙ a);
        }
    sent_next (some s) c d e sends same life h =
        let whole : s ∷ d.sends ≡ stream c =
          ap (λ (ss : List Snapshot). s ∷ ss) sends
          ∙ ap (λ (o : Option Snapshot). waiting_on o c.sends) (sym e) in
        record {
          chain = subst (IsChain accepts channel producer) (sym whole) h.chain;
          below = subst (AreBelow n runtime) (sym whole) h.below;
          behind = λ f. refl;
          newest = λ l a. ap head whole ∙ h.newest l (sym life ∙ a);
        }

    pub complete_delivery-IsFed :
        (c : Consumer Snapshot) (ok : Bool) → Fed c → Fed (complete_delivery c ok)
    unfolding complete_delivery finish_close report start
    complete_delivery-IsFed c true h =
        lifecycle_cases Fed c.lifecycle _ _ _
          (λ a. sent_next c.pending_latest c (settled c true) refl refl refl refl h)
          (λ a. ended-IsFed n runtime current listed c _ refl refl (λ e. cc) h)
          (λ a. ended-IsFed n runtime current listed c _ refl refl (λ e. cc) h)
    complete_delivery-IsFed c false h =
        lifecycle_cases Fed c.lifecycle _ _ _
          (λ a. sent_next c.pending_latest c (settled c false) refl refl refl refl h)
          (λ a. ended-IsFed n runtime current listed c _ refl refl (λ e. cc) h)
          (λ a. ended-IsFed n runtime current listed c _ refl refl (λ e. cc) h)

  pub later-IsFed :
      (n n' runtime runtime' : ℕ) (current current' : Option Snapshot) (listed : Bool)
      (c : Consumer Snapshot)
      → n ≤ n'
      → runtime ≤ runtime'
      → (listed ≡ true → c.lifecycle ≡ accepting → ⊥)
      → IsFed accepts channel producer n runtime current listed c
      → IsFed accepts channel producer n' runtime' current' listed c
  later-IsFed n n' runtime runtime' current current' listed c le le' off h = record {
    chain = h.chain;
    below = AreBelow-later n n' runtime runtime' (stream c) le le' h.below;
    behind = h.behind;
    newest = λ l a. absurd (off l a);
  }

  -- A consumer whose newest snapshot is the channel's next one.
  added-IsFed :
      (n runtime : ℕ) (s : Snapshot) (listed : Bool) (d : Consumer Snapshot) (ss : List Snapshot)
      → stream d ≡ s ∷ ss
      → (d.in_flight ≡ false → d.pending_latest ≡ none)
      → IsOf accepts channel producer s
      → s.channel_seq ≡ n + 1
      → runtime ≤ s.cursor.runtime_seq
      → IsChain accepts channel producer ss
      → AreBelow n runtime ss
      → IsFed accepts channel producer (n + 1) s.cursor.runtime_seq (some s) listed d
  added-IsFed n runtime s listed d ss whole behind from next rises chain below = record {
    chain = subst (IsChain accepts channel producer) (sym whole) (
      from,
      All-imp (λ (k : Snapshot). (k.channel_seq ≤ n) × (k.cursor.runtime_seq ≤ runtime))
          (λ k. Precedes k s) ss
          (λ k (b : (k.channel_seq ≤ n) × (k.cursor.runtime_seq ≤ runtime)).
            (omega (arith, b.0, next), omega (arith, b.1, rises)))
          below,
      chain,
    );
    below = subst (AreBelow (n + 1) s.cursor.runtime_seq) (sym whole) (
      (omega (arith, next), omega arith),
      AreBelow-later n (n + 1) runtime s.cursor.runtime_seq ss (omega arith) rises below,
    );
    behind = behind;
    newest = λ l a. ap head whole;
  }

  pub offer-IsFed :
      (n runtime : ℕ) (current : Option Snapshot) (s : Snapshot) (c : Consumer Snapshot)
      → IsOf accepts channel producer s
      → s.channel_seq ≡ n + 1
      → runtime ≤ s.cursor.runtime_seq
      → IsFed accepts channel producer n runtime current true c
      → IsFed accepts channel producer (n + 1) s.cursor.runtime_seq (some s) true (offer c s)
  unfolding offer start
  offer-IsFed n runtime current s c from next rises h =
      let Fed' = IsFed accepts channel producer (n + 1) s.cursor.runtime_seq (some s) true in
      let chain = waiting_on-IsChain c.pending_latest c.sends h.chain in
      let below = waiting_on-AreBelow n runtime c.pending_latest c.sends h.below in
      lifecycle_cases Fed' c.lifecycle _ c c
        (λ a.
          if_cases Fed' c.in_flight _ _
            (λ busy.
              added-IsFed n runtime s true _ c.sends refl (λ f. cc) from next rises chain below)
            (λ quiet.
              added-IsFed n runtime s true _ c.sends
                (ap (λ (o : Option Snapshot). waiting_on o (s ∷ c.sends)) (h.behind quiet))
                (λ f. h.behind quiet) from next rises chain below))
        (λ a.
          later-IsFed n (n + 1) runtime s.cursor.runtime_seq current (some s) true c (omega arith)
            rises (λ l e. cc) h)
        (λ a.
          later-IsFed n (n + 1) runtime s.cursor.runtime_seq current (some s) true c (omega arith)
            rises (λ l e. cc) h)

  pub more-IsFed :
      (n n' runtime runtime' : ℕ) (current : Option Snapshot) (listed : Bool)
      (c : Consumer Snapshot)
      → n ≤ n'
      → runtime ≤ runtime'
      → IsFed accepts channel producer n runtime current listed c
      → IsFed accepts channel producer n' runtime' current listed c
  more-IsFed n n' runtime runtime' current listed c le le' h = record {
    chain = h.chain;
    below = AreBelow-later n n' runtime runtime' (stream c) le le' h.below;
    behind = h.behind;
    newest = h.newest;
  }

  -- A subscription that its publisher has taken off its list.
  pub unlisted-IsFed :
      (n runtime : ℕ) (current : Option Snapshot) (listed : Bool) (c : Consumer Snapshot)
      → IsFed accepts channel producer n runtime current listed c
      → IsFed accepts channel producer n runtime current false c
  unlisted-IsFed n runtime current listed c h = record {
    chain = h.chain;
    below = h.below;
    behind = h.behind;
    newest = λ l a. cc;
  }

  pub fresh-IsFed :
      (n runtime : ℕ) (id : String) (timeout : ℕ)
      → IsFed accepts channel producer n runtime none true (fresh id timeout)
  fresh-IsFed n runtime id timeout = record {
    chain = tt;
    below = tt;
    behind = λ f. refl;
    newest = λ l a. refl;
  }
