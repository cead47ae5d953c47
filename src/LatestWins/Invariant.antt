-- ===== src/LatestWins/Invariant.antt =====
-- The events of a consumer of apps/companion/src/runtime/latest-wins.ts, and what holds between them.
use rival_hub_broadcast.Prelude.{
  ℕ, ◌+◌, ◌≤◌, Bool, true, ◌≡◌, refl, Option, none, some, String, arith, length, nat_eq,
  if◌then◌else◌,
}
use rival_hub_broadcast.LatestWins.{
  accepting, closing, closed, not_requested, waiting, resolved, Consumer, fresh, offer, start,
  complete_delivery, close, close_timed_out, finish_close, resolve_close, report, is_some,
}

-- What happens to a consumer: an offer, the end of a delivery, a call of `close`, its time-out.
pub data Event {ℓ} (T : Type ℓ) : Type ℓ where
  on_offer : T → Event T
  on_settled : Bool → Event T
  on_close : Event T
  on_timeout : Event T

unfoldable pub step {ℓ} : {T : Type ℓ} → Consumer T → Event T → Consumer T
step c (on_offer snapshot) = offer c snapshot
step c (on_settled succeeded) = complete_delivery c succeeded
step c on_close = close c
step c on_timeout = close_timed_out c

-- A delivery settles while it is in flight, and the time-out is that of a running timer.
abbrev pub can_occur {ℓ} : {T : Type ℓ} → Consumer T → Event T → Bool
can_occur c (on_offer _) = true
can_occur c (on_settled _) = c.in_flight
can_occur c on_close = true
can_occur c on_timeout = c.timer

abbrev pub one_if : Bool → ℕ
one_if b = if b then 1 else 0

-- What holds of a consumer between two events.
pub record IsConsistent {ℓ} {T : Type ℓ} (c : Consumer T) : Type ℓ where
  pub deliveries : length c.sends ≡ c.sent + c.failed + one_if c.in_flight
  pub waiting_behind :
      is_some c.pending_latest ≡ true → (c.in_flight ≡ true) × (c.lifecycle ≡ accepting)
  pub accounted :
      c.lifecycle ≡ accepting
      → c.offered ≡ length c.sends + c.coalesced + one_if (is_some c.pending_latest)
  pub at_least : length c.sends + c.coalesced ≤ c.offered
  pub at_most : c.offered ≤ length c.sends + c.coalesced + 1
  pub open_promise : c.lifecycle ≡ accepting → c.close_promise ≡ not_requested
  pub closing_waits :
      c.lifecycle ≡ closing → (c.in_flight ≡ true) × (c.timer ≡ true) × (c.close_promise ≡ waiting)
  pub closed_resolved : c.lifecycle ≡ closed → c.close_promise ≡ resolved
  pub timed : c.timer ≡ true → c.lifecycle ≡ closing

fresh-IsConsistent {ℓ} :
    {T : Type ℓ} (id : String) (timeout : ℕ) → IsConsistent (fresh {T = T} id timeout)
unfolding length
fresh-IsConsistent id timeout = record {
  deliveries = refl;
  waiting_behind = λ h. absurd (cc h);
  accounted = λ h. refl;
  at_least = ground arith;
  at_most = ground arith;
  open_promise = λ h. refl;
  closing_waits = λ h. absurd (cc h);
  closed_resolved = λ h. absurd (cc h);
  timed = λ h. absurd (cc h);
}

offer-IsConsistent {ℓ} :
    {T : Type ℓ} (c : Consumer T) (snapshot : T) → IsConsistent c → IsConsistent (offer c snapshot)
unfolding offer start length
offer-IsConsistent c snapshot i = record {
  deliveries = ground arith;
  waiting_behind = ground arith;
  accounted = ground arith;
  at_least = ground arith;
  at_most = ground arith;
  open_promise = ground arith;
  closing_waits = ground arith;
  closed_resolved = ground arith;
  timed = ground arith;
}

complete_delivery-IsConsistent {ℓ} :
    {T : Type ℓ} (c : Consumer T) (succeeded : Bool)
    → c.in_flight ≡ true
    → IsConsistent c
    → IsConsistent (complete_delivery c succeeded)
unfolding complete_delivery finish_close resolve_close report start length
complete_delivery-IsConsistent c succeeded h i = record {
  deliveries = ground arith;
  waiting_behind = ground arith;
  accounted = ground arith;
  at_least = ground arith;
  at_most = ground arith;
  open_promise = ground arith;
  closing_waits = ground arith;
  closed_resolved = ground arith;
  timed = ground arith;
}

close-IsConsistent {ℓ} : {T : Type ℓ} (c : Consumer T) → IsConsistent c → IsConsistent (close c)
unfolding close close_timed_out finish_close resolve_close report
close-IsConsistent c i = record {
  deliveries = ground arith;
  waiting_behind = ground arith;
  accounted = ground arith;
  at_least = ground arith;
  at_most = ground arith;
  open_promise = ground arith;
  closing_waits = ground arith;
  closed_resolved = ground arith;
  timed = ground arith;
}

close_timed_out-IsConsistent {ℓ} :
    {T : Type ℓ} (c : Consumer T)
    → c.timer ≡ true
    → IsConsistent c
    → IsConsistent (close_timed_out c)
unfolding close_timed_out finish_close resolve_close report
close_timed_out-IsConsistent c h i = record {
  deliveries = ground arith;
  waiting_behind = ground arith;
  accounted = ground arith;
  at_least = ground arith;
  at_most = ground arith;
  open_promise = ground arith;
  closing_waits = ground arith;
  closed_resolved = ground arith;
  timed = ground arith;
}

step-IsConsistent {ℓ} :
    {T : Type ℓ} (c : Consumer T) (e : Event T)
    → can_occur c e ≡ true
    → IsConsistent c
    → IsConsistent (step c e)
unfolding step
step-IsConsistent c (on_offer snapshot) h i = offer-IsConsistent c snapshot i
step-IsConsistent c (on_settled succeeded) h i = complete_delivery-IsConsistent c succeeded h i
step-IsConsistent c on_close h i = close-IsConsistent c i
step-IsConsistent c on_timeout h i = close_timed_out-IsConsistent c h i

-- The snapshot last offered to a consumer that accepts it.
abbrev pub newest {ℓ} : {T : Type ℓ} → Consumer T → Event T → Option T → Option T
newest c (on_offer snapshot) last = elim c.lifecycle [
  | accepting ↦ some snapshot
  | closing ↦ last
  | closed ↦ last
]
newest c _ last = last

-- The consumers that events lead to, each with the snapshot last offered to it.
pub data Reached {ℓ} {T : Type ℓ} : Consumer T → Option T → Type ℓ where
  begin : (id : String) (timeout : ℕ) → Reached (fresh id timeout) none
  after :
      {c : Consumer T} {last : Option T}
      → Reached c last
      → (e : Event T) → can_occur c e ≡ true
      → Reached (step c e) (newest c e last)

-- In every order of events, the sends are the settled deliveries and at most one in flight; a snapshot
-- waits only behind a delivery; while offers are accepted each is sent, waiting or coalesced, and in
-- the end at most one more is dropped; a consumer that is closing waits for a delivery with a timer
-- running, and a closed one has resolved its promise.
pub consumer-IsConsistent {ℓ} :
    {T : Type ℓ} {c : Consumer T} {last : Option T} → Reached c last → IsConsistent c
consumer-IsConsistent (begin id timeout) = fresh-IsConsistent id timeout
consumer-IsConsistent (after run e h) = step-IsConsistent _ e h (consumer-IsConsistent run)
