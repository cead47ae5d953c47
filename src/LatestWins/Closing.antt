-- ===== src/LatestWins/Closing.antt =====
-- How a consumer of apps/companion/src/runtime/latest-wins.ts closes.
use rival_hub_broadcast.Prelude.{Bool, true, ◌≡◌, ◌≢◌, refl, Option, arith, nat_eq, inl, inr, ◌⊎◌}
use rival_hub_broadcast.LatestWins.{
  Lifecycle, accepting, closing, closed, resolved, Consumer, offer, complete_delivery, close,
  close_timed_out, finish_close, resolve_close, report,
}
use rival_hub_broadcast.LatestWins.Invariant.{
  Event, on_offer, on_settled, on_close, on_timeout, step, can_occur, IsConsistent, Reached, after,
  consumer-IsConsistent,
}

-- Once `close` was called, an event sends nothing more and accepts no offer again.
closed-silent {ℓ} :
    {T : Type ℓ} (c : Consumer T) (e : Event T)
    → c.lifecycle ≢ accepting
    → ((step c e).sends ≡ c.sends)
      × ((step c e).offered ≡ c.offered)
      × ((step c e).lifecycle ≢ accepting)
unfolding step offer complete_delivery close close_timed_out finish_close report
closed-silent c (on_offer snapshot) h = (ground arith, ground arith, ground arith)
closed-silent c (on_settled succeeded) h = (ground arith, ground arith, ground arith)
closed-silent c on_close h = (ground arith, ground arith, ground arith)
closed-silent c on_timeout h = (ground arith, ground arith, ground arith)

-- A call of `close` ends in a closed consumer with its promise resolved, or in one that is closing,
-- whose delivery may still settle and whose timer runs; either event closes it and resolves the promise.
pub data Closes {ℓ} {T : Type ℓ} (c : Consumer T) : Type ℓ where
  at_once : c.lifecycle ≡ closed → c.close_promise ≡ resolved → Closes c
  later :
      can_occur c on_timeout ≡ true
      → (step c on_timeout).close_promise ≡ resolved
      → (step c on_timeout).lifecycle ≡ closed
      → ((succeeded : Bool)
          → (can_occur c (on_settled succeeded) ≡ true)
            × ((step c (on_settled succeeded)).close_promise ≡ resolved)
            × ((step c (on_settled succeeded)).lifecycle ≡ closed))
      → Closes c

lifecycle_cases : (l : Lifecycle) → (l ≡ accepting) ⊎ ((l ≡ closing) ⊎ (l ≡ closed))
lifecycle_cases accepting = inl refl
lifecycle_cases closing = inr (inl refl)
lifecycle_cases closed = inr (inr refl)

closing-Closes {ℓ} :
    {T : Type ℓ} (c : Consumer T) → IsConsistent c → c.lifecycle ≢ accepting → Closes c
unfolding step complete_delivery close_timed_out finish_close resolve_close report
closing-Closes c i h = elim (lifecycle_cases c.lifecycle) [
  | inl a ↦ absurd (h a)
  | inr (inl g) ↦
      let waits = i.closing_waits g in
      later waits.1 (ground arith) refl (λ succeeded. (waits.0, ground arith, ground arith))
  | inr (inr d) ↦ at_once d (i.closed_resolved d)
]

close-not_accepting {ℓ} :
    {T : Type ℓ} (c : Consumer T) → IsConsistent c → (close c).lifecycle ≢ accepting
unfolding close close_timed_out finish_close report
close-not_accepting c i = ground arith

-- After a call of `close`, at any point of a run, the consumer is closed with the promise resolved, or
-- it is closing, and both the end of its delivery and its time-out can occur and close it.
pub close-Closes {ℓ} :
    {T : Type ℓ} {c : Consumer T} {last : Option T} → Reached c last → Closes (step c on_close)
unfolding step
close-Closes {c = c} run =
    closing-Closes (close c) (consumer-IsConsistent (after run on_close refl))
      (close-not_accepting c (consumer-IsConsistent run))
