-- ===== src/Outbox/History.antt =====
-- Any operations of apps/companion/src/output/reliable-outbox.ts, one after the other.
use rival_hub_broadcast.Prelude.{
  ℕ, Bool, ◌≡◌, sym, Option, some, arith, inl, inr, Option-cases, subst,
}
use rival_hub_broadcast.Outbox.{
  ReliableEvent, Outbox, DeliveryContinuity, DeliveryResult, enqueue, flush, sweep,
  update_continuity, empty_outbox,
}
use rival_hub_broadcast.Outbox.Invariant.{
  IsConsistent, Enqueued-IsConsistent, enqueue_valid-Enqueued,
}
use rival_hub_broadcast.Outbox.Updates.{
  flush-IsConsistent, sweep-IsConsistent, update_continuity-records,
}

-- One operation of the outbox that does not throw, with any arguments.
pub data Step : Outbox → Outbox → Type 0 where
  enqueues :
      {outbox : Outbox} {result : Outbox × Bool} (parse : ReliableEvent → Option ReliableEvent)
      (written : Bool) (event : ReliableEvent) (at : ℕ) (continuity : Option DeliveryContinuity)
      → enqueue parse written outbox event at continuity ≡ some result
      → Step outbox result.0
  flushes :
      {outbox next : Outbox} (send : ReliableEvent → DeliveryResult)
      (is_current can_send : ReliableEvent → Bool) (now : ℕ) (written : Bool)
      → flush send is_current can_send now written outbox ≡ some next
      → Step outbox next
  sweeps :
      {outbox next : Outbox} (is_current : ReliableEvent → Bool) (now : ℕ) (written : Bool)
      → sweep is_current now written outbox ≡ some next
      → Step outbox next
  updates :
      {outbox : Outbox} (written : Bool) (checkpoint : DeliveryContinuity)
      → Step outbox (update_continuity written outbox checkpoint)

enqueue-Enqueued :
    (parse : ReliableEvent → Option ReliableEvent) (written : Bool) (outbox : Outbox)
    (event : ReliableEvent) (at : ℕ) (continuity : Option DeliveryContinuity)
    (result : Outbox × Bool)
    → enqueue parse written outbox event at continuity ≡ some result
    → IsConsistent outbox.records
    → IsConsistent result.0.records
unfolding enqueue
enqueue-Enqueued parse written outbox event at continuity result e i =
    elim (Option-cases (parse event)) [
      | inl bad ↦ absurd (cc (rw (bad, enqueue) at e))
      | inr (valid, good) ↦
          Enqueued-IsConsistent outbox valid at result
            (enqueue_valid-Enqueued written outbox valid at continuity result
              (rw (good, enqueue) at e))
            i
    ]

Step-IsConsistent : {o p : Outbox} → Step o p → IsConsistent o.records → IsConsistent p.records
Step-IsConsistent (enqueues parse written event at continuity e) i =
    enqueue-Enqueued parse written _ event at continuity _ e i
Step-IsConsistent (flushes send is_current can_send now written e) i =
    flush-IsConsistent send is_current can_send now written _ _ e i
Step-IsConsistent (sweeps is_current now written e) i =
    sweep-IsConsistent is_current now written _ _ e i
Step-IsConsistent (updates written checkpoint) i =
    subst IsConsistent (sym (update_continuity-records written _ checkpoint)) i

-- The outboxes that operations lead to from the empty one.
pub data Reachable : Outbox → Type 0 where
  begin : Reachable empty_outbox
  then_step : {o p : Outbox} → Reachable o → Step o p → Reachable p

-- After any operations on the empty outbox, whatever the clock, the sink, the schema and the disk do,
-- no idempotency key occurs twice, at most 128 records are pending and at most 192 are kept.
pub outbox-IsConsistent : {o : Outbox} → Reachable o → IsConsistent o.records
outbox-IsConsistent begin = record { distinct = tt; pending = omega arith; total = omega arith }
outbox-IsConsistent (then_step before s) = Step-IsConsistent s (outbox-IsConsistent before)
