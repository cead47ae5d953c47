-- ===== src/Outbox/Delivery.antt =====
-- What apps/companion/src/output/reliable-outbox.ts sends, and what it may no longer send.
use native.Mathlib.Nat.{one-le-pow, pow-le-pow_right}
use rival_hub_broadcast.Prelude.{
  ℕ, ◌-◌, min, ◌≤◌, Bool, true, false, ◌≡◌, ◌≢◌, refl, sym, ap, ◌∙◌, Option, some, List, [], ◌∷◌,
  ◌++◌, arith, inl, inr, Bool-cases, All, any, select, map, subst,
}
use rival_hub_broadcast.Outbox.{
  ReliableEvent, OutboxRecord, Outbox, DeliveryContinuity, DeliveryResult, is_pending, new_record,
  enqueue, flush, flush_record, is_flushed, delay_ms,
}
use rival_hub_broadcast.Outbox.Keys.{key}
use rival_hub_broadcast.Outbox.Trim.{trim-pending}
use rival_hub_broadcast.Outbox.Invariant.{
  Enqueued, known, stored, enqueue_valid-Enqueued, append-pending, append-room,
}
use rival_hub_broadcast.Outbox.Updates.{flush_record-ended, map-pending-le, commit-records}
use rival_hub_broadcast.Outbox.History.{Reachable, outbox-IsConsistent}

-- A list that has an entry.
pub data Has {ℓ} {A : Type ℓ} (a : A) : List A → Type ℓ where
  here : {xs : List A} → Has a (a ∷ xs)
  there : {x : A} {xs : List A} → Has a xs → Has a (x ∷ xs)

-- The events sent have another key than the record.
abbrev pub IsUnsent : OutboxRecord → List ReliableEvent → Type 0
IsUnsent r es = All (λ (e : ReliableEvent). e.idempotency_key ≢ key r) es

-- An event that `enqueue` takes is pending behind the records that were pending, none of which is lost.
pub enqueue-pending :
    (parse : ReliableEvent → Option ReliableEvent) (written : Bool) (o next : Outbox)
    (event valid : ReliableEvent) (at : ℕ) (continuity : Option DeliveryContinuity)
    → parse event ≡ some valid
    → enqueue parse written o event at continuity ≡ some (next, true)
    → select is_pending next.records ≡ select is_pending o.records ++ new_record valid at ∷ []
unfolding enqueue
enqueue-pending parse written o next event valid at continuity good e =
    by_case (next, true) refl
      (enqueue_valid-Enqueued written o valid at continuity (next, true) (rw (good, enqueue) at e))
  where
    by_case :
        (result : Outbox × Bool)
        → result.1 ≡ true
        → Enqueued o valid at result
        → select is_pending result.0.records
          ≡ select is_pending o.records ++ new_record valid at ∷ []
    by_case _ t (known old) = absurd (cc t)
    by_case _ t (stored new room same) =
        ap (select is_pending) same
        ∙ trim-pending _ (append-room o.records valid at (ground arith))
        ∙ append-pending o.records valid at

flush_record-kept :
    (send : ReliableEvent → DeliveryResult) (is_current can_send : ReliableEvent → Bool) (now : ℕ)
    (r : OutboxRecord)
    → is_flushed is_current can_send now r ≡ false
    → flush_record send is_current can_send now r ≡ r
unfolding flush_record
flush_record-kept send is_current can_send now r h = ground arith

flush_records-kept :
    (send : ReliableEvent → DeliveryResult) (is_current can_send : ReliableEvent → Bool) (now : ℕ)
    (rs : List OutboxRecord)
    → any (is_flushed is_current can_send now) rs ≡ false
    → map (flush_record send is_current can_send now) rs ≡ rs
flush_records-kept send is_current can_send now [] h = refl
flush_records-kept send is_current can_send now (r ∷ rs) h =
    let first = flush_record-kept send is_current can_send now r (ground arith) in
    let rest = flush_records-kept send is_current can_send now rs (ground arith) in
    rw (first, rest) refl

-- After a flush, the pending records are those that the loop left pending, all of them and in order:
-- the cut loses none that is still to be delivered.
pub flush-pending :
    {o : Outbox} (send : ReliableEvent → DeliveryResult)
    (is_current can_send : ReliableEvent → Bool) (now : ℕ) (written : Bool) (next : Outbox)
    → Reachable o
    → flush send is_current can_send now written o ≡ some next
    → select is_pending next.records
      ≡ select is_pending (map (flush_record send is_current can_send now) o.records)
unfolding flush
flush-pending {o = o} send is_current can_send now written next run e =
    elim (Bool-cases (any (is_flushed is_current can_send now) o.records)) [
      | inl changed ↦
          let i = outbox-IsConsistent run in
          let few = i.pending in
          let fewer = map-pending-le (flush_record send is_current can_send now) o.records (λ r h.
            subst (λ s. is_pending s ≡ false)
              (sym (flush_record-ended send is_current can_send now r h)) h) in
          ap (select is_pending) (commit-records written o next _ _ (rw (changed, flush) at e))
          ∙ trim-pending _ (omega arith)
      | inr unchanged ↦
          let same : next ≡ o = ground arith in
          ap (λ (p : Outbox). select is_pending p.records) same
          ∙ ap (select is_pending)
              (sym (flush_records-kept send is_current can_send now o.records unchanged))
    ]

-- The wait after a failed attempt is between one second and one minute, and never shorter after more
-- attempts.
delay_ms-bounds :
    (n m : ℕ) → n ≤ m → (1000 ≤ delay_ms n) × (delay_ms n ≤ delay_ms m) × (delay_ms m ≤ 60000)
delay_ms-bounds n m h =
    let least = one-le-pow (min (n - 1) 6) 2 (omega arith) in
    let exponents : min (n - 1) 6 ≤ min (m - 1) 6 = omega arith in
    let grows = pow-le-pow_right {n = 2} (omega arith) exponents in
    (omega arith, omega arith, omega arith)
