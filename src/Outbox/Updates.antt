-- ===== src/Outbox/Updates.antt =====
-- The operations of apps/companion/src/output/reliable-outbox.ts that change the records one by one.
use rival_hub_broadcast.Prelude.{
  ℕ, ◌≤◌, Bool, true, false, ◌≡◌, refl, sym, Option, some, List, [], ◌∷◌, arith, inl, inr,
  Bool-cases, any, select, map, length, subst,
}
use rival_hub_broadcast.Outbox.{
  ReliableEvent, OutboxRecord, Outbox, DeliveryContinuity, DeliveryResult, is_pending, trim, commit,
  flush, flush_record, is_flushed, give_up, after_attempt, sweep, sweep_record, is_outdated,
  update_continuity,
}
use rival_hub_broadcast.Outbox.Keys.{key, map-Distinct}
use rival_hub_broadcast.Outbox.Invariant.{IsConsistent, trim-IsConsistent}

pub map-pending-le :
    (f : OutboxRecord → OutboxRecord) (rs : List OutboxRecord)
    → ((r : OutboxRecord) → is_pending r ≡ false → is_pending (f r) ≡ false)
    → length (select is_pending (map f rs)) ≤ length (select is_pending rs)
map-pending-le f [] keeps = omega arith
map-pending-le f (r ∷ rs) keeps =
    let rest : length (select is_pending (map f rs)) ≤ length (select is_pending rs) =
      map-pending-le f rs keeps in
    elim (Bool-cases (is_pending r)) [
      | inl waits ↦ ground arith
      | inr ended ↦ let still : is_pending (f r) ≡ false = keeps r ended in ground arith
    ]

pub flush_record-key :
    (send : ReliableEvent → DeliveryResult) (is_current can_send : ReliableEvent → Bool) (now : ℕ)
    (r : OutboxRecord)
    → key (flush_record send is_current can_send now r) ≡ key r
unfolding flush_record give_up after_attempt
flush_record-key send is_current can_send now r = ground arith

pub flush_record-ended :
    (send : ReliableEvent → DeliveryResult) (is_current can_send : ReliableEvent → Bool) (now : ℕ)
    (r : OutboxRecord)
    → is_pending r ≡ false
    → flush_record send is_current can_send now r ≡ r
unfolding flush_record
flush_record-ended send is_current can_send now r h = rw h refl

sweep_record-key :
    (is_current : ReliableEvent → Bool) (now : ℕ) (r : OutboxRecord)
    → key (sweep_record is_current now r) ≡ key r
unfolding sweep_record give_up
sweep_record-key is_current now r = ground arith

sweep_record-ended :
    (is_current : ReliableEvent → Bool) (now : ℕ) (r : OutboxRecord)
    → is_pending r ≡ false
    → sweep_record is_current now r ≡ r
unfolding sweep_record
sweep_record-ended is_current now r h = rw h refl

-- The records changed one by one and cut, or none changed at all.
pub map_trim-IsConsistent :
    (f : OutboxRecord → OutboxRecord) (rs : List OutboxRecord)
    → ((r : OutboxRecord) → key (f r) ≡ key r)
    → ((r : OutboxRecord) → is_pending r ≡ false → f r ≡ r)
    → IsConsistent rs
    → IsConsistent (trim (map f rs))
map_trim-IsConsistent f rs same_key ended i =
    let fewer =
      map-pending-le f rs (λ r h. subst (λ s. is_pending s ≡ false) (sym (ended r h)) h) in
    let few = i.pending in
    trim-IsConsistent (map f rs) (map-Distinct f rs same_key i.distinct) (omega arith)

pub commit-records :
    (written : Bool) (outbox next : Outbox) (rs : List OutboxRecord) (c : Option DeliveryContinuity)
    → commit written outbox rs c ≡ some next
    → next.records ≡ rs
unfolding commit
commit-records true outbox next rs c e = ground arith
commit-records false outbox next rs c e = absurd (cc e)

pub flush-IsConsistent :
    (send : ReliableEvent → DeliveryResult) (is_current can_send : ReliableEvent → Bool) (now : ℕ)
    (written : Bool) (outbox next : Outbox)
    → flush send is_current can_send now written outbox ≡ some next
    → IsConsistent outbox.records
    → IsConsistent next.records
unfolding flush
flush-IsConsistent send is_current can_send now written outbox next e i =
    elim (Bool-cases (any (is_flushed is_current can_send now) outbox.records)) [
      | inl changed ↦
          subst IsConsistent
            (sym (commit-records written outbox next _ _ (rw (changed, flush) at e)))
            (map_trim-IsConsistent _ outbox.records (flush_record-key send is_current can_send now)
              (flush_record-ended send is_current can_send now) i)
      | inr unchanged ↦
          let same : outbox ≡ next = ground arith in
          subst (λ (o : Outbox). IsConsistent o.records) same i
    ]

pub sweep-IsConsistent :
    (is_current : ReliableEvent → Bool) (now : ℕ) (written : Bool) (outbox next : Outbox)
    → sweep is_current now written outbox ≡ some next
    → IsConsistent outbox.records
    → IsConsistent next.records
unfolding sweep
sweep-IsConsistent is_current now written outbox next e i =
    elim (Bool-cases (any (is_outdated is_current now) outbox.records)) [
      | inl changed ↦
          subst IsConsistent
            (sym (commit-records written outbox next _ _ (rw (changed, sweep) at e)))
            (map_trim-IsConsistent _ outbox.records (sweep_record-key is_current now)
              (sweep_record-ended is_current now) i)
      | inr unchanged ↦
          let same : outbox ≡ next = ground arith in
          subst (λ (o : Outbox). IsConsistent o.records) same i
    ]

pub update_continuity-records :
    (written : Bool) (outbox : Outbox) (checkpoint : DeliveryContinuity)
    → (update_continuity written outbox checkpoint).records ≡ outbox.records
unfolding update_continuity commit
update_continuity-records written outbox checkpoint = ground arith
