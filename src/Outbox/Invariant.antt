-- ===== src/Outbox/Invariant.antt =====
-- What holds of the outbox of apps/companion/src/output/reliable-outbox.ts between two operations.
use rival_hub_broadcast.Prelude.{
  ℕ, ◌≤◌, ◌<◌, Bool, true, false, ◌≡◌, refl, sym, Option, some, List, [], ◌∷◌, ◌++◌, arith, inl,
  inr, Bool-cases, All-imp, any, select, length, length-append, leb, subst,
}
use rival_hub_broadcast.Outbox.{
  ReliableEvent, OutboxRecord, Outbox, DeliveryContinuity, is_pending, trim, commit, has_key,
  new_record, continuity_of, or_else, enqueue_valid, max_pending,
}
use rival_hub_broadcast.Outbox.Keys.{key, Distinct, append-Distinct, has_key-IsOther, Apart}
use rival_hub_broadcast.Outbox.Trim.{trim-pending, trim-Distinct, length-trim-le, select-append}

-- No key twice, at most 128 pending records and at most 192 in all.
pub record IsConsistent (records : List OutboxRecord) : Type 0 where
  pub distinct : Distinct records
  pub pending : length (select is_pending records) ≤ 128
  pub total : length records ≤ 192

-- The cut of records that are consistent but for their number.
pub trim-IsConsistent :
    (rs : List OutboxRecord)
    → Distinct rs
    → length (select is_pending rs) ≤ 128
    → IsConsistent (trim rs)
trim-IsConsistent rs d h = record {
  distinct = trim-Distinct rs d;
  pending = subst (λ ps. length ps ≤ 128) (sym (trim-pending rs h)) h;
  total = length-trim-le rs;
}

new-Apart :
    (r : OutboxRecord) (rs : List OutboxRecord)
    → any (has_key (key r)) rs ≡ false
    → Apart rs (r ∷ [])
new-Apart r rs h = All-imp _ _ rs (λ s other. (other, tt)) (has_key-IsOther r rs h)

-- The pending records with a new one.
pub append-pending :
    (rs : List OutboxRecord) (event : ReliableEvent) (at : ℕ)
    → select is_pending (rs ++ new_record event at ∷ [])
      ≡ select is_pending rs ++ new_record event at ∷ []
unfolding new_record
append-pending rs event at = select-append is_pending rs (new_record event at ∷ [])

pub append-room :
    (rs : List OutboxRecord) (event : ReliableEvent) (at : ℕ)
    → leb max_pending (length (select is_pending rs)) ≡ false
    → length (select is_pending (rs ++ new_record event at ∷ [])) ≤ 128
append-room rs event at room =
    let all = length-append (select is_pending rs) (new_record event at ∷ []) in
    let below : length (select is_pending rs) < 128 = ground arith in
    subst (λ ps. length ps ≤ 128) (sym (append-pending rs event at)) (omega arith)

append-Distinct_new :
    (rs : List OutboxRecord) (event : ReliableEvent) (at : ℕ)
    → Distinct rs
    → any (has_key event.idempotency_key) rs ≡ false
    → Distinct (rs ++ new_record event at ∷ [])
unfolding new_record
append-Distinct_new rs event at d new =
    append-Distinct rs (new_record event at ∷ []) d (tt, tt)
      (new-Apart (new_record event at) rs new)

-- What `enqueue` does with an event of the schema.
pub data Enqueued (outbox : Outbox) (event : ReliableEvent) (at : ℕ) : Outbox × Bool → Type 0 where
  known :
      any (has_key event.idempotency_key) outbox.records ≡ true
      → Enqueued outbox event at (outbox, false)
  stored :
      {next : Outbox}
      → any (has_key event.idempotency_key) outbox.records ≡ false
      → length (select is_pending outbox.records) < 128
      → next.records ≡ trim (outbox.records ++ new_record event at ∷ [])
      → Enqueued outbox event at (next, true)

pub enqueue_valid-Enqueued :
    (written : Bool) (outbox : Outbox) (event : ReliableEvent) (at : ℕ)
    (continuity : Option DeliveryContinuity) (result : Outbox × Bool)
    → enqueue_valid written outbox event at continuity ≡ some result
    → Enqueued outbox event at result
unfolding enqueue_valid commit
enqueue_valid-Enqueued written outbox event at continuity result e =
    elim (Bool-cases (any (has_key event.idempotency_key) outbox.records)) [
      | inl old ↦ subst (Enqueued outbox event at) (ground arith) (known old)
      | inr new ↦ elim (Bool-cases (leb max_pending (length (select is_pending outbox.records)))) [
        | inl full ↦ absurd (cc (rw (new, full, enqueue_valid) at e))
        | inr room ↦ elim (Bool-cases written) [
          | inr lost ↦ absurd (cc (rw (new, room, lost, enqueue_valid) at e))
          | inl kept ↦ subst (Enqueued outbox event at) (ground arith) (
              stored
                {next = record outbox {
                  records = trim (outbox.records ++ new_record event at ∷ []);
                  continuity = some (or_else continuity (continuity_of event at));
                }}
                new (ground arith) refl)
        ]
      ]
    ]

pub Enqueued-IsConsistent :
    (outbox : Outbox) (event : ReliableEvent) (at : ℕ) (result : Outbox × Bool)
    → Enqueued outbox event at result
    → IsConsistent outbox.records
    → IsConsistent result.0.records
Enqueued-IsConsistent outbox event at _ (known old) i = i
Enqueued-IsConsistent outbox event at _ (stored new room same) i = subst IsConsistent (sym same) (
    trim-IsConsistent _ (append-Distinct_new outbox.records event at i.distinct new)
      (append-room outbox.records event at (ground arith)))
