-- ===== src/Outbox/Tests.antt =====
-- Two events in the outbox of apps/companion/src/output/reliable-outbox.ts, one of them taken.
use rival_hub_broadcast.Prelude.{
  Bool, true, ◌≡◌, refl, Option, none, some, [], ◌∷◌, ◌++◌, String, map, select, if◌then◌else◌,
  ◌==◌, string_eq,
}
use rival_hub_broadcast.Outbox.{
  DeliveryResult, ReliableEvent, OutboxRecord, Outbox, empty_outbox, enqueue, enqueue_valid, flush,
  flush_record, flush_sends, is_pending, new_record, commit, trim, after_attempt, continuity_of,
}
use rival_hub_broadcast.Outbox.Keys.{key}
use rival_hub_broadcast.Outbox.Invariant.{IsConsistent}
use rival_hub_broadcast.Outbox.History.{
  enqueues, flushes, Reachable, begin, then_step, outbox-IsConsistent,
}
use rival_hub_broadcast.Outbox.Delivery.{enqueue-pending, flush-pending}

abbrev event : String → ReliableEvent
event key = record {
  idempotency_key = key;
  observed_at = 1000;
  match_id = "final";
  context_revision = "r1";
  cursor = record { live_session_id = some "s"; program_source_generation = 0; map_epoch = 1 };
  map_name = some "de_nuke";
}

-- A schema that takes every event.
abbrev parse : ReliableEvent → Option ReliableEvent
parse e = some e

-- A sink that takes the first event and not the second.
abbrev send : ReliableEvent → DeliveryResult
send e = if e.idempotency_key == "k1" then DeliveryResult.accepted else DeliveryResult.retry

abbrev always : ReliableEvent → Bool
always e = true

abbrev or_empty : Option (Outbox × Bool) → Outbox
or_empty none = empty_outbox
or_empty (some r) = r.0

abbrev first : Outbox
first = record {
  records = trim (new_record (event "k1") 2000 ∷ []);
  continuity = some (continuity_of (event "k1") 2000);
  requested_scope = none;
}

abbrev second : Outbox
second = record {
  records = trim (first.records ++ new_record (event "k2") 3000 ∷ []);
  continuity = some (continuity_of (event "k2") 3000);
  requested_scope = none;
}

abbrev flushed : Outbox
flushed = record {
  records = trim (map (flush_record send always always 4000) second.records);
  continuity = some (continuity_of (event "k2") 3000);
  requested_scope = none;
}

first_step : enqueue parse true empty_outbox (event "k1") 2000 none ≡ some (first, true)
unfolding enqueue enqueue_valid commit
first_step = refl

second_step : enqueue parse true first (event "k2") 3000 none ≡ some (second, true)
unfolding enqueue enqueue_valid commit trim new_record
second_step = refl

flush_step : flush send always always 4000 true second ≡ some flushed
unfolding flush commit trim new_record
flush_step = refl

second-Reachable : Reachable second
second-Reachable =
    then_step (then_step begin (enqueues parse true (event "k1") 2000 none first_step))
      (enqueues parse true (event "k2") 3000 none second_step)

flushed-Reachable : Reachable flushed
flushed-Reachable = then_step second-Reachable (flushes send always always 4000 true flush_step)

outbox-IsConsistent_example : IsConsistent flushed.records
outbox-IsConsistent_example = outbox-IsConsistent flushed-Reachable

enqueue-pending_example :
    select is_pending second.records
    ≡ select is_pending first.records ++ new_record (event "k2") 3000 ∷ []
enqueue-pending_example =
    enqueue-pending parse true first second (event "k2") (event "k2") 3000 none refl second_step

flush-pending_example :
    select is_pending flushed.records
    ≡ select is_pending (map (flush_record send always always 4000) second.records)
flush-pending_example =
    flush-pending send always always 4000 true flushed second-Reachable flush_step

abbrev taken_record : OutboxRecord
taken_record = after_attempt (new_record (event "k1") 2000) DeliveryResult.accepted 4000

sends_second :
    map (λ (e : ReliableEvent). e.idempotency_key) (flush_sends always always 9000 flushed)
    ≡ "k2" ∷ []
unfolding flush_sends trim new_record flush_record after_attempt
sends_second = refl
