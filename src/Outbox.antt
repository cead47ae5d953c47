-- ===== src/Outbox.antt =====
-- apps/companion/src/output/reliable-outbox.ts: events kept until their sink takes or refuses them.
-- The serial queue of match-context/serial-commit.ts runs one operation after the other, so each is a
-- function from a state to the next. Instants are counts of milliseconds, of which the source keeps the
-- ISO text. What is outside is an argument: the schema of an event, the write to the disk, the sink.
use native.Mathlib.Decide.{ℕ_discrete}
use rival_hub_broadcast.Prelude.{
  ℕ, ◌+◌, ◌-◌, ◌*◌, ◌^◌, min, Bool, true, false, not, ◌&&◌, ◌||◌, Option, none, some, List, [], ◌∷◌,
  ◌++◌, String, ◌≡◌, ◌↔◌, arith, Eq, ◌==◌, ◌!=◌, nat_eq, string_eq, option_eq, if◌then◌else◌, ltb,
  leb, length, any, select, take_last, map,
}
pub mod Keys
pub mod Trim
pub mod Invariant
pub mod Updates
pub mod History
pub mod Delivery
mod Tests

pub data DeliveryResult : Type 0 where
  accepted rejected retry : DeliveryResult

pub data DeliveryStatus : Type 0 where
  pending accepted rejected expired superseded : DeliveryStatus

pub record Cursor : Type 0 where
  pub live_session_id : Option String
  pub program_source_generation : ℕ
  pub map_epoch : ℕ

-- What the outbox reads of an event.
pub record ReliableEvent : Type 0 where
  pub idempotency_key : String
  pub observed_at : ℕ
  pub match_id : String
  pub context_revision : String
  pub cursor : Cursor
  pub map_name : Option String

pub record OutboxRecord : Type 0 where
  pub event : ReliableEvent
  pub status : DeliveryStatus
  pub attempts : ℕ
  pub next_attempt_at : ℕ
  pub updated_at : ℕ

pub record DeliveryContinuity : Type 0 where
  pub match_id : String
  pub context_revision : String
  pub cursor : Cursor
  pub map_name : Option String
  pub saved_at : ℕ

-- The five values that make a scope, in place of their JSON.
pub record Scope : Type 0 where
  pub match_id : String
  pub context_revision : String
  pub cursor : Cursor

pub record Outbox : Type 0 where
  pub records : List OutboxRecord
  pub continuity : Option DeliveryContinuity
  pub requested_scope : Option Scope

abbrev pub max_pending : ℕ
max_pending = 128

abbrev pub max_records : ℕ
max_records = 192

abbrev pub max_terminal : ℕ
max_terminal = 64

abbrev pub retention_ms : ℕ
retention_ms = 24 * 60 * 60 * 1000

abbrev pub empty_outbox : Outbox
empty_outbox = record { records = []; continuity = none; requested_scope = none }

abbrev pub is_pending : OutboxRecord → Bool
is_pending r = elim r.status [
  | pending ↦ true
  | accepted ↦ false
  | rejected ↦ false
  | expired ↦ false
  | superseded ↦ false
]

abbrev pub is_terminal : OutboxRecord → Bool
is_terminal r = not (is_pending r)

-- The newest terminal records, and behind them the pending ones.
unfoldable pub trim : List OutboxRecord → List OutboxRecord
trim records =
    take_last max_records
      (take_last max_terminal (select is_terminal records) ++ select is_pending records)

-- None where the write to the disk fails, which leaves the outbox as it was.
unfoldable pub commit :
    Bool → Outbox → List OutboxRecord → Option DeliveryContinuity → Option Outbox
commit written outbox records continuity =
    if written then some (record outbox { records = records; continuity = continuity }) else none

abbrev pub has_key : String → OutboxRecord → Bool
has_key key r = r.event.idempotency_key == key

unfoldable pub new_record : ReliableEvent → ℕ → OutboxRecord
new_record event at = record {
  event = event;
  status = pending;
  attempts = 0;
  next_attempt_at = at;
  updated_at = at;
}

unfoldable pub continuity_of : ReliableEvent → ℕ → DeliveryContinuity
continuity_of event at = record {
  match_id = event.match_id;
  context_revision = event.context_revision;
  cursor = event.cursor;
  map_name = event.map_name;
  saved_at = at;
}

abbrev pub or_else {ℓ} : {A : Type ℓ} → Option A → A → A
or_else none a = a
or_else (some a) _ = a

abbrev pub with_result {ℓ} : {A : Type ℓ} → A → Option Outbox → Option (Outbox × A)
with_result a none = none
with_result a (some outbox) = some (outbox, a)

-- An event of the schema; none where the code throws, a result of false for a known key.
unfoldable pub enqueue_valid :
    Bool → Outbox → ReliableEvent → ℕ → Option DeliveryContinuity → Option (Outbox × Bool)
enqueue_valid written outbox event at continuity =
    if any (has_key event.idempotency_key) outbox.records
    then some (outbox, false)
    else if leb max_pending (length (select is_pending outbox.records))
    then none
    else with_result true (
        commit written outbox (trim (outbox.records ++ new_record event at ∷ []))
          (some (or_else continuity (continuity_of event at))))

unfoldable pub enqueue :
    (ReliableEvent → Option ReliableEvent)
    → Bool
    → Outbox
    → ReliableEvent
    → ℕ
    → Option DeliveryContinuity
    → Option (Outbox × Bool)
enqueue parse written outbox event at continuity = elim (parse event) [
  | none ↦ none
  | some valid ↦ enqueue_valid written outbox valid at continuity
]

-- An instant before the observation is not expired: the difference stops at 0.
abbrev pub is_expired : ReliableEvent → ℕ → Bool
is_expired event now = leb retention_ms (now - event.observed_at)

abbrev pub delay_ms : ℕ → ℕ
delay_ms attempts = min 60000 (1000 * 2 ^ min (attempts - 1) 6)

abbrev pub status_of : DeliveryResult → DeliveryStatus
status_of accepted = accepted
status_of rejected = rejected
status_of retry = pending

unfoldable pub give_up : OutboxRecord → ℕ → OutboxRecord
give_up r now = record r {
  status = if is_expired r.event now then expired else superseded;
  updated_at = now;
}

unfoldable pub after_attempt : OutboxRecord → DeliveryResult → ℕ → OutboxRecord
after_attempt r outcome now = record r {
  status = status_of outcome;
  attempts = r.attempts + 1;
  next_attempt_at = now + delay_ms (r.attempts + 1);
  updated_at = now;
}

-- The record is pending, and its event is outdated.
abbrev pub is_outdated : (ReliableEvent → Bool) → ℕ → OutboxRecord → Bool
is_outdated is_current now r = is_pending r && (is_expired r.event now || not (is_current r.event))

-- `flush` sends the event of the record.
abbrev pub is_sent : (ReliableEvent → Bool) → (ReliableEvent → Bool) → ℕ → OutboxRecord → Bool
is_sent is_current can_send now r =
    is_pending r
    && not (is_outdated is_current now r)
    && can_send r.event
    && not (ltb now r.next_attempt_at)

-- One record of the loop of `flush`; a sink that throws or is late has the outcome `retry`.
unfoldable pub flush_record :
    (ReliableEvent → DeliveryResult)
    → (ReliableEvent → Bool)
    → (ReliableEvent → Bool)
    → ℕ
    → OutboxRecord
    → OutboxRecord
flush_record send is_current can_send now r =
    if not (is_pending r)
    then r
    else if is_expired r.event now || not (is_current r.event)
    then give_up r now
    else if not (can_send r.event)
    then r
    else if ltb now r.next_attempt_at
    then r
    else after_attempt r (send r.event) now

-- The flag `changed` of `flush` for one record.
abbrev pub is_flushed : (ReliableEvent → Bool) → (ReliableEvent → Bool) → ℕ → OutboxRecord → Bool
is_flushed is_current can_send now r =
    is_outdated is_current now r || is_sent is_current can_send now r

unfoldable pub flush :
    (ReliableEvent → DeliveryResult)
    → (ReliableEvent → Bool)
    → (ReliableEvent → Bool)
    → ℕ
    → Bool
    → Outbox
    → Option Outbox
flush send is_current can_send now written outbox =
    if any (is_flushed is_current can_send now) outbox.records
    then commit written outbox
        (trim (map (flush_record send is_current can_send now) outbox.records)) outbox.continuity
    else some outbox

-- The events that `flush` hands to the sink, in order.
unfoldable pub flush_sends :
    (ReliableEvent → Bool) → (ReliableEvent → Bool) → ℕ → Outbox → List ReliableEvent
flush_sends is_current can_send now outbox =
    map (λ r. r.event) (select (is_sent is_current can_send now) outbox.records)

unfoldable pub sweep_record : (ReliableEvent → Bool) → ℕ → OutboxRecord → OutboxRecord
sweep_record is_current now r = if is_outdated is_current now r then give_up r now else r

unfoldable pub sweep : (ReliableEvent → Bool) → ℕ → Bool → Outbox → Option Outbox
sweep is_current now written outbox =
    if any (is_outdated is_current now) outbox.records
    then commit written outbox (trim (map (sweep_record is_current now) outbox.records))
        outbox.continuity
    else some outbox

unfoldable pub scope_eqb : Scope → Scope → Bool
scope_eqb a b =
    a.match_id == b.match_id
    && a.context_revision == b.context_revision
    && a.cursor.live_session_id == b.cursor.live_session_id
    && a.cursor.program_source_generation == b.cursor.program_source_generation
    && a.cursor.map_epoch == b.cursor.map_epoch

abbrev pub scope_of : DeliveryContinuity → Scope
scope_of c = record {
  match_id = c.match_id;
  context_revision = c.context_revision;
  cursor = c.cursor;
}

abbrev is_requested : Option Scope → Scope → Bool
is_requested none scope = false
is_requested (some old) scope = scope_eqb scope old

-- The requested scope is kept where the write fails.
abbrev kept_unless : Option Outbox → Outbox → Outbox
kept_unless none outbox = outbox
kept_unless (some written) outbox = written

unfoldable pub update_continuity : Bool → Outbox → DeliveryContinuity → Outbox
update_continuity written outbox checkpoint =
    if is_requested outbox.requested_scope (scope_of checkpoint)
    then outbox
    else let requested : Outbox = record outbox { requested_scope = some (scope_of checkpoint) } in
      if ltb 0 (length outbox.records)
      then kept_unless (commit written requested outbox.records (some checkpoint)) requested
      else requested
