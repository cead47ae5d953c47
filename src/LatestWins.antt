-- ===== src/LatestWins.antt =====
-- apps/companion/src/runtime/latest-wins.ts: a consumer that has one delivery at a time and keeps only
-- the newest snapshot that waits. What `send` does is an event: a delivery that settles, at once for a
-- `send` that throws. The calls of `send` and of `onDiagnostic` are kept in lists, the newest first.
use rival_hub_broadcast.Prelude.{
  ℕ, pos, ◌+◌, Bool, true, false, Option, none, some, List, [], ◌∷◌, String, ◌==◌, nat_eq,
  if◌then◌else◌,
}
use rival_hub_broadcast.Prelude.Text.{is_blank}
use rival_hub_broadcast.Runtime.Types.{Measure, finite, not_finite}
mod Invariant
pub mod Newest
mod Closing
mod Tests

pub data Lifecycle : Type 0 where
  accepting closing closed : Lifecycle

pub data ErrorCode : Type 0 where
  delivery_rejected close_timeout : ErrorCode

-- The promise that `close` returns.
pub data ClosePromise : Type 0 where
  not_requested waiting resolved : ClosePromise

-- `pending_latest` is none where `hasPendingLatest` is false.
pub record Consumer {ℓ} (T : Type ℓ) : Type ℓ where
  pub id : String
  pub close_timeout_ms : ℕ
  pub lifecycle : Lifecycle
  pub in_flight : Bool
  pub pending_latest : Option T
  pub offered : ℕ
  pub sent : ℕ
  pub coalesced : ℕ
  pub failed : ℕ
  pub last_error_code : Option ErrorCode
  pub close_promise : ClosePromise
  pub timer : Bool
  pub sends : List T
  pub diagnostics : List ErrorCode

pub data ConsumerState : Type 0 where
  idle sending closing closed : ConsumerState

abbrev pub latest_wins_close_timeout_ms : ℕ
latest_wins_close_timeout_ms = 10000

abbrev pub fresh {ℓ} : {T : Type ℓ} → String → ℕ → Consumer T
fresh id timeout = record {
  id = id;
  close_timeout_ms = timeout;
  lifecycle = accepting;
  in_flight = false;
  pending_latest = none;
  offered = 0;
  sent = 0;
  coalesced = 0;
  failed = 0;
  last_error_code = none;
  close_promise = not_requested;
  timer = false;
  sends = [];
  diagnostics = [];
}

-- The constructor; none where it throws.
unfoldable pub create {ℓ} : {T : Type ℓ} → String → Option Measure → Option (Consumer T)
create id none = if is_blank id then none else some (fresh id latest_wins_close_timeout_ms)
create id (some (finite (pos timeout))) = if is_blank id then none else some (fresh id timeout)
create id (some _) = none

unfoldable pub start {ℓ} : {T : Type ℓ} → Consumer T → T → Consumer T
start c snapshot = record c { in_flight = true; sends = snapshot ∷ c.sends }

abbrev pub is_some {ℓ} : {T : Type ℓ} → Option T → Bool
is_some none = false
is_some (some _) = true

unfoldable pub offer {ℓ} : {T : Type ℓ} → Consumer T → T → Consumer T
offer c snapshot = elim c.lifecycle [
  | accepting ↦
      if c.in_flight
      then record c {
        offered = c.offered + 1;
        coalesced = if is_some c.pending_latest then c.coalesced + 1 else c.coalesced;
        pending_latest = some snapshot;
      }
      else start (record c { offered = c.offered + 1 }) snapshot
  | closing ↦ c
  | closed ↦ c
]

unfoldable pub resolve_close : ClosePromise → ClosePromise
resolve_close waiting = resolved
resolve_close p = p

unfoldable pub finish_close {ℓ} : {T : Type ℓ} → Consumer T → Consumer T
finish_close c = record c {
  timer = false;
  lifecycle = closed;
  pending_latest = none;
  close_promise = resolve_close c.close_promise;
}

unfoldable pub report {ℓ} : {T : Type ℓ} → Consumer T → ErrorCode → Consumer T
report c code = record c { last_error_code = some code; diagnostics = code ∷ c.diagnostics }

abbrev pub settled {ℓ} : {T : Type ℓ} → Consumer T → Bool → Consumer T
settled c true = record c { in_flight = false; sent = c.sent + 1 }
settled c false = report (record c { in_flight = false; failed = c.failed + 1 }) delivery_rejected

unfoldable pub complete_delivery {ℓ} : {T : Type ℓ} → Consumer T → Bool → Consumer T
complete_delivery c succeeded = elim c.lifecycle [
  | closing ↦ finish_close (settled c succeeded)
  | closed ↦ finish_close (settled c succeeded)
  | accepting ↦ elim c.pending_latest [
    | some pending ↦ start (record (settled c succeeded) { pending_latest = none }) pending
    | none ↦ settled c succeeded
  ]
]

unfoldable pub close_timed_out {ℓ} : {T : Type ℓ} → Consumer T → Consumer T
close_timed_out c = finish_close (report c close_timeout)

unfoldable pub close {ℓ} : {T : Type ℓ} → Consumer T → Consumer T
close c = elim c.close_promise [
  | waiting ↦ c
  | resolved ↦ c
  | not_requested ↦
      let requested : Consumer _ = record c {
        lifecycle = Lifecycle.closing;
        pending_latest = none;
        close_promise = waiting;
      } in
      if c.in_flight
      then (if c.close_timeout_ms == 0
          then close_timed_out requested
          else record requested { timer = true })
      else finish_close requested
]

unfoldable pub health_state {ℓ} : {T : Type ℓ} → Consumer T → ConsumerState
health_state c = elim c.lifecycle [
  | closed ↦ ConsumerState.closed
  | closing ↦ ConsumerState.closing
  | accepting ↦ if c.in_flight then sending else idle
]
