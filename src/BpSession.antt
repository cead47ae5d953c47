-- ===== src/BpSession.antt =====
-- apps/companion/src/bp/controller.ts: the session that reveals the veto on air. Times are milliseconds of
-- a clock that does not go back. Of a projection the number of its steps counts, and its text.
use rival_hub_broadcast.Prelude.{
  ℕ, ◌+◌, ◌-◌, ◌/◌, min, Bool, true, false, not, ◌&&◌, ◌||◌, Option, none, some, List, [], ◌∷◌,
  String, ◌==◌, ◌!=◌, nat_eq, string_eq, option_eq, Eq, eq_by, Both, both, both_eq, refl, ◌≡◌,
  if◌then◌else◌, leb,
}
mod Reveal
mod Tests

pub record BpProjection : Type 0 where
  pub steps : ℕ
  pub text : String

instance abbrev pub projection_eq : Eq BpProjection
projection_eq =
    eq_by (λ p. both p.steps p.text) (λ b. record { steps = b.first; text = b.second }) (λ p. refl)

pub data BpState : Type 0 where
  hidden revealing shown hiding : BpState

-- The fingerprint is the projection that was read last; none for the empty text at the start.
pub record BpSession : Type 0 where
  pub revision : ℕ
  pub fingerprint : Option (Option BpProjection)
  pub projection : Option BpProjection
  pub state : BpState
  pub count : ℕ
  pub started_at : ℕ
  pub paused_at : Option ℕ
  pub paused_duration : ℕ

abbrev pub new_session : BpSession
new_session = record {
  revision = 0;
  fingerprint = none;
  projection = none;
  state = hidden;
  count = 0;
  started_at = 0;
  paused_at = none;
  paused_duration = 0;
}

-- What is read at a call: the clock and the projection.
pub record Reading : Type 0 where
  pub now : ℕ
  pub projection : Option BpProjection

abbrev pub presentation_now : ℕ → BpSession → ℕ
presentation_now now s =
    elim s.paused_at as (λ _. ℕ) [ none ↦ now | some at ↦ at ] - s.paused_duration

unfoldable pub set_paused : Bool → ℕ → BpSession → BpSession
set_paused paused now s = elim s.paused_at [
  | none ↦ if paused then record s { paused_at = some now } else s
  | some at ↦
      if paused
      then s
      else record s { paused_duration = s.paused_duration + (now - at); paused_at = none }
]

-- Another projection starts hidden.
unfoldable pub take_projection : Option BpProjection → BpSession → BpSession
take_projection p s = if some p == s.fingerprint then s else record s {
  fingerprint = some p;
  projection = p;
  state = hidden;
  count = 0;
  revision = s.revision + 1;
}

-- `projection!.steps.length`
abbrev pub step_count : BpSession → ℕ
step_count s = elim s.projection [ none ↦ 0 | some p ↦ p.steps ]

abbrev pub hide_now : BpSession → BpSession
hide_now s = record s { state = hidden; count = 0; revision = s.revision + 1 }

-- One more step every 1.6 seconds.
abbrev pub revealed_by : ℕ → BpSession → ℕ
revealed_by now s = min (step_count s) (1 + (presentation_now now s - s.started_at) / 1600)

unfoldable pub advance : ℕ → BpSession → BpSession
advance now s = elim s.state [
  | hidden ↦ s
  | revealing ↦ record s {
    count = revealed_by now s;
    state = if revealed_by now s == step_count s then shown else revealing;
  }
  | shown ↦ s
  | hiding ↦ if leb 360 (presentation_now now s - s.started_at) then hide_now s else s
]

-- `get`; what it returns are fields of the session.
unfoldable pub get : Reading → BpSession → BpSession
unfolding take_projection advance
get r s = advance r.now (take_projection r.projection s)

unfoldable pub show_final : Reading → BpSession → BpSession
unfolding get
show_final r s =
    let g = get r s in
    elim g.projection [
      | none ↦ g
      | some p ↦ record g { state = shown; count = p.steps; revision = g.revision + 1 }
    ]

unfoldable pub finish_scene_exit : Reading → BpSession → BpSession
unfolding get
finish_scene_exit r s =
    let g = get r s in
    elim g.state [ hidden ↦ g | revealing ↦ hide_now g | shown ↦ hide_now g | hiding ↦ hide_now g ]

pub data BpCommand : Type 0 where
  play hide : BpCommand

-- The animation of a command starts.
abbrev pub begin_at : ℕ → BpState → ℕ → BpSession → BpSession
begin_at now state count g = record g {
  state = state;
  count = count;
  started_at = presentation_now now g;
  revision = g.revision + 1;
}

unfoldable pub carry_out : BpCommand → ℕ → BpSession → Option BpSession
carry_out play now g = elim g.state [
  | hidden ↦ elim g.projection [ none ↦ none | some _ ↦ some (begin_at now revealing 1 g) ]
  | revealing ↦ none
  | shown ↦ none
  | hiding ↦ none
]
carry_out hide now g = elim g.state [
  | hidden ↦ none
  | revealing ↦ some (begin_at now hiding g.count g)
  | shown ↦ some (begin_at now hiding g.count g)
  | hiding ↦ none
]

-- The session after a command, and whether it was taken; a refused command has read the session.
pub record BpAnswer : Type 0 where
  pub session : BpSession
  pub taken : Bool

unfoldable pub command : BpCommand → ℕ → Reading → BpSession → BpAnswer
unfolding get carry_out
command kind revision r s =
    let g = get r s in
    if g.revision != revision
    then record { session = g; taken = false }
    else elim (carry_out kind r.now g) [
      | none ↦ record { session = g; taken = false }
      | some begun ↦ record { session = get r begun; taken = true }
    ]

pub data BpEvent : Type 0 where
  pauses : Bool → ℕ → BpEvent
  reads shows_final exits : Reading → BpEvent
  commands : BpCommand → ℕ → Reading → BpEvent

unfoldable pub bp_step : BpEvent → BpSession → BpSession
unfolding set_paused get show_final finish_scene_exit command
bp_step (pauses paused now) s = set_paused paused now s
bp_step (reads r) s = get r s
bp_step (shows_final r) s = show_final r s
bp_step (exits r) s = finish_scene_exit r s
bp_step (commands kind revision r) s = (command kind revision r s).session

unfoldable pub run_bp : List BpEvent → BpSession → BpSession
unfolding bp_step
run_bp [] s = s
run_bp (e ∷ es) s = run_bp es (bp_step e s)
