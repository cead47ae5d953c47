-- ===== src/Director/Types.antt =====
-- apps/companion/src/program-scenes/director.ts: its state, and what it reads of the program.
-- Times are milliseconds, and a countdown below 0 counts as 0. The two keys are compared by their parts.
use rival_hub_broadcast.Prelude.{
  ℕ, Bool, false, Option, none, List, String, Eq, ◌≡◌, refl, eq_by, ◌==◌, if◌then◌else◌, both_eq,
  Both, both, list_eq, option_eq, nat_eq, string_eq,
}
use rival_hub_broadcast.Series.Types.{
  MatchFormat, bo1, bo3, bo5, SeriesBindingState, bound, unbound, needs_operator, SeriesMapStatus,
  Score,
}
use rival_hub_broadcast.Runtime.Types.{MapPhase, RoundPhase}

pub data ProgramSceneId : Type 0 where
  waiting matchup bp gameplay halftime map_result intermap match_result : ProgramSceneId

pub record ProgramMap : Type 0 where
  pub map_order : ℕ
  pub map_name : String
  pub status : SeriesMapStatus
  pub final_score : Option Score

pub record ProgramSeries : Type 0 where
  pub entrant_a_id : String
  pub entrant_b_id : String
  pub format : MatchFormat
  pub binding_state : SeriesBindingState
  pub status : String
  pub maps : List ProgramMap
  pub current_map_order : Option ℕ

pub record ProgramClock : Type 0 where
  pub phase : Option String
  pub ends_in_ms : Option ℕ

pub record ProjectionCursor : Type 0 where
  pub producer_instance_id : String
  pub live_session_id : Option String
  pub source_generation : ℕ
  pub map_epoch : ℕ

-- What the director reads of a `ProgramProjection`.
pub record ProgramView : Type 0 where
  pub context_status : String
  pub telemetry_status : String
  pub identity_status : String
  pub match_id : Option String
  pub series : Option ProgramSeries
  pub cursor : ProjectionCursor
  pub clock : Option ProgramClock
  pub map_phase : Option MapPhase
  pub map_name : Option String
  pub map_round : Option ℕ
  pub score_ct : Option ℕ
  pub score_t : Option ℕ
  pub round_phase : Option RoundPhase

pub record MapKey : Type 0 where
  pub map_order : ℕ
  pub map_name : String

-- `contextKey` and `executionKey`; none stands for the empty text.
pub record ContextKey : Type 0 where
  pub match_id : Option String
  pub entrant_a_id : Option String
  pub entrant_b_id : Option String
  pub format : Option MatchFormat
  pub maps : Option (List MapKey)

pub record ExecutionKey : Type 0 where
  pub context : ContextKey
  pub cursor : ProjectionCursor
  pub current_map_order : Option ℕ

pub data DirectorMode : Type 0 where
  preparation auto manual blocked : DirectorMode

-- Why a switch is refused, by the message: the request no longer holds, the scene has changed, the scene
-- is blocked, the BP does not play, or OBS has failed.
pub data SwitchFailure : Type 0 where
  expired changed scene_blocked no_play obs_failed : SwitchFailure

-- The reason that the operator reads, by its text.
pub data Reason : Type 0 where
  held data_unsafe game_paused : Reason
  failed : SwitchFailure → Reason

pub record Timings : Type 0 where
  pub bp_final_ms : ℕ
  pub intro_ms : ℕ
  pub short_intro_ms : ℕ
  pub hud_lead_ms : ℕ
  pub halftime_lead_ms : ℕ
  pub map_result_ms : ℕ
  pub warmup_final_ms : ℕ

abbrev pub default_program_timings : Timings
default_program_timings = record {
  bp_final_ms = 10000;
  intro_ms = 6000;
  short_intro_ms = 2000;
  hud_lead_ms = 9000;
  halftime_lead_ms = 5000;
  map_result_ms = 12000;
  warmup_final_ms = 2000;
}

pub record ProgramDirector : Type 0 where
  pub mode : DirectorMode
  pub next : Option ProgramSceneId
  pub reason : Option Reason
  pub intro_duration_ms : ℕ
  pub manual : Bool
  pub failure : Option SwitchFailure
  pub in_flight : Bool
  pub last_time : Option ℕ
  pub elapsed : ℕ
  pub scene : ProgramSceneId
  pub match_key : Option ContextKey
  pub map_key : Option ExecutionKey
  pub warmup_played : Bool
  pub warmup_final_elapsed : ℕ
  pub intro_started : Bool
  pub intro_finished : Bool
  pub halftime_seen : Bool
  pub result_shown : Bool
  pub was_production : Bool
  pub generation : ℕ

abbrev pub new_director : ProgramDirector
new_director = record {
  mode = preparation;
  next = none;
  reason = none;
  intro_duration_ms = 6000;
  manual = false;
  failure = none;
  in_flight = false;
  last_time = none;
  elapsed = 0;
  scene = waiting;
  match_key = none;
  map_key = none;
  warmup_played = false;
  warmup_final_elapsed = 0;
  intro_started = false;
  intro_finished = false;
  halftime_seen = false;
  result_shown = false;
  was_production = false;
  generation = 0;
}

-- What the director sees of its surroundings at one moment.
pub record Surroundings : Type 0 where
  pub now : ℕ
  pub production : Bool
  pub origin_is_fixture : Bool
  pub program : ProgramView
  pub bp_ready : Bool
  pub bp_shown : Bool

-- A call of the BP session.
pub data BpCall : Type 0 where
  set_paused : Bool → BpCall
  show_final play finish_scene_exit : BpCall

-- A request for an automatic switch.
pub record Take : Type 0 where
  pub target : ProgramSceneId
  pub revision : ℕ
  pub generation : ℕ
  pub key : ExecutionKey
  pub final_bp : Bool

unfoldable pub scene_code : ProgramSceneId → ℕ
scene_code waiting = 0
scene_code matchup = 1
scene_code bp = 2
scene_code gameplay = 3
scene_code halftime = 4
scene_code map_result = 5
scene_code intermap = 6
scene_code match_result = 7

abbrev scene_of : ℕ → ProgramSceneId
scene_of n =
    if n == 0
    then waiting
    else if n == 1
    then matchup
    else if n == 2
    then bp
    else if n == 3
    then gameplay
    else if n == 4
    then halftime
    else if n == 5
    then map_result
    else if n == 6
    then intermap
    else match_result

pub scene_of-scene_code : (id : ProgramSceneId) → scene_of (scene_code id) ≡ id
unfolding scene_code
scene_of-scene_code waiting = refl
scene_of-scene_code matchup = refl
scene_of-scene_code bp = refl
scene_of-scene_code gameplay = refl
scene_of-scene_code halftime = refl
scene_of-scene_code map_result = refl
scene_of-scene_code intermap = refl
scene_of-scene_code match_result = refl

instance abbrev pub scene_eq : Eq ProgramSceneId
scene_eq = eq_by scene_code scene_of scene_of-scene_code

unfoldable pub format_code : MatchFormat → ℕ
format_code bo1 = 1
format_code bo3 = 3
format_code bo5 = 5

abbrev format_of : ℕ → MatchFormat
format_of n = if n == 1 then bo1 else if n == 3 then bo3 else bo5

pub format_of-format_code : (f : MatchFormat) → format_of (format_code f) ≡ f
unfolding format_code
format_of-format_code bo1 = refl
format_of-format_code bo3 = refl
format_of-format_code bo5 = refl

instance abbrev pub format_eq : Eq MatchFormat
format_eq = eq_by format_code format_of format_of-format_code

unfoldable pub binding_code : SeriesBindingState → ℕ
binding_code bound = 0
binding_code unbound = 1
binding_code needs_operator = 2

abbrev binding_of : ℕ → SeriesBindingState
binding_of n = if n == 0 then bound else if n == 1 then unbound else needs_operator

pub binding_of-binding_code : (b : SeriesBindingState) → binding_of (binding_code b) ≡ b
unfolding binding_code
binding_of-binding_code bound = refl
binding_of-binding_code unbound = refl
binding_of-binding_code needs_operator = refl

instance abbrev pub binding_eq : Eq SeriesBindingState
binding_eq = eq_by binding_code binding_of binding_of-binding_code

abbrev pub map_key_parts : MapKey → Both ℕ String
map_key_parts k = both k.map_order k.map_name

instance abbrev pub map_key_eq : Eq MapKey
map_key_eq =
    eq_by map_key_parts (λ p. record { map_order = p.first; map_name = p.second }) (λ k. refl)

abbrev pub Entrants : Type 0
Entrants = Both (Option String) (Both (Option String) (Option String))

abbrev pub ContextParts : Type 0
ContextParts = Both Entrants (Both (Option MatchFormat) (Option (List MapKey)))

abbrev pub context_parts : ContextKey → ContextParts
context_parts k = both (both k.match_id (both k.entrant_a_id k.entrant_b_id)) (both k.format k.maps)

abbrev pub context_of : ContextParts → ContextKey
context_of p = record {
  match_id = p.first.first;
  entrant_a_id = p.first.second.first;
  entrant_b_id = p.first.second.second;
  format = p.second.first;
  maps = p.second.second;
}

instance abbrev pub context_key_eq : Eq ContextKey
context_key_eq = eq_by context_parts context_of (λ k. refl)

abbrev pub CursorParts : Type 0
CursorParts = Both (Both String (Option String)) (Both ℕ ℕ)

abbrev pub ExecutionParts : Type 0
ExecutionParts = Both ContextKey (Both CursorParts (Option ℕ))

abbrev pub execution_parts : ExecutionKey → ExecutionParts
execution_parts k =
    let c = k.cursor in
    both k.context (
      both
        (both (both c.producer_instance_id c.live_session_id)
          (both c.source_generation c.map_epoch))
        k.current_map_order)

abbrev pub cursor_of : CursorParts → ProjectionCursor
cursor_of c = record {
  producer_instance_id = c.first.first;
  live_session_id = c.first.second;
  source_generation = c.second.first;
  map_epoch = c.second.second;
}

abbrev pub execution_of : ExecutionParts → ExecutionKey
execution_of p = record {
  context = p.first;
  cursor = cursor_of p.second.first;
  current_map_order = p.second.second;
}

instance abbrev pub execution_key_eq : Eq ExecutionKey
execution_key_eq = eq_by execution_parts execution_of (λ k. refl)
