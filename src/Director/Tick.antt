-- ===== src/Director/Tick.antt =====
-- apps/companion/src/program-scenes/director.ts: the calls of the director. A tick ends at its request for
-- a switch, and goes on when the switch is done.
use rival_hub_broadcast.Prelude.{
  ℕ, ◌+◌, ◌-◌, min, Bool, true, false, not, ◌&&◌, ◌||◌, Option, none, some, List, [], ◌∷◌, ◌++◌,
  ◌==◌, ◌!=◌, nat_eq, string_eq, option_eq, if◌then◌else◌, leb,
}
use rival_hub_broadcast.Runtime.Types.{freezetime, round_phase_eq}
use rival_hub_broadcast.Director.Types.{
  ProgramSceneId, bp, matchup, halftime, map_result, scene_eq, ProgramView, ContextKey,
  ExecutionKey, context_key_eq, execution_key_eq, DirectorMode, preparation, auto, blocked, Reason,
  held, data_unsafe, game_paused, failed, SwitchFailure, Timings, ProgramDirector, Surroundings,
  BpCall, set_paused, show_final, Take,
}
use rival_hub_broadcast.Director.Plan.{
  safe, context_key, execution_key, clock_phase, is_paused, is_regulation_halftime, remaining, Plan,
  plan_scene,
}

unfoldable pub hold : ProgramDirector → ProgramDirector
hold d = record d {
  manual = true;
  generation = d.generation + 1;
  mode = DirectorMode.manual;
  next = none;
  reason = some held;
}

unfoldable pub resume : ℕ → ProgramDirector → ProgramDirector
resume now d = record d {
  manual = false;
  failure = none;
  last_time = some now;
  generation = d.generation + 1;
}

-- What a tick leaves: the director, the calls of the BP session, and a request for a switch.
pub record TickResult : Type 0 where
  pub director : ProgramDirector
  pub calls : List BpCall
  pub take : Option Take

abbrev pub tick_delta : ℕ → ProgramDirector → ℕ
tick_delta now d = elim d.last_time [ none ↦ 0 | some last ↦ min 1000 (now - last) ]

abbrev pub is_live_production : Surroundings → Bool
is_live_production s = s.production && not s.origin_is_fixture

-- A new match starts over, and so does a new execution of a map.
unfoldable pub enter_match : ContextKey → ProgramDirector → ProgramDirector
enter_match key d = if some key == d.match_key then d else record d {
  match_key = some key;
  map_key = none;
  warmup_played = false;
  warmup_final_elapsed = 0;
}

unfoldable pub enter_map : ExecutionKey → ProgramDirector → ProgramDirector
enter_map key d = if some key == d.map_key then d else record d {
  map_key = some key;
  intro_started = false;
  intro_finished = false;
  halftime_seen = false;
  result_shown = false;
  elapsed = 0;
}

unfoldable pub enter_scene : ProgramSceneId → ProgramDirector → ProgramDirector
enter_scene active d = if active == d.scene then d else record d { scene = active; elapsed = 0 }

unfoldable pub note_halftime : ProgramView → ProgramSceneId → ProgramDirector → ProgramDirector
note_halftime p active d =
    if active == halftime && p.map_round == some 12 && clock_phase p == some "freezetime"
    then record d { halftime_seen = true }
    else d

abbrev mode_of : Bool → DirectorMode → DirectorMode
mode_of manual other = if manual then DirectorMode.manual else other

abbrev pub stopped : List BpCall → ProgramDirector → TickResult
stopped calls d = record { director = d; calls = calls; take = none }

abbrev pub blocked_by : Reason → ProgramDirector → ProgramDirector
blocked_by why d = record d { mode = mode_of d.manual blocked; next = none; reason = some why }

-- The planned scene is on air already: the step of the programme is noted as done.
unfoldable pub note_shown : ProgramSceneId → Bool → ProgramDirector → ProgramDirector
note_shown target final_bp d =
    let d1 =
      if final_bp
      then record d { intro_started = true; elapsed = 0 }
      else if target == bp && not d.warmup_played
      then record d { warmup_played = true; warmup_final_elapsed = 0 }
      else d in
    let d2 =
      if target == matchup && not d1.intro_started
      then record d1 { intro_started = true; elapsed = 0 }
      else d1 in
    if target == map_result && not d2.result_shown
    then record d2 { result_shown = true; elapsed = 0 }
    else d2

-- The recommendation that the operator sees.
abbrev pub recommend : Bool → ProgramSceneId → ProgramDirector → ProgramDirector
recommend shown target d = if shown then d else record d { next = some target }

-- The end of a tick with a planned scene: held, on air already, or to be taken.
unfoldable pub end_tick :
    Bool
    → Bool
    → List BpCall
    → ProgramView
    → ℕ
    → ProgramSceneId
    → Bool
    → ProgramDirector
    → TickResult
unfolding note_shown
end_tick true shown calls p revision target final_bp d = stopped calls d
end_tick false true calls p revision target final_bp d = record {
  director = note_shown target final_bp d;
  calls = if final_bp then calls ++ show_final ∷ [] else calls;
  take = none;
}
end_tick false false calls p revision target final_bp d = record {
  director = record d { in_flight = true };
  calls = calls;
  take = some (record {
    target = target;
    revision = revision;
    generation = d.generation;
    key = execution_key p;
    final_bp = final_bp;
  });
}

unfoldable pub act :
    List BpCall
    → ProgramView
    → ProgramSceneId
    → ℕ
    → ProgramSceneId
    → Bool
    → ProgramDirector
    → TickResult
unfolding end_tick
act calls p active revision target final_bp d =
    let shown = target == active in
    end_tick d.manual shown calls p revision target final_bp (recommend shown target d)

unfoldable pub follow_plan : List BpCall → ProgramView → ProgramSceneId → ℕ → Plan → TickResult
unfolding act
follow_plan calls p active revision plan = elim plan.target [
  | none ↦ stopped calls plan.director
  | some target ↦ act calls p active revision target plan.final_bp plan.director
]

abbrev pub refresh : Surroundings → ℕ → ProgramDirector → ProgramDirector
refresh s delta d = record d {
  mode = mode_of d.manual auto;
  reason = if d.manual then some held else none;
  next = none;
  elapsed = if not (is_paused s.program) && not d.manual then d.elapsed + delta else d.elapsed;
}

-- A tick with data that may be shown.
unfoldable pub tick_safe :
    Timings → List BpCall → Surroundings → ℕ → ProgramSceneId → ℕ → ProgramDirector → TickResult
unfolding follow_plan is_paused plan_scene
tick_safe timings calls s delta active revision d =
    follow_plan calls s.program active revision
      (plan_scene timings s delta active (refresh s delta d))

abbrev pub entered : ProgramView → ProgramSceneId → ProgramDirector → ProgramDirector
entered p active d =
    note_halftime p active
      (enter_scene active (enter_map (execution_key p) (enter_match (context_key p) d)))

-- The keys and the scene are up to date: data that may not be shown, and a pause, stop the tick.
unfoldable pub tick_entered :
    Timings → List BpCall → Surroundings → ℕ → ProgramSceneId → ℕ → ProgramDirector → TickResult
unfolding tick_safe safe is_paused is_regulation_halftime
tick_entered timings calls s delta active revision d =
    if not (safe s.program)
    then stopped calls (blocked_by data_unsafe d)
    else if is_paused s.program && not (is_regulation_halftime s.program) && not d.halftime_seen
    then stopped calls (blocked_by game_paused d)
    else tick_safe timings calls s delta active revision d

-- A tick in production that no failure stops.
unfoldable pub tick_open :
    Timings → List BpCall → Surroundings → ℕ → ProgramSceneId → ℕ → ProgramDirector → TickResult
unfolding enter_match enter_map enter_scene note_halftime tick_entered
tick_open timings calls s delta active revision d =
    tick_entered timings calls s delta active revision (entered s.program active d)

-- A failure stops the ticks until the operator goes on, or holds.
unfoldable pub tick_after :
    Option SwitchFailure
    → Bool
    → Timings
    → List BpCall
    → Surroundings
    → ℕ
    → ProgramSceneId
    → ℕ
    → ProgramDirector
    → TickResult
unfolding tick_open
tick_after (some why) false timings calls s delta active revision d =
    stopped calls (record d { mode = blocked; reason = some (failed why) })
tick_after failure manual timings calls s delta active revision d =
    tick_open timings calls s delta active revision d

unfoldable pub tick_production :
    Timings → List BpCall → Surroundings → ℕ → ProgramSceneId → ℕ → ProgramDirector → TickResult
unfolding tick_after
tick_production timings calls s delta active revision d =
    tick_after d.failure d.manual timings calls s delta active revision d

abbrev pub enter_production : ℕ → ProgramDirector → ProgramDirector
enter_production now d =
    if d.was_production then d else resume now (record d { was_production = true })

abbrev pub production_calls : Surroundings → List BpCall
production_calls s =
    set_paused (is_live_production s && (not (safe s.program) || is_paused s.program)) ∷ []

-- A tick in live production, or outside it.
unfoldable pub tick_live :
    Bool
    → Timings
    → List BpCall
    → Surroundings
    → ℕ
    → ProgramSceneId
    → ℕ
    → ProgramDirector
    → TickResult
unfolding resume tick_production
tick_live true timings calls s delta active revision d =
    tick_production timings calls s delta active revision (enter_production s.now d)
tick_live false timings calls s delta active revision d =
    stopped calls
      (record d { was_production = false; mode = preparation; next = none; reason = none })

-- A tick with no request open.
unfoldable pub idle_tick :
    Timings → Surroundings → ProgramSceneId → ℕ → ProgramDirector → TickResult
unfolding tick_live safe is_paused
idle_tick timings s active revision d =
    tick_live (is_live_production s) timings (production_calls s) s (tick_delta s.now d) active
      revision (record d { last_time = some s.now })

abbrev pub tick_unless :
    Bool → Timings → Surroundings → ProgramSceneId → ℕ → ProgramDirector → TickResult
tick_unless busy timings s active revision d =
    if busy then stopped [] d else idle_tick timings s active revision d

-- `active` and `revision` are those of the scene controller.
unfoldable pub tick : Timings → Surroundings → ProgramSceneId → ℕ → ProgramDirector → TickResult
unfolding idle_tick
tick timings s active revision d = tick_unless d.in_flight timings s active revision d

-- The test that a request carries: it still holds for the director and its surroundings.
unfoldable pub valid_take : Timings → Surroundings → ProgramDirector → Take → Bool
unfolding safe execution_key
valid_take timings s d k =
    not d.manual
    && k.generation == d.generation
    && s.production
    && safe s.program
    && (k.target != matchup
        || (s.program.round_phase == some freezetime
            && clock_phase s.program == some "freezetime"
            && leb (timings.hud_lead_ms + timings.short_intro_ms) (remaining s.program)))
    && k.key == execution_key s.program

-- The rest of the tick, after a switch that was made or refused.
unfoldable pub finish_take : Take → Option SwitchFailure → ProgramDirector → ProgramDirector
finish_take k (some why) d = record d {
  failure = if d.manual then d.failure else some why;
  in_flight = false;
}
finish_take k none d =
    let d1 = record d { scene = k.target; elapsed = 0; in_flight = false } in
    let d2 =
      if k.target == bp
      then (if k.final_bp
          then record d1 { intro_started = true }
          else record d1 { warmup_played = true; warmup_final_elapsed = 0 })
      else d1 in
    let d3 = if k.target == matchup then record d2 { intro_started = true } else d2 in
    if k.target == map_result then record d3 { result_shown = true } else d3
