-- ===== src/Director/Plan.antt =====
-- apps/companion/src/program-scenes/director.ts: what a tick reads, and the scene that it plans.
use rival_hub_broadcast.Prelude.{
  ℕ, ◌+◌, Bool, true, false, not, ◌&&◌, ◌||◌, Option, none, some, map, String, ◌==◌, nat_eq,
  string_eq, option_eq, if◌then◌else◌, ltb, leb, any,
}
use rival_hub_broadcast.Series.Types.{SeriesBindingState, completed, status_eq}
use rival_hub_broadcast.Runtime.Types.{
  MapPhase, RoundPhase, warmup, intermission, gameover, freezetime, map_phase_eq, round_phase_eq,
}
use rival_hub_broadcast.Director.Types.{
  ProgramSceneId, bp, matchup, gameplay, halftime, map_result, intermap, match_result, waiting,
  scene_eq, ProgramMap, ProgramView, ContextKey, ExecutionKey, Timings, ProgramDirector,
  Surroundings, binding_eq,
}

unfoldable pub safe : ProgramView → Bool
safe p =
    p.context_status == "fresh"
    && p.telemetry_status == "fresh"
    && not (p.identity_status == "mismatch")
    && elim p.series as (λ _. Bool) [
      | none ↦ false
      | some s ↦ s.binding_state == SeriesBindingState.bound
    ]

unfoldable pub context_key : ProgramView → ContextKey
context_key p = elim p.series [
  | none ↦ record {
    match_id = p.match_id;
    entrant_a_id = none;
    entrant_b_id = none;
    format = none;
    maps = none;
  }
  | some s ↦ record {
    match_id = p.match_id;
    entrant_a_id = some s.entrant_a_id;
    entrant_b_id = some s.entrant_b_id;
    format = some s.format;
    maps = some (
        map (λ (m : ProgramMap). record { map_order = m.map_order; map_name = m.map_name }) s.maps);
  }
]

unfoldable pub execution_key : ProgramView → ExecutionKey
unfolding context_key
execution_key p = record {
  context = context_key p;
  cursor = p.cursor;
  current_map_order = elim p.series [ none ↦ none | some s ↦ s.current_map_order ];
}

abbrev pub clock_phase : ProgramView → Option String
clock_phase p = elim p.clock [ none ↦ none | some c ↦ c.phase ]

unfoldable pub is_paused : ProgramView → Bool
is_paused p =
    clock_phase p == some "paused"
    || clock_phase p == some "timeout_ct"
    || clock_phase p == some "timeout_t"

-- `isRegulationHalftime` of presentation.ts.
unfoldable pub is_regulation_halftime : ProgramView → Bool
is_regulation_halftime p = elim p.score_ct [
  | none ↦ false
  | some ct ↦ elim p.score_t [
    | none ↦ false
    | some t ↦ ct + t == 12 && (p.map_phase == some intermission || clock_phase p == some "paused")
  ]
]

-- `seconds`: the rest of the freeze time, if it is one.
unfoldable pub freeze_left : ProgramView → Option ℕ
freeze_left p = elim p.clock [
  | none ↦ none
  | some c ↦ if c.phase == some "freezetime" then c.ends_in_ms else none
]

abbrev pub remaining : ProgramView → ℕ
remaining p = elim (freeze_left p) [ none ↦ 0 | some left ↦ left ]

abbrev pub is_freezing : ProgramView → Bool
is_freezing p = elim (freeze_left p) [ none ↦ false | some left ↦ ltb 0 left ]

-- A plan: the director with its flags, and the scene to show, if any.
pub record Plan : Type 0 where
  pub director : ProgramDirector
  pub target : Option ProgramSceneId
  pub final_bp : Bool

abbrev pub no_target : ProgramDirector → Plan
no_target d = record { director = d; target = none; final_bp = false }

abbrev pub to_scene : ProgramSceneId → ProgramDirector → Plan
to_scene target d = record { director = d; target = some target; final_bp = false }

-- The map that is over has its confirmed result.
unfoldable pub has_result : ProgramView → Bool
has_result p = elim p.series [
  | none ↦ false
  | some s ↦
      any
        (λ m.
          m.status == completed
          && some m.map_name == p.map_name
          && elim m.final_score as (λ _. Bool) [ none ↦ false | some _ ↦ true ])
        s.maps
]

abbrev after_result : ProgramView → ProgramSceneId
after_result p = elim p.series [
  | none ↦ intermap
  | some s ↦ if s.status == "completed" then match_result else intermap
]

unfoldable pub plan_result : Timings → ProgramView → ProgramSceneId → ProgramDirector → Plan
plan_result timings p active d =
    if not d.result_shown
    then to_scene map_result d
    else if active == map_result
    then (let next = record d { next = some (after_result p) } in
        if leb timings.map_result_ms d.elapsed
        then to_scene (after_result p) next
        else no_target next)
    else no_target d

unfoldable pub plan_second_half : Timings → ProgramView → ProgramDirector → Plan
plan_second_half timings p d =
    let next = record d { next = some gameplay } in
    if p.round_phase == some RoundPhase.live
      || (is_freezing p && leb (remaining p) timings.halftime_lead_ms)
    then to_scene gameplay next
    else no_target next

unfoldable pub plan_warmup : Timings → Surroundings → ℕ → ProgramSceneId → ProgramDirector → Plan
plan_warmup timings s delta active d =
    if not d.warmup_played && s.bp_ready
    then to_scene bp d
    else if active == bp && s.bp_shown
    then (let d' = record d {
      warmup_final_elapsed =
          if d.manual then d.warmup_final_elapsed else d.warmup_final_elapsed + delta;
      next = some waiting;
    } in
        if leb timings.warmup_final_ms d'.warmup_final_elapsed
        then to_scene waiting d'
        else no_target d')
    else no_target d

abbrev finish_intro : ProgramDirector → ProgramDirector
finish_intro d = if d.manual then d else record d { intro_finished = true }

abbrev first_freeze : ProgramView → Bool
first_freeze p = p.map_round == some 0 && p.round_phase == some freezetime && is_freezing p

-- The introduction before the first round, while its freeze time lasts.
unfoldable pub plan_intro : Timings → Surroundings → ProgramSceneId → ProgramDirector → Plan
plan_intro timings s active d =
    let left = remaining s.program in
    if active == matchup && d.intro_started
    then (let next = record d { next = some gameplay } in
        if leb d.intro_duration_ms d.elapsed
        then to_scene gameplay (finish_intro next)
        else no_target next)
    else if active == bp && d.intro_started
    then (let next = record d { next = some matchup } in
        if leb timings.bp_final_ms d.elapsed || leb left (timings.intro_ms + timings.hud_lead_ms)
        then to_scene matchup next
        else no_target next)
    else if not d.intro_started
    then (if leb (timings.hud_lead_ms + (timings.bp_final_ms + timings.intro_ms)) left && s.bp_ready
        then record { director = d; target = some bp; final_bp = true }
        else if leb (timings.hud_lead_ms + timings.short_intro_ms) left
        then to_scene matchup d
        else to_scene gameplay (finish_intro d))
    else no_target d

-- The length of the matchup fits in the freeze time that is left.
abbrev pub fit_matchup : Timings → ProgramView → Plan → Plan
fit_matchup timings p plan =
    if plan.target == some matchup
    then record plan {
      director = record plan.director {
        intro_duration_ms =
            if leb (timings.intro_ms + timings.hud_lead_ms) (remaining p)
            then timings.intro_ms
            else timings.short_intro_ms;
      };
    }
    else plan

unfoldable pub plan_live : Timings → Surroundings → ProgramSceneId → ProgramDirector → Plan
unfolding plan_intro
plan_live timings s active d =
    if not (first_freeze s.program)
      || d.intro_finished
      || leb (remaining s.program) timings.hud_lead_ms
    then to_scene gameplay (finish_intro d)
    else fit_matchup timings s.program (plan_intro timings s active d)

unfoldable pub plan_scene : Timings → Surroundings → ℕ → ProgramSceneId → ProgramDirector → Plan
unfolding has_result plan_result is_regulation_halftime plan_second_half plan_warmup plan_live
plan_scene timings s delta active d =
    if s.program.map_phase == some gameover && has_result s.program
    then plan_result timings s.program active d
    else if is_regulation_halftime s.program
    then to_scene halftime (record d { halftime_seen = true })
    else if d.halftime_seen && active == halftime
    then plan_second_half timings s.program d
    else if s.program.map_phase == some warmup
    then plan_warmup timings s delta active d
    else if s.program.map_phase == some MapPhase.live
    then plan_live timings s active d
    else no_target d
