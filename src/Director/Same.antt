-- ===== src/Director/Same.antt =====
-- The calls in apps/companion/src/program-scenes/director.ts that leave the generation, the request flag
-- and the hold as they are.
use rival_hub_broadcast.Prelude.{ℕ, ◌≡◌, ◌∙◌, Bool, nat_eq, string_eq, option_eq, arith}
use rival_hub_broadcast.Runtime.Types.{map_phase_eq, round_phase_eq}
use rival_hub_broadcast.Director.Types.{
  ProgramSceneId, scene_eq, ProgramView, ContextKey, ExecutionKey, context_key_eq, execution_key_eq,
  Timings, ProgramDirector, Surroundings,
}
use rival_hub_broadcast.Director.Plan.{
  Plan, plan_scene, plan_result, plan_second_half, plan_warmup, plan_intro, plan_live, fit_matchup,
}
use rival_hub_broadcast.Director.Tick.{
  enter_match, enter_map, enter_scene, note_halftime, note_shown,
}

-- The director has the same generation, request flag and hold.
abbrev pub Same : ProgramDirector → ProgramDirector → Type 0
Same d d' = (d'.generation ≡ d.generation) × (d'.in_flight ≡ d.in_flight) × (d'.manual ≡ d.manual)

pub Same-trans : (d d1 d2 : ProgramDirector) → Same d d1 → Same d1 d2 → Same d d2
Same-trans d d1 d2 h k = (k.0 ∙ h.0, k.1 ∙ h.1, k.2 ∙ h.2)

pub enter_match-Same : (key : ContextKey) (d : ProgramDirector) → Same d (enter_match key d)
unfolding enter_match
enter_match-Same key d = ground arith

pub enter_map-Same : (key : ExecutionKey) (d : ProgramDirector) → Same d (enter_map key d)
unfolding enter_map
enter_map-Same key d = ground arith

pub enter_scene-Same :
    (active : ProgramSceneId) (d : ProgramDirector) → Same d (enter_scene active d)
unfolding enter_scene
enter_scene-Same active d = ground arith

pub note_halftime-Same :
    (p : ProgramView) (active : ProgramSceneId) (d : ProgramDirector)
    → Same d (note_halftime p active d)
unfolding note_halftime
note_halftime-Same p active d = ground arith

pub note_shown-Same :
    (target : ProgramSceneId) (final_bp : Bool) (d : ProgramDirector)
    → Same d (note_shown target final_bp d)
unfolding note_shown
note_shown-Same target final_bp d = ground arith

pub plan_result-Same :
    (timings : Timings) (p : ProgramView) (active : ProgramSceneId) (d : ProgramDirector)
    → Same d (plan_result timings p active d).director
unfolding plan_result
plan_result-Same timings p active d = ground arith

pub plan_second_half-Same :
    (timings : Timings) (p : ProgramView) (d : ProgramDirector)
    → Same d (plan_second_half timings p d).director
unfolding plan_second_half
plan_second_half-Same timings p d = ground arith

pub plan_warmup-Same :
    (timings : Timings) (s : Surroundings) (delta : ℕ) (active : ProgramSceneId)
    (d : ProgramDirector)
    → Same d (plan_warmup timings s delta active d).director
unfolding plan_warmup
plan_warmup-Same timings s delta active d = ground arith

pub plan_intro-Same :
    (timings : Timings) (s : Surroundings) (active : ProgramSceneId) (d : ProgramDirector)
    → Same d (plan_intro timings s active d).director
unfolding plan_intro
plan_intro-Same timings s active d = ground arith

pub fit_matchup-Same :
    (timings : Timings) (p : ProgramView) (plan : Plan)
    → Same plan.director (fit_matchup timings p plan).director
fit_matchup-Same timings p plan = ground arith

pub plan_live-Same :
    (timings : Timings) (s : Surroundings) (active : ProgramSceneId) (d : ProgramDirector)
    → Same d (plan_live timings s active d).director
unfolding plan_live
plan_live-Same timings s active d = ground (
  arith,
  plan_intro-Same timings s active d,
  fit_matchup-Same timings s.program (plan_intro timings s active d),
)

pub plan_scene-Same :
    (timings : Timings) (s : Surroundings) (delta : ℕ) (active : ProgramSceneId)
    (d : ProgramDirector)
    → Same d (plan_scene timings s delta active d).director
unfolding plan_scene
plan_scene-Same timings s delta active d = ground (
  arith,
  plan_result-Same timings s.program active d,
  plan_second_half-Same timings s.program d,
  plan_warmup-Same timings s delta active d,
  plan_live-Same timings s active d,
)
