-- ===== src/Director/Generations.antt =====
-- The generation of the director of apps/companion/src/program-scenes over a run, and the requests that
-- are overridden.
use rival_hub_broadcast.Prelude.{
  ℕ, ◌+◌, ◌≤◌, ◌≡◌, refl, ap, inl, inr, Bool, true, false, Option, none, some, List, [], ◌∷◌, ◌++◌,
  ◌==◌, nat_eq, eq_of_equals, arith, Bool-cases, Option-cases, All, All-imp,
}
use rival_hub_broadcast.Director.Types.{
  scene_eq, Timings, ProgramDirector, Surroundings, Take, SwitchFailure, scene_blocked, expired,
  changed, no_play,
}
use rival_hub_broadcast.Director.Tick.{hold, resume, finish_take, valid_take}
use rival_hub_broadcast.Director.Steps.{tick-Fits}
use rival_hub_broadcast.Director.Controller.{
  Studio, Request, Switch, Scenes, new_scenes, SceneEvent, ticks, selects, forces, resumes, serves,
  settles, scene_step, run_scenes, tick_scenes, select, force_scene, resume_automatic, serve,
  settle, begin_switch, start_switch, end_switch, end_rollback, commit_switch, answer,
}
use rival_hub_broadcast.Director.OneTake.{queue_takes, running_takes}
use rival_hub_broadcast.Director.Runs.{scenes-IsOrdered}

abbrev generation_of : Scenes → ℕ
generation_of c = c.director.generation

answer-generation :
    (take : Option Take) (result : Option SwitchFailure) (c : Scenes)
    → generation_of (answer take result c) ≡ generation_of c
unfolding answer finish_take
answer-generation none result c = refl
answer-generation (some k) none c = ground arith
answer-generation (some k) (some why) c = refl

start_switch-generation :
    (s : Studio) (r : Request) (c : Scenes) → generation_of (start_switch s r c) ≡ generation_of c
unfolding start_switch
start_switch-generation s r c = ground (arith, answer-generation r.take (some no_play))

begin_switch-generation :
    (timings : Timings) (s : Studio) (r : Request) (c : Scenes)
    → generation_of (begin_switch timings s r c) ≡ generation_of c
unfolding begin_switch
begin_switch-generation timings s r c = ground (
  arith,
  answer-generation r.take (some expired) c,
  answer-generation r.take (some changed) c,
  answer-generation r.take (some scene_blocked) c,
  answer-generation r.take none c,
  start_switch-generation s r c,
)

serve_queue-generation :
    (timings : Timings) (s : Studio) (c : Scenes) (queue : List Request)
    → generation_of (elim queue as (λ _. Scenes) [
      | [] ↦ c
      | r ∷ rest ↦ begin_switch timings s r (record c { queue = rest })
    ])
      ≡ generation_of c
serve_queue-generation timings s c [] = refl
serve_queue-generation timings s c (r ∷ rest) =
    begin_switch-generation timings s r (record c { queue = rest })

serve-generation :
    (timings : Timings) (s : Studio) (c : Scenes)
    → generation_of (serve timings s c) ≡ generation_of c
unfolding serve
serve-generation timings s c = elim (Option-cases c.running) [
  | inr (w, busy) ↦ rw (busy, serve) refl
  | inl still ↦ rw (still, serve) (serve_queue-generation timings s c c.queue)
]

end_switch-generation :
    (timings : Timings) (s : Studio) (obs_ok : Bool) (w : Switch) (c : Scenes)
    → generation_of (end_switch timings s obs_ok w c) ≡ generation_of c
unfolding end_switch commit_switch
end_switch-generation timings s obs_ok w c = ground (arith, answer-generation w.request.take none)

settle-generation :
    (timings : Timings) (s : Studio) (obs_ok : Bool) (c : Scenes)
    → generation_of (settle timings s obs_ok c) ≡ generation_of c
unfolding settle end_rollback
settle-generation timings s obs_ok c = elim (Option-cases c.running) [
  | inl still ↦ rw (still, settle) refl
  | inr (w, busy) ↦ elim (Option-cases w.failed) [
    | inl fine ↦ rw (busy, settle) (rw (fine, settle) (end_switch-generation timings s obs_ok w c))
    | inr (why, bad) ↦
        rw (busy, settle) (rw (bad, settle) (answer-generation w.request.take (some why) _))
  ]
]

tick_scenes-generation :
    (timings : Timings) (s : Studio) (c : Scenes)
    → generation_of c ≤ generation_of (tick_scenes timings s c)
unfolding tick_scenes
tick_scenes-generation timings s c =
    ground (arith, (tick-Fits timings s.around c.active c.revision c.director).0)

scene_step-generation :
    (timings : Timings) (e : SceneEvent) (c : Scenes)
    → generation_of c ≤ generation_of (scene_step timings e c)
unfolding scene_step force_scene select resume_automatic hold resume
scene_step-generation timings (ticks s) c = tick_scenes-generation timings s c
scene_step-generation timings (selects id revision) c = ground arith
scene_step-generation timings (forces id) c = omega arith
scene_step-generation timings (resumes now revision) c = ground arith
scene_step-generation timings (serves s) c = omega (arith, serve-generation timings s c)
scene_step-generation timings (settles s obs_ok) c =
    omega (arith, settle-generation timings s obs_ok c)

run_scenes-generation :
    (timings : Timings) (es : List SceneEvent) (c : Scenes)
    → generation_of c ≤ generation_of (run_scenes timings es c)
unfolding run_scenes
run_scenes-generation timings [] c = omega arith
run_scenes-generation timings (e ∷ es) c = omega (
  arith,
  scene_step-generation timings e c,
  run_scenes-generation timings es (scene_step timings e c),
)

run_scenes-append :
    (timings : Timings) (xs ys : List SceneEvent) (c : Scenes)
    → run_scenes timings (xs ++ ys) c ≡ run_scenes timings ys (run_scenes timings xs c)
unfolding run_scenes
run_scenes-append timings [] ys c = refl
run_scenes-append timings (x ∷ xs) ys c = run_scenes-append timings xs ys (scene_step timings x c)

-- An operator's command that takes effect: a scene is forced, one is selected at the current revision,
-- or the automation is resumed at it.
abbrev pub is_override : SceneEvent → Scenes → Bool
is_override (forces id) c = true
is_override (selects id revision) c = revision == c.revision
is_override (resumes now revision) c = revision == c.revision
is_override _ c = false

override-generation :
    (timings : Timings) (e : SceneEvent) (c : Scenes)
    → is_override e c ≡ true
    → generation_of c + 1 ≤ generation_of (scene_step timings e c)
unfolding scene_step force_scene select resume_automatic hold resume
override-generation timings (forces id) c h = omega arith
override-generation timings (selects id revision) c h = rw h (omega arith)
override-generation timings (resumes now revision) c h = rw h (omega arith)
override-generation timings (ticks s) c h = ground (arith, h)
override-generation timings (serves s) c h = ground (arith, h)
override-generation timings (settles s obs_ok) c h = ground (arith, h)

valid_take-generation :
    (timings : Timings) (s : Surroundings) (d : ProgramDirector) (k : Take)
    → valid_take timings s d k ≡ true
    → k.generation ≡ d.generation
unfolding valid_take
valid_take-generation timings s d k h = eq_of_equals k.generation d.generation (ground (arith, h))

old-Void :
    (timings : Timings) (s : Surroundings) (d : ProgramDirector) (g : ℕ) (k : Take)
    → g + 1 ≤ d.generation
    → k.generation ≤ g
    → valid_take timings s d k ≡ false
old-Void timings s d g k newer old = elim (Bool-cases (valid_take timings s d k)) [
  | inr void ↦ void
  | inl holds ↦ ground (arith, valid_take-generation timings s d k holds)
]

-- No automatic request that waits or runs in the scenes holds for the director.
pub record AreVoid (timings : Timings) (s : Surroundings) (c : Scenes) (d : ProgramDirector)
    : Type 0 where
  pub running_void : All (λ k. valid_take timings s d k ≡ false) (running_takes c.running)
  pub queue_void : All (λ k. valid_take timings s d k ≡ false) (queue_takes c.queue)

-- In every order of ticks, commands and answers of OBS: once a command of the operator takes effect, no
-- automatic request that waited or ran before it holds again, whatever happens afterwards and whatever
-- the program shows.
pub overridden-Void :
    (timings : Timings) (before after : List SceneEvent) (e : SceneEvent) (s : Surroundings)
    → is_override e (run_scenes timings before new_scenes) ≡ true
    → AreVoid timings s
        (run_scenes timings before new_scenes)
        (run_scenes timings (before ++ e ∷ after) new_scenes).director
unfolding run_scenes
overridden-Void timings before after e s takes_effect =
    let c = run_scenes timings before new_scenes in
    let d = (run_scenes timings (before ++ e ∷ after) new_scenes).director in
    let order = scenes-IsOrdered timings before in
    let newer : c.director.generation + 1 ≤ d.generation = omega (
      arith,
      ap generation_of (run_scenes-append timings before (e ∷ after) new_scenes),
      override-generation timings e c takes_effect,
      run_scenes-generation timings after (scene_step timings e c),
    ) in
    record {
      running_void =
          All-imp _ _ (running_takes c.running)
            (λ k. old-Void timings s d c.director.generation k newer) order.running_old;
      queue_void =
          All-imp _ _ (queue_takes c.queue)
            (λ k. old-Void timings s d c.director.generation k newer) order.queue_old;
    }
