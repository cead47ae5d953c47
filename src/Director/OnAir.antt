-- ===== src/Director/OnAir.antt =====
-- What brings a scene on air in apps/companion/src/program-scenes/controller.ts.
use rival_hub_broadcast.Prelude.{
  ◌≡◌, refl, sym, subst, ◌⊎◌, inl, inr, Bool, true, false, not, ◌||◌, Option, none, some, List, [],
  ◌∷◌, ◌!=◌, nat_eq, eq_of_equals, arith, Bool-cases, Option-cases,
}
use rival_hub_broadcast.Director.Types.{
  ProgramSceneId, scene_eq, Timings, Take, SwitchFailure, scene_blocked, expired, changed, no_play,
}
use rival_hub_broadcast.Director.Controller.{
  Studio, Request, Switch, Scenes, SceneEvent, ticks, selects, forces, resumes, serves, settles,
  scene_step, tick_scenes, select, force_scene, resume_automatic, serve, settle, begin_switch,
  start_switch, end_switch, end_rollback, commit_switch, answer, valid, is_blocked,
}

answer-active :
    (take : Option Take) (result : Option SwitchFailure) (c : Scenes)
    → (answer take result c).active ≡ c.active
unfolding answer
answer-active none result c = refl
answer-active (some k) result c = refl

start_switch-active :
    (s : Studio) (r : Request) (c : Scenes) → (start_switch s r c).active ≡ c.active
unfolding start_switch
start_switch-active s r c = ground (arith, answer-active r.take (some no_play))

begin_switch-active :
    (timings : Timings) (s : Studio) (r : Request) (c : Scenes)
    → (begin_switch timings s r c).active ≡ c.active
unfolding begin_switch
begin_switch-active timings s r c = ground (
  arith,
  answer-active r.take (some expired) c,
  answer-active r.take (some changed) c,
  answer-active r.take (some scene_blocked) c,
  answer-active r.take none c,
  start_switch-active s r c,
)

serve_queue-active :
    (timings : Timings) (s : Studio) (c : Scenes) (queue : List Request)
    → (elim queue as (λ _. Scenes) [
      | [] ↦ c
      | r ∷ rest ↦ begin_switch timings s r (record c { queue = rest })
    ]).active
      ≡ c.active
serve_queue-active timings s c [] = refl
serve_queue-active timings s c (r ∷ rest) =
    begin_switch-active timings s r (record c { queue = rest })

serve-active : (timings : Timings) (s : Studio) (c : Scenes) → (serve timings s c).active ≡ c.active
unfolding serve
serve-active timings s c = elim (Option-cases c.running) [
  | inr (w, busy) ↦ rw (busy, serve) refl
  | inl still ↦ rw (still, serve) (serve_queue-active timings s c c.queue)
]

-- A switch that OBS has made, which has not failed, still holds and whose scene is still allowed.
pub record Commits (timings : Timings) (s : Studio) (obs_ok : Bool) (w : Switch) (c : Scenes)
    : Type 0 where
  pub is_running : c.running ≡ some w
  pub has_switched : obs_ok ≡ true
  pub not_failed : w.failed ≡ none
  pub not_aborted : w.aborted ≡ false
  pub holds : valid timings s c w.request.take ≡ true
  pub at_revision : w.request.revision ≡ c.revision
  pub allowed : is_blocked s w.request.target ≡ false

-- What an event may make of the scene on air.
abbrev pub MayShow : Timings → SceneEvent → Scenes → ProgramSceneId → Type 0
MayShow timings (forces id) c shown = shown ≡ id
MayShow timings (settles s obs_ok) c shown =
    (shown ≡ c.active) ⊎ ((w : Switch) × Commits timings s obs_ok w c × (shown ≡ w.request.target))
MayShow timings _ c shown = shown ≡ c.active

end_switch-MayShow :
    (timings : Timings) (s : Studio) (obs_ok : Bool) (w : Switch) (c : Scenes)
    → c.running ≡ some w
    → w.failed ≡ none
    → MayShow timings (settles s obs_ok) c (end_switch timings s obs_ok w c).active
unfolding end_switch commit_switch
end_switch-MayShow timings s obs_ok w c busy fine = elim (Bool-cases (not obs_ok)) [
  | inl bad ↦ inl (rw bad refl)
  | inr ok ↦ elim (Bool-cases (is_blocked s w.request.target)) [
    | inl blocked ↦ inl (rw (ok, blocked) refl)
    | inr free ↦
        elim (Bool-cases (
          not (valid timings s c w.request.take)
          || w.aborted
          || w.request.revision != c.revision)) [
            | inl gone ↦ inl (rw (ok, free, gone) refl)
            | inr holds ↦ inr (
              w,
              record {
                is_running = busy;
                has_switched = ground (arith, ok);
                not_failed = fine;
                not_aborted = ground (arith, holds);
                holds = ground (arith, holds);
                at_revision = eq_of_equals w.request.revision c.revision (ground (arith, holds));
                allowed = free;
              },
              rw (ok, free, holds) (answer-active w.request.take none _),
            )
          ]
  ]
]

settle-MayShow :
    (timings : Timings) (s : Studio) (obs_ok : Bool) (c : Scenes)
    → MayShow timings (settles s obs_ok) c (settle timings s obs_ok c).active
unfolding settle end_rollback
settle-MayShow timings s obs_ok c = elim (Option-cases c.running) [
  | inl still ↦ inl (rw (still, settle) refl)
  | inr (w, busy) ↦ elim (Option-cases w.failed) [
    | inl fine ↦
        let ended : settle timings s obs_ok c ≡ end_switch timings s obs_ok w c =
          rw (busy, settle) (rw (fine, settle) refl) in
        subst (λ (c' : Scenes). MayShow timings (settles s obs_ok) c c'.active) (sym ended)
          (end_switch-MayShow timings s obs_ok w c busy fine)
    | inr (why, bad) ↦
        inl (rw (busy, settle) (rw (bad, settle) (answer-active w.request.take (some why) _)))
  ]
]

tick_scenes-active :
    (timings : Timings) (s : Studio) (c : Scenes) → (tick_scenes timings s c).active ≡ c.active
unfolding tick_scenes
tick_scenes-active timings s c = ground arith

-- The scene on air changes only when the operator forces one, or at the end of a switch that OBS has made,
-- that was not aborted, whose request still holds at the current revision and whose scene is not blocked;
-- then it is that scene.
pub scene_step-MayShow :
    (timings : Timings) (e : SceneEvent) (c : Scenes)
    → MayShow timings e c (scene_step timings e c).active
unfolding scene_step select force_scene resume_automatic
scene_step-MayShow timings (ticks s) c = tick_scenes-active timings s c
scene_step-MayShow timings (selects id revision) c = ground arith
scene_step-MayShow timings (forces id) c = refl
scene_step-MayShow timings (resumes now revision) c = ground arith
scene_step-MayShow timings (serves s) c = serve-active timings s c
scene_step-MayShow timings (settles s obs_ok) c = settle-MayShow timings s obs_ok c
