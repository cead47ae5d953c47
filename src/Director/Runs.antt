-- ===== src/Director/Runs.antt =====
-- The automatic requests of apps/companion/src/program-scenes over every run of the scenes.
use mathlib.Core.List.{append-nil}
use rival_hub_broadcast.Prelude.{
  ℕ, ◌+◌, ◌≤◌, ◌≡◌, refl, sym, ap, ◌∙◌, subst, inl, inr, Bool, true, false, not, ◌||◌, Option, none,
  some, List, [], ◌∷◌, ◌++◌, ◌==◌, ◌!=◌, nat_eq, arith, Bool-cases, Option-cases, length,
  length-append, All-append,
}
use rival_hub_broadcast.Director.Types.{
  ProgramSceneId, scene_eq, Timings, Take, SwitchFailure, obs_failed, scene_blocked, expired,
}
use rival_hub_broadcast.Director.Tick.{hold, resume, tick, TickResult}
use rival_hub_broadcast.Director.Steps.{tick-Fits, TickTakes}
use rival_hub_broadcast.Director.Controller.{
  Studio, Request, Switch, Scenes, new_scenes, SceneEvent, ticks, selects, forces, resumes, serves,
  settles, scene_step, run_scenes, tick_scenes, select, force_scene, resume_automatic, settle,
  end_switch, end_rollback, commit_switch, fail_switch, valid, is_blocked, abort_automatic,
}
use rival_hub_broadcast.Director.OneTake.{
  take_list, queue_takes, running_takes, flag, AreOld, IsOrdered, AreOld-later, queue_takes-append,
  answer-IsOrdered, serve-IsOrdered,
}

settle_one :
    (w : Switch) (c : Scenes)
    → c.running ≡ some w
    → IsOrdered c
    → (length (take_list w.request.take) + length (queue_takes c.queue) ≡ flag c.director.in_flight)
      × AreOld c.director.generation (take_list w.request.take)
settle_one w c e h = (
  subst
      (λ (o : Option Switch).
        length (running_takes o) + length (queue_takes c.queue) ≡ flag c.director.in_flight)
      e h.one,
  subst (λ (o : Option Switch). AreOld c.director.generation (running_takes o)) e h.running_old,
)

fail_switch-IsOrdered :
    (why : SwitchFailure) (w : Switch) (c : Scenes)
    → c.running ≡ some w
    → IsOrdered c
    → IsOrdered (fail_switch why w c)
fail_switch-IsOrdered why w c e h =
    let k = settle_one w c e h in record { one = k.0; running_old = k.1; queue_old = h.queue_old }

commit_switch-IsOrdered :
    (w : Switch) (c : Scenes) → c.running ≡ some w → IsOrdered c → IsOrdered (commit_switch w c)
unfolding commit_switch
commit_switch-IsOrdered w c e h =
    answer-IsOrdered w.request.take none _ refl (settle_one w c e h).0 h.queue_old

end_rollback-IsOrdered :
    (s : Studio) (why : SwitchFailure) (w : Switch) (c : Scenes)
    → c.running ≡ some w
    → IsOrdered c
    → IsOrdered (end_rollback s why w c)
unfolding end_rollback
end_rollback-IsOrdered s why w c e h =
    answer-IsOrdered w.request.take (some why) _ refl (settle_one w c e h).0 h.queue_old

end_switch-IsOrdered :
    (timings : Timings) (s : Studio) (obs_ok : Bool) (w : Switch) (c : Scenes)
    → c.running ≡ some w
    → IsOrdered c
    → IsOrdered (end_switch timings s obs_ok w c)
unfolding end_switch
end_switch-IsOrdered timings s false w c e h = fail_switch-IsOrdered obs_failed w c e h
end_switch-IsOrdered timings s true w c e h = elim (Bool-cases (is_blocked s w.request.target)) [
  | inl blocked ↦ rw blocked (fail_switch-IsOrdered scene_blocked w c e h)
  | inr free ↦
      elim (Bool-cases
        (not (valid timings s c w.request.take) || w.aborted || w.request.revision != c.revision)) [
          | inl gone ↦ rw (free, gone) (fail_switch-IsOrdered expired w c e h)
          | inr holds ↦ rw (free, holds) (commit_switch-IsOrdered w c e h)
        ]
]

settle-IsOrdered :
    (timings : Timings) (s : Studio) (obs_ok : Bool) (c : Scenes)
    → IsOrdered c
    → IsOrdered (settle timings s obs_ok c)
unfolding settle
settle-IsOrdered timings s obs_ok c h = elim (Option-cases c.running) [
  | inl still ↦ rw (still, settle) h
  | inr (w, busy) ↦ elim (Option-cases w.failed) [
    | inl fine ↦
        rw (busy, settle) (rw (fine, settle) (end_switch-IsOrdered timings s obs_ok w c busy h))
    | inr (why, bad) ↦
        rw (busy, settle) (rw (bad, settle) (end_rollback-IsOrdered s why w c busy h))
  ]
]

abort_automatic-takes :
    (running : Option Switch) → running_takes (abort_automatic running) ≡ running_takes running
abort_automatic-takes none = refl
abort_automatic-takes (some w) = ground arith

-- A hold or a resume, with the automatic switch aborted or not.
newer-IsOrdered :
    (c c' : Scenes)
    → running_takes c'.running ≡ running_takes c.running
    → queue_takes c'.queue ≡ queue_takes c.queue
    → c'.director.in_flight ≡ c.director.in_flight
    → c.director.generation ≤ c'.director.generation
    → IsOrdered c
    → IsOrdered c'
newer-IsOrdered c c' r q f g h = record {
  one = omega (
    arith,
    ap (λ (l : List Take). length l) r,
    ap (λ (l : List Take). length l) q,
    ap flag f,
    h.one,
  );
  running_old = subst (AreOld c'.director.generation) (sym r) (
      AreOld-later c.director.generation c'.director.generation (running_takes c.running) g
        h.running_old);
  queue_old = subst (AreOld c'.director.generation) (sym q) (
      AreOld-later c.director.generation c'.director.generation (queue_takes c.queue) g
        h.queue_old);
}

force_scene-IsOrdered :
    (id : ProgramSceneId) (c : Scenes) → IsOrdered c → IsOrdered (force_scene id c)
unfolding force_scene hold
force_scene-IsOrdered id c h =
    newer-IsOrdered c (force_scene id c) (abort_automatic-takes c.running) refl refl (omega arith) h

select-IsOrdered :
    (id : ProgramSceneId) (expected : ℕ) (c : Scenes)
    → IsOrdered c
    → IsOrdered (select id expected c)
unfolding select hold
select-IsOrdered id expected c h =
    let own : Request = record { target = id; revision = expected; take = none } in
    let q = queue_takes-append c.queue (own ∷ []) ∙ append-nil (queue_takes c.queue) in
    elim (Bool-cases (expected == c.revision)) [
      | inl now ↦
          rw now (newer-IsOrdered c _ (abort_automatic-takes c.running) q refl (omega arith) h)
      | inr late ↦ rw late (newer-IsOrdered c _ refl q refl (omega arith) h)
    ]

resume_automatic-IsOrdered :
    (now expected : ℕ) (c : Scenes) → IsOrdered c → IsOrdered (resume_automatic now expected c)
unfolding resume_automatic resume
resume_automatic-IsOrdered now expected c h = elim (Bool-cases (expected == c.revision)) [
  | inl same ↦ rw same (newer-IsOrdered c _ refl refl refl (omega arith) h)
  | inr other ↦ rw other h
]

-- The request of a tick joins a queue that has none.
asked-IsOrdered :
    (c : Scenes) (r : TickResult) (k : Take)
    → c.director.generation ≤ r.director.generation
    → c.director.in_flight ≡ false
    → r.director.in_flight ≡ true
    → k.generation ≡ r.director.generation
    → IsOrdered c
    → IsOrdered (record c {
      director = r.director;
      bp_calls = c.bp_calls ++ r.calls;
      queue = c.queue ++ record { target = k.target; revision = k.revision; take = some k } ∷ [];
    })
asked-IsOrdered c r k later idle busy now h =
    let own : Request = record { target = k.target; revision = k.revision; take = some k } in
    let q = queue_takes-append c.queue (own ∷ []) in
    record {
      one = omega (
        arith,
        ap (λ (l : List Take). length l) q,
        length-append (queue_takes c.queue) (k ∷ []),
        ap flag idle,
        ap flag busy,
        h.one,
      );
      running_old =
          AreOld-later c.director.generation r.director.generation (running_takes c.running) later
            h.running_old;
      queue_old = subst (AreOld r.director.generation) (sym q) (
          All-append (λ (t : Take). t.generation ≤ r.director.generation) (queue_takes c.queue)
            (k ∷ [])
            (AreOld-later c.director.generation r.director.generation (queue_takes c.queue) later
              h.queue_old)
            (omega (arith, now), tt));
    }

tick_scenes-IsOrdered :
    (timings : Timings) (s : Studio) (c : Scenes)
    → IsOrdered c
    → IsOrdered (tick_scenes timings s c)
unfolding tick_scenes
tick_scenes-IsOrdered timings s c h =
    let r = tick timings s.around c.active c.revision c.director in
    let f = tick-Fits timings s.around c.active c.revision c.director in
    elim (Option-cases r.take) [
      | inl rest ↦
          let kept : r.director.in_flight ≡ c.director.in_flight =
            subst
              (λ (o : Option Take). TickTakes s.around c.active c.revision c.director o r.director)
              rest f.1 in
          rw (rest, tick_scenes) (newer-IsOrdered c _ refl refl kept f.0 h)
      | inr (k, asked) ↦
          let taken =
            subst
              (λ (o : Option Take). TickTakes s.around c.active c.revision c.director o r.director)
              asked f.1 in
          rw (asked, tick_scenes) (asked-IsOrdered c r k f.0 taken.0 taken.2.0 (taken.2.2) h)
    ]

scene_step-IsOrdered :
    (timings : Timings) (e : SceneEvent) (c : Scenes)
    → IsOrdered c
    → IsOrdered (scene_step timings e c)
unfolding scene_step
scene_step-IsOrdered timings (ticks s) c h = tick_scenes-IsOrdered timings s c h
scene_step-IsOrdered timings (selects id revision) c h = select-IsOrdered id revision c h
scene_step-IsOrdered timings (forces id) c h = force_scene-IsOrdered id c h
scene_step-IsOrdered timings (resumes now revision) c h =
    resume_automatic-IsOrdered now revision c h
scene_step-IsOrdered timings (serves s) c h = serve-IsOrdered timings s c h
scene_step-IsOrdered timings (settles s obs_ok) c h = settle-IsOrdered timings s obs_ok c h

run_scenes-IsOrdered :
    (timings : Timings) (es : List SceneEvent) (c : Scenes)
    → IsOrdered c
    → IsOrdered (run_scenes timings es c)
unfolding run_scenes
run_scenes-IsOrdered timings [] c h = h
run_scenes-IsOrdered timings (e ∷ es) c h =
    run_scenes-IsOrdered timings es (scene_step timings e c) (scene_step-IsOrdered timings e c h)

-- In every order of ticks, commands of the operator and answers of OBS, the automatic requests that wait
-- in the queue or run are one while the director waits for its answer and none otherwise, and none was
-- made under a later generation than the director's.
pub scenes-IsOrdered :
    (timings : Timings) (es : List SceneEvent) → IsOrdered (run_scenes timings es new_scenes)
scenes-IsOrdered timings es =
    run_scenes-IsOrdered timings es new_scenes
      (record { one = refl; running_old = tt; queue_old = tt })
