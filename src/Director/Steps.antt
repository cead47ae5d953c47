-- ===== src/Director/Steps.antt =====
-- What a call of the director in apps/companion/src/program-scenes/director.ts does to its generation and
-- its request.
use rival_hub_broadcast.Prelude.{
  ℕ, ◌≤◌, ◌≡◌, refl, sym, ◌∙◌, subst, inl, inr, Bool, true, false, not, ◌&&◌, Option, none, some,
  List, ◌==◌, nat_eq, string_eq, option_eq, arith, Bool-cases, Option-cases,
}
use rival_hub_broadcast.Runtime.Types.{map_phase_eq, round_phase_eq}
use rival_hub_broadcast.Director.Types.{
  ProgramSceneId, scene_eq, ProgramView, context_key_eq, execution_key_eq, Timings, ProgramDirector,
  Surroundings, BpCall, Take, SwitchFailure, data_unsafe, game_paused,
}
use rival_hub_broadcast.Director.Plan.{
  safe, context_key, execution_key, is_paused, is_regulation_halftime, Plan, plan_scene,
}
use rival_hub_broadcast.Director.Tick.{
  resume, tick, TickResult, enter_match, enter_map, enter_scene, note_halftime, act, follow_plan,
  tick_safe, tick_open, tick_production, enter_production, is_live_production, stopped, blocked_by,
  recommend, end_tick, refresh, entered, tick_entered, tick_after, tick_live, idle_tick,
  tick_unless, production_calls, tick_delta,
}
use rival_hub_broadcast.Director.Same.{
  Same, Same-trans, enter_match-Same, enter_map-Same, enter_scene-Same, note_halftime-Same,
  note_shown-Same, plan_scene-Same,
}

-- A tick that ends with no request leaves the flag; a request is made by a director that is not held and
-- has none, for another scene than the one on air, under the director's generation and the execution
-- that the program shows.
abbrev pub TakeFits :
    ProgramView → ProgramSceneId → ℕ → ProgramDirector → Option Take → ProgramDirector → Type 0
TakeFits p active revision d none d' = d'.in_flight ≡ d.in_flight
TakeFits p active revision d (some k) d' =
    (d'.in_flight ≡ true)
    × (d'.manual ≡ false)
    × (k.generation ≡ d'.generation)
    × (k.revision ≡ revision)
    × (k.key ≡ execution_key p)
    × ((k.target == active) ≡ false)
    × (safe p ≡ true)

abbrev pub Fits : ProgramView → ProgramSceneId → ℕ → ProgramDirector → TickResult → Type 0
Fits p active revision d r =
    (d.generation ≤ r.director.generation) × TakeFits p active revision d r.take r.director

recommend-Same :
    (shown : Bool) (target : ProgramSceneId) (d : ProgramDirector)
    → Same d (recommend shown target d)
recommend-Same true target d = (refl, refl, refl)
recommend-Same false target d = (refl, refl, refl)

end_tick-Fits :
    (manual shown : Bool) (calls : List BpCall) (p : ProgramView) (active : ProgramSceneId)
    (revision : ℕ) (target : ProgramSceneId) (final_bp : Bool) (d : ProgramDirector)
    → d.manual ≡ manual
    → (target == active) ≡ shown
    → safe p ≡ true
    → Fits p active revision d (end_tick manual shown calls p revision target final_bp d)
unfolding end_tick
end_tick-Fits true shown calls p active revision target final_bp d is on sf = (omega arith, refl)
end_tick-Fits false true calls p active revision target final_bp d is on sf =
    let n = note_shown-Same target final_bp d in (omega (arith, n.0), n.1)
end_tick-Fits false false calls p active revision target final_bp d is on sf =
    (omega arith, (refl, is, refl, refl, refl, on, sf))

-- A result that fits a director fits one that has the same generation and flag.
Fits-Same :
    (p : ProgramView) (active : ProgramSceneId) (revision : ℕ) (d d' : ProgramDirector)
    (r : TickResult)
    → Same d d'
    → Fits p active revision d' r
    → Fits p active revision d r
Fits-Same p active revision d d' r same h = (omega (arith, same.0, h.0), take_fits r.take h.1)
  where
    take_fits :
        (take : Option Take)
        → TakeFits p active revision d' take r.director
        → TakeFits p active revision d take r.director
    take_fits none k = k ∙ same.1
    take_fits (some t) k = k

act-Fits :
    (calls : List BpCall) (p : ProgramView) (active : ProgramSceneId) (revision : ℕ)
    (target : ProgramSceneId) (final_bp : Bool) (d : ProgramDirector)
    → safe p ≡ true
    → Fits p active revision d (act calls p active revision target final_bp d)
unfolding act
act-Fits calls p active revision target final_bp d sf =
    let same = recommend-Same (target == active) target d in
    Fits-Same p active revision d (recommend (target == active) target d)
      (act calls p active revision target final_bp d) same
      (end_tick-Fits d.manual (target == active) calls p active revision target final_bp
        (recommend (target == active) target d) same.2 refl sf)

stopped-Fits :
    (calls : List BpCall) (p : ProgramView) (active : ProgramSceneId) (revision : ℕ)
    (d : ProgramDirector)
    → Fits p active revision d (stopped calls d)
stopped-Fits calls p active revision d = (omega arith, refl)

follow_plan-Fits :
    (calls : List BpCall) (p : ProgramView) (active : ProgramSceneId) (revision : ℕ) (plan : Plan)
    → safe p ≡ true
    → Fits p active revision plan.director (follow_plan calls p active revision plan)
unfolding follow_plan
follow_plan-Fits calls p active revision plan sf = elim (Option-cases plan.target) [
  | inl rest ↦ rw (rest, follow_plan) (stopped-Fits calls p active revision plan.director)
  | inr (target, go) ↦
      rw (go, follow_plan) (act-Fits calls p active revision target plan.final_bp plan.director sf)
]

module _ (timings : Timings) (calls : List BpCall) (s : Surroundings) (delta : ℕ)
    (active : ProgramSceneId) (revision : ℕ) where
  tick_safe-Fits :
      (d : ProgramDirector)
      → safe s.program ≡ true
      → Fits s.program active revision d (tick_safe timings calls s delta active revision d)
  unfolding tick_safe
  tick_safe-Fits d sf =
      Fits-Same s.program active revision d
        (plan_scene timings s delta active (refresh s delta d)).director
        (tick_safe timings calls s delta active revision d)
        (plan_scene-Same timings s delta active (refresh s delta d))
        (follow_plan-Fits calls s.program active revision
          (plan_scene timings s delta active (refresh s delta d)) sf)

  entered-Same : (d : ProgramDirector) → Same d (entered s.program active d)
  entered-Same d =
      let p = s.program in
      let d1 = enter_match (context_key p) d in
      let d2 = enter_map (execution_key p) d1 in
      let d3 = enter_scene active d2 in
      Same-trans d d3 (note_halftime p active d3)
        (Same-trans d d2 d3
          (Same-trans d d1 d2 (enter_match-Same (context_key p) d)
            (enter_map-Same (execution_key p) d1))
          (enter_scene-Same active d2))
        (note_halftime-Same p active d3)

  tick_entered-Fits :
      (d : ProgramDirector)
      → Fits s.program active revision d (tick_entered timings calls s delta active revision d)
  unfolding tick_entered
  tick_entered-Fits d = elim (Bool-cases (not (safe s.program))) [
    | inl unsafe ↦
        rw unsafe (stopped-Fits calls s.program active revision (blocked_by data_unsafe d))
    | inr fine ↦
        elim (Bool-cases
          (is_paused s.program && not (is_regulation_halftime s.program) && not d.halftime_seen)) [
            | inl paused ↦
                rw (fine, paused)
                  (stopped-Fits calls s.program active revision (blocked_by game_paused d))
            | inr running ↦ rw (fine, running) (tick_safe-Fits d (ground (arith, fine)))
          ]
  ]

  tick_open-Fits :
      (d : ProgramDirector)
      → Fits s.program active revision d (tick_open timings calls s delta active revision d)
  unfolding tick_open
  tick_open-Fits d =
      Fits-Same s.program active revision d (entered s.program active d)
        (tick_open timings calls s delta active revision d) (entered-Same d)
        (tick_entered-Fits (entered s.program active d))

  tick_after-Fits :
      (failure : Option SwitchFailure) (manual : Bool) (d : ProgramDirector)
      → Fits s.program active revision d
          (tick_after failure manual timings calls s delta active revision d)
  unfolding tick_after
  tick_after-Fits none true d = tick_open-Fits d
  tick_after-Fits none false d = tick_open-Fits d
  tick_after-Fits (some why) true d = tick_open-Fits d
  tick_after-Fits (some why) false d = (omega arith, refl)

  tick_production-Fits :
      (d : ProgramDirector)
      → Fits s.program active revision d (tick_production timings calls s delta active revision d)
  unfolding tick_production
  tick_production-Fits d = tick_after-Fits d.failure d.manual d

resume-generation :
    (now : ℕ) (d : ProgramDirector)
    → (d.generation ≤ (enter_production now d).generation)
      × ((enter_production now d).in_flight ≡ d.in_flight)
unfolding resume
resume-generation now d = ground arith

-- The same for a whole tick: a request needs live production and no request before.
abbrev pub TickTakes :
    Surroundings → ProgramSceneId → ℕ → ProgramDirector → Option Take → ProgramDirector → Type 0
TickTakes s active revision d none d' = d'.in_flight ≡ d.in_flight
TickTakes s active revision d (some k) d' =
    (d.in_flight ≡ false)
    × (is_live_production s ≡ true)
    × TakeFits s.program active revision d (some k) d'

abbrev pub TickFits : Surroundings → ProgramSceneId → ℕ → ProgramDirector → TickResult → Type 0
TickFits s active revision d r =
    (d.generation ≤ r.director.generation) × TickTakes s active revision d r.take r.director

takes_of :
    (s : Surroundings) (active : ProgramSceneId) (revision : ℕ) (d d1 d' : ProgramDirector)
    (take : Option Take)
    → d.in_flight ≡ false
    → d1.in_flight ≡ d.in_flight
    → is_live_production s ≡ true
    → TakeFits s.program active revision d1 take d'
    → TickTakes s active revision d take d'
takes_of s active revision d d1 d' none idle same live k = k ∙ same
takes_of s active revision d d1 d' (some t) idle same live k = (idle, live, k)

takes_timed :
    (s : Surroundings) (active : ProgramSceneId) (revision : ℕ) (d d1 : ProgramDirector)
    (take : Option Take) (d' : ProgramDirector)
    → d1.in_flight ≡ d.in_flight
    → TickTakes s active revision d1 take d'
    → TickTakes s active revision d take d'
takes_timed s active revision d d1 none d' same k = k ∙ same
takes_timed s active revision d d1 (some t) d' same k = (sym same ∙ k.0, k.1, k.2)

tick_live-Fits :
    (live : Bool) (timings : Timings) (calls : List BpCall) (s : Surroundings) (delta : ℕ)
    (active : ProgramSceneId) (revision : ℕ) (d : ProgramDirector)
    → is_live_production s ≡ live
    → d.in_flight ≡ false
    → TickFits s active revision d (tick_live live timings calls s delta active revision d)
unfolding tick_live
tick_live-Fits false timings calls s delta active revision d live idle = (omega arith, refl)
tick_live-Fits true timings calls s delta active revision d live idle =
    let d1 = enter_production s.now d in
    let e = resume-generation s.now d in
    let r = tick_production timings calls s delta active revision d1 in
    let f = tick_production-Fits timings calls s delta active revision d1 in
    (omega (arith, e.0, f.0), takes_of s active revision d d1 r.director r.take idle e.1 live f.1)

idle_tick-Fits :
    (timings : Timings) (s : Surroundings) (active : ProgramSceneId) (revision : ℕ)
    (d : ProgramDirector)
    → d.in_flight ≡ false
    → TickFits s active revision d (idle_tick timings s active revision d)
unfolding idle_tick
idle_tick-Fits timings s active revision d idle =
    let timed = record d { last_time = some s.now } in
    let r =
      tick_live (is_live_production s) timings (production_calls s) s (tick_delta s.now d) active
        revision timed in
    let f =
      tick_live-Fits (is_live_production s) timings (production_calls s) s (tick_delta s.now d)
        active revision timed refl idle in
    (f.0, takes_timed s active revision d timed r.take r.director refl f.1)

pub tick-Fits :
    (timings : Timings) (s : Surroundings) (active : ProgramSceneId) (revision : ℕ)
    (d : ProgramDirector)
    → TickFits s active revision d (tick timings s active revision d)
unfolding tick
tick-Fits timings s active revision d = elim (Bool-cases d.in_flight) [
  | inl busy ↦
      subst (λ (b : Bool). TickFits s active revision d (tick_unless b timings s active revision d))
        (sym busy) (omega arith, refl)
  | inr idle ↦
      subst (λ (b : Bool). TickFits s active revision d (tick_unless b timings s active revision d))
        (sym idle) (idle_tick-Fits timings s active revision d idle)
]
