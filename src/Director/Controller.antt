-- ===== src/Director/Controller.antt =====
-- apps/companion/src/program-scenes/controller.ts with the director: which scene is on air. The switches
-- run one after the other. A switch waits for OBS, and once more when it is rolled back, so that it is two
-- or three events. A revision, which the source draws at random, is the number of revisions drawn so far.
-- The transition that OBS is asked for is left out.
use rival_hub_broadcast.Prelude.{
  ℕ, ◌+◌, Bool, true, false, not, ◌&&◌, ◌||◌, Option, none, some, List, [], ◌∷◌, ◌++◌, String, ◌==◌,
  ◌!=◌, nat_eq, string_eq, option_eq, if◌then◌else◌, any,
}
use rival_hub_broadcast.Series.Types.{SeriesBindingState, completed, status_eq}
use rival_hub_broadcast.Director.Types.{
  ProgramSceneId, waiting, matchup, bp, gameplay, halftime, intermap, match_result, scene_eq,
  Timings, ProgramDirector, Surroundings, Take, binding_eq, BpCall, show_final, play,
  finish_scene_exit, SwitchFailure, expired, changed, scene_blocked, no_play, obs_failed,
  new_director,
}
use rival_hub_broadcast.Director.Plan.{is_regulation_halftime}
use rival_hub_broadcast.Director.Tick.{hold, resume, tick, valid_take, finish_take}

-- What the controller sees beside: the operator's view, the BP session, and whether its play command is
-- taken.
pub record Studio : Type 0 where
  pub around : Surroundings
  pub operator_fresh : Bool
  pub operator_context_fresh : Bool
  pub operator_identity : String
  pub bp_has_projection : Bool
  pub bp_hidden : Bool
  pub bp_plays : Bool
  pub bp_revision : ℕ

abbrev bound_series : Studio → Bool
bound_series s = elim s.around.program.series [
  | none ↦ s.around.origin_is_fixture
  | some series ↦ series.binding_state == SeriesBindingState.bound || s.around.origin_is_fixture
]

abbrev series_done : Studio → Bool
series_done s = elim s.around.program.series [
  | none ↦ false
  | some series ↦ series.status == "completed"
]

abbrev has_completed : Studio → Bool
has_completed s = elim s.around.program.series [
  | none ↦ false
  | some series ↦
      any
        (λ m.
          m.status == completed
          && elim m.final_score as (λ _. Bool) [ none ↦ false | some _ ↦ true ])
        series.maps
]

-- Whether `blockedReason` names a reason, for a scene that needs a bound match.
abbrev blocked_bound : Studio → ProgramSceneId → Bool
blocked_bound s matchup = false
blocked_bound s gameplay = not (s.operator_fresh || s.around.origin_is_fixture)
blocked_bound s halftime =
    not
      ((s.operator_fresh && is_regulation_halftime s.around.program) || s.around.origin_is_fixture)
blocked_bound s match_result = not (series_done s || s.around.origin_is_fixture)
blocked_bound s intermap =
    not (has_completed s || s.around.origin_is_fixture)
    || (series_done s && not s.around.origin_is_fixture)
blocked_bound s _ = not (has_completed s || s.around.origin_is_fixture)

unfoldable pub is_blocked : Studio → ProgramSceneId → Bool
unfolding is_regulation_halftime
is_blocked s waiting = false
is_blocked s bp = not (s.around.bp_ready && s.bp_has_projection)
is_blocked s id =
    not s.operator_context_fresh
    || not (bound_series s)
    || s.operator_identity == "mismatch"
    || blocked_bound s id

-- A request in the queue: automatic with its take, or the operator's.
pub record Request : Type 0 where
  pub target : ProgramSceneId
  pub revision : ℕ
  pub take : Option Take

-- A switch that waits for OBS; one that has failed waits for its rollback.
pub record Switch : Type 0 where
  pub request : Request
  pub previous : ProgramSceneId
  pub next_revision : ℕ
  pub prepared_bp : Option ℕ
  pub aborted : Bool
  pub failed : Option SwitchFailure

pub record Scenes : Type 0 where
  pub director : ProgramDirector
  pub active : ProgramSceneId
  pub revision : ℕ
  pub drawn : ℕ
  pub queue : List Request
  pub running : Option Switch
  pub bp_calls : List BpCall

abbrev pub new_scenes : Scenes
new_scenes = record {
  director = new_director;
  active = waiting;
  revision = 0;
  drawn = 0;
  queue = [];
  running = none;
  bp_calls = [];
}

-- A new revision.
abbrev pub renew : Scenes → Scenes
renew c = record c { revision = c.drawn + 1; drawn = c.drawn + 1 }

-- `automaticSwitch?.abort()`
abbrev pub abort_automatic : Option Switch → Option Switch
abort_automatic none = none
abort_automatic (some w) = elim w.request.take [
  | none ↦ some w
  | some _ ↦ some (record w { aborted = true })
]

unfoldable pub resume_automatic : ℕ → ℕ → Scenes → Scenes
unfolding resume
resume_automatic now expected c =
    if expected == c.revision then renew (record c { director = resume now c.director }) else c

unfoldable pub force_scene : ProgramSceneId → Scenes → Scenes
unfolding hold
force_scene id c =
    renew
      (record c { running = abort_automatic c.running; director = hold c.director; active = id })

unfoldable pub select : ProgramSceneId → ℕ → Scenes → Scenes
unfolding hold
select id expected c =
    let held =
      if expected == c.revision
      then record c { director = hold c.director; running = abort_automatic c.running }
      else c in
    record held {
      queue = held.queue ++ record { target = id; revision = expected; take = none } ∷ [];
    }

-- A tick of the director, whose request joins the queue.
unfoldable pub tick_scenes : Timings → Studio → Scenes → Scenes
unfolding tick
tick_scenes timings s c =
    let r = tick timings s.around c.active c.revision c.director in
    let ticked = record c { director = r.director; bp_calls = c.bp_calls ++ r.calls } in
    elim r.take [
      | none ↦ ticked
      | some k ↦ record ticked {
        queue = c.queue ++ record { target = k.target; revision = k.revision; take = some k } ∷ [];
      }
    ]

unfoldable pub valid : Timings → Studio → Scenes → Option Take → Bool
unfolding valid_take
valid timings s c none = true
valid timings s c (some k) = valid_take timings s.around c.director k

-- The answer to a request: the director hears of its own.
unfoldable pub answer : Option Take → Option SwitchFailure → Scenes → Scenes
unfolding finish_take
answer none result c = c
answer (some k) result c = record c { director = finish_take k result c.director }

abbrev pub take_final : Option Take → Bool
take_final none = false
take_final (some k) = k.final_bp

abbrev final_calls : Request → List BpCall
final_calls r = if take_final r.take then show_final ∷ [] else []

-- The switch waits for OBS.
abbrev pub wait_for : Request → Option ℕ → List BpCall → Scenes → Scenes
wait_for r prepared calls c = record c {
  bp_calls = c.bp_calls ++ calls;
  drawn = c.drawn + 1;
  running = some (record {
    request = r;
    previous = c.active;
    next_revision = c.drawn + 1;
    prepared_bp = prepared;
    aborted = false;
    failed = none;
  });
}

-- A switch to another scene starts; a hidden BP is played first.
unfoldable pub start_switch : Studio → Request → Scenes → Scenes
unfolding answer
start_switch s r c =
    if r.target == bp
    then (if s.bp_hidden
        then (if s.bp_plays
            then wait_for r (some s.bp_revision) (play ∷ final_calls r) c
            else answer r.take (some no_play)
                (record c { drawn = c.drawn + 1; bp_calls = c.bp_calls ++ play ∷ [] }))
        else wait_for r none (final_calls r) c)
    else wait_for r none [] c

-- The first half of `selectSerial`, to the call of OBS. `s.bp_revision` is the revision after the play.
unfoldable pub begin_switch : Timings → Studio → Request → Scenes → Scenes
unfolding valid is_blocked answer start_switch
begin_switch timings s r c =
    if not (valid timings s c r.take)
    then answer r.take (some expired) c
    else if r.revision != c.revision
    then answer r.take (some changed) c
    else if is_blocked s r.target
    then answer r.take (some scene_blocked) c
    else if r.target == c.active
    then answer r.take none c
    else start_switch s r c

-- The next request, if no switch waits for OBS.
unfoldable pub serve : Timings → Studio → Scenes → Scenes
unfolding begin_switch
serve timings s c = elim c.running [
  | some _ ↦ c
  | none ↦ elim c.queue [ [] ↦ c | r ∷ rest ↦ begin_switch timings s r (record c { queue = rest }) ]
]

-- A failed switch asks OBS to go back, and waits for it.
abbrev pub fail_switch : SwitchFailure → Switch → Scenes → Scenes
fail_switch why w c = record c { running = some (record w { failed = some why }) }

-- The end of a rollback: the BP that was played for the switch is left, if nothing else has changed it.
unfoldable pub end_rollback : Studio → SwitchFailure → Switch → Scenes → Scenes
unfolding answer
end_rollback s why w c = answer w.request.take (some why) (record c {
  running = none;
  bp_calls =
      if w.prepared_bp == some s.bp_revision
      then c.bp_calls ++ finish_scene_exit ∷ []
      else c.bp_calls;
})

-- The scene goes on air.
unfoldable pub commit_switch : Switch → Scenes → Scenes
unfolding answer
commit_switch w c = answer w.request.take none (record c {
  running = none;
  active = w.request.target;
  revision = w.next_revision;
  bp_calls = if w.previous == bp then c.bp_calls ++ finish_scene_exit ∷ [] else c.bp_calls;
})

-- The second half: OBS has switched, or has failed.
unfoldable pub end_switch : Timings → Studio → Bool → Switch → Scenes → Scenes
unfolding valid is_blocked commit_switch
end_switch timings s obs_ok w c =
    let r = w.request in
    if not obs_ok
    then fail_switch obs_failed w c
    else if is_blocked s r.target
    then fail_switch scene_blocked w c
    else if not (valid timings s c r.take) || w.aborted || r.revision != c.revision
    then fail_switch expired w c
    else commit_switch w c

unfoldable pub settle : Timings → Studio → Bool → Scenes → Scenes
unfolding end_switch end_rollback
settle timings s obs_ok c = elim c.running [
  | none ↦ c
  | some w ↦ elim w.failed [
    | none ↦ end_switch timings s obs_ok w c
    | some why ↦ end_rollback s why w c
  ]
]

-- What can happen, in any order.
pub data SceneEvent : Type 0 where
  ticks : Studio → SceneEvent
  selects : ProgramSceneId → ℕ → SceneEvent
  forces : ProgramSceneId → SceneEvent
  resumes : ℕ → ℕ → SceneEvent
  serves : Studio → SceneEvent
  settles : Studio → Bool → SceneEvent

unfoldable pub scene_step : Timings → SceneEvent → Scenes → Scenes
unfolding tick_scenes select force_scene resume_automatic serve settle
scene_step timings (ticks s) c = tick_scenes timings s c
scene_step timings (selects id revision) c = select id revision c
scene_step timings (forces id) c = force_scene id c
scene_step timings (resumes now revision) c = resume_automatic now revision c
scene_step timings (serves s) c = serve timings s c
scene_step timings (settles s obs_ok) c = settle timings s obs_ok c

unfoldable pub run_scenes : Timings → List SceneEvent → Scenes → Scenes
unfolding scene_step
run_scenes timings [] c = c
run_scenes timings (e ∷ es) c = run_scenes timings es (scene_step timings e c)
