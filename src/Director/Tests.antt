-- ===== src/Director/Tests.antt =====
-- The scenes of apps/companion/src/program-scenes, run: the introduction of a match, an operator's
-- override of an open request, and a BP that the clock overtakes.
use rival_hub_broadcast.Prelude.{ℕ, Bool, true, false, none, some, List, [], ◌∷◌, ◌++◌, ◌≡◌, refl}
use rival_hub_broadcast.Series.Types.{MatchFormat, current, SeriesBindingState}
use rival_hub_broadcast.Runtime.Types.{MapPhase, freezetime}
use rival_hub_broadcast.Director.Types.{
  matchup, bp, gameplay, ProgramView, default_program_timings, scene_code, format_code,
  binding_code, blocked, expired,
}
use rival_hub_broadcast.Director.Plan.{freeze_left}
use rival_hub_broadcast.Director.Controller.{
  Studio, Scenes, new_scenes, SceneEvent, ticks, forces, serves, settles, scene_step, run_scenes,
}
use rival_hub_broadcast.Director.OneTake.{IsOrdered}
use rival_hub_broadcast.Director.Runs.{scenes-IsOrdered}
use rival_hub_broadcast.Director.Generations.{AreVoid, overridden-Void}
use rival_hub_broadcast.Director.OnAir.{MayShow, scene_step-MayShow}

-- The first freeze time of a bound map, with so much of it left.
abbrev freezing : ℕ → ProgramView
freezing left = record {
  context_status = "fresh";
  telemetry_status = "fresh";
  identity_status = "resolved";
  match_id = some "m1";
  series = some (record {
    entrant_a_id = "a";
    entrant_b_id = "b";
    format = MatchFormat.bo1;
    binding_state = SeriesBindingState.bound;
    status = "live";
    maps =
        record { map_order = 1; map_name = "de_nuke"; status = current; final_score = none } ∷ [];
    current_map_order = some 1;
  });
  cursor = record {
    producer_instance_id = "p";
    live_session_id = some "l";
    source_generation = 0;
    map_epoch = 1;
  };
  clock = some (record { phase = some "freezetime"; ends_in_ms = some left });
  map_phase = some MapPhase.live;
  map_name = some "de_nuke";
  map_round = some 0;
  score_ct = some 0;
  score_t = some 0;
  round_phase = some freezetime;
}

abbrev studio : ℕ → Bool → ℕ → Studio
studio now bp_ready left = record {
  around = record {
    now = now;
    production = true;
    origin_is_fixture = false;
    program = freezing left;
    bp_ready = bp_ready;
    bp_shown = false;
  };
  operator_fresh = true;
  operator_context_fresh = true;
  operator_identity = "resolved";
  bp_has_projection = true;
  bp_hidden = true;
  bp_plays = true;
  bp_revision = 4;
}

-- The director asks for a scene, and OBS shows it.
abbrev shows : Studio → List SceneEvent
shows s = ticks s ∷ serves s ∷ settles s true ∷ []

abbrev run : List SceneEvent → Scenes
run es = run_scenes default_program_timings es new_scenes

abbrev matchup_asked : List SceneEvent
matchup_asked = ticks (studio 0 false 15000) ∷ serves (studio 0 false 15000) ∷ []

asks_for_matchup : (run matchup_asked).director.next ≡ some matchup
unfolding run_scenes scene_code format_code binding_code freeze_left
asks_for_matchup = refl

shows_matchup : (run (shows (studio 0 false 15000))).active ≡ matchup
unfolding run_scenes scene_code format_code binding_code freeze_left
shows_matchup = refl

then_gameplay :
    (run (
      shows (studio 0 false 15000)
      ++ shows (studio 4000 false 11000)
      ++ shows (studio 7000 false 8900))).active
    ≡ gameplay
unfolding run_scenes scene_code format_code binding_code freeze_left
then_gameplay = refl

-- The final BP is on air with ten and a half seconds left: the director asks for the matchup, which its
-- own request refuses, and it is blocked from then on.
abbrev overtaken_bp : Scenes
overtaken_bp =
    run (
      shows (studio 0 true 30000)
      ++ shows (studio 1000 true 10500)
      ++ shows (studio 2000 true 8000))

bp_stays : overtaken_bp.active ≡ bp
unfolding run_scenes scene_code format_code binding_code freeze_left
bp_stays = refl

director_is_blocked : overtaken_bp.director.mode ≡ blocked
unfolding run_scenes scene_code format_code binding_code freeze_left
director_is_blocked = refl

why_blocked : overtaken_bp.director.failure ≡ some expired
unfolding run_scenes scene_code format_code binding_code freeze_left
why_blocked = refl

scenes-IsOrdered_example : IsOrdered (run matchup_asked)
scenes-IsOrdered_example = scenes-IsOrdered default_program_timings matchup_asked

overridden-Void_example :
    AreVoid default_program_timings
      (studio 1000 false 14000).around
      (run matchup_asked)
      (run (matchup_asked ++ forces gameplay ∷ ticks (studio 1000 false 14000) ∷ [])).director
overridden-Void_example =
    overridden-Void default_program_timings matchup_asked (ticks (studio 1000 false 14000) ∷ [])
      (forces gameplay) (studio 1000 false 14000).around refl

scene_step-MayShow_example :
    MayShow default_program_timings
      (settles (studio 0 false 15000) true)
      (run matchup_asked)
      matchup
unfolding run_scenes scene_code format_code binding_code freeze_left scene_step
scene_step-MayShow_example =
    scene_step-MayShow default_program_timings (settles (studio 0 false 15000) true)
      (run matchup_asked)
