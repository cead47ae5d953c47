-- ===== src/Series/Create.antt =====
-- packages/core/src/series-progress/reducer.ts: the progress that a match context starts with.
-- The collation of `localeCompare` is an argument: `id_le x y` says that it does not put `y` first.
use rival_hub_broadcast.Prelude.{
  ℕ, Bool, ◌&&◌, ◌||◌, Option, none, some, List, [], map, String, ◌==◌, ltb, eqb, string_eq, find,
  sort,
}
use rival_hub_broadcast.MapName.{canonical_map_name}
use rival_hub_broadcast.Series.Types.{
  MatchContext, MatchMapContext, MatchEntrantContext, MatchVetoStepContext, SeriesMapSelection,
  SeriesMapProgress, SeriesProgress, SeriesRoundHistory, SeriesEntrant, Score, SeriesMapStatus,
  pending, completed, unavailable, unbound, veto_action_eq, decider, required_series_wins,
}
use rival_hub_broadcast.Series.Score.{winner_for_score, recompute_score}

unfoldable pub is_decider_of : MatchMapContext → MatchVetoStepContext → Bool
is_decider_of m step =
    step.action_type == decider && canonical_map_name step.map_name == canonical_map_name m.map_name

unfoldable pub selection_for : MatchContext → MatchMapContext → SeriesMapSelection
selection_for context m = elim m.picked_by_entry_id [
  | some entry ↦ SeriesMapSelection.pick entry
  | none ↦ elim (find (is_decider_of m) context.veto) [
    | none ↦ SeriesMapSelection.unknown
    | some _ ↦ SeriesMapSelection.decider
  ]
]

unfoldable pub both_scores : Option ℕ → Option ℕ → Option Score
both_scores (some a) (some b) = some (record { a = a; b = b })
both_scores _ _ = none

unfoldable pub final_score_from_context : MatchMapContext → Option Score
final_score_from_context m = both_scores m.score_a m.score_b

abbrev pub empty_round_history : SeriesRoundHistory
empty_round_history = record { completeness = unavailable; rounds = [] }

unfoldable pub initial_map_status : MatchMapContext → SeriesMapStatus
initial_map_status m = elim (both_scores m.score_a m.score_b) [
  | none ↦ pending
  | some _ ↦ completed
]

-- The comparator of the plan's order.
unfoldable pub plan_le : (String → String → Bool) → MatchMapContext → MatchMapContext → Bool
plan_le id_le left right =
    ltb left.map_order right.map_order
    || (eqb left.map_order right.map_order && id_le left.map_id right.map_id)

abbrev pub entrant_of : MatchEntrantContext → SeriesEntrant
entrant_of e = record { entry_id = e.entry_id; name = e.name; logo_url = e.logo_url }

abbrev anonymous : MatchEntrantContext → SeriesEntrant
anonymous e = record { entry_id = e.entry_id; name = ""; logo_url = none }

unfoldable pub initial_map : MatchContext → MatchMapContext → SeriesMapProgress
initial_map context m =
    let final = final_score_from_context m in
    record {
      map_id = some m.map_id;
      map_order = m.map_order;
      map_name = canonical_map_name m.map_name;
      selection = selection_for context m;
      team_a_start_side = m.team_a_start_side;
      status = initial_map_status m;
      execution_map_epoch = none;
      final_score = final;
      winner_entry_id =
          winner_for_score final
            (record { a = anonymous context.entrant_a; b = anonymous context.entrant_b });
      round_history = empty_round_history;
    }

unfoldable pub initial_maps : (String → String → Bool) → MatchContext → List SeriesMapProgress
initial_maps id_le context = map (initial_map context) (sort (plan_le id_le) context.maps)

unfoldable pub create_series_progress : (String → String → Bool) → MatchContext → SeriesProgress
create_series_progress id_le context =
    let maps = initial_maps id_le context in
    recompute_score
      (record {
        match_id = context.match_id;
        format = context.format;
        required_wins = required_series_wins context.format;
        entrants = record { a = entrant_of context.entrant_a; b = entrant_of context.entrant_b };
        score = record { a = 0; b = 0 };
        maps = maps;
        current_map_order = none;
        binding_state = unbound;
        issues = [];
      })
      maps
