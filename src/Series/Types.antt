-- ===== src/Series/Types.antt =====
-- packages/core/src/series-progress/types.ts, and what the reducer reads of match-context/types.ts
-- and telemetry/map.ts.
use native.Mathlib.Decide.{ℕ_discrete}
use rival_hub_broadcast.Prelude.{
  ℕ, ℤ, Bool, true, false, Option, List, String, Eq, ◌≡◌, ◌↔◌, arith, eq_of_discrete,
  String-discrete,
}

pub data SourceSide : Type 0 where
  ct t unknown : SourceSide

pub data RoundWinCondition : Type 0 where
  elimination bomb defuse time unknown : RoundWinCondition

pub data MatchFormat : Type 0 where
  bo1 bo3 bo5 : MatchFormat

pub data MatchVetoActionType : Type 0 where
  ban pick side_pick decider : MatchVetoActionType

pub record ObservedRoundWin : Type 0 where
  pub round_number : ℕ
  pub winner_side : SourceSide
  pub win_condition : RoundWinCondition

pub record MatchPlayerContext : Type 0 where
  pub player_id : String
  pub steam64 : Option String
  pub display_name : Option String
  pub avatar_url : Option String
  pub is_starter : Bool

pub record MatchEntrantContext : Type 0 where
  pub entry_id : String
  pub name : String
  pub logo_url : Option String
  pub players : List MatchPlayerContext

pub record MatchMapContext : Type 0 where
  pub map_id : String
  pub map_order : ℕ
  pub map_name : String
  pub picked_by_entry_id : Option String
  pub team_a_start_side : Option SourceSide
  pub score_a : Option ℕ
  pub score_b : Option ℕ

pub record MatchVetoStepContext : Type 0 where
  pub action_type : MatchVetoActionType
  pub map_name : String

pub record MatchContext : Type 0 where
  pub match_id : String
  pub format : MatchFormat
  pub entrant_a : MatchEntrantContext
  pub entrant_b : MatchEntrantContext
  pub maps : List MatchMapContext
  pub veto : List MatchVetoStepContext

pub data SeriesBindingState : Type 0 where
  bound unbound needs_operator : SeriesBindingState

pub data SeriesMapStatus : Type 0 where
  pending current completed not_played : SeriesMapStatus

pub data SeriesCompleteness : Type 0 where
  complete partial unavailable : SeriesCompleteness

pub data SeriesProgressIssueCode : Type 0 where
  context_invalid map_unbound map_mismatch map_ambiguous : SeriesProgressIssueCode
  map_order_exception side_mapping_unproven final_score_unavailable : SeriesProgressIssueCode
  final_score_conflict round_number_unavailable round_history_partial : SeriesProgressIssueCode
  round_history_cap checkpoint_incompatible checkpoint_invalid : SeriesProgressIssueCode
  operator_bind_applied operator_bind_rejected context_result_conflict : SeriesProgressIssueCode

pub data IssueSeverity : Type 0 where
  info warning error : IssueSeverity

-- One reason for which a restored observation disagrees with the checkpoint, with its numbers.
pub data RestoreConflict : Type 0 where
  history_after_round : ℕ → ℤ → RestoreConflict
  history_longer_than_score : ℕ → ℤ → RestoreConflict
  round_wins_after_round : ℕ → ℤ → RestoreConflict
  round_wins_count_off : ℕ → ℤ → RestoreConflict
  history_after_round_wins : ℕ → ℕ → RestoreConflict
  final_score_off : RestoreConflict

-- The text of an issue: its template, with the values put in.
pub data IssueMessage : Type 0 where
  no_playable_slot : IssueMessage
  not_in_plan : String → IssueMessage
  several_slots : String → IssueMessage
  skips_planned_map : String → IssueMessage
  no_absolute_round_number : IssueMessage
  duplicate_round_conflict : IssueMessage
  history_over_cap : IssueMessage
  no_round_side_proof : IssueMessage
  incomplete_final_score : IssueMessage
  no_map_side_proof : IssueMessage
  no_unique_winner : IssueMessage
  bind_refused : IssueMessage
  bind_done : ℕ → String → IssueMessage
  bind_not_current : IssueMessage
  round_wins_conflict : IssueMessage
  round_wins_not_absolute : IssueMessage
  restore_mismatch : List RestoreConflict → IssueMessage

pub record SeriesProgressIssue : Type 0 where
  pub code : SeriesProgressIssueCode
  pub severity : IssueSeverity
  pub message : IssueMessage
  pub map_order : Option ℕ
  pub map_epoch : Option ℕ

pub record SeriesEntrant : Type 0 where
  pub entry_id : String
  pub name : String
  pub logo_url : Option String

pub data SeriesMapSelection : Type 0 where
  pick : String → SeriesMapSelection
  decider : SeriesMapSelection
  unknown : SeriesMapSelection

pub record SeriesRoundResult : Type 0 where
  pub round_number : ℕ
  pub winner_side : SourceSide
  pub winner_entry_id : Option String
  pub win_condition : RoundWinCondition

pub record SeriesRoundHistory : Type 0 where
  pub completeness : SeriesCompleteness
  pub rounds : List SeriesRoundResult

pub record Score : Type 0 where
  pub a : ℕ
  pub b : ℕ

pub record SeriesMapProgress : Type 0 where
  pub map_id : Option String
  pub map_order : ℕ
  pub map_name : String
  pub selection : SeriesMapSelection
  pub team_a_start_side : Option SourceSide
  pub status : SeriesMapStatus
  pub execution_map_epoch : Option ℕ
  pub final_score : Option Score
  pub winner_entry_id : Option String
  pub round_history : SeriesRoundHistory

pub record Entrants : Type 0 where
  pub a : SeriesEntrant
  pub b : SeriesEntrant

pub record SeriesProgress : Type 0 where
  pub match_id : String
  pub format : MatchFormat
  pub required_wins : ℕ
  pub entrants : Entrants
  pub score : Score
  pub maps : List SeriesMapProgress
  pub current_map_order : Option ℕ
  pub binding_state : SeriesBindingState
  pub issues : List SeriesProgressIssue

pub record SeriesSideProof : Type 0 where
  pub source_generation : ℕ
  pub map_epoch : ℕ
  pub a : SourceSide
  pub b : SourceSide

-- The observed score: whole numbers that the source does not bound, or null.
pub record ObservedScore : Type 0 where
  pub ct : Option ℤ
  pub t : Option ℤ

pub record SeriesMapObservation : Type 0 where
  pub source_generation : ℕ
  pub map_epoch : ℕ
  pub map_name : Option String
  pub map_ended : Bool
  pub round_number : Option ℤ
  pub score : ObservedScore
  pub round_wins : List ObservedRoundWin

pub data ResetReason : Type 0 where
  same_map_restart restore operator_correction : ResetReason

pub record MapExecutionChanged : Type 0 where
  pub source_generation : ℕ
  pub map_epoch : ℕ
  pub previous_map_epoch : ℕ
  pub previous_map_name : Option String
  pub map_name : Option String
  pub reset_reason : Option ResetReason

pub record RoundEnded : Type 0 where
  pub source_generation : ℕ
  pub map_epoch : ℕ
  pub round_number : Option ℤ
  pub winner_side : SourceSide
  pub win_condition : RoundWinCondition

pub record MapEnded : Type 0 where
  pub source_generation : ℕ
  pub map_epoch : ℕ
  pub final_score : ObservedScore

pub record OperatorMapBind : Type 0 where
  pub source_generation : ℕ
  pub map_epoch : ℕ
  pub map_order : ℕ
  pub map_name : Option String
  pub reason : String

pub data SeriesProgressEvent : Type 0 where
  map_execution_changed : MapExecutionChanged → SeriesProgressEvent
  round_ended : RoundEnded → SeriesProgressEvent
  map_ended : MapEnded → SeriesProgressEvent
  operator_map_bind : OperatorMapBind → SeriesProgressEvent

pub record SeriesProgressSyncInput : Type 0 where
  pub events : List SeriesProgressEvent
  pub observation : Option SeriesMapObservation
  pub side_proof : Option SeriesSideProof
  pub restore : Bool

abbrev pub required_series_wins : MatchFormat → ℕ
required_series_wins bo1 = 1
required_series_wins bo3 = 2
required_series_wins bo5 = 3

abbrev side_eqb : SourceSide → SourceSide → Bool
side_eqb SourceSide.ct SourceSide.ct = true
side_eqb SourceSide.t SourceSide.t = true
side_eqb SourceSide.unknown SourceSide.unknown = true
side_eqb _ _ = false

pub side_eqb_iff : (a b : SourceSide) → (side_eqb a b ≡ true) ↔ (a ≡ b)
side_eqb_iff a b = ground arith

instance abbrev pub side_eq : Eq SourceSide
side_eq = record { equals = side_eqb; equals_iff = side_eqb_iff }

abbrev condition_eqb : RoundWinCondition → RoundWinCondition → Bool
condition_eqb elimination elimination = true
condition_eqb bomb bomb = true
condition_eqb defuse defuse = true
condition_eqb time time = true
condition_eqb RoundWinCondition.unknown RoundWinCondition.unknown = true
condition_eqb _ _ = false

pub condition_eqb_iff : (a b : RoundWinCondition) → (condition_eqb a b ≡ true) ↔ (a ≡ b)
condition_eqb_iff a b = ground arith

instance abbrev pub condition_eq : Eq RoundWinCondition
condition_eq = record { equals = condition_eqb; equals_iff = condition_eqb_iff }

abbrev status_eqb : SeriesMapStatus → SeriesMapStatus → Bool
status_eqb pending pending = true
status_eqb current current = true
status_eqb completed completed = true
status_eqb not_played not_played = true
status_eqb _ _ = false

pub status_eqb_iff : (a b : SeriesMapStatus) → (status_eqb a b ≡ true) ↔ (a ≡ b)
status_eqb_iff a b = ground arith

instance abbrev pub status_eq : Eq SeriesMapStatus
status_eq = record { equals = status_eqb; equals_iff = status_eqb_iff }

unfoldable pub issue_code_discrete : Discrete SeriesProgressIssueCode
issue_code_discrete = hlevel

instance abbrev pub issue_code_eq : Eq SeriesProgressIssueCode
issue_code_eq = eq_of_discrete issue_code_discrete

unfoldable pub veto_action_discrete : Discrete MatchVetoActionType
veto_action_discrete = hlevel

instance abbrev pub veto_action_eq : Eq MatchVetoActionType
veto_action_eq = eq_of_discrete veto_action_discrete

unfoldable pub progress_discrete : Discrete SeriesProgress
progress_discrete = hlevel (ℕ_discrete, String-discrete)
