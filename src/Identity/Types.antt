-- ===== src/Identity/Types.antt =====
-- packages/core/src/identity/{types,evidence}.ts, and what identity reads of telemetry/player.ts.
-- The text of an issue is for the operator and is left out: nothing reads it.
use rival_hub_broadcast.Prelude.{
  ℕ, Bool, true, false, Option, none, some, List, String, Eq, ◌≡◌, ◌↔◌, arith, eq_of_discrete,
}
use rival_hub_broadcast.Series.Types.{SourceSide, IssueSeverity}
use rival_hub_broadcast.Runtime.Types.{CoverageStatus, absent, present, MapPhase}

pub data IdentityState : Type 0 where
  unbound resolving matched degraded mismatch : IdentityState

pub data IdentityIssueCode : Type 0 where
  context_unbound roster_evidence_pending allplayers_unavailable : IdentityIssueCode
  allplayers_degraded partial_roster_evidence source_generation_changed : IdentityIssueCode
  map_epoch_changed roster_incomplete missing_canonical_steam64 : IdentityIssueCode
  missing_canonical_display_name duplicate_canonical_player_id : IdentityIssueCode
  duplicate_canonical_steam64 bot_or_noncanonical_source_id : IdentityIssueCode
  unexpected_human_steam64 duplicate_observed_identity unknown_observed_side : IdentityIssueCode
  ambiguous_side_mapping side_mapping_conflict lineup_differs_from_expected : IdentityIssueCode
  map_not_confirmed map_mismatch : IdentityIssueCode

pub record IssueDetails : Type 0 where
  pub source_player_id : Option String
  pub steam64 : Option String
  pub canonical_player_id : Option String
  pub entry_id : Option String
  pub observed_side : Option SourceSide
  pub map_side : Option SourceSide

pub record IdentityIssue : Type 0 where
  pub code : IdentityIssueCode
  pub severity : IssueSeverity
  pub details : IssueDetails

abbrev pub no_details : IssueDetails
no_details = record {
  source_player_id = none;
  steam64 = none;
  canonical_player_id = none;
  entry_id = none;
  observed_side = none;
  map_side = none;
}

abbrev pub issue : IdentityIssueCode → IssueSeverity → IssueDetails → IdentityIssue
issue code severity details = record { code = code; severity = severity; details = details }

-- A block that is only tested for presence and compared is its JSON text.
pub record ObservedPlayer : Type 0 where
  pub source_player_id : String
  pub display_name : Option String
  pub side : Option SourceSide
  pub observer_slot : Option ℕ
  pub activity : Option String
  pub state : Option String
  pub match_stats : Option String
  pub weapons : Option String
  pub position : Option String
  pub forward : Option String

pub record MapSideNames : Type 0 where
  pub ct : Option String
  pub t : Option String

pub record IdentityObservationInput : Type 0 where
  pub source_generation : ℕ
  pub map_epoch : ℕ
  pub all_players : Option (List ObservedPlayer)
  pub all_players_coverage : Option CoverageStatus
  pub map_name : Option String
  pub map_phase : Option MapPhase
  pub map_side_names : Option MapSideNames

pub record NormalizedIdentityEvidence : Type 0 where
  pub source_generation : ℕ
  pub map_epoch : ℕ
  pub all_players : Option (List ObservedPlayer)
  pub all_players_coverage : CoverageStatus
  pub map_name : Option String
  pub map_phase : Option MapPhase
  pub map_side_names : Option MapSideNames

pub data Evidence : Type 0 where
  current retained : Evidence

pub record ResolvedIdentityPlayer : Type 0 where
  pub canonical_player_id : String
  pub entry_id : String
  pub steam64 : String
  pub display_name : Option String
  pub avatar_url : Option String
  pub is_starter : Bool
  pub source_player_id : Option String
  pub observed_display_name : Option String
  pub observer_slot : Option ℕ
  pub side : SourceSide
  pub evidence : Evidence

pub record UnresolvedObservedPlayer : Type 0 where
  pub source_player_id : String
  pub display_name : Option String
  pub side : SourceSide
  pub observer_slot : Option ℕ

pub record IdentitySideMapping : Type 0 where
  pub a : SourceSide
  pub b : SourceSide

pub record IdentityCapabilities : Type 0 where
  pub canonical_player_mapping : Bool
  pub canonical_team_branding : Bool
  pub identity_dependent_result : Bool
  pub neutral_telemetry : Bool

pub record IdentityResolution : Type 0 where
  pub state : IdentityState
  pub source_generation : ℕ
  pub map_epoch : ℕ
  pub players : List ResolvedIdentityPlayer
  pub unresolved : List UnresolvedObservedPlayer
  pub side_mapping : IdentitySideMapping
  pub issues : List IdentityIssue
  pub capabilities : IdentityCapabilities

unfoldable pub normalize_identity_evidence : IdentityObservationInput → NormalizedIdentityEvidence
normalize_identity_evidence input = record {
  source_generation = input.source_generation;
  map_epoch = input.map_epoch;
  all_players = input.all_players;
  all_players_coverage = elim input.all_players_coverage [
    | some coverage ↦ coverage
    | none ↦ elim input.all_players [ none ↦ absent | some _ ↦ present ]
  ];
  map_name = input.map_name;
  map_phase = input.map_phase;
  map_side_names = input.map_side_names;
}

abbrev state_eqb : IdentityState → IdentityState → Bool
state_eqb unbound unbound = true
state_eqb resolving resolving = true
state_eqb matched matched = true
state_eqb degraded degraded = true
state_eqb mismatch mismatch = true
state_eqb _ _ = false

pub state_eqb_iff : (a b : IdentityState) → (state_eqb a b ≡ true) ↔ (a ≡ b)
state_eqb_iff a b = ground arith

instance abbrev pub state_eq : Eq IdentityState
state_eq = record { equals = state_eqb; equals_iff = state_eqb_iff }

unfoldable pub identity_code_discrete : Discrete IdentityIssueCode
identity_code_discrete = hlevel

instance abbrev pub identity_code_eq : Eq IdentityIssueCode
identity_code_eq = eq_of_discrete identity_code_discrete

unfoldable pub severity_discrete : Discrete IssueSeverity
severity_discrete = hlevel

instance abbrev pub severity_eq : Eq IssueSeverity
severity_eq = eq_of_discrete severity_discrete
