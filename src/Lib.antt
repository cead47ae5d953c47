-- ===== src/Lib.antt =====
-- The core of Mizar, a broadcast tool for Counter-Strike 2 matches: what it makes of the game's
-- telemetry (packages/core) and how it hands snapshots on (apps/companion).
--
-- The parts, and the files of the repository:
--   Prelude      the shared vocabulary: tests on numbers, lists, sorting, integers, equality as a class,
--                and the string functions that the source calls.
--   MapName      packages/core/src/map-name.ts: display names of maps to canonical ones.
--   Series       packages/core/src/series-progress/{types,reducer}.ts: the progress of a best-of series.
--                Series.Types holds the data; Series.Create, Binding, Rounds, Reconcile, Score and Sync
--                hold the functions of reducer.ts under their names in snake case, helpers for their
--                loops and branches beside them. syncSeriesProgress is sync_series_progress, and
--                sync_progress is its first component.
--   Runtime      packages/core/src/runtime: the one runtime state of the program. Runtime.Continuity is
--                continuity.ts and freshness.ts, ObjectiveTiming, Transitions and Reducer are the files
--                of those names, and PlayerStats with PlayerStatsReducer is player-stats.ts.
--   Identity     packages/core/src/identity: who the observed players are. Identity.Types, CanonicalIndex
--                and SideMapping are the files of those names; Players, Resolve and Resolver are
--                resolve.ts, and ActiveLineup is active-lineup.ts. SideProof is seriesSideProofFor of
--                apps/companion/src/projections/projection-coordinator.ts.
--   Director     apps/companion/src/program-scenes/{director,controller}.ts: which scene is on air.
--                Director.Plan and Tick are the director's tick in its steps, Director.Controller the
--                scene controller with the director in it; isRegulationHalftime is of presentation.ts.
--   LatestWins   apps/companion/src/runtime/latest-wins.ts: the bounded hand-over of snapshots to a
--                consumer, as a transition system.
--   CueLane      apps/companion/src/local-protocol/program-cue-publisher.ts: the lane of baselines and
--                cues to the renderers, the publisher with its subscribers as a transition system.
--   Channel      apps/companion/src/local-protocol/channel-publisher.ts and packages/protocol/src/
--                acceptance.ts: snapshots from the publisher, through its latest-wins consumers, to the
--                acceptance of a renderer.
--   Outbox       apps/companion/src/output/reliable-outbox.ts: events kept on the disk until their sink
--                takes or refuses them, with the queue of match-context/serial-commit.ts that runs its
--                operations one after the other.
--   Replay       packages/replay/src/session.ts: the cursor of a recorded capture, its seeks and playback.
--   BpSession    apps/companion/src/bp/controller.ts: the session that reveals the veto on air.
--   BpSequence   packages/core/src/projection/bp-sequence.ts: the order of bans, picks and sides.
-- The runtime reduces frames and control inputs to a state and transitions; the series reduces the
-- transitions, the observed map and the side proof of the identity to a progress; both use the
-- canonical map names. The snapshots made of their states go through a latest-wins consumer, on the
-- local channels to the acceptance of each renderer, the events through the outbox, the cues through the
-- cue lane. The director reads a projection of these states, and asks the scene controller for scenes
-- and the BP session for its animation. The replay session and the veto sequence stand for themselves.
--
-- How the code is read:
--   * A state is a record, an operation a function from a state to the next one, an enum or a tagged
--     union a data type. A function that throws returns an Option: after none the state is
--     the one before.
--   * Counters, sequence numbers, epochs and orders are natural numbers, observed round numbers and
--     scores are integers, and a number that may be NaN or infinite is a Measure. Times, durations,
--     damage and money are whole counts of a unit that is small enough; there is no rounding to model.
--   * A loop is a structural recursion over its list, so no fuel is needed.
--   * `localeCompare` of map ids, which breaks ties of equal orders, is an argument id_le. Lower-casing
--     is that of ASCII letters. A record keyed by Steam ids is an association list.
--   * The text of an issue is its template with the values put in, so two issues differ where their
--     texts do. The flag `changed` compares the progresses and not their JSON.
--   * The text of an issue of the identity is left out; it is for the operator, and nothing reads it. The
--     order of the JSON texts of two players of one id is an argument json_le.
--   * The schema of an event, the write to the disk, the sink and the guards of the outbox are arguments
--     of its operations. An instant is its count of milliseconds.
--   * Promises and timers are events, of the consumers, the scenes and the replay session alike; any
--     order in which they can occur is allowed. A playback speed is a fraction.
--   * The director's keys, which are texts in the source, are compared part by part. The revisions that
--     the scene controller draws at random are counted, so that no two are equal. A countdown below 0
--     counts as 0.
--
-- Not modelled: the checkpoint of a series (packages/core/src/series-progress/types.ts from
-- isSeriesProgressCheckpoint on), the shell that drives the reducers
-- (apps/companion/src/runtime/program-runtime.ts), projections and the match context. Parsing
-- of payloads, transport, OBS and the renderers are input and output.
pub mod Prelude
pub mod MapName
pub mod Series
pub mod Runtime
pub mod LatestWins
pub mod Outbox
pub mod Replay
pub mod BpSequence
pub mod Identity
pub mod Director
pub mod CueLane
pub mod Channel
pub mod BpSession
