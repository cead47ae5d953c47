-- ===== src/Identity.antt =====
-- packages/core/src/identity: who the observed players are, and which side each entrant plays on.
mod Types
mod CanonicalIndex
mod SideMapping
mod Players
mod Resolve
mod Resolver
mod Rosters
mod Observed
mod Matching
mod Proof
mod Grounds
mod SideProof
pub mod ActiveLineup
mod Tests
