-- ===== src/BpSequence/Tests.antt =====
-- The sequence of a best-of-three in packages/core/src/projection/bp-sequence.ts.
use rival_hub_broadcast.Prelude.{◌≡◌, refl, length}
use rival_hub_broadcast.Series.Types.{bo3}
use rival_hub_broadcast.BpSequence.{a, local_bp_sequence}

ten_steps : length (local_bp_sequence bo3 a) ≡ 10
unfolding local_bp_sequence
ten_steps = refl
