-- ===== src/Replay/History.antt =====
-- Any calls and callbacks of a session of packages/replay/src/session.ts, in any order.
use rival_hub_broadcast.Prelude.{nat_eq}
