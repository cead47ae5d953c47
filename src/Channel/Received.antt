-- ===== src/Channel/Received.antt =====
-- What packages/protocol/src/acceptance.ts makes of snapshots that arrive in order.
use rival_hub_broadcast.Prelude.{
  ◌≤◌, ◌<◌, ◌≡◌, refl, sym, ap, ◌∙◌, subst, Bool, true, false, some, List, [], ◌∷◌, String,
  string_eq, equals_self, arith, All,
}
use rival_hub_broadcast.Channel.{
  Snapshot, SnapshotAcceptanceState, create_snapshot_acceptance_state, accept_snapshot, accepted,
  state_of, differs, is_old, regresses,
}

-- The state of a renderer that has received the snapshots, the newest first.
abbrev pub received : (Snapshot → Bool) → List Snapshot → SnapshotAcceptanceState
received accepts [] = create_snapshot_acceptance_state
received accepts (s ∷ ss) = (accept_snapshot accepts s (received accepts ss)).state

-- Each of them was accepted.
abbrev pub AreAccepted : (Snapshot → Bool) → List Snapshot → Type 0
AreAccepted accepts [] = Unit
AreAccepted accepts (s ∷ ss) =
    ((accept_snapshot accepts s (received accepts ss)).kind ≡ accepted) × AreAccepted accepts ss

-- Snapshots of one producer on one channel that fit the schema, with rising numbers, and with runtime
-- numbers that do not fall.
abbrev pub Precedes : Snapshot → Snapshot → Type 0
Precedes k s = (k.channel_seq < s.channel_seq) × (k.cursor.runtime_seq ≤ s.cursor.runtime_seq)

abbrev pub IsOf : (Snapshot → Bool) → String → String → Snapshot → Type 0
IsOf accepts channel producer s =
    (accepts s ≡ true) × (s.channel ≡ channel) × (s.cursor.producer_instance_id ≡ producer)

abbrev pub IsChain : (Snapshot → Bool) → String → String → List Snapshot → Type 0
IsChain accepts channel producer [] = Unit
IsChain accepts channel producer (s ∷ ss) =
    IsOf accepts channel producer s
    × All (λ k. Precedes k s) ss
    × IsChain accepts channel producer ss

first-accepted :
    (accepts : Snapshot → Bool) (s : Snapshot)
    → accepts s ≡ true
    → ((accept_snapshot accepts s create_snapshot_acceptance_state).kind ≡ accepted)
      × ((accept_snapshot accepts s create_snapshot_acceptance_state).state ≡ state_of s)
unfolding accept_snapshot
first-accepted accepts s fits = rw fits (refl, refl)

differs_self : (x y : String) → x ≡ y → differs (some x) y ≡ false
differs_self x y e =
    subst (λ (z : String). differs (some x) z ≡ false) e
      (ap (λ (b : Bool). elim b as (λ _. Bool) [ true ↦ false | false ↦ true ]) (equals_self x))

next-accepted :
    (accepts : Snapshot → Bool) (channel producer : String) (k s : Snapshot)
    → IsOf accepts channel producer k
    → IsOf accepts channel producer s
    → Precedes k s
    → ((accept_snapshot accepts s (state_of k)).kind ≡ accepted)
      × ((accept_snapshot accepts s (state_of k)).state ≡ state_of s)
unfolding accept_snapshot
next-accepted accepts channel producer k s from_k from_s order =
    let channels = differs_self k.channel s.channel (from_k.1 ∙ sym from_s.1) in
    let producers =
      differs_self k.cursor.producer_instance_id s.cursor.producer_instance_id
        (from_k.2 ∙ sym from_s.2) in
    let newer : is_old (some k.channel_seq) s.channel_seq ≡ false = ground (arith, order.0) in
    let rises : regresses (some k.cursor.runtime_seq) s.cursor.runtime_seq ≡ false =
      ground (arith, order.1) in
    let fits = from_s.0 in rw (fits, channels, producers, newer, rises) (refl, refl)

chain-received :
    (accepts : Snapshot → Bool) (channel producer : String) (ss : List Snapshot)
    → IsChain accepts channel producer ss
    → AreAccepted accepts ss
      × (received accepts ss ≡ elim ss as (λ _. SnapshotAcceptanceState) [
        | [] ↦ create_snapshot_acceptance_state
        | s ∷ _ ↦ state_of s
      ])
chain-received accepts channel producer [] h = (tt, refl)
chain-received accepts channel producer (s ∷ []) h =
    let f = first-accepted accepts s h.0.0 in ((f.0, tt), f.1)
chain-received accepts channel producer (s ∷ k ∷ ss) h =
    let before = chain-received accepts channel producer (k ∷ ss) h.2 in
    let f = next-accepted accepts channel producer k s h.2.0 h.0 h.1.0 in
    (
      (
        subst (λ (a : SnapshotAcceptanceState). (accept_snapshot accepts s a).kind ≡ accepted)
            (sym before.1) f.0,
        before.0,
      ),
      ap (λ (a : SnapshotAcceptanceState). (accept_snapshot accepts s a).state) before.1 ∙ f.1,
    )

pub chain-AreAccepted :
    (accepts : Snapshot → Bool) (channel producer : String) (ss : List Snapshot)
    → IsChain accepts channel producer ss
    → AreAccepted accepts ss
chain-AreAccepted accepts channel producer ss h = (chain-received accepts channel producer ss h).0

-- After an order of snapshots the renderer stands at the newest one.
pub chain-last :
    (accepts : Snapshot → Bool) (channel producer : String) (s : Snapshot) (ss : List Snapshot)
    → IsChain accepts channel producer (s ∷ ss)
    → received accepts (s ∷ ss) ≡ state_of s
chain-last accepts channel producer s ss h = (chain-received accepts channel producer (s ∷ ss) h).1
