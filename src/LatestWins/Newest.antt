-- ===== src/LatestWins/Newest.antt =====
-- The newest snapshot offered to a consumer of apps/companion/src/runtime/latest-wins.ts is not lost.
use rival_hub_broadcast.Prelude.{true, ◌≡◌, refl, Option, none, some, List, [], ◌∷◌, arith, nat_eq}
use rival_hub_broadcast.LatestWins.{
  accepting, Consumer, offer, start, complete_delivery, close, close_timed_out, finish_close,
  resolve_close, report, idle, health_state,
}
use rival_hub_broadcast.LatestWins.Invariant.{
  Event, on_offer, on_settled, on_close, on_timeout, step, can_occur, IsConsistent, Reached, begin,
  after, newest, consumer-IsConsistent,
}

abbrev pub head {ℓ} : {T : Type ℓ} → List T → Option T
head [] = none
head (x ∷ xs) = some x

-- The snapshot that waits, or else the one sent last.
abbrev pub front {ℓ} : {T : Type ℓ} → Consumer T → Option T
front c = elim c.pending_latest [ some snapshot ↦ some snapshot | none ↦ head c.sends ]

step-front {ℓ} :
    {T : Type ℓ} (c : Consumer T) (e : Event T) (last : Option T)
    → IsConsistent c
    → can_occur c e ≡ true
    → (c.lifecycle ≡ accepting → front c ≡ last)
    → (step c e).lifecycle ≡ accepting
    → front (step c e) ≡ newest c e last
unfolding step offer start complete_delivery close close_timed_out finish_close resolve_close report
step-front c (on_offer snapshot) last i h f a = ground arith
step-front c (on_settled succeeded) last i h f a = ground arith
step-front c on_close last i h f a = ground arith
step-front c on_timeout last i h f a = ground arith

-- While offers are accepted, the snapshot last offered is the one that waits or, if none waits, the
-- one sent last, in every order of events.
pub front-newest {ℓ} :
    {T : Type ℓ} {c : Consumer T} {last : Option T}
    → Reached c last
    → c.lifecycle ≡ accepting
    → front c ≡ last
front-newest (begin id timeout) a = refl
front-newest (after run e h) a = step-front _ e _ (consumer-IsConsistent run) h (front-newest run) a

-- A consumer that is idle has sent the snapshot last offered.
idle-newest {ℓ} :
    {T : Type ℓ} {c : Consumer T} {last : Option T}
    → Reached c last
    → health_state c ≡ idle
    → head c.sends ≡ last
unfolding health_state
idle-newest {c = c} run e =
    let i = consumer-IsConsistent run in
    let waits = i.waiting_behind in
    let open_state : c.lifecycle ≡ accepting = ground arith in
    let same = front-newest run open_state in ground arith
