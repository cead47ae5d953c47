-- ===== src/Director/OneTake.antt =====
-- The automatic requests that are open in apps/companion/src/program-scenes, and their service.
use mathlib.Core.List.{append_assoc}
use rival_hub_broadcast.Prelude.{
  ℕ, ◌+◌, ◌≤◌, ◌≡◌, refl, sym, ap, ◌∙◌, subst, inl, inr, Bool, true, false, not, Option, none, some,
  List, [], ◌∷◌, ◌++◌, ◌==◌, ◌!=◌, nat_eq, arith, Bool-cases, Option-cases, length, length-append,
  All, All-imp,
}
use rival_hub_broadcast.Director.Types.{
  scene_eq, bp, Timings, BpCall, Take, SwitchFailure, scene_blocked, expired, changed, no_play,
}
use rival_hub_broadcast.Director.Tick.{finish_take}
use rival_hub_broadcast.Director.Controller.{
  Studio, Request, Switch, Scenes, serve, begin_switch, start_switch, answer, valid, is_blocked,
  wait_for,
}

abbrev pub take_list : Option Take → List Take
take_list none = []
take_list (some k) = k ∷ []

abbrev pub queue_takes : List Request → List Take
queue_takes [] = []
queue_takes (r ∷ rs) = take_list r.take ++ queue_takes rs

abbrev pub running_takes : Option Switch → List Take
running_takes none = []
running_takes (some w) = take_list w.request.take

abbrev pub flag : Bool → ℕ
flag true = 1
flag false = 0

abbrev pub AreOld : ℕ → List Take → Type 0
AreOld generation takes = All (λ k. k.generation ≤ generation) takes

-- The open automatic requests: one while the director waits for its answer and none otherwise, none of
-- them newer than the director.
pub record IsOrdered (c : Scenes) : Type 0 where
  pub one :
      length (running_takes c.running) + length (queue_takes c.queue) ≡ flag c.director.in_flight
  pub running_old : AreOld c.director.generation (running_takes c.running)
  pub queue_old : AreOld c.director.generation (queue_takes c.queue)

pub AreOld-later : (g h : ℕ) (takes : List Take) → g ≤ h → AreOld g takes → AreOld h takes
AreOld-later g h takes le old = All-imp _ _ takes (λ k (o : k.generation ≤ g). omega arith) old

pub queue_takes-append :
    (xs ys : List Request) → queue_takes (xs ++ ys) ≡ queue_takes xs ++ queue_takes ys
queue_takes-append [] ys = refl
queue_takes-append (x ∷ xs) ys =
    ap (λ (l : List Take). take_list x.take ++ l) (queue_takes-append xs ys)
    ∙ sym (append_assoc (take_list x.take) (queue_takes xs) (queue_takes ys))

-- An answer closes its request.
pub answer-IsOrdered :
    (take : Option Take) (result : Option SwitchFailure) (c : Scenes)
    → c.running ≡ none
    → length (take_list take) + length (queue_takes c.queue) ≡ flag c.director.in_flight
    → AreOld c.director.generation (queue_takes c.queue)
    → IsOrdered (answer take result c)
unfolding answer finish_take
answer-IsOrdered none result c still one old = record {
  one = rw still one;
  running_old = rw still tt;
  queue_old = old;
}
answer-IsOrdered (some k) none c still one old = record {
  one = rw still (ground arith);
  running_old = rw still tt;
  queue_old = AreOld-later c.director.generation _ (queue_takes c.queue) (ground arith) old;
}
answer-IsOrdered (some k) (some why) c still one old = record {
  one = rw still (ground arith);
  running_old = rw still tt;
  queue_old = AreOld-later c.director.generation _ (queue_takes c.queue) (ground arith) old;
}

-- What a request in hand needs to be answered, or to run.
abbrev pub CanServe : Request → Scenes → Type 0
CanServe r c =
    (c.running ≡ none)
    × (length (take_list r.take) + length (queue_takes c.queue) ≡ flag c.director.in_flight)
    × AreOld c.director.generation (take_list r.take)
    × AreOld c.director.generation (queue_takes c.queue)

wait_for-IsOrdered :
    (r : Request) (prepared : Option ℕ) (calls : List BpCall) (c : Scenes)
    → CanServe r c
    → IsOrdered (wait_for r prepared calls c)
wait_for-IsOrdered r prepared calls c h = record { one = h.1; running_old = h.2; queue_old = h.3 }

pub answers :
    (r : Request) (result : Option SwitchFailure) (c : Scenes)
    → CanServe r c
    → IsOrdered (answer r.take result c)
answers r result c h = answer-IsOrdered r.take result c h.0 h.1 h.3

start_switch-IsOrdered :
    (s : Studio) (r : Request) (c : Scenes) → CanServe r c → IsOrdered (start_switch s r c)
unfolding start_switch
start_switch-IsOrdered s r c h = elim (Bool-cases (r.target == bp)) [
  | inr other ↦ rw other (wait_for-IsOrdered r none _ c h)
  | inl to_bp ↦ elim (Bool-cases s.bp_hidden) [
    | inr shown ↦ rw (to_bp, shown) (wait_for-IsOrdered r none _ c h)
    | inl hidden ↦ elim (Bool-cases s.bp_plays) [
      | inl plays ↦ rw (to_bp, hidden, plays) (wait_for-IsOrdered r (some s.bp_revision) _ c h)
      | inr refused ↦ rw (to_bp, hidden, refused) (answers r (some no_play) _ h)
    ]
  ]
]

begin_switch-IsOrdered :
    (timings : Timings) (s : Studio) (r : Request) (c : Scenes)
    → CanServe r c
    → IsOrdered (begin_switch timings s r c)
unfolding begin_switch
begin_switch-IsOrdered timings s r c h = elim (Bool-cases (not (valid timings s c r.take))) [
  | inl gone ↦ rw gone (answers r (some expired) c h)
  | inr holds ↦ elim (Bool-cases (r.revision != c.revision)) [
    | inl moved ↦ rw (holds, moved) (answers r (some changed) c h)
    | inr same ↦ elim (Bool-cases (is_blocked s r.target)) [
      | inl blocked ↦ rw (holds, same, blocked) (answers r (some scene_blocked) c h)
      | inr free ↦ elim (Bool-cases (r.target == c.active)) [
        | inl there ↦ rw (holds, same, free, there) (answers r none c h)
        | inr away ↦ rw (holds, same, free, away) (start_switch-IsOrdered s r c h)
      ]
    ]
  ]
]

-- The takes at the head of a queue and behind it.
AreOld-split : (g : ℕ) (xs ys : List Take) → AreOld g (xs ++ ys) → AreOld g xs × AreOld g ys
AreOld-split g [] ys h = (tt, h)
AreOld-split g (x ∷ xs) ys h = let k = AreOld-split g xs ys h.1 in ((h.0, k.0), k.1)

serve_from :
    (timings : Timings) (s : Studio) (c : Scenes) (queue : List Request)
    → c.running ≡ none
    → c.queue ≡ queue
    → IsOrdered c
    → IsOrdered (elim queue as (λ _. Scenes) [
      | [] ↦ c
      | r ∷ rest ↦ begin_switch timings s r (record c { queue = rest })
    ])
serve_from timings s c [] still e h = h
serve_from timings s c (r ∷ rest) still e h =
    let old =
      AreOld-split c.director.generation (take_list r.take) (queue_takes rest) (
        subst (λ (q : List Request). AreOld c.director.generation (queue_takes q)) e h.queue_old) in
    let one : length (running_takes c.running) + length (queue_takes (r ∷ rest))
        ≡ flag c.director.in_flight =
      subst
        (λ (q : List Request).
          length (running_takes c.running) + length (queue_takes q) ≡ flag c.director.in_flight)
        e h.one in
    begin_switch-IsOrdered timings s r (record c { queue = rest })
      (
        still,
        omega (
          arith,
          one,
          ap (λ (w : Option Switch). length (running_takes w)) still,
          length-append (take_list r.take) (queue_takes rest),
        ),
        old.0,
        old.1,
      )

pub serve-IsOrdered :
    (timings : Timings) (s : Studio) (c : Scenes) → IsOrdered c → IsOrdered (serve timings s c)
unfolding serve
serve-IsOrdered timings s c h = elim (Option-cases c.running) [
  | inr (w, busy) ↦ rw (busy, serve) h
  | inl still ↦ rw (still, serve) (serve_from timings s c c.queue still refl h)
]
