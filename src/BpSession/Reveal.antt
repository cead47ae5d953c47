-- ===== src/BpSession/Reveal.antt =====
-- What is on air of the veto of apps/companion/src/bp/controller.ts, over every run.
use rival_hub_broadcast.Prelude.{
  ℕ, ◌+◌, ◌-◌, ◌≤◌, ◌≡◌, refl, sym, ap, Bool, true, false, Option, none, some, List, [], ◌∷◌, ◌==◌,
  ◌!=◌, nat_eq, option_eq, eq_of_equals, if◌then◌else◌, if_cases, leb, arith,
}
use rival_hub_broadcast.BpSession.{
  BpProjection, projection_eq, BpState, hidden, revealing, shown, hiding, BpSession, new_session,
  Reading, set_paused, take_projection, step_count, hide_now, revealed_by, presentation_now,
  advance, get, show_final, finish_scene_exit, BpCommand, play, hide, begin_at, carry_out, BpAnswer,
  command, BpEvent, pauses, reads, shows_final, exits, commands, bp_step, run_bp,
}

-- Nothing is revealed while hidden, everything when shown, and never more than there is; without a
-- projection nothing is on air.
pub record IsPresentable (s : BpSession) : Type 0 where
  pub hidden_empty : s.state ≡ hidden → s.count ≡ 0
  pub shown_all : s.state ≡ shown → s.count ≡ step_count s
  pub within : s.count ≤ step_count s
  pub needs_projection : s.projection ≡ none → s.state ≡ hidden

-- The same before the count of a reveal is brought up to date.
record CanAdvance (s : BpSession) : Type 0 where
  hidden_empty : s.state ≡ hidden → s.count ≡ 0
  shown_all : s.state ≡ shown → s.count ≡ step_count s
  hiding_within : s.state ≡ hiding → s.count ≤ step_count s
  needs_projection : s.projection ≡ none → s.state ≡ hidden

state_cases {ℓ κ} :
    {A : Type ℓ} (P : A → Type κ) (t : BpState) (x y z w : A)
    → (t ≡ hidden → P x)
    → (t ≡ revealing → P y)
    → (t ≡ shown → P z)
    → (t ≡ hiding → P w)
    → P (elim t as (λ _. A) [ hidden ↦ x | revealing ↦ y | shown ↦ z | hiding ↦ w ])
state_cases P hidden x y z w f g h k = f refl
state_cases P revealing x y z w f g h k = g refl
state_cases P shown x y z w f g h k = h refl
state_cases P hiding x y z w f g h k = k refl

advance-IsPresentable : (now : ℕ) (s : BpSession) → CanAdvance s → IsPresentable (advance now s)
unfolding advance
advance-IsPresentable now s h =
    state_cases IsPresentable s.state s _ s _
      (λ e. record {
        hidden_empty = h.hidden_empty;
        shown_all = h.shown_all;
        within = omega (arith, h.hidden_empty e);
        needs_projection = h.needs_projection;
      })
      (λ e.
        if_cases
          (λ (t : BpState). IsPresentable (record s { count = revealed_by now s; state = t }))
          (revealed_by now s == step_count s) shown revealing
          (λ all. record {
            hidden_empty = λ q. cc;
            shown_all = λ q. eq_of_equals (revealed_by now s) (step_count s) all;
            within = omega arith;
            needs_projection = λ n. cc (h.needs_projection n, e);
          })
          (λ some_more. record {
            hidden_empty = λ q. cc;
            shown_all = λ q. cc;
            within = omega arith;
            needs_projection = λ n. cc (h.needs_projection n, e);
          }))
      (λ e. record {
        hidden_empty = h.hidden_empty;
        shown_all = h.shown_all;
        within = omega (arith, h.shown_all e);
        needs_projection = h.needs_projection;
      })
      (λ e.
        if_cases IsPresentable (leb 360 (presentation_now now s - s.started_at)) (hide_now s) s
          (λ over. record {
            hidden_empty = λ q. refl;
            shown_all = λ q. cc;
            within = omega arith;
            needs_projection = λ n. refl;
          })
          (λ lasts. record {
            hidden_empty = h.hidden_empty;
            shown_all = h.shown_all;
            within = h.hiding_within e;
            needs_projection = h.needs_projection;
          }))

can_advance : (s : BpSession) → IsPresentable s → CanAdvance s
can_advance s h = record {
  hidden_empty = h.hidden_empty;
  shown_all = h.shown_all;
  hiding_within = λ e. h.within;
  needs_projection = h.needs_projection;
}

take_projection-CanAdvance :
    (p : Option BpProjection) (s : BpSession) → CanAdvance s → CanAdvance (take_projection p s)
unfolding take_projection
take_projection-CanAdvance p s h =
    if_cases CanAdvance (some p == s.fingerprint) s _ (λ same. h)
      (λ other. record {
        hidden_empty = λ e. refl;
        shown_all = λ e. cc;
        hiding_within = λ e. cc;
        needs_projection = λ n. refl;
      })

get-IsPresentable : (r : Reading) (s : BpSession) → CanAdvance s → IsPresentable (get r s)
unfolding get
get-IsPresentable r s h =
    advance-IsPresentable r.now (take_projection r.projection s)
      (take_projection-CanAdvance r.projection s h)

set_paused-IsPresentable :
    (paused : Bool) (now : ℕ) (s : BpSession)
    → IsPresentable s
    → IsPresentable (set_paused paused now s)
unfolding set_paused
set_paused-IsPresentable paused now s h = paused_by s.paused_at
  where
    paused_by :
        (paused_at : Option ℕ)
        → IsPresentable (elim paused_at as (λ _. BpSession) [
          | none ↦ if paused then record s { paused_at = some now } else s
          | some at ↦
              if paused
              then s
              else record s { paused_duration = s.paused_duration + (now - at); paused_at = none }
        ])
    paused_by none =
        if_cases IsPresentable paused (record s { paused_at = some now }) s
          (λ e. record {
            hidden_empty = h.hidden_empty;
            shown_all = h.shown_all;
            within = h.within;
            needs_projection = h.needs_projection;
          })
          (λ e. h)
    paused_by (some at) =
        if_cases IsPresentable paused s _ (λ e. h)
          (λ e. record {
            hidden_empty = h.hidden_empty;
            shown_all = h.shown_all;
            within = h.within;
            needs_projection = h.needs_projection;
          })

hide_now-IsPresentable : (s : BpSession) → IsPresentable (hide_now s)
hide_now-IsPresentable s = record {
  hidden_empty = λ e. refl;
  shown_all = λ e. cc;
  within = omega arith;
  needs_projection = λ n. refl;
}

shown_final :
    (p : Option BpProjection) (g : BpSession)
    → g.projection ≡ p
    → IsPresentable g
    → IsPresentable (elim p as (λ _. BpSession) [
      | none ↦ g
      | some q ↦ record g { state = shown; count = q.steps; revision = g.revision + 1 }
    ])
shown_final none g e h = h
shown_final (some q) g e h =
    let all : step_count g ≡ q.steps =
      ap (λ (o : Option BpProjection). elim o as (λ _. ℕ) [ none ↦ 0 | some p ↦ p.steps ]) e in
    record {
      hidden_empty = λ k. cc;
      shown_all = λ k. sym all;
      within = omega (arith, all);
      needs_projection = λ n. cc (n, e);
    }

show_final-IsPresentable :
    (r : Reading) (s : BpSession) → IsPresentable s → IsPresentable (show_final r s)
unfolding show_final
show_final-IsPresentable r s h =
    shown_final (get r s).projection (get r s) refl (get-IsPresentable r s (can_advance s h))

finish_scene_exit-IsPresentable :
    (r : Reading) (s : BpSession) → IsPresentable s → IsPresentable (finish_scene_exit r s)
unfolding finish_scene_exit
finish_scene_exit-IsPresentable r s h =
    let g = get r s in
    state_cases IsPresentable g.state g (hide_now g) (hide_now g) (hide_now g)
      (λ e. get-IsPresentable r s (can_advance s h)) (λ e. hide_now-IsPresentable g)
      (λ e. hide_now-IsPresentable g) (λ e. hide_now-IsPresentable g)

-- A command that is taken leaves a session that can go on.
abbrev Begins : Option BpSession → Type 0
Begins none = Unit
Begins (some b) = CanAdvance b

played :
    (p : Option BpProjection) (now : ℕ) (g : BpSession)
    → g.projection ≡ p
    → Begins (elim p as (λ _. Option BpSession) [
      | none ↦ none
      | some _ ↦ some (begin_at now revealing 1 g)
    ])
played none now g e = tt
played (some p) now g e = record {
  hidden_empty = λ k. cc;
  shown_all = λ k. cc;
  hiding_within = λ k. cc;
  needs_projection = λ n. cc (n, e);
}

hidden_from :
    (now : ℕ) (g : BpSession)
    → (g.state ≡ hidden → ⊥)
    → IsPresentable g
    → CanAdvance (begin_at now hiding g.count g)
hidden_from now g off h = record {
  hidden_empty = λ k. cc;
  shown_all = λ k. cc;
  hiding_within = λ k. h.within;
  needs_projection = λ n. absurd (off (h.needs_projection n));
}

carry_out-Begins :
    (kind : BpCommand) (now : ℕ) (g : BpSession) → IsPresentable g → Begins (carry_out kind now g)
unfolding carry_out
carry_out-Begins play now g h =
    state_cases Begins g.state _ none none none (λ e. played g.projection now g refl) (λ e. tt)
      (λ e. tt) (λ e. tt)
carry_out-Begins hide now g h =
    state_cases Begins g.state none (some (begin_at now hiding g.count g))
      (some (begin_at now hiding g.count g)) none (λ e. tt) (λ e. hidden_from now g (λ q. cc) h)
      (λ e. hidden_from now g (λ q. cc) h) (λ e. tt)

answered :
    (r : Reading) (g : BpSession) (begun : Option BpSession)
    → IsPresentable g
    → Begins begun
    → IsPresentable
        (elim begun as (λ _. BpAnswer) [
          | none ↦ record { session = g; taken = false }
          | some b ↦ record { session = get r b; taken = true }
        ]).session
answered r g none h k = h
answered r g (some b) h k = get-IsPresentable r b k

command-IsPresentable :
    (kind : BpCommand) (revision : ℕ) (r : Reading) (s : BpSession)
    → IsPresentable s
    → IsPresentable (command kind revision r s).session
unfolding command
command-IsPresentable kind revision r s h =
    let g = get r s in
    let fits = get-IsPresentable r s (can_advance s h) in
    if_cases (λ (a : BpAnswer). IsPresentable a.session) (g.revision != revision) _ _
      (λ stale. fits)
      (λ current. answered r g (carry_out kind r.now g) fits (carry_out-Begins kind r.now g fits))

bp_step-IsPresentable :
    (e : BpEvent) (s : BpSession) → IsPresentable s → IsPresentable (bp_step e s)
unfolding bp_step
bp_step-IsPresentable (pauses paused now) s h = set_paused-IsPresentable paused now s h
bp_step-IsPresentable (reads r) s h = get-IsPresentable r s (can_advance s h)
bp_step-IsPresentable (shows_final r) s h = show_final-IsPresentable r s h
bp_step-IsPresentable (exits r) s h = finish_scene_exit-IsPresentable r s h
bp_step-IsPresentable (commands kind revision r) s h = command-IsPresentable kind revision r s h

run_bp-IsPresentable :
    (es : List BpEvent) (s : BpSession) → IsPresentable s → IsPresentable (run_bp es s)
unfolding run_bp
run_bp-IsPresentable [] s h = h
run_bp-IsPresentable (e ∷ es) s h =
    run_bp-IsPresentable es (bp_step e s) (bp_step-IsPresentable e s h)

-- In every order of reads, pauses, commands, final shows and exits of the scene: while the veto is hidden
-- no step of it is revealed, when it is shown every step is, at no time more than there are, and without a
-- projection it is hidden.
pub session-IsPresentable : (es : List BpEvent) → IsPresentable (run_bp es new_session)
session-IsPresentable es = run_bp-IsPresentable es new_session (record {
  hidden_empty = λ e. refl;
  shown_all = λ e. cc;
  within = omega arith;
  needs_projection = λ n. refl;
})
