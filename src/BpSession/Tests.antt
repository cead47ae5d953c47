-- ===== src/BpSession/Tests.antt =====
-- The BP session of apps/companion/src/bp/controller.ts, run: a reveal with a pause, and a command that
-- comes too late.
use rival_hub_broadcast.Prelude.{ℕ, ◌≡◌, refl, true, false, some, List, [], ◌∷◌, ◌++◌}
use rival_hub_broadcast.BpSession.{
  shown, new_session, Reading, play, hide, BpEvent, pauses, reads, commands, command, run_bp,
}
use rival_hub_broadcast.BpSession.Reveal.{IsPresentable, session-IsPresentable}

abbrev at_ms : ℕ → Reading
at_ms now = record { now = now; projection = some (record { steps = 3; text = "bo1" }) }

-- The first read is revision 1, the play makes it 2; a pause of two seconds does not count.
abbrev reveal : List BpEvent
reveal =
    commands play 1 (at_ms 1000)
    ∷ reads (at_ms 2700)
    ∷ pauses true 2700
    ∷ reads (at_ms 4000)
    ∷ pauses false 4700
    ∷ []

pause_stands_still : (run_bp reveal new_session).count ≡ 2
unfolding run_bp
pause_stands_still = refl

all_shown : (run_bp (reveal ++ reads (at_ms 6200) ∷ []) new_session).state ≡ shown
unfolding run_bp
all_shown = refl

late_command_refused : (command hide 1 (at_ms 6200) (run_bp reveal new_session)).taken ≡ false
unfolding run_bp command
late_command_refused = refl

session-IsPresentable_example :
    IsPresentable (run_bp (reveal ++ reads (at_ms 6200) ∷ []) new_session)
session-IsPresentable_example = session-IsPresentable (reveal ++ reads (at_ms 6200) ∷ [])
