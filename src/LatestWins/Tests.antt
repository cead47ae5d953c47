-- ===== src/LatestWins/Tests.antt =====
-- A consumer of apps/companion/src/runtime/latest-wins.ts that is offered three numbers, and closed.
use rival_hub_broadcast.Prelude.{ℕ, true, false, ◌≡◌, refl, some, [], ◌∷◌}
use rival_hub_broadcast.LatestWins.{
  Consumer, fresh, accepting, idle, health_state, offer, start, complete_delivery, report,
}
use rival_hub_broadcast.LatestWins.Invariant.{
  on_offer, on_settled, on_close, step, IsConsistent, Reached, begin, after, consumer-IsConsistent,
}
use rival_hub_broadcast.LatestWins.Newest.{front, front-newest}
use rival_hub_broadcast.LatestWins.Closing.{Closes, close-Closes}

abbrev first_offer : Consumer ℕ
first_offer = step (fresh "radar" 10) (on_offer 1)

abbrev third_offer : Consumer ℕ
third_offer = step (step first_offer (on_offer 2)) (on_offer 3)

abbrev drained : Consumer ℕ
drained = step (step third_offer (on_settled true)) (on_settled false)

offered_events : Reached third_offer (some 3)
unfolding step offer start
offered_events =
    after (after (after (begin "radar" 10) (on_offer 1) refl) (on_offer 2) refl) (on_offer 3) refl

drained_events : Reached drained (some 3)
unfolding step offer start complete_delivery
drained_events = after (after offered_events (on_settled true) refl) (on_settled false) refl

sends_newest : drained.sends ≡ 3 ∷ 1 ∷ []
unfolding step offer start complete_delivery report
sends_newest = refl

consumer-IsConsistent_example : IsConsistent third_offer
consumer-IsConsistent_example = consumer-IsConsistent offered_events

still_accepting : third_offer.lifecycle ≡ accepting
unfolding step offer start
still_accepting = refl

front-newest_example : front third_offer ≡ some 3
front-newest_example = front-newest offered_events still_accepting

drained_idle : health_state drained ≡ idle
unfolding step offer start complete_delivery health_state report
drained_idle = refl

abbrev closing_consumer : Consumer ℕ
closing_consumer = step third_offer on_close

close-Closes_example : Closes closing_consumer
close-Closes_example = close-Closes offered_events
