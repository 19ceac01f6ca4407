-- ===== src/Timer/Tests.antt =====
-- Runs of timer.cpp, and its theorems at a concrete manager: the callback of the timer 0 starts
-- another timer and stops the timer 1.
use librf.Prelude.{ℕ, zero, ◌≡◌, refl, Bool, true, false, List, [], ◌∷◌, ◌++◌, ltb}
use librf.Timer.{
  Target, Manager, Request, adds, stops, timer_manager, request, update, invalid, empty,
  stop_handler, no_handler,
}
use librf.Timer.Once.{EachOnce, entries}
use librf.Timer.Acts.{Event, asks, ticks, clears, act, acts, acts-EachOnce}
use librf.Timer.Due.{due, later, timers}
use librf.Timer.Updates.{started, update-acts}
use librf.Timer.Handled.{handler_of, Handled, stop_handler-Handled}

abbrev blank : ℕ → Target
blank _ = record { tp = 0; cb = false; st = invalid }

abbrev answers : ℕ → Bool → List Request
answers zero false = adds 12 ∷ stops 1 ∷ []
answers p canceld = []

abbrev events : List Event
events = asks (adds 5 ∷ adds 9 ∷ adds 2 ∷ []) ∷ ticks 6 ∷ ticks 10 ∷ []

abbrev after_events : Manager
after_events = acts answers (timer_manager blank) events

abbrev two_made : Manager
two_made = request (timer_manager blank) (adds 5 ∷ adds 9 ∷ [])

runs : after_events.calls ≡ (2, false) ∷ (0, false) ∷ (1, true) ∷ []
unfolding acts timer_manager
runs = refl

kept : after_events.runing ≡ (12, 3) ∷ []
unfolding acts timer_manager
kept = refl

cleared :
    (act answers after_events clears).calls ≡ (2, false) ∷ (0, false) ∷ (1, true) ∷ (3, true) ∷ []
unfolding acts timer_manager
cleared = refl

not_empty : empty after_events ≡ false
unfolding acts empty timer_manager
not_empty = refl

acts-EachOnce_example : EachOnce after_events (λ q. entries q after_events.runing)
acts-EachOnce_example = acts-EachOnce answers blank events

update-acts_example :
    (timers (update answers 20 after_events).calls
      ≡ timers (started answers after_events).calls ++ due 20 (started answers after_events).runing)
    × ((update answers 20 after_events).runing ≡ later 20 (started answers after_events).runing)
update-acts_example = update-acts answers blank events 20

-- The timer 0 was called, and the timer 3, which its callback has started, was not.
late : stop_handler after_events (handler_of 0) ≡ (false, after_events, no_handler)
unfolding stop_handler acts timer_manager
late = refl

three_made : ltb 3 after_events.made ≡ true
unfolding acts timer_manager
three_made = refl

stop_handler-Handled_example :
    Handled answers blank events 3 three_made
      (ticks 20 ∷ [])
      (stop_handler after_events (handler_of 3))
stop_handler-Handled_example =
    stop_handler-Handled answers blank events 3 three_made (ticks 20 ∷ [])
