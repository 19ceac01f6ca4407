-- ===== src/Sleep/Tests.antt =====
-- Runs of sleep.cpp, and its theorem at a sleep that is cancelled after the wait.
use librf.Prelude.{ℕ, ◌≡◌, refl, true, false, not, ◌||◌, ◌==◌, Bool, List, [], ◌∷◌, none}
use librf.Timer.{Request, adds, stops, Target, invalid, timer_manager, update, empty}
use librf.Timer.Once.{called}
use librf.Timer.Acts.{Event, asks, ticks, act, acts}
use librf.Timer.Grows.{since}
use librf.Awaitable.{awaitable}
use librf.Future.Reaches.{empty_void}
use librf.Sleep.{called_back, run_sleep, sleep_until}
use librf.Sleep.Runs.{outcome, Slept}
use librf.Sleep.Wakes.{m, m1, m2, slept_on, sleep-Slept}

abbrev blank : ℕ → Target
blank p = record { tp = 0; cb = false; st = invalid }

abbrev timer_canceled : ℕ
timer_canceled = 5

abbrev quiet : ℕ → Bool → List Request
quiet p canceld = []

-- The timer 0 is another's, the sleep's is 1; it is stopped after the wait, before it is due.
abbrev earlier : List Event
earlier = asks (adds 10 ∷ []) ∷ ticks 5 ∷ []

abbrev before : List Event
before = ticks 12 ∷ []

abbrev after : List Event
after = asks (stops 1 ∷ []) ∷ ticks 30 ∷ []

both : (m2 timer_canceled quiet blank earlier 20 before after).calls ≡ (0, false) ∷ (1, true) ∷ []
unfolding acts act timer_manager update sleep_until
both = refl

-- A result that is set twice is a call through a null pointer.
set_twice : called_back timer_canceled 0 ((0, false) ∷ (0, true) ∷ []) (awaitable empty_void) ≡ none
unfolding called_back awaitable
set_twice = refl

sleep-Slept_example :
    ((not (empty (m2 timer_canceled quiet blank earlier 20 before after))
        || (called
              (m timer_canceled quiet blank earlier 20 before after).made
              (m2 timer_canceled quiet blank earlier 20 before after).calls
            == 1))
      ≡ true)
    × Slept timer_canceled
        (outcome
          (m timer_canceled quiet blank earlier 20 before after).made
          (m1 timer_canceled quiet blank earlier 20 before after).calls)
        (outcome (m timer_canceled quiet blank earlier 20 before after).made (
          since
            (m1 timer_canceled quiet blank earlier 20 before after).calls
            (m2 timer_canceled quiet blank earlier 20 before after).calls))
        7
        (run_sleep timer_canceled
          (m timer_canceled quiet blank earlier 20 before after).made
          (m1 timer_canceled quiet blank earlier 20 before after).calls
          (since
            (m1 timer_canceled quiet blank earlier 20 before after).calls
            (m2 timer_canceled quiet blank earlier 20 before after).calls)
          7
          (slept_on timer_canceled quiet blank earlier 20 before after).1)
sleep-Slept_example = sleep-Slept timer_canceled quiet blank earlier 20 before after 7
