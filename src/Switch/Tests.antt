-- ===== src/Switch/Tests.antt =====
-- Runs of several schedulers, and the theorems at a coroutine with a parent.
use librf.Prelude.{◌≡◌, refl, true, List, [], ◌∷◌, arith}
use librf.CountedPtr.{null}
use librf.Scheduler.{has}
use librf.Switch.{
  World, new_task, via_await_suspend, yield_await_suspend, switch_scheduler_await_suspend,
  get_current_task,
}
use librf.Switch.Home.{AtHome}
use librf.Switch.Via.{Gone, via-Gone}
use librf.Switch.Runs.{Action, starts, goes, yields, acts, acts-AtHome}

abbrev empty_world : World
empty_world = record { scheduler_of = λ p. null; ready_task = λ s. []; runing_states = λ s. [] }

empty-AtHome : AtHome empty_world
unfolding has
empty-AtHome = record { home = λ q t h. absurd (cc); no_null = λ q. refl }

-- The task 10 of the scheduler 1 waits for the state 11, and that goes to the scheduler 2.
abbrev history : List Action
history = starts 1 10 true ∷ goes 50 11 (10 ∷ []) 2 ∷ yields 51 11 (10 ∷ []) ∷ []

abbrev gone : World
gone = acts empty_world history

gone_there :
    (gone.ready_task 1 ≡ [])
    × (gone.ready_task 2 ≡ 10 ∷ [])
    × (gone.runing_states 2 ≡ 50 ∷ 51 ∷ [])
    × (get_current_task gone 11 (10 ∷ []) ≡ true)
unfolding acts new_task via_await_suspend yield_await_suspend switch_scheduler_await_suspend
    get_current_task
gone_there = (refl, refl, refl, refl)

acts-AtHome_example : AtHome gone
unfolding acts new_task via_await_suspend yield_await_suspend switch_scheduler_await_suspend has
acts-AtHome_example =
    acts-AtHome history empty_world ((omega arith, refl), ((omega arith, refl), (refl, tt)))
      empty-AtHome

via-Gone_example : Gone gone 52 11 (10 ∷ []) 1 (via_await_suspend gone 52 11 (10 ∷ []) 1)
unfolding acts new_task via_await_suspend yield_await_suspend switch_scheduler_await_suspend has
via-Gone_example =
    via-Gone gone 52 11 (10 ∷ []) 1 (omega arith)
      (acts-AtHome history empty_world ((omega arith, refl), ((omega arith, refl), (refl, tt)))
        empty-AtHome)
      refl refl (refl, (refl, tt))
