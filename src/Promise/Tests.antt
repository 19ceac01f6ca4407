-- ===== src/Promise/Tests.antt =====
-- Runs of promise.h, and its theorem at a coroutine that yields twice.
use librf.Prelude.{ℕ, ◌≡◌, refl, List, [], ◌∷◌, ◌++◌, suc, length, replicate, false, none, some}
use librf.Future.{
  Future, Result, no_result, resume, await_suspend, await_ready, not_ready, new_state, has_handler,
  is_initor, value, await_resume, runs, wakes, destroys,
}
use librf.Future.Reaches.{Outcome, gives}
use librf.Promise.{go, new_promise, start, steps}
use librf.Promise.Early.{wait_for_running}
use librf.Promise.Life.{ended, steps-start}

abbrev outcome : Outcome ℕ ℕ
outcome = gives 9

abbrev yielded_values : List ℕ
yielded_values = 4 ∷ 5 ∷ []

after_two : (steps 2 (start 1 yielded_values outcome)).state.stored ≡ value 5
unfolding steps start
after_two = refl

steps-start_example :
    steps (suc (suc (length yielded_values))) (start 1 yielded_values outcome)
    ≡ ended 1
        (suc (suc (length yielded_values)))
        outcome
        (runs ∷ (replicate (length yielded_values) (wakes 1) ++ (destroys ∷ [])))
steps-start_example = steps-start 1 yielded_values outcome

-- A coroutine that was started, and has neither yielded nor ended.
abbrev running : Future (Result ℕ ℕ)
running = (resume (go (new_promise no_result))).1

-- The coroutine 7 waits for it already, and 8 does next: 7 is woken.
abbrev awaited : Future (Result ℕ ℕ)
awaited = record running { coro = some 7 }

wait_for_running_example :
    let w = await_suspend (await_ready awaited) 8 awaited in
    (await_ready awaited ≡ false)
    × (w.scheduled ≡ suc awaited.scheduled)
    × ((resume w).0 ≡ wakes 7)
    × (await_resume (resume w).1 ≡ not_ready)
    × ((resume w).1.coro ≡ none)
unfolding resume go new_promise new_state has_handler is_initor
wait_for_running_example = wait_for_running awaited 8 refl refl refl

-- One that was not started is run by the wait.
wait_for_fresh :
    let fresh : Future (Result ℕ ℕ) = new_promise no_result in
    (resume (await_suspend (await_ready fresh) 8 fresh)).0 ≡ runs
unfolding resume new_promise new_state await_suspend
wait_for_fresh = refl
