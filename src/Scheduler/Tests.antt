-- ===== src/Scheduler/Tests.antt =====
-- Runs of scheduler.cpp, and its theorems at a scheduler with two tasks and a timer that wakes a state
-- at its third update.
use librf.Prelude.{ℕ, ◌-◌, ◌≡◌, refl, true, false, ◌++◌, List, [], ◌∷◌, if◌then◌else◌, ◌==◌}
use librf.LinkQueue.{Ptr}
use librf.Scheduler.{
  Request, adds, spawns, drops, TimerOps, Scheduler, scheduler, request, run_batch, run_one_batch,
}
use librf.Scheduler.Fifo.{asks, batch_runs, step, steps, steps-InOrder}

abbrev countdown : TimerOps ℕ
countdown = record {
  update = λ n. (if n == 1 then adds 9 ∷ [] else [], n - 1);
  empty = λ n. n == 0;
}

abbrev body : List Ptr → Ptr → List Request
body before p = if p == 1 then drops 1 ∷ adds 2 ∷ [] else drops p ∷ []

abbrev tasks : List Request
tasks = spawns 1 true ∷ spawns 2 false ∷ []

abbrev started : Scheduler ℕ
started = request (scheduler 3) tasks

run :
    (steps countdown body
      (scheduler 3)
      (asks tasks ∷ batch_runs ∷ batch_runs ∷ batch_runs ∷ [])).resumed
    ≡ 1 ∷ 2 ∷ 9 ∷ []
unfolding steps step scheduler run_one_batch run_batch
run = refl

steps-InOrder_example :
    (steps countdown body (scheduler 3) (asks tasks ∷ batch_runs ∷ [])).added
    ≡ (steps countdown body (scheduler 3) (asks tasks ∷ batch_runs ∷ [])).resumed
      ++ (steps countdown body (scheduler 3) (asks tasks ∷ batch_runs ∷ [])).runing_states
steps-InOrder_example = steps-InOrder countdown body 3 (asks tasks ∷ batch_runs ∷ [])
