-- ===== src/Generator/Tests.antt =====
-- Runs of generator.h, and its theorems at two generators.
use mathlib.Core.Option
use librf.Prelude.{
  ℕ, ◌≡◌, refl, true, List, [], ◌∷◌, Option, none, some, if◌then◌else◌, ◌==◌, arith,
}
use librf.LinkQueue.{Ptr}
use librf.Scheduler.{TimerOps, Scheduler, scheduler, run_until_notask, request, has}
use librf.Generator.{Generator, generator, for_each, construct_move, has_handler, resume}
use librf.Generator.Values.{visited, for_each-visited}
use librf.Generator.Asks.{bodies}
use librf.Generator.Rounds.{begun, gens, Finished, run-generators}

-- A generator that returns an object that outlives it; and `test_yield_int` of the tutorial, which ends
-- with `co_return 4`.
abbrev lasting : Generator ℕ
lasting = generator (1 ∷ 2 ∷ 3 ∷ []) (some 4)

abbrev test_yield_int : Generator ℕ
test_yield_int = generator (1 ∷ 2 ∷ 3 ∷ []) none

reads_last : for_each 9 lasting ≡ some (1 ∷ 2 ∷ 3 ∷ 4 ∷ [])
unfolding for_each generator
reads_last = refl

tutorial : for_each 9 test_yield_int ≡ none
unfolding for_each generator
tutorial = refl

moved_from : for_each 9 (construct_move test_yield_int).1 ≡ some []
unfolding for_each generator construct_move
moved_from = refl

for_each-visited_example : for_each 9 lasting ≡ visited (1 ∷ 2 ∷ 3 ∷ []) (some 4)
for_each-visited_example = for_each-visited (1 ∷ 2 ∷ 3 ∷ []) (some 4) 9 (omega arith)

abbrev no_timers : TimerOps ℕ
no_timers = record { update = λ t. ([], t); empty = λ t. true }

-- The generator 5 yields two values, 6 none.
abbrev yields : Ptr → List ℕ
yields p = if p == 5 then 10 ∷ 20 ∷ [] else []

abbrev results : Ptr → Option ℕ
results p = some p

abbrev tasks : List Ptr
tasks = 5 ∷ 6 ∷ []

run-generators_example :
    (r : Scheduler ℕ) × (run_until_notask no_timers
        (bodies (gens no_timers yields results tasks))
        4
        (begun no_timers yields results tasks 0)
      ≡ some r)
    × Finished no_timers yields results tasks (λ t. refl) (λ t. refl) r
unfolding has
run-generators_example =
    run-generators no_timers yields results tasks (λ t. refl) (λ t. refl) 3 0 (λ p. ground arith)
      (λ p h. ground arith)

order :
    Option.map
      (λ r. r.resumed)
      (run_until_notask no_timers
        (bodies (gens no_timers yields results tasks))
        4
        (begun no_timers yields results tasks 0))
    ≡ some (5 ∷ 6 ∷ 5 ∷ 5 ∷ [])
unfolding run_until_notask bodies scheduler request generator has_handler resume
order = refl
