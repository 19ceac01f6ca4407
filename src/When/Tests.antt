-- ===== src/When/Tests.antt =====
-- Runs of when_v2.h, and its theorems at three tasks, of which the second has no result.
use librf.Prelude.{
  ℕ, ◌≡◌, refl, false, List, [], ◌∷◌, Option, none, some, arith, if◌then◌else◌, ◌==◌, length,
  get_elem?,
}
use librf.When.{
  StateWhen, await_ready, when_all, when_any, when_all_connector, when_any_connector, on_notify_one,
  await_suspend,
}
use librf.When
use librf.When.Any
use librf.When.All

abbrev told : List (ℕ × Option ℕ)
told = (2, some 7) ∷ (1, none) ∷ (0, some 5) ∷ []

values : (When.All.ends (When.All.suspended 3) told).1 ≡ some 5 ∷ none ∷ some 7 ∷ []
unfolding When.All.ends when_all when_all_connector
values = refl

ends-first_example :
    (await_ready (when_any {A = ℕ} 3).0 ≡ false)
    × (When.Any.ends (When.Any.suspended 3) told ≡ (When.Any.done_state, some 2, some 7))
ends-first_example = When.Any.ends-first 3 2 (some 7) ((1, none) ∷ (0, some 5) ∷ []) (ground arith)

ends-all_example :
    (await_ready (when_all {A = ℕ} 3).0 ≡ false)
    × ((When.All.ends (When.All.suspended 3) told).0.scheduled
        ≡ (if length told == 3 then 1 else 0))
    × (get_elem? (When.All.ends (When.All.suspended 3) told).1 2
        ≡ some (When.All.result_of 2 told none))
ends-all_example = When.All.ends-all 3 2 told (omega arith) (omega arith) (omega arith)
