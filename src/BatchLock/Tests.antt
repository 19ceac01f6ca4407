-- ===== src/BatchLock/Tests.antt =====
-- Runs of `batch_lock_t`, and its theorem at three locks that are busy at first.
use librf.Prelude.{
  ℕ, ◌≡◌, refl, Bool, true, false, Option, List, [], ◌∷◌, if◌then◌else◌, ltb, none, some, arith,
}
use librf.LockRange.{Outcome, got, busy, Locks, lock_range}
use librf.LockRange.Attempt.{Free}
use librf.LockRange.Whole.{AllFree}
use librf.BatchLock.{Guards, construct, unlock, construct_move}
use librf.BatchLock.Releases.{Action, unlocks, moves, acts, no_guard, Guarded, construct-acts}

abbrev tries : ℕ → ℕ → Outcome
tries t i = if ltb t 4 then busy else got

abbrev waits : ℕ → ℕ → Option Bool
waits t i = some true

abbrev start : Locks
start = record { held = λ i. false; clock = 0; blocked = [] }

abbrev locked : Guards
locked = elim (construct tries waits 5 3 (no_guard start)) [ none ↦ no_guard start | some r ↦ r.1 ]

-- The guard moves to another, that to a third, and all are destroyed.
abbrev history : List Action
history = moves 0 ∷ moves 1 ∷ unlocks 2 ∷ unlocks 1 ∷ unlocks 0 ∷ []

held_then :
    (locked.locks.held 2 ≡ true)
    × ((acts 3 locked (moves 0 ∷ unlocks 0 ∷ [])).locks.held 2 ≡ true)
    × ((acts 3 locked history).locks.held 2 ≡ false)
unfolding construct lock_range unlock construct_move
held_then = (refl, refl, refl)

construct-acts_example : Guarded 3 start (acts 3 locked history)
unfolding Free AllFree construct lock_range unlock construct_move
construct-acts_example =
    construct-acts tries waits 5 3 start true locked history (λ j e. refl) tt refl
      (omega arith, (omega arith, (tt, (tt, (tt, tt)))))
