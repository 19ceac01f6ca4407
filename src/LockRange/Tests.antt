-- ===== src/LockRange/Tests.antt =====
-- Runs of without_deadlock_assemble.inl, and its theorems at three locks that are busy at first.
use librf.Prelude.{
  ℕ, ◌≡◌, refl, Bool, true, false, Option, [], if◌then◌else◌, ltb, none, some, arith, ◌≢◌, ◌==◌,
}
use librf.LockRange.{Outcome, got, busy, throws, Locks, lock_range}
use librf.LockRange.Attempt.{Free}
use librf.LockRange.Whole.{AllFree, Taken}
use librf.LockRange.Range.{lock_range-Taken}
use librf.LockRange.Uncontended.{lock_range-alone}

abbrev tries : ℕ → ℕ → Outcome
tries t i = if ltb t 4 then busy else got

abbrev waits : ℕ → ℕ → Option Bool
waits t i = some true

abbrev start : Locks
start = record { held = λ i. false; clock = 0; blocked = [] }

-- The state in which it ends after the last attempt, on the lock 1.
abbrev last : Bool × Locks
last = elim (lock_range tries waits 5 3 start) [ none ↦ (false, start) | some r ↦ r ]

returns : lock_range tries waits 5 3 start ≡ some last
unfolding lock_range
returns = refl

clock_after : last.1.clock ≡ 7
unfolding lock_range
clock_after = refl

-- The other locks have an owner when an exception comes.
abbrev broken : ℕ → ℕ → Outcome
broken t i = if ltb t 2 then got else throws

gives_back : elim (lock_range broken waits 1 4 start) [ none ↦ true | some r ↦ r.1.held 0 ] ≡ false
unfolding lock_range
gives_back = refl

lock_range-Taken_example : Taken 3 start last
unfolding Free AllFree lock_range
lock_range-Taken_example = lock_range-Taken tries waits 5 3 start last (λ j e. refl) tt refl

-- Nobody else has a lock; a second try on the first one would fail.
abbrev polite : ℕ → ℕ → Outcome
polite t i = if i == 0 then busy else got

alone : (t i : ℕ) → i ≢ 0 → polite t i ≡ got
alone t i n = ground (arith, n)

lock_range-alone_example :
    (r : Locks) × (lock_range polite waits 1 3 start ≡ some (true, r)) × Taken 3 start (true, r)
unfolding Free AllFree
lock_range-alone_example = lock_range-alone polite alone waits 0 2 true start (λ j e. refl) tt refl

-- A wait that never returns.
abbrev hangs : ℕ → ℕ → Option Bool
hangs t i = none

never : lock_range tries hangs 5 3 start ≡ none
unfolding lock_range
never = refl
