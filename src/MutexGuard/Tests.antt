-- ===== src/MutexGuard/Tests.antt =====
-- Runs of the guards and awaiters of mutex_v2.inl, and their theorems at concrete mutexes.
use librf.Prelude.{
  ℕ, ◌≡◌, refl, Bool-cases, inl, inr, true, false, [], ◌∷◌, arith, some, none, if◌then◌else◌, ◌==◌,
}
use librf.Mutex.{Ptr, null, WaitState, mutex, try_lock, unlock}
use librf.Mutex.Inv.{IsValid, mutex-IsValid}
use librf.MutexGuard.{Family, try_lock_range, destroy_batch}
use librf.MutexGuard.Restores.{Tried, given_back, try_lock_range-restores}
use librf.MutexGuard.Awaited.{SameCalls, await-SameCalls}

abbrev blank : Ptr → WaitState
blank _ = record { root = 0; open_value = false; granted = false; coro = false; timer = false }

-- Mutex 3 is owned by 9, all others are free.
abbrev family : Family
family i = if i == 3 then (try_lock (mutex blank) 9).1 else mutex blank

family-IsValid : (i : ℕ) → IsValid (family i)
unfolding try_lock mutex
family-IsValid i = elim (Bool-cases (i == 3)) [
  | inl e ↦
      rw e (record { mode = inr (omega arith, omega arith); bounded = omega arith; rooted = tt })
  | inr e ↦ rw e (mutex-IsValid blank)
]

-- The mutex 1 is named twice.
locked_twice :
    let r = try_lock_range family 7 [] (1 ∷ 2 ∷ 1 ∷ []) in
    (r.0 ≡ none) × ((r.1 1).counter ≡ 2) × ((given_back 7 family (1 ∷ 2 ∷ 1 ∷ []) r 1).counter ≡ 0)
unfolding try_lock_range destroy_batch mutex unlock
locked_twice = (refl, refl, refl)

backs_out :
    let r = try_lock_range family 7 [] (1 ∷ 3 ∷ 2 ∷ []) in (r.0 ≡ some 1) × ((r.1 1).owner ≡ null)
unfolding try_lock_range mutex unlock
backs_out = (refl, refl)

try_lock_range-restores_example :
    let r = try_lock_range family 7 [] (1 ∷ 2 ∷ 1 ∷ []) in
    Tried 7 family (1 ∷ 2 ∷ 1 ∷ []) r
    × ((j : ℕ) → given_back 7 family (1 ∷ 2 ∷ 1 ∷ []) r j ≡ family j)
unfolding mutex try_lock
try_lock_range-restores_example =
    try_lock_range-restores 7 family (omega arith) family-IsValid (1 ∷ 2 ∷ 1 ∷ [])
      (λ j. ground arith)

await-SameCalls_example : SameCalls (family 3) 7 20 true
await-SameCalls_example = await-SameCalls (family 3) 7 20 true
