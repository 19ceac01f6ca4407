-- ===== src/Mutex/Tests.antt =====
-- Runs of mutex_v2.cpp, and its theorems at concrete mutexes.
use librf.Prelude.{◌≡◌, refl, true, false, List, [], ◌∷◌, ◌++◌, arith, inr, if◌then◌else◌, ◌==◌}
use librf.Mutex.{
  Ptr, WaitState, Mutex, mutex, on_timeout, try_lock, unlock, await_suspend, await_resume,
}
use librf.Mutex.Inv.{IsValid, mutex-IsValid}
use librf.Mutex.Exclusion.{
  Action, locks, unlocks, awaits, times_out, resumes, act, acts, acts-IsValid,
}
use librf.Mutex.Waiting.{free-answered, answered-acts}

abbrev blank : Ptr → WaitState
blank _ = record { root = 0; open_value = false; granted = false; coro = false; timer = false }

-- Owner 1 locks twice; 2 and 3 wait in the states 12 and 13; 12 times out; 1 unlocks twice.
abbrev history : List Action
history =
    locks 1
    ∷ locks 1
    ∷ awaits 2 12 true
    ∷ awaits 3 13 false
    ∷ times_out 12
    ∷ unlocks 1
    ∷ unlocks 1
    ∷ []

abbrev after : Mutex
after = acts (mutex blank) history

history-owner : (after.owner ≡ 3) × (after.counter ≡ 1) × (after.scheduled ≡ 12 ∷ 13 ∷ [])
unfolding acts act mutex try_lock await_suspend on_timeout unlock
history-owner = (refl, refl, refl)

acts-IsValid_example : IsValid after
unfolding mutex
acts-IsValid_example =
    acts-IsValid history (mutex blank) (omega arith) (omega arith) (mutex-IsValid blank)

-- A mutex that 1 holds once, and for which 2 waits in the state 12.
abbrev contended : Mutex
contended = record {
  owner = 1;
  counter = 1;
  wait_awakes = 12 ∷ [];
  states = λ a.
      if 12 == a
      then record { root = 2; open_value = true; granted = true; coro = true; timer = false }
      else blank a;
  scheduled = [];
}

contended-IsValid : IsValid contended
contended-IsValid = record {
  mode = inr (omega arith);
  bounded = omega arith;
  rooted = (omega arith, tt);
}

-- Both waiters are answered once 3 has unlocked too.
free-answered_example :
    ((acts (mutex blank) (history ++ (unlocks 3 ∷ []))).states 13).open_value ≡ false
unfolding acts act mutex try_lock await_suspend on_timeout unlock
free-answered_example =
    free-answered blank (history ++ (unlocks 3 ∷ [])) (λ s. refl) (omega arith) (omega arith) refl
      13

-- The lock that was refused to 12 is not granted to it later.
answered-acts_example :
    ((acts after (resumes 12 ∷ unlocks 3 ∷ [])).states 12).open_value ≡ false
    × (await_resume (acts after (resumes 12 ∷ unlocks 3 ∷ [])) 12 ≡ await_resume after 12)
unfolding acts act mutex try_lock await_suspend on_timeout unlock
answered-acts_example = answered-acts (resumes 12 ∷ unlocks 3 ∷ []) after 12 (tt, (tt, tt)) refl
