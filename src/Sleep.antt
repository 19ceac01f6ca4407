-- ===== src/Sleep.antt =====
-- source/sleep.cpp and include/librf/src/sleep.h: a coroutine that sleeps, by a timer whose callback
-- settles an awaitable.
pub mod Runs
pub mod Wakes
mod Tests
use librf.Prelude.{
  ℕ, ◌+◌, Bool, true, false, List, [], ◌∷◌, Option, none, some, if◌then◌else◌, ◌==◌,
}
use librf.Timer.{Manager, add}
use librf.Future.{Handle, Future, VoidResult, await_suspend, await_ready_void}
use librf.Future.Reaches.{empty_void}
use librf.Awaitable.{Awaitable, awaitable, set_nothing, throw_exception}

module _ {ℓ} {E : Type ℓ} (timer_canceled : E) where
  -- The callback that is given to the timer.
  unfoldable pub callback :
      (canceld : Bool) → Awaitable (VoidResult E) → Option (Awaitable (VoidResult E))
  unfolding set_nothing throw_exception
  callback canceld a = if canceld then throw_exception timer_canceled a else set_nothing a

  -- The calls of the timer `p` among those of a manager: what becomes of its awaitable.
  unfoldable pub called_back :
      ℕ → List (ℕ × Bool) → Awaitable (VoidResult E) → Option (Awaitable (VoidResult E))
  unfolding callback
  called_back p [] a = some a
  called_back p ((q, canceld) ∷ calls) a =
      if q == p
      then elim (callback canceld a) [ none ↦ none | some a' ↦ called_back p calls a' ]
      else called_back p calls a

module _ {ℓ} {E : Type ℓ} where
  -- `sleep_until_`: the manager with the new timer, and the awaitable, whose future is returned.
  unfoldable pub sleep_until : Manager → (tp : ℕ) → Manager × Awaitable (VoidResult E)
  unfolding add awaitable
  sleep_until m tp = (add m tp, awaitable empty_void)

  -- `sleep_for_`.
  unfoldable pub sleep_for : Manager → (now dt : ℕ) → Manager × Awaitable (VoidResult E)
  unfolding sleep_until
  sleep_for m now dt = sleep_until m (now + dt)

  -- The coroutine `handler` waits for the future, whether it is suspended.
  unfoldable pub await_sleep : Handle → Awaitable (VoidResult E) → Bool × Awaitable (VoidResult E)
  unfolding await_suspend await_ready_void
  await_sleep handler a =
      if await_ready_void a.state
      then (false, a)
      else (true, record a { state = await_suspend (await_ready_void a.state) handler a.state })

  -- The awaitable of the timer `p`, where the timers of the first list were called before the wait, and
  -- those of the second after it; and whether the coroutine was suspended.
  unfoldable pub run_sleep :
      (timer_canceled : E) (p : ℕ) (before after : List (ℕ × Bool))
      → Handle
      → Awaitable (VoidResult E)
      → Option (Bool × Awaitable (VoidResult E))
  unfolding called_back await_sleep
  run_sleep timer_canceled p before after handler a = elim (called_back timer_canceled p before a) [
    | none ↦ none
    | some a' ↦
        let w = await_sleep handler a' in
        elim (called_back timer_canceled p after w.1) [ none ↦ none | some a'' ↦ some (w.0, a'') ]
  ]
