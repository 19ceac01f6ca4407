-- ===== src/Future/Reaches.antt =====
-- state.inl and state.cpp: a result that is set reaches the coroutine that waits for it, whichever
-- comes first.
use librf.Prelude.{◌≡◌, Bool, true, false, none, if◌then◌else◌}
use librf.Future.{
  Handle, Result, VoidResult, Future, wakes, idles, Got, returns, rethrows, await_suspend, resume,
  await_ready, set_value, set_exception, await_resume,
}

-- When the result is set: before the wait, between the two steps of the wait, or after it.
pub data Order : Type 0 where
  before between after : Order

pub data Outcome {ℓ} (A E : Type ℓ) : Type ℓ where
  gives : (val : A) → Outcome A E
  fails : (e : E) → Outcome A E

module _ {ℓ} {A E : Type ℓ} where
  unfoldable pub settle : Outcome A E → Future (Result A E) → Future (Result A E)
  settle (gives val) f = set_value val f
  settle (fails e) f = set_exception e f

  abbrev pub got : Outcome A E → Got A E
  got (gives val) = returns val
  got (fails e) = rethrows e

  -- `co_await` up to where the coroutine goes on or is suspended: whether it is suspended.
  abbrev pub suspend : Handle → Future (Result A E) → Future (Result A E)
  suspend h f = await_suspend (await_ready f) h f

  unfoldable pub wait :
      Order → Outcome A E → Handle → Future (Result A E) → Bool × Future (Result A E)
  unfolding settle
  wait before r h f =
      let f' = settle r f in if await_ready f' then (false, f') else (true, suspend h f')
  wait between r h f = if await_ready f then (false, settle r f) else (true, suspend h (settle r f))
  wait after r h f = if await_ready f then (false, settle r f) else (true, settle r (suspend h f))

  -- What the state shows of a wait that goes on or was answered.
  pub record Reaches (r : Outcome A E) (h : Handle) (w : Bool × Future (Result A E)) : Type ℓ where
    pub woken_once : w.1.scheduled ≡ (if w.0 then 1 else 0)
    pub wakes_waiter : (resume w.1).0 ≡ (if w.0 then wakes h else idles)
    pub has_result : await_resume w.1 ≡ got r

module _ {ℓ} {E : Type ℓ} where
  abbrev pub empty_void : VoidResult E
  empty_void = record { has_value = false; exception_ptr = none }
