-- ===== src/Promise.antt =====
-- include/librf/src/promise.h, state.inl and future.h: the promise of a coroutine that returns a
-- `future_t`, as the client of its state; and the coroutine as a task of a scheduler. Its body is the
-- values that it yields and how it ends.
pub mod Life
pub mod Early
mod Tests
use librf.Prelude.{ℕ, zero, suc, Bool, true, false, List, [], ◌∷◌, ◌++◌, if◌then◌else◌}
use librf.Future.{
  Handle, first_of, Result, no_result, value, Future, initial, final, Resumed, runs, wakes,
  destroys, idles, new_state, has_handler, resume, set_value, set_exception,
}
use librf.Future.Reaches.{Outcome, gives, fails}

module _ {ℓ} {R : Type ℓ} where
  -- `promise_initial_suspend` and `promise_final_suspend`, at the end of which the scheduler drops the
  -- task.
  unfoldable pub initial_suspend : Future R → Future R
  initial_suspend f = record f { initor = initial }

  unfoldable pub final_suspend : Future R → Future R
  unfolding has_handler
  final_suspend f =
      let f' : Future R = record f { initor = final } in
      if has_handler f' then record f' { scheduled = suc f'.scheduled } else f'

  -- The promise's state, after `initial_suspend`.
  unfoldable pub new_promise : R → Future R
  unfolding new_state initial_suspend
  new_promise empty = initial_suspend (new_state empty false false)

  -- `scheduler_t::new_task` of the coroutine.
  unfoldable pub go : Future R → Future R
  unfolding has_handler
  go f =
      let f' : Future R = record f { has_scheduler = true } in
      if has_handler f' then record f' { scheduled = suc f'.scheduled } else f'

module _ {ℓ} {A E : Type ℓ} where
  -- `promise_yield_value` of a coroutine that is not done: it waits for itself unless another waits.
  unfoldable pub yield_value : (self : Handle) → A → Future (Result A E) → Future (Result A E)
  yield_value self val f =
      let f' : Future (Result A E) = record f { coro = first_of f.coro self; stored = value val } in
      if f.has_scheduler then record f' { scheduled = suc f'.scheduled } else f'

  -- `return_value`, or `unhandled_exception`, and then `final_suspend`.
  unfoldable pub finish : Outcome A E → Future (Result A E) → Future (Result A E)
  unfolding set_value set_exception final_suspend
  finish (gives val) f = final_suspend (set_value val f)
  finish (fails e) f = final_suspend (set_exception e f)

-- A coroutine that is a task, and for which no other waits: its handle, its state, the values that it has still to
-- yield, whether its frame exists, and what the resumptions did, the latest last.
pub record Coroutine {ℓ} (A E : Type ℓ) : Type ℓ where
  pub handle : Handle
  pub state : Future (Result A E)
  pub left : List A
  pub outcome : Outcome A E
  pub frame : Bool
  pub did : List Resumed

module _ {ℓ} {A E : Type ℓ} where
  unfoldable pub start : Handle → List A → Outcome A E → Coroutine A E
  unfolding new_promise go
  start self ys r = record {
    handle = self;
    state = go (new_promise no_result);
    left = ys;
    outcome = r;
    frame = true;
    did = [];
  }

  -- The body up to its next `co_yield` or its end.
  unfoldable pub advance : Coroutine A E → List A → Coroutine A E
  unfolding yield_value finish
  advance c [] = record c { state = finish c.outcome c.state }
  advance c (y ∷ ys) = record c { state = yield_value c.handle y c.state; left = ys }

  -- One `resume` by the scheduler.
  unfoldable pub step : Coroutine A E → Coroutine A E
  unfolding resume advance
  step c =
      let r = resume c.state in
      let c' : Coroutine A E = record c { state = r.1; did = c.did ++ (r.0 ∷ []) } in
      elim r.0 [
        | runs ↦ advance c' c'.left
        | wakes h ↦ advance c' c'.left
        | destroys ↦ record c' { frame = false }
        | idles ↦ c'
      ]

  unfoldable pub steps : ℕ → Coroutine A E → Coroutine A E
  unfolding step
  steps zero c = c
  steps (suc n) c = steps n (step c)
