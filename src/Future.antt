-- ===== src/Future.antt =====
-- source/state.cpp, include/librf/src/state.inl and state.h: `state_future_t` and `state_t`, which carry
-- the result of a coroutine or of an `awaitable_t` to the coroutine that waits for it. Each operation
-- but `future_await_ready` holds `_mtx` throughout.
pub mod Reaches
pub mod Storage
pub mod Lifetimes
mod Tests
use librf.Prelude.{ℕ, suc, Bool, true, false, ◌||◌, Option, none, some, if◌then◌else◌}

-- A coroutine that waits, by its number.
abbrev pub Handle : Type 0
Handle = ℕ

pub data InitorType : Type 0 where
  no_initor initial final : InitorType

-- `result_type`, with the value or the exception that the union of `state_t<_Ty>` holds.
pub data Result {ℓ} (A E : Type ℓ) : Type ℓ where
  no_result : Result A E
  value : (val : A) → Result A E
  exception : (e : E) → Result A E

-- `state_t<void>`: whether `_has_value` is `Value`, and `_exception`.
pub record VoidResult {ℓ} (E : Type ℓ) : Type ℓ where
  pub has_value : Bool
  pub exception_ptr : Option E

-- `state_future_t` with what its `state_t` stores; `_coro` is the handle of the coroutine that waits.
-- `scheduled` counts the calls of `add_generator`.
pub record Future {ℓ} (R : Type ℓ) : Type ℓ where
  pub stored : R
  pub coro : Option Handle
  pub initor : InitorType
  pub is_future : Bool
  pub has_scheduler : Bool
  pub scheduled : ℕ

-- What `resume` does: it runs the coroutine, resumes the one that waits, destroys the frame, or
-- nothing.
pub data Resumed : Type 0 where
  runs : Resumed
  wakes : (handler : Handle) → Resumed
  destroys idles : Resumed

-- What `future_await_resume` does.
pub data Got {ℓ} (A E : Type ℓ) : Type ℓ where
  returns : (val : A) → Got A E
  rethrows : (e : E) → Got A E
  not_ready : Got A E

unfoldable pub is_initor : InitorType → Bool
is_initor no_initor = false
is_initor _ = true

abbrev pub is_some : Option Handle → Bool
is_some none = false
is_some (some h) = true

-- `if (!_coro) _coro = handler`.
abbrev pub first_of : Option Handle → Handle → Option Handle
first_of none handler = some handler
first_of (some h) handler = some h

module _ {ℓ} {R : Type ℓ} where
  -- A state in which nothing is stored, made by a coroutine or by an `awaitable_t`.
  unfoldable pub new_state : R → (awaitor has_scheduler : Bool) → Future R
  new_state r awaitor has_scheduler = record {
    stored = r;
    coro = none;
    initor = no_initor;
    is_future = if awaitor then false else true;
    has_scheduler = has_scheduler;
    scheduled = 0;
  }

  unfoldable pub has_handler : Future R → Bool
  unfolding is_initor
  has_handler f = is_some f.coro || is_initor f.initor

  -- The end of `set_value` and `set_exception`; `del_final` changes the scheduler's tasks only.
  unfoldable pub notify : Future R → Future R
  unfolding has_handler
  notify f =
      if f.has_scheduler
      then (if has_handler f then record f { scheduled = suc f.scheduled } else f)
      else f

  -- `future_await_suspend` by another state, whose scheduler is set, for the coroutine `handler`: one
  -- that waits already is the one that is kept; `ready` is whether `_has_value`
  -- is not `None`, so that `ready || _is_future` is `is_ready`.
  unfoldable pub await_suspend : (ready : Bool) → Handle → Future R → Future R
  await_suspend ready handler f = record f {
    coro = first_of f.coro handler;
    has_scheduler = true;
    scheduled = if ready || f.is_future then suc f.scheduled else f.scheduled;
  }

  unfoldable pub resume : Future R → Resumed × Future R
  resume f =
      let rest : Resumed × Future R = elim f.coro [
        | some h ↦ (wakes h, record f { coro = none })
        | none ↦ elim f.initor [
          | final ↦ (destroys, record f { initor = no_initor })
          | _ ↦ (idles, f)
        ]
      ] in
      elim f.initor [ initial ↦ (runs, record f { initor = no_initor }) | _ ↦ rest ]

module _ {ℓ} {A E : Type ℓ} where
  -- `state_t<_Ty>`.
  unfoldable pub await_ready : Future (Result A E) → Bool
  await_ready f = elim f.stored [ no_result ↦ false | _ ↦ true ]

  unfoldable pub set_value : A → Future (Result A E) → Future (Result A E)
  unfolding notify
  set_value val f = notify (record f { stored = value val })

  unfoldable pub set_exception : E → Future (Result A E) → Future (Result A E)
  unfolding notify
  set_exception e f = notify (record f { stored = exception e })

  unfoldable pub await_resume : Future (Result A E) → Got A E
  await_resume f = elim f.stored [
    | no_result ↦ not_ready
    | value val ↦ returns val
    | exception e ↦ rethrows e
  ]

module _ {ℓ} {E : Type ℓ} where
  -- `state_t<void>`, whose `set_exception` leaves `_has_value` as it is.
  unfoldable pub await_ready_void : Future (VoidResult E) → Bool
  await_ready_void f = f.stored.has_value

  unfoldable pub set_value_void : Future (VoidResult E) → Future (VoidResult E)
  unfolding notify
  set_value_void f = notify (record f { stored = record f.stored { has_value = true } })

  unfoldable pub set_exception_void : E → Future (VoidResult E) → Future (VoidResult E)
  unfolding notify
  set_exception_void e f = notify (record f { stored = record f.stored { exception_ptr = some e } })

  -- Whether it returns, or what it throws; `none` is `not_ready`.
  unfoldable pub await_resume_void : Future (VoidResult E) → Bool × Option E
  await_resume_void f = elim f.stored.exception_ptr [
    | some e ↦ (false, some e)
    | none ↦ (f.stored.has_value, none)
  ]
