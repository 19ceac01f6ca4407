-- ===== src/Awaitable.antt =====
-- include/librf/src/awaitable.h: `awaitable_t`, the end of a state by which an asynchronous function
-- gives its result.
use librf.Prelude.{Bool, true, false, Option, none, some, if◌then◌else◌}
use librf.Future
use librf.Future.{Future, Result, VoidResult, new_state, set_exception_void, set_value_void}

-- Whether `_state` is not null, and the state, which the future shares.
pub record Awaitable {ℓ} (R : Type ℓ) : Type ℓ where
  pub has_state : Bool
  pub state : Future R

module _ {ℓ} {R : Type ℓ} where
  -- An awaitable is made with a state in which nothing is stored and that has no scheduler.
  unfoldable pub awaitable : R → Awaitable R
  awaitable empty = record { has_state = true; state = new_state empty true false }

  -- `get_future`.
  unfoldable pub get_future : Awaitable R → Option (Future R)
  get_future a = if a.has_state then some a.state else none

  -- What the functions that set a result share: `_state` is moved out, and the state is told. None is
  -- undefined, a call through a null pointer.
  unfoldable pub settle : (Future R → Future R) → Awaitable R → Option (Awaitable R)
  settle set a =
      if a.has_state then some (record { has_state = false; state = set a.state }) else none

module _ {ℓ} {A E : Type ℓ} where
  unfoldable pub set_value : A → Awaitable (Result A E) → Option (Awaitable (Result A E))
  unfolding settle
  set_value val a = settle (Future.set_value val) a

  unfoldable pub set_exception : E → Awaitable (Result A E) → Option (Awaitable (Result A E))
  unfolding settle
  set_exception e a = settle (Future.set_exception e) a

module _ {ℓ} {E : Type ℓ} where
  -- `awaitable_t<void>`.
  unfoldable pub set_nothing : Awaitable (VoidResult E) → Option (Awaitable (VoidResult E))
  unfolding settle
  set_nothing a = settle set_value_void a

  unfoldable pub throw_exception : E → Awaitable (VoidResult E) → Option (Awaitable (VoidResult E))
  unfolding settle
  throw_exception e a = settle (set_exception_void e) a
