-- ===== src/When.antt =====
-- source/when_v2.cpp and include/librf/src/when_v2.h: `state_when_t`, and the ends of the tasks that
-- `when_all` and `when_any` start. Each change of the state holds its `_lock`, or is one exchange.
pub mod All
pub mod Any
mod Tests
use librf.Prelude.{
  ℕ, suc, ◌+◌, ◌-◌, ◌%◌, Bool, true, false, List, [], ◌∷◌, Option, none, some, if◌then◌else◌, ◌==◌,
  length, replicate, set, size_mod,
}

-- `state_when_t`; `scheduled` counts the calls of `add_generator`.
pub record StateWhen : Type 0 where
  pub counter : ℕ
  pub coro : Bool
  pub scheduled : ℕ

unfoldable pub state_when : ℕ → StateWhen
state_when n = record { counter = n; coro = false; scheduled = 0 }

-- `await_ready`, and `on_await_suspend`.
unfoldable pub await_ready : StateWhen → Bool
await_ready s = s.counter == 0

unfoldable pub await_suspend : StateWhen → StateWhen
await_suspend s = record s { coro = true }

unfoldable pub on_cancel : StateWhen → StateWhen
on_cancel s = record s { counter = 0; coro = false }

-- `_counter.fetch_sub(1)` on the bits of an `intptr_t`.
unfoldable pub on_notify_one : StateWhen → Bool × StateWhen
on_notify_one s =
    let n = (s.counter + size_mod - 1) % size_mod in
    if s.counter == 1
    then (
      true,
      record s { counter = n; scheduled = if s.coro then suc s.scheduled else s.scheduled },
    )
    else (false, record s { counter = n })

-- The state's `resume`: whether the coroutine is resumed.
unfoldable pub resume : StateWhen → Bool × StateWhen
resume s = (s.coro, record s { coro = false })

module _ {ℓ} {A : Type ℓ} where
  -- `when_all`: the state, and the values, of which those of tasks without a result stay unset.
  unfoldable pub when_all : ℕ → StateWhen × List (Option A)
  unfolding state_when
  when_all n = (state_when n, replicate n none)

  -- The end of a task that `when_all_connector_1` or `when_all_connector_2` waits for.
  unfoldable pub when_all_connector :
      StateWhen × List (Option A) → (idx : ℕ) → Option A → StateWhen × List (Option A)
  unfolding on_notify_one
  when_all_connector (s, values) idx none = ((on_notify_one s).1, values)
  when_all_connector (s, values) idx (some v) = ((on_notify_one s).1, set values idx (some v))

  -- `when_any`: the state and the pair, whose first is `none` for -1.
  unfoldable pub when_any : ℕ → StateWhen × Option ℕ × Option A
  unfolding state_when
  when_any n = (state_when (if n == 0 then 0 else 1), none, none)

  -- The end of a task that `when_any_connector` waits for.
  unfoldable pub when_any_connector :
      StateWhen × Option ℕ × Option A → (idx : ℕ) → Option A → StateWhen × Option ℕ × Option A
  unfolding on_notify_one
  when_any_connector (s, none, second) idx none = ((on_notify_one s).1, some idx, second)
  when_any_connector (s, none, second) idx (some v) = ((on_notify_one s).1, some idx, some v)
  when_any_connector (s, some first, second) idx v = (s, some first, second)
