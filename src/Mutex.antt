-- ===== src/Mutex.antt =====
-- source/mutex_v2.cpp and include/librf/src/mutex_v2.inl: `mutex_v2_impl`, the `state_mutex_t` of a
-- coroutine that waits for it, and the awaiters of `lock`, `try_lock` and `unlock`. Every operation
-- of the mutex holds `_lock` throughout.
pub mod Inv
pub mod Handover
pub mod Exclusion
pub mod Waiting
mod Tests
use librf.Prelude.{
  ℕ, ◌+◌, ◌-◌, ◌%◌, Bool, true, false, List, [], ◌∷◌, ◌++◌, if◌then◌else◌, ◌==◌, size_mod,
}

-- An address; `null` is `nullptr`.
abbrev pub Ptr : Type 0
Ptr = ℕ

abbrev pub null : Ptr
null = 0

-- `state_mutex_t`: `open` is whether `_value` still points to the awaiter's `_mutex`, `granted`
-- whether that `_mutex` is set, `timer` whether `_thandler` refers to a timer.
pub record WaitState : Type 0 where
  pub root : Ptr
  pub open_value : Bool
  pub granted : Bool
  pub coro : Bool
  pub timer : Bool

-- The mutex with the states that it reaches. `scheduled` lists the states that `add_generator` was
-- called with, the latest last.
pub record Mutex : Type 0 where
  pub owner : Ptr
  pub counter : ℕ
  pub wait_awakes : List Ptr
  pub states : Ptr → WaitState
  pub scheduled : List Ptr

-- `fetch_add(1)` and `fetch_sub(1)` on the bits of an `intptr_t`.
abbrev pub up : ℕ → ℕ
up n = (n + 1) % size_mod

abbrev pub down : ℕ → ℕ
down n = (n + size_mod - 1) % size_mod

abbrev pub store {ℓ} : {V : Type ℓ} → (Ptr → V) → Ptr → V → Ptr → V
store f p v a = if p == a then v else f a

unfoldable pub mutex : (Ptr → WaitState) → Mutex
mutex states = record {
  owner = null;
  counter = 0;
  wait_awakes = [];
  states = states;
  scheduled = [];
}

-- `if (this->_coro) this->_scheduler->add_generator(this)`
abbrev pub schedule : Mutex → Ptr → Mutex
schedule m s = if (m.states s).coro then record m { scheduled = m.scheduled ++ (s ∷ []) } else m

unfoldable pub on_notify : Mutex → Ptr → Bool × Mutex
on_notify m s =
    let st = m.states s in
    if st.open_value
    then (
      true,
      schedule
          (record m {
            states =
                store m.states s (record st { open_value = false; granted = true; timer = false });
          })
          s,
    )
    else (false, m)

unfoldable pub on_timeout : Mutex → Ptr → Bool × Mutex
on_timeout m s =
    let st = m.states s in
    if st.open_value
    then (
      true,
      schedule
          (record m {
            states =
                store m.states s (record st { open_value = false; granted = false; timer = false });
          })
          s,
    )
    else (false, m)

unfoldable pub on_cancel : Mutex → Ptr → Mutex
on_cancel m s =
    let st = m.states s in
    if st.open_value
    then record m {
      states =
          store m.states s
            (record st { open_value = false; granted = false; timer = false; coro = false });
    }
    else m

-- `state_mutex_t::resume`: whether the coroutine is resumed.
unfoldable pub resume : Mutex → Ptr → Bool × Mutex
resume m s =
    let st = m.states s in
    if st.coro
    then (true, record m { states = store m.states s (record st { coro = false }) })
    else (false, m)

-- `try_lock_lockless`, and `try_lock` around it.
unfoldable pub try_lock : Mutex → Ptr → Bool × Mutex
try_lock m sch =
    if m.owner == null
    then (true, record m { owner = sch; counter = up m.counter })
    else if m.owner == sch
    then (true, record m { counter = up m.counter })
    else (false, m)

-- The loop of `unlock` over the waiting states, after the owner was reset.
unfoldable pub hand_over : Mutex → List Ptr → Mutex
unfolding on_notify
hand_over m [] = record m { wait_awakes = [] }
hand_over m (s ∷ rest) =
    let m1 = record m { wait_awakes = rest; owner = (m.states s).root; counter = up m.counter } in
    let (done, m2) = on_notify m1 s in
    let again = hand_over (record m2 { owner = null; counter = down m2.counter }) rest in
    if done then m2 else again

unfoldable pub unlock : Mutex → Ptr → Bool × Mutex
unfolding hand_over
unlock m sch =
    if m.owner == sch
    then (
      true,
      if m.counter == 1
          then hand_over (record m { counter = down m.counter; owner = null }) m.wait_awakes
          else record m { counter = down m.counter },
    )
    else (false, m)

-- `lock_awaiter::await_suspend2`: whether the coroutine is suspended, with a new state at the given
-- address and, for a timed lock, a timer.
unfoldable pub await_suspend : Mutex → (root state : Ptr) → (timed : Bool) → Bool × Mutex
unfolding try_lock
await_suspend m root state timed =
    let (done, m') = try_lock m root in
    if done then (false, m') else (
      true,
      record m' {
        states =
            store m'.states state (record {
              root = root;
              open_value = true;
              granted = true;
              coro = true;
              timer = timed;
            });
        wait_awakes = m'.wait_awakes ++ (state ∷ []);
      },
    )

-- `timeout_awaiter::await_resume` after a suspension: whether the lock was obtained.
unfoldable pub await_resume : Mutex → Ptr → Bool
await_resume m s = (m.states s).granted
