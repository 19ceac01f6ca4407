-- ===== src/Event.antt =====
-- source/event_v2.cpp and include/librf/src/event_v2.inl: `event_v2_impl`, the `state_event_t` of a
-- coroutine that waits for it, and the awaiters of `wait`, `wait_for` and `wait_until`. Operations
-- that hold `_lock` are whole steps; `reset` does not hold it. The wait list is the list of states
-- that the link queue stands for: the event uses `push_back`, `try_pop` and `erase` of it only.
pub mod Signal
pub mod Waiting
pub mod Answers
mod Tests
use librf.Prelude.{
  ℕ, ◌+◌, ◌-◌, ◌%◌, Bool, true, false, not, ◌&&◌, List, [], ◌∷◌, ◌++◌, if◌then◌else◌, ◌==◌, ltb,
  size_mod, ◌^◌,
}
use librf.LinkQueue.{Ptr}
use librf.LinkQueue.Deque.{remove}

-- `state_event_t`: `open_value` is whether `_value` still points to the awaiter's `_event`,
-- `event_set` whether that `_event` is set, `timer` whether `_thandler` refers to a timer.
pub record WaitState : Type 0 where
  pub open_value : Bool
  pub event_set : Bool
  pub coro : Bool
  pub timer : Bool

-- The event with the states that it reaches. `scheduled` lists the states that `add_generator` was
-- called with, the latest last.
pub record Event : Type 0 where
  pub counter : ℕ
  pub wait_awakes : List Ptr
  pub states : Ptr → WaitState
  pub scheduled : List Ptr

-- `fetch_add(1)` and `fetch_add(-1)` on the bits of an `intptr_t`, and its test `> 0`.
abbrev pub up : ℕ → ℕ
up n = (n + 1) % size_mod

abbrev pub down : ℕ → ℕ
down n = (n + size_mod - 1) % size_mod

abbrev pub positive : ℕ → Bool
positive n = ltb 0 n && ltb n (2 ^ 63)

abbrev pub store : (Ptr → WaitState) → Ptr → WaitState → Ptr → WaitState
store f p v a = if p == a then v else f a

unfoldable pub event_v2 : (Ptr → WaitState) → Bool → Event
event_v2 st initially = record {
  counter = if initially then 1 else 0;
  wait_awakes = [];
  states = st;
  scheduled = [];
}

-- `if (this->_coro) this->_scheduler->add_generator(this)`
abbrev pub schedule : Event → Ptr → List Ptr
schedule e s = if (e.states s).coro then e.scheduled ++ (s ∷ []) else e.scheduled

unfoldable pub on_notify : Event → Ptr → Bool × Event
on_notify e s =
    let st = e.states s in
    if st.open_value
    then (
      true,
      record e {
        states =
            store e.states s (record st { open_value = false; event_set = true; timer = false });
        scheduled = schedule e s;
      },
    )
    else (false, e)

unfoldable pub on_timeout : Event → Ptr → Bool × Event
unfolding remove
on_timeout e s =
    let st = e.states s in
    if st.open_value
    then (
      true,
      record e {
        wait_awakes = if st.event_set then remove s e.wait_awakes else e.wait_awakes;
        states =
            store e.states s (record st { open_value = false; event_set = false; timer = false });
        scheduled = schedule e s;
      },
    )
    else (false, e)

unfoldable pub on_cancel : Event → Ptr → Event
on_cancel e s =
    let st = e.states s in
    if st.open_value
    then record e {
      states =
          store e.states s
            (record { open_value = false; event_set = false; timer = false; coro = false });
    }
    else e

-- The loop of `signal` over the waiting states, and the count behind it.
unfoldable pub notify_one : Event → List Ptr → Event
unfolding on_notify
notify_one e [] = record e { wait_awakes = []; counter = up e.counter }
notify_one e (s ∷ rest) =
    let (done, e1) = on_notify (record e { wait_awakes = rest }) s in
    let again = notify_one e1 rest in if done then e1 else again

unfoldable pub signal : Event → Event
unfolding notify_one
signal e = notify_one e e.wait_awakes

-- The loop of `signal_all`.
unfoldable pub notify_all : Event → List Ptr → Event
unfolding on_notify
notify_all e [] = record e { wait_awakes = [] }
notify_all e (s ∷ rest) = notify_all (on_notify (record e { wait_awakes = rest }) s).1 rest

unfoldable pub signal_all : Event → Event
unfolding notify_all
signal_all e = notify_all e e.wait_awakes

unfoldable pub reset : Event → Event
reset e = record e { counter = 0 }

-- The accesses of `try_wait_one` to the count do not hold `_lock` against a `reset`: whether one comes
-- before its `fetch_add(-1)`, and whether one comes before its `fetch_add(1)`. Two in one place are as
-- one.
pub record Resets : Type 0 where
  pub first : Bool
  pub second : Bool

abbrev pub reset_if : Bool → Event → Event
reset_if raced e = if raced then reset e else e

unfoldable pub try_wait_one : Event → Resets → Bool × Event
unfolding reset
try_wait_one e raced =
    let e1 = reset_if raced.first e in
    let e2 = reset_if raced.second (record e1 { counter = down e1.counter }) in
    if positive e.counter
    then (if positive e1.counter
        then (true, record e1 { counter = down e1.counter })
        else (false, record e2 { counter = up e2.counter }))
    else (false, e)

-- `awaiter::await_suspend2`: whether the coroutine is suspended, with a new state at the given
-- address and, for a timed wait, a timer.
unfoldable pub await_suspend : Event → (state : Ptr) → (timed : Bool) → Resets → Bool × Event
unfolding try_wait_one
await_suspend e s timed raced =
    let (got, e1) = try_wait_one e raced in
    if got then (false, e1) else (
      true,
      record e1 {
        wait_awakes = e1.wait_awakes ++ (s ∷ []);
        states =
            store e1.states s
              (record { open_value = true; event_set = true; coro = true; timer = timed });
      },
    )

-- `awaiter::await_resume` after a suspension: whether the event was signalled.
unfoldable pub await_resume : Event → Ptr → Bool
await_resume e s = (e.states s).event_set

-- `~awaiter` after a suspension.
unfoldable pub destroy : Event → Ptr → Event
unfolding remove
destroy e s =
    if (e.states s).event_set then record e { wait_awakes = remove s e.wait_awakes } else e
