-- ===== src/EventAll.antt =====
-- source/event_v2.cpp and include/librf/src/event_v2.inl: `state_event_all_t`, the state of a coroutine
-- that waits for all of several events, and `all_awaiter::await_suspend2`. Every operation holds
-- `_lock` throughout.
pub mod Refine
mod Tests
use librf.Prelude.{
  ℕ, zero, suc, ◌+◌, ◌-◌, Bool, true, false, not, ◌&&◌, List, [], ◌∷◌, ◌++◌, Option, none, some,
  map, if◌then◌else◌, ◌==◌, length, get_elem?, set,
}

-- `sub_state_t`: whether `first` refers to a proxy, and whether `second` refers to the event.
pub record SubState : Type 0 where
  pub first : Bool
  pub second : Bool

-- `scheduled` counts the calls of `add_generator`, and `removed` lists the proxies that were taken out
-- of their events' wait lists. `_counter` is decremented only where it is positive.
pub record StateAll : Type 0 where
  pub values : List SubState
  pub counter : ℕ
  pub result : Bool
  pub coro : Bool
  pub timer : Bool
  pub scheduled : ℕ
  pub removed : List ℕ

abbrev pub sub_state : Bool → SubState
sub_state ready =
    if ready
    then record { first = false; second = true }
    else record { first = true; second = true }

unfoldable pub waiting_for : List Bool → ℕ
waiting_for [] = 0
waiting_for (ready ∷ rs) = if ready then waiting_for rs else suc (waiting_for rs)

-- `await_suspend2`, given which events `try_wait_one` found signalled: whether the coroutine is
-- suspended. Where it is not, the awaiter's value is `true`.
unfoldable pub await_suspend : (timed : Bool) → List Bool → Bool × StateAll
unfolding waiting_for
await_suspend timed ready =
    let n = waiting_for ready in
    (
      not (n == 0),
      record {
        values = map sub_state ready;
        counter = n;
        result = n == 0;
        coro = true;
        timer = timed;
        scheduled = 0;
        removed = [];
      },
    )

unfoldable pub all_second : List SubState → Bool
all_second [] = true
all_second (s ∷ ss) = if s.second then all_second ss else false

abbrev pub schedule : StateAll → ℕ
schedule a = if a.coro then suc a.scheduled else a.scheduled

unfoldable pub on_cancel : StateAll → ℕ → StateAll
on_cancel a idx =
    let vs = set a.values idx (record { first = false; second = false }) in
    if a.counter == 0
    then a
    else (if a.counter == 1
        then record a {
          values = vs;
          counter = 0;
          result = false;
          timer = false;
          scheduled = schedule a;
        }
        else record a { values = vs; counter = a.counter - 1 })

abbrev pub clear_first : List SubState → ℕ → List SubState
clear_first vs idx = elim (get_elem? vs idx) [
  | none ↦ vs
  | some s ↦ set vs idx (record { first = false; second = s.second })
]

unfoldable pub on_notify : StateAll → ℕ → Bool × StateAll
unfolding all_second
on_notify a idx =
    let vs = clear_first a.values idx in
    if a.counter == 0 then (false, a) else (
      true,
      (if a.counter == 1
          then record a {
            values = vs;
            counter = 0;
            result = all_second vs;
            timer = false;
            scheduled = schedule a;
          }
          else record a { values = vs; counter = a.counter - 1 }),
    )

-- The loop of `on_timeout` from a position on: the values, and the proxies that are taken out.
unfoldable pub drop_events : ℕ → List SubState → List SubState × List ℕ
drop_events i [] = ([], [])
drop_events i (s ∷ ss) =
    let (vs, out) = drop_events (suc i) ss in
    if s.first
    then (record { first = true; second = false } ∷ vs, (if s.second then i ∷ out else out))
    else (s ∷ vs, out)

unfoldable pub on_timeout : StateAll → Bool × StateAll
unfolding drop_events
on_timeout a =
    let (vs, out) = drop_events 0 a.values in
    if a.counter == 0 then (false, a) else (
      true,
      record a {
        values = vs;
        counter = 0;
        result = false;
        timer = false;
        scheduled = schedule a;
        removed = a.removed ++ out;
      },
    )
