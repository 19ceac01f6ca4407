-- ===== src/Switch.antt =====
-- source/state.cpp, include/librf/src/switch_scheduler.h, yield.h and current_scheduler.h: several
-- schedulers, and a coroutine that goes from one to another, yields, or asks for its scheduler. Of
-- scheduler.cpp it has the operations on `_ready_task`.
pub mod Home
pub mod Via
pub mod Runs
mod Tests
use librf.Prelude.{Bool, true, false, List, [], ◌∷◌, ◌++◌, Option, none, some, if◌then◌else◌, ◌==◌}
use librf.CountedPtr.{Ptr, null}
use librf.Scheduler.{has, emplace, erase}

-- `_scheduler` of every state; the keys of `_ready_task` and `_runing_states` of every scheduler.
pub record World : Type 0 where
  pub scheduler_of : Ptr → Ptr
  pub ready_task : Ptr → List Ptr
  pub runing_states : Ptr → List Ptr

abbrev pub store {ℓ} : {V : Type ℓ} → (Ptr → V) → Ptr → V → Ptr → V
store f p v a = if p == a then v else f a

abbrev pub set_scheduler : World → (state sch : Ptr) → World
set_scheduler w p sch = record w { scheduler_of = store w.scheduler_of p sch }

-- `find_task`, as whether there is one.
unfoldable pub find_task : World → (sch state : Ptr) → Bool
unfolding has
find_task w sch p = has p (w.ready_task sch)

unfoldable pub add_switch : World → (sch state : Ptr) → World
unfolding emplace
add_switch w sch p = record w { ready_task = store w.ready_task sch (emplace p (w.ready_task sch)) }

-- Whether there was a task to take away.
unfoldable pub del_switch : World → (sch state : Ptr) → Bool × World
unfolding has erase
del_switch w sch p =
    if has p (w.ready_task sch)
    then (true, record w { ready_task = store w.ready_task sch (erase p (w.ready_task sch)) })
    else (false, w)

unfoldable pub add_generator : World → (sch state : Ptr) → World
add_generator w sch p = record w {
  runing_states = store w.runing_states sch (w.runing_states sch ++ (p ∷ []));
}

unfoldable pub new_task : World → (sch state : Ptr) → (has_handler : Bool) → World
unfolding add_switch add_generator
new_task w sch p has_handler =
    let w' = add_switch (set_scheduler w p sch) sch p in
    if has_handler then add_generator w' sch p else w'

-- `_scheduler->del_final(this)` of a state that ends.
unfoldable pub del_final : World → (sch state : Ptr) → World
unfolding erase
del_final w sch p = record w { ready_task = store w.ready_task sch (erase p (w.ready_task sch)) }

-- A state is given with its ancestors, `_parent` by `_parent`: the list begins with it and ends with
-- its root. The state of a generator has no ancestors.
abbrev pub get_root : Ptr → List Ptr → Ptr
get_root p [] = p
get_root p (q ∷ qs) = get_root q qs

unfoldable pub get_scheduler : World → Ptr → List Ptr → Ptr
get_scheduler w p ancestors =
    if w.scheduler_of p == null then w.scheduler_of (get_root p ancestors) else w.scheduler_of p

-- The awaiters of current_scheduler.h: whether the task of the root is found, at the root's scheduler.
unfoldable pub get_current_task : World → Ptr → List Ptr → Bool
unfolding get_scheduler find_task
get_current_task w p ancestors =
    let root = get_root p ancestors in find_task w (get_scheduler w root []) root

-- `switch_scheduler_await_suspend` up to its last test: none if it returns false.
unfoldable pub switch_state : World → (state sch : Ptr) → Option World
unfolding add_switch del_switch
switch_state w p sch =
    let (found, w') = del_switch w (w.scheduler_of p) p in
    let w'' = set_scheduler w' p sch in
    if w.scheduler_of p == null
    then some (set_scheduler w p sch)
    else if w.scheduler_of p == sch
    then none
    else (if found then some (add_switch w'' sch p) else some w'')

unfoldable pub switch_scheduler_await_suspend : World → List Ptr → (sch : Ptr) → Bool × World
unfolding switch_state
switch_scheduler_await_suspend w [] sch = (true, w)
switch_scheduler_await_suspend w (p ∷ ancestors) sch = elim (switch_state w p sch) [
  | none ↦ (false, w)
  | some w' ↦ (true, (switch_scheduler_await_suspend w' ancestors sch).1)
]

-- `future_await_suspend` of a new state that has a value and no scheduler: the two awaiters end so.
unfoldable pub suspend_ready : World → (state : Ptr) → Ptr → List Ptr → World
unfolding get_scheduler add_generator
suspend_ready w st p ancestors =
    let sch = get_scheduler w p ancestors in
    let w' = set_scheduler w st sch in if sch == null then w' else add_generator w' sch st

-- `yield_awaitor::await_suspend` of the coroutine with the state `p`: it is always suspended.
unfoldable pub yield_await_suspend : World → (state : Ptr) → Ptr → List Ptr → Bool × World
unfolding suspend_ready
yield_await_suspend w st p ancestors = (true, suspend_ready w st p ancestors)

-- `switch_scheduler_awaitor::await_suspend`: whether it is suspended.
unfoldable pub via_await_suspend :
    World → (state : Ptr) → Ptr → List Ptr → (sch : Ptr) → Bool × World
unfolding switch_scheduler_await_suspend suspend_ready
via_await_suspend w st p ancestors sch =
    let (switched, w') = switch_scheduler_await_suspend w (p ∷ ancestors) sch in
    if switched then (true, suspend_ready w' st p ancestors) else (false, w')
