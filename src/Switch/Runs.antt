-- ===== src/Switch/Runs.antt =====
-- Several schedulers: what any sequence of starts, changes of scheduler, yields and ends of coroutines
-- leaves.
use librf.Prelude.{◌≡◌, ◌≢◌, subst, Bool, false, List, [], ◌∷◌, arith, Bool-cases, inl, inr}
use librf.CountedPtr.{Ptr, null}
use librf.Generator.Asks.{has-erase, has-emplace}
use librf.Switch.{
  World, add_switch, add_generator, new_task, del_final, switch_scheduler_await_suspend,
  yield_await_suspend, via_await_suspend, set_scheduler,
}
use librf.Switch.Home.{tasked, AtHome, switch-Keeps, suspend_ready-Keeps, set_scheduler-Keeps}

-- `chain` is a state with its ancestors, `st` the new state of an awaiter.
pub data Action : Type 0 where
  starts : (sch state : Ptr) → (has_handler : Bool) → Action
  goes : (st p : Ptr) → (ancestors : List Ptr) → (sch : Ptr) → Action
  yields : (st p : Ptr) → (ancestors : List Ptr) → Action
  ends : (state : Ptr) → Action

unfoldable pub act : World → Action → World
unfolding new_task yield_await_suspend via_await_suspend del_final
act w (starts sch p h) = new_task w sch p h
act w (goes st p ancestors sch) = (via_await_suspend w st p ancestors sch).1
act w (yields st p ancestors) = (yield_await_suspend w st p ancestors).1
act w (ends p) = del_final w (w.scheduler_of p) p

unfoldable pub acts : World → List Action → World
unfolding act
acts w [] = w
acts w (a ∷ rest) = acts (act w a) rest

-- `assert(sch != nullptr)`; a state is given to one task; the state of an awaiter is new, and has no
-- scheduler, also after the coroutine's state went to another.
abbrev pub Allowed : World → Action → Type 0
Allowed w (starts sch p h) = (sch ≢ null) × (tasked w p ≡ false)
Allowed w (goes st p ancestors sch) =
    (sch ≢ null) × ((switch_scheduler_await_suspend w (p ∷ ancestors) sch).1.scheduler_of st ≡ null)
Allowed w (yields st p ancestors) = w.scheduler_of st ≡ null
Allowed w (ends p) = Unit

abbrev pub AllowedAll : World → List Action → Type 0
AllowedAll w [] = Unit
AllowedAll w (a ∷ rest) = Allowed w a × AllowedAll (act w a) rest

add_switch-AtHome :
    (w : World) (p : Ptr)
    → w.scheduler_of p ≢ null
    → AtHome w
    → AtHome (add_switch w (w.scheduler_of p) p)
unfolding add_switch
add_switch-AtHome w p n v =
    let e = λ (q : Ptr). has-emplace q p (w.ready_task (w.scheduler_of p)) in
    record {
      home = λ q t h. ground (arith, e q, v.home q t, v.home q (w.scheduler_of p));
      no_null = λ q. ground (arith, e q, v.no_null q);
    }

new_task-AtHome :
    (w : World) (sch p : Ptr) (h : Bool)
    → sch ≢ null
    → tasked w p ≡ false
    → AtHome w
    → AtHome (new_task w sch p h)
unfolding new_task add_generator
new_task-AtHome w sch p h n t v =
    let w' = set_scheduler w p sch in
    let here : w'.scheduler_of p ≡ sch = ground arith in
    let k = (set_scheduler-Keeps w p sch t v).kept_home in
    let a : AtHome (add_switch w' sch p) =
      subst (λ s. AtHome (add_switch w' s p)) here (add_switch-AtHome w' p (rw here n) k) in
    elim (Bool-cases h) [
      | inl e ↦ rw e (record { home = a.home; no_null = a.no_null })
      | inr e ↦ rw e a
    ]

del_final-AtHome : (w : World) (sch p : Ptr) → AtHome w → AtHome (del_final w sch p)
unfolding del_final
del_final-AtHome w sch p v = record {
  home = λ q t h. ground (arith, has-erase q p (w.ready_task sch), v.home q t, v.home q sch);
  no_null = λ q. ground (arith, has-erase q p (w.ready_task sch), v.no_null q);
}

via-AtHome :
    (w : World) (st p : Ptr) (ancestors : List Ptr) (sch : Ptr)
    → sch ≢ null
    → (switch_scheduler_await_suspend w (p ∷ ancestors) sch).1.scheduler_of st ≡ null
    → AtHome w
    → AtHome (via_await_suspend w st p ancestors sch).1
unfolding via_await_suspend
via-AtHome w st p ancestors sch n new v =
    let s = switch_scheduler_await_suspend w (p ∷ ancestors) sch in
    let k = switch-Keeps (p ∷ ancestors) w sch n v in
    elim (Bool-cases s.0) [
      | inl e ↦ rw e (suspend_ready-Keeps s.1 st p ancestors new k.kept_home).kept_home
      | inr e ↦ rw e k.kept_home
    ]

act-AtHome : (w : World) (a : Action) → Allowed w a → AtHome w → AtHome (act w a)
unfolding act yield_await_suspend
act-AtHome w (starts sch p h) l v = new_task-AtHome w sch p h l.0 l.1 v
act-AtHome w (goes st p ancestors sch) l v = via-AtHome w st p ancestors sch l.0 l.1 v
act-AtHome w (yields st p ancestors) l v = (suspend_ready-Keeps w st p ancestors l v).kept_home
act-AtHome w (ends p) l v = del_final-AtHome w (w.scheduler_of p) p v

-- Whatever coroutines of any number of schedulers do, as they start, change their scheduler, yield and
-- end: every task is at the scheduler of its state, and so at no other, if it was so at first, if no
-- scheduler that is asked for is null, no state is started while it has a task, and the states that
-- the awaiters make are new.
pub acts-AtHome :
    (rest : List Action) (w : World) → AllowedAll w rest → AtHome w → AtHome (acts w rest)
unfolding acts
acts-AtHome [] w l v = v
acts-AtHome (a ∷ rest) w l v = acts-AtHome rest (act w a) l.1 (act-AtHome w a l.0 v)
