-- ===== src/Switch/Via.antt =====
-- switch_scheduler.h and yield.h: where a coroutine goes on after it asked to change its scheduler.
use librf.Prelude.{
  ◌≡◌, ◌≢◌, refl, ◌∙◌, subst, sym, ap, Bool, true, false, List, [], ◌∷◌, ◌++◌, none, some,
  if◌then◌else◌, ◌==◌, arith, Bool-cases, inl, inr,
}
use librf.CountedPtr.{Ptr, null}
use librf.Scheduler.{has}
use librf.Switch.{
  World, set_scheduler, find_task, add_generator, store, get_scheduler, switch_state,
  switch_scheduler_await_suspend, suspend_ready, via_await_suspend, get_root, get_current_task,
}
use librf.Switch.Home.{
  Keeps-refl, Keeps-trans, tasked, AtHome, Keeps, switch-Keeps, suspend_ready-Keeps, moved,
  switch_state_lem,
}

-- No state is its own ancestor.
abbrev pub Distinct : List Ptr → Type 0
Distinct [] = Unit
Distinct (p ∷ ps) = (has p ps ≡ false) × Distinct ps

-- The states of a chain before the first that has the scheduler already.
unfoldable pub behind : (Ptr → Ptr) → Ptr → List Ptr → List Ptr
behind f sch [] = []
behind f sch (p ∷ ps) = if f p == sch then [] else p ∷ behind f sch ps

behind-store :
    (f : Ptr → Ptr) (sch p : Ptr) (ps : List Ptr)
    → has p ps ≡ false
    → behind (store f p sch) sch ps ≡ behind f sch ps
unfolding behind has
behind-store f sch p [] n = refl
behind-store f sch p (q ∷ ps) n = ground (arith, behind-store f sch p ps)

-- `switch_state` succeeds unless the state has the scheduler already, sets the scheduler, and leaves
-- the queues.
switch_state-sets :
    (w : World) (p sch : Ptr)
    → sch ≢ null
    → (w.scheduler_of p == sch) ≡ false
    → (w' : World) × (switch_state w p sch ≡ some w')
      × (w'.scheduler_of ≡ store w.scheduler_of p sch)
      × (w'.runing_states ≡ w.runing_states)
switch_state-sets w p sch n d = elim (Bool-cases (w.scheduler_of p == null)) [
  | inl a ↦ (set_scheduler w p sch, switch_state_lem w p sch ∙ rw a refl, refl, refl)
  | inr a ↦ elim (Bool-cases (tasked w p)) [
    | inl c ↦ (moved w p sch, switch_state_lem w p sch ∙ rw (a, d, c) refl, refl, refl)
    | inr c ↦ (set_scheduler w p sch, switch_state_lem w p sch ∙ rw (a, d, c) refl, refl, refl)
  ]
]

-- What becomes of the schedulers and the queues.
abbrev Switched : World → List Ptr → Ptr → World → Type 0
Switched w chain sch w' =
    ((q : Ptr)
      → w'.scheduler_of q
        ≡ (if has q (behind w.scheduler_of sch chain) then sch else w.scheduler_of q))
    × (w'.runing_states ≡ w.runing_states)

switch_lem :
    (chain : List Ptr) (w : World) (sch : Ptr)
    → sch ≢ null
    → Distinct chain
    → Switched w chain sch (switch_scheduler_await_suspend w chain sch).1
unfolding switch_scheduler_await_suspend behind has
switch_lem [] w sch n d = (λ q. refl, refl)
switch_lem (p ∷ chain) w sch n d = elim (Bool-cases (w.scheduler_of p == sch)) [
  | inl e ↦
      let l : switch_state w p sch ≡ none = ground (arith, switch_state_lem w p sch, e, n) in
      rw (l, switch_scheduler_await_suspend, e, behind) (λ q. refl, refl)
  | inr e ↦
      let (w', l, f, r) = switch_state-sets w p sch n e in
      let (ih, same) = switch_lem chain w' sch n d.1 in
      let b : behind w'.scheduler_of sch chain ≡ behind w.scheduler_of sch chain =
        rw f (behind-store w.scheduler_of sch p chain d.0) in
      rw (l, switch_scheduler_await_suspend, e, behind)
        (λ q. ground (arith, ih q, b, ap (λ g. g q) f), same ∙ r)
]

-- What `co_await via(sch)` does to a coroutine of the state `p`; `st` is the state made for it.
pub record Gone (w : World) (st p : Ptr) (ancestors : List Ptr) (sch : Ptr) (r : Bool × World)
    : Type 0 where
  pub stays : w.scheduler_of p ≡ sch → r ≡ (false, w)
  pub suspends : w.scheduler_of p ≢ sch → r.0 ≡ true
  pub queued :
      w.scheduler_of p ≢ sch
      → (t : Ptr)
      → r.1.runing_states t
        ≡ (if sch == t then w.runing_states t ++ (st ∷ []) else w.runing_states t)
  pub schedulers :
      (q : Ptr)
      → q ≢ st
      → r.1.scheduler_of q
        ≡ (if has q (behind w.scheduler_of sch (p ∷ ancestors)) then sch else w.scheduler_of q)
  pub tasks : Keeps w r.1
  pub current_task : get_current_task r.1 p ancestors ≡ get_current_task w p ancestors

get_current_task_lem :
    (w : World) (p : Ptr) (ancestors : List Ptr)
    → get_current_task w p ancestors ≡ tasked w (get_root p ancestors)
unfolding get_current_task get_scheduler find_task
get_current_task_lem w p ancestors = ground arith

behind-has :
    (sch q : Ptr) (f : Ptr → Ptr) (ps : List Ptr)
    → has q ps ≡ false
    → has q (behind f sch ps) ≡ false
unfolding has behind
behind-has sch q f [] h = refl
behind-has sch q f (x ∷ ps) h = ground (arith, behind-has sch q f ps)

module _ (w : World) (st p : Ptr) (ancestors : List Ptr) (sch : Ptr) (n : sch ≢ null) (v : AtHome w)
    (new : w.scheduler_of st ≡ null) (apart : has st (p ∷ ancestors) ≡ false)
    (d : Distinct (p ∷ ancestors)) where
  switched : Bool × World
  switched = switch_scheduler_await_suspend w (p ∷ ancestors) sch

  via-stays : w.scheduler_of p ≡ sch → via_await_suspend w st p ancestors sch ≡ (false, w)
  unfolding via_await_suspend switch_scheduler_await_suspend
  via-stays e =
      let l : switch_state w p sch ≡ none = ground (arith, switch_state_lem w p sch, e, n) in
      rw (l, switch_scheduler_await_suspend) refl

  via-goes :
      w.scheduler_of p ≢ sch
      → via_await_suspend w st p ancestors sch ≡ (true, suspend_ready switched.1 st p ancestors)
  unfolding via_await_suspend switch_scheduler_await_suspend switched
  via-goes e =
      let (w', l, f, r) = switch_state-sets w p sch n (ground (arith, e)) in
      rw (l, switch_scheduler_await_suspend) refl

  switched-home : w.scheduler_of p ≢ sch → switched.1.scheduler_of p ≡ sch
  unfolding behind has switched
  switched-home e = ground (arith, (switch_lem (p ∷ ancestors) w sch n d).0 p)

  suspended-world :
      w.scheduler_of p ≢ sch
      → suspend_ready switched.1 st p ancestors
        ≡ add_generator (set_scheduler switched.1 st sch) sch st
  unfolding suspend_ready get_scheduler
  suspended-world e = ground (arith, switched-home e)

  suspended-Gone :
      w.scheduler_of p ≢ sch
      → Gone w st p ancestors sch (true, add_generator (set_scheduler switched.1 st sch) sch st)
  unfolding add_generator switched
  suspended-Gone e =
      let l = switch_lem (p ∷ ancestors) w sch n d in
      let k = switch-Keeps (p ∷ ancestors) w sch n v in
      let fresh : switched.1.scheduler_of st ≡ null =
        ground (arith, l.0 st, behind-has sch st w.scheduler_of (p ∷ ancestors) apart, new) in
      let kept =
        subst (Keeps switched.1) (suspended-world e)
          (suspend_ready-Keeps switched.1 st p ancestors fresh k.kept_home) in
      let all =
        Keeps-trans w switched.1 (add_generator (set_scheduler switched.1 st sch) sch st) k kept in
      record {
        stays = λ q. absurd (e q);
        suspends = λ q. refl;
        queued = λ q t. ground (arith, ap (λ f. f t) l.1, ap (λ f. f sch) l.1);
        schedulers = λ q m. ground (arith, l.0 q);
        tasks = all;
        current_task =
            get_current_task_lem (add_generator (set_scheduler switched.1 st sch) sch st) p
              ancestors
            ∙ all.same_tasks (get_root p ancestors)
            ∙ sym (get_current_task_lem w p ancestors);
      }

  -- A coroutine, none of whose states is its own ancestor, asks for a scheduler by `via`, in a world in
  -- which every task is at the scheduler of its state. If its state has that scheduler already, it
  -- goes on and nothing changes. Else it is suspended and queued, once and last, at that scheduler and
  -- at no other; its state, and its ancestors up to the first that has the scheduler already, get the
  -- scheduler, and no other state does; every task is kept, moves with its state, and is at the
  -- scheduler of its state again; and the coroutine's own task is found as before.
  pub via-Gone : Gone w st p ancestors sch (via_await_suspend w st p ancestors sch)
  unfolding behind has
  via-Gone = elim (Bool-cases (w.scheduler_of p == sch)) [
    | inl e ↦
        let same : w.scheduler_of p ≡ sch = ground arith in
        rw (via-stays same) (record {
          stays = λ q. refl;
          suspends = λ q. absurd (q same);
          queued = λ q t. absurd (q same);
          schedulers = λ q m. rw (e, behind) refl;
          tasks = Keeps-refl w v;
          current_task = refl;
        })
    | inr e ↦
        let other : w.scheduler_of p ≢ sch = ground arith in
        rw (via-goes other, suspended-world other) (suspended-Gone other)
  ]
