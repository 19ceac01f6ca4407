-- ===== src/Switch/Home.antt =====
-- state.cpp and scheduler.cpp: every task is at the scheduler of its state.
use librf.Prelude.{
  ◌≡◌, ◌≢◌, refl, ◌∙◌, subst, Bool, true, false, List, [], ◌∷◌, none, some, if◌then◌else◌, ◌==◌,
  arith, Bool-cases, inl, inr, Option-cases,
}
use librf.CountedPtr.{Ptr, null}
use librf.Scheduler.{has, emplace, erase}
use librf.Generator.Asks.{has-erase, has-emplace}
use librf.Switch.{
  World, set_scheduler, add_switch, del_switch, add_generator, store, get_scheduler, switch_state,
  switch_scheduler_await_suspend, suspend_ready,
}

-- Whether the scheduler of the state `p` has a task of it.
abbrev pub tasked : World → Ptr → Bool
tasked w p = has p (w.ready_task (w.scheduler_of p))

-- Every task is at the scheduler of its state, so that no task is at two.
pub record AtHome (w : World) : Type 0 where
  pub home : (q t : Ptr) → has q (w.ready_task t) ≡ true → w.scheduler_of q ≡ t
  pub no_null : (q : Ptr) → has q (w.ready_task null) ≡ false

-- A step that keeps all tasks.
pub record Keeps (w w' : World) : Type 0 where
  pub kept_home : AtHome w'
  pub same_tasks : (q : Ptr) → tasked w' q ≡ tasked w q

-- `switch_state` by its results.
module _ (w : World) (p sch : Ptr) where
  -- The state goes to another scheduler, and its task with it.
  abbrev pub moved : World
  moved = record w {
    scheduler_of = store w.scheduler_of p sch;
    ready_task =
        store (store w.ready_task (w.scheduler_of p) (erase p (w.ready_task (w.scheduler_of p))))
          sch (emplace p (w.ready_task sch));
  }

  pub set_scheduler-Keeps : tasked w p ≡ false → AtHome w → Keeps w (set_scheduler w p sch)
  set_scheduler-Keeps u v = record {
    kept_home = record {
      home = λ q t h. elim (Bool-cases (p == q)) [
        | inl e ↦ ground (arith, v.home q t h)
        | inr e ↦ ground (arith, v.home q t h)
      ];
      no_null = v.no_null;
    };
    same_tasks = λ q. elim (Bool-cases (p == q)) [
      | inl e ↦ ground (arith, v.home p sch)
      | inr e ↦ ground arith
    ];
  }

  has-moved :
      (q t : Ptr)
      → has q (moved.ready_task t) ≡ (
          if sch == t
          then (if p == q then true else has q (w.ready_task sch))
          else if w.scheduler_of p == t
          then (if p == q then false else has q (w.ready_task t))
          else has q (w.ready_task t))
  has-moved q t =
      ground
        (arith, has-emplace q p (w.ready_task sch), has-erase q p (w.ready_task (w.scheduler_of p)))

  moved-Keeps :
      sch ≢ null → (w.scheduler_of p == sch) ≡ false → tasked w p ≡ true → AtHome w → Keeps w moved
  moved-Keeps n d t v = record {
    kept_home = record {
      home = λ q s h. elim (Bool-cases (p == q)) [
        | inl e ↦ ground (arith, has-moved q s, v.home q s, v.home q sch, v.home p s)
        | inr e ↦ ground (arith, has-moved q s, v.home q s, v.home q sch, v.home p s)
      ];
      no_null = λ q. ground (arith, has-moved q null, v.no_null q);
    };
    same_tasks = λ q. elim (Bool-cases (p == q)) [
      | inl e ↦ ground (arith, has-moved q sch, has-moved q (moved.scheduler_of q))
      | inr e ↦ ground (arith, has-moved q (w.scheduler_of q), v.home q sch)
    ];
  }

  pub switch_state_lem : switch_state w p sch ≡ (
      if w.scheduler_of p == null
      then some (set_scheduler w p sch)
      else if w.scheduler_of p == sch
      then none
      else if tasked w p
      then some moved
      else some (set_scheduler w p sch))
  unfolding switch_state del_switch add_switch
  switch_state_lem = ground arith

pub Keeps-refl : (w : World) → AtHome w → Keeps w w
Keeps-refl w v = record { kept_home = v; same_tasks = λ q. refl }

pub Keeps-trans : (w w' w'' : World) → Keeps w w' → Keeps w' w'' → Keeps w w''
Keeps-trans w w' w'' k l = record {
  kept_home = l.kept_home;
  same_tasks = λ q. l.same_tasks q ∙ k.same_tasks q;
}

switch_state-Keeps :
    (w : World) (p sch : Ptr) (w' : World)
    → sch ≢ null
    → AtHome w
    → switch_state w p sch ≡ some w'
    → Keeps w w'
switch_state-Keeps w p sch w' n v e =
    let l = switch_state_lem w p sch in
    let alone = set_scheduler-Keeps w p sch in
    elim (Bool-cases (w.scheduler_of p == null)) [
      | inl a ↦
          let u : tasked w p ≡ false = ground (arith, v.no_null p, a) in
          let q : set_scheduler w p sch ≡ w' = ground (arith, l, a, e) in
          subst (Keeps w) q (alone u v)
      | inr a ↦ elim (Bool-cases (w.scheduler_of p == sch)) [
        | inl b ↦ absurd (ground (arith, l, a, b, e))
        | inr b ↦ elim (Bool-cases (tasked w p)) [
          | inl c ↦
              let q : moved w p sch ≡ w' = ground (arith, l, a, b, c, e) in
              subst (Keeps w) q (moved-Keeps w p sch n b c v)
          | inr c ↦
              let q : set_scheduler w p sch ≡ w' = ground (arith, l, a, b, c, e) in
              subst (Keeps w) q (alone c v)
        ]
      ]
    ]

pub switch-Keeps :
    (chain : List Ptr) (w : World) (sch : Ptr)
    → sch ≢ null
    → AtHome w
    → Keeps w (switch_scheduler_await_suspend w chain sch).1
unfolding switch_scheduler_await_suspend
switch-Keeps [] w sch n v = Keeps-refl w v
switch-Keeps (p ∷ chain) w sch n v = elim (Option-cases (switch_state w p sch)) [
  | inl e ↦ rw (e, switch_scheduler_await_suspend) (Keeps-refl w v)
  | inr (w', e) ↦
      let k = switch_state-Keeps w p sch w' n v e in
      rw (e, switch_scheduler_await_suspend)
        (Keeps-trans w w' (switch_scheduler_await_suspend w' chain sch).1 k
          (switch-Keeps chain w' sch n k.kept_home))
]

-- A new state, without a scheduler, that is made ready.
pub suspend_ready-Keeps :
    (w : World) (st p : Ptr) (ancestors : List Ptr)
    → w.scheduler_of st ≡ null
    → AtHome w
    → Keeps w (suspend_ready w st p ancestors)
unfolding suspend_ready add_generator
suspend_ready-Keeps w st p ancestors new v =
    let sch = get_scheduler w p ancestors in
    let k = set_scheduler-Keeps w st sch (ground (arith, v.no_null st)) v in
    elim (Bool-cases (sch == null)) [
      | inl e ↦ rw e k
      | inr e ↦ rw e (record {
        kept_home = record { home = k.kept_home.home; no_null = k.kept_home.no_null };
        same_tasks = k.same_tasks;
      })
    ]
