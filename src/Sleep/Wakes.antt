-- ===== src/Sleep/Wakes.antt =====
-- sleep.cpp, timer.cpp and state.cpp: a coroutine that sleeps is woken once.
use librf.Prelude.{
  ℕ, ◌+◌, ◌≡◌, ap, subst, ◌∙◌, Bool, true, not, ◌||◌, List, [], ◌∷◌, ◌++◌, if◌then◌else◌, ◌==◌, ltb,
  arith,
}
use librf.Timer.{Manager, Request, adds, Target, timer_manager, empty, add, request}
use librf.Timer.Once.{called, count, entries}
use librf.Timer.Acts.{Event, asks, act, acts, acts-EachOnce}
use librf.Timer.Grows.{since, since-append, called-append, acts-Grew, acts-append}
use librf.Future.{Handle, VoidResult}
use librf.Awaitable.{Awaitable}
use librf.Sleep.{sleep_until, run_sleep}
use librf.Sleep.Runs.{outcome, Slept, run_sleep-Slept}

-- A sleep until `tp` on a manager that any history has led to; what happens to the manager from
-- then up to the wait, and after it.
module _ {ℓ} {E : Type ℓ} (timer_canceled : E) (body : ℕ → Bool → List Request) (f : ℕ → Target)
    (es : List Event) (tp : ℕ) (before after : List Event) where
  abbrev pub m : Manager
  m = acts body (timer_manager f) es

  abbrev pub slept_on : Manager × Awaitable (VoidResult E)
  slept_on = sleep_until m tp

  abbrev pub m1 : Manager
  m1 = acts body slept_on.0 before

  abbrev pub m2 : Manager
  m2 = acts body m1 after

  abbrev history : List Event
  history = es ++ (asks (adds tp ∷ []) ∷ (before ++ after))

  history_lem : acts body (timer_manager f) history ≡ m2
  unfolding acts act request sleep_until
  history_lem =
      acts-append body es (asks (adds tp ∷ []) ∷ (before ++ after)) (timer_manager f)
      ∙ acts-append body before after (add m tp)

  total : called m.made m2.calls + count m.made m2.added + entries m.made m2.runing ≡ 1
  unfolding sleep_until add
  total =
      let h = (acts-EachOnce body f history).once m.made in
      let g = acts-Grew body before slept_on.0 in
      let k = acts-Grew body after m1 in
      let t =
        subst
          (λ x.
            called m.made x.calls + count m.made x.added + entries m.made x.runing
            ≡ (if ltb m.made x.made then 1 else 0))
          history_lem h in
      ground (arith, t, g.more, k.more)

  -- Whatever else happens to the timer manager: the callback of the timer that `sleep_until_` makes
  -- never settles an awaitable that was settled; it was called, if no timer is left. If it was not
  -- called before the coroutine waits, the coroutine is suspended and given to its scheduler once if
  -- the callback is called later; it is then what the state resumes, and returns if the callback was
  -- not told of a cancellation, else throws `timer_canceled`. If it was called before, the coroutine
  -- goes on without a suspension, unless the timer was cancelled: then it is suspended and never
  -- given to the scheduler.
  pub sleep-Slept :
      (h : Handle)
      → ((not (empty m2) || (called m.made m2.calls == 1)) ≡ true)
        × Slept timer_canceled
            (outcome m.made m1.calls)
            (outcome m.made (since m1.calls m2.calls))
            h
            (run_sleep timer_canceled m.made m1.calls (since m1.calls m2.calls) h slept_on.1)
  unfolding empty count entries sleep_until
  sleep-Slept h =
      let k = acts-Grew body after m1 in
      let rest : since m1.calls m2.calls ≡ k.later_calls =
        ap (since m1.calls) k.calls ∙ since-append m1.calls k.later_calls in
      let split : called m.made m2.calls ≡ called m.made m1.calls + called m.made k.later_calls =
        ap (called m.made) k.calls ∙ called-append m.made m1.calls k.later_calls in
      (
        ground (arith, total),
        rw rest (
            run_sleep-Slept timer_canceled m.made m1.calls k.later_calls h
              (omega (arith, split, total))),
      )
