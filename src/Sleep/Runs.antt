-- ===== src/Sleep/Runs.antt =====
-- sleep.cpp and state.cpp: a sleep whose timer is called at most once.
use librf.Prelude.{
  ℕ, ◌+◌, ◌≡◌, ◌≤◌, refl, ◌∙◌, Bool, true, false, List, [], ◌∷◌, Option, none, some, if◌then◌else◌,
  ◌==◌, arith, Bool-cases, Option-cases, inl, inr,
}
use librf.Timer.Once.{called}
use librf.Future.{
  Handle, VoidResult, await_suspend, await_ready_void, await_resume_void, resume, new_state, wakes,
  idles, set_value_void, set_exception_void, notify, has_handler, is_initor,
}
use librf.Future.Reaches.{empty_void}
use librf.Awaitable.{Awaitable, awaitable, set_nothing, throw_exception}
use librf.Sleep.{callback, called_back, await_sleep, run_sleep}

-- How the timer `p` was called, the first time.
unfoldable pub outcome : ℕ → List (ℕ × Bool) → Option Bool
outcome p [] = none
outcome p ((q, canceld) ∷ calls) = if q == p then some canceld else outcome p calls

-- Whether the coroutine is suspended, by how the timer was called before the wait; and how often it is
-- given to the scheduler, by how it was called before and after it.
abbrev pub suspends : Option Bool → Bool
suspends (some false) = false
suspends _ = true

abbrev pub given : (before after : Option Bool) → ℕ
given none (some canceld) = 1
given _ _ = 0

abbrev pub first_call : (before after : Option Bool) → Option Bool
first_call none after = after
first_call (some canceld) after = some canceld

module _ {ℓ} {E : Type ℓ} (timer_canceled : E) where
  -- What the state shows of a sleep of the coroutine `h`.
  pub record Slept (before after : Option Bool) (h : Handle)
      (r : Option (Bool × Awaitable (VoidResult E))) : Type ℓ where
    pub defined : (w : Bool × Awaitable (VoidResult E)) × (r ≡ some w)
    pub suspended : defined.0.0 ≡ suspends before
    pub woken : defined.0.1.state.scheduled ≡ given before after
    pub wakes_it : (resume defined.0.1.state).0 ≡ (if suspends before then wakes h else idles)
    pub result : await_resume_void defined.0.1.state ≡ (elim (first_call before after) [
      | none ↦ (false, none)
      | some false ↦ (true, none)
      | some true ↦ (false, some timer_canceled)
    ])

  not_called :
      (p : ℕ) (calls : List (ℕ × Bool)) (a : Awaitable (VoidResult E))
      → called p calls ≡ 0
      → called_back timer_canceled p calls a ≡ some a
  unfolding called_back called
  not_called p [] a e = refl
  not_called p ((q, c) ∷ calls) a e = elim (Bool-cases (q == p)) [
    | inl f ↦ absurd (ground (arith, e, f))
    | inr f ↦ rw f (not_called p calls a (ground (arith, e, f)))
  ]

  called_back_lem :
      (p : ℕ) (calls : List (ℕ × Bool)) (a : Awaitable (VoidResult E))
      → called p calls ≤ 1
      → called_back timer_canceled p calls a
        ≡ (elim (outcome p calls) [ none ↦ some a | some c ↦ callback timer_canceled c a ])
  unfolding called_back called outcome
  called_back_lem p [] a le = refl
  called_back_lem p ((q, c) ∷ calls) a le = elim (Bool-cases (q == p)) [
    | inl f ↦ elim (Option-cases (callback timer_canceled c a)) [
      | inl n ↦ rw (f, n) refl
      | inr (a', n) ↦ rw (f, n) (not_called p calls a' (ground (arith, le, f)))
    ]
    | inr f ↦ rw f (called_back_lem p calls a (ground (arith, le, f)))
  ]

  -- A sleep in which the timer was called at most once.
  ran : (before after : Option Bool) → Handle → Option (Bool × Awaitable (VoidResult E))
  ran before after h =
      let a = awaitable empty_void in
      elim before [
        | some c ↦ elim (callback timer_canceled c a) [
          | none ↦ none
          | some a' ↦ some (await_sleep h a')
        ]
        | none ↦ elim after [
          | none ↦ some (await_sleep h a)
          | some c ↦ elim (callback timer_canceled c (await_sleep h a).1) [
            | none ↦ none
            | some a' ↦ some ((await_sleep h a).0, a')
          ]
        ]
      ]

  ran-Slept : (before after : Option Bool) (h : Handle) → Slept before after h (ran before after h)
  unfolding ran callback throw_exception set_nothing awaitable await_sleep resume notify has_handler
      is_initor await_resume_void new_state set_value_void set_exception_void await_suspend
      await_ready_void
  ran-Slept none none h = record {
    defined = (_, refl);
    suspended = refl;
    woken = refl;
    wakes_it = refl;
    result = refl;
  }
  ran-Slept none (some true) h = record {
    defined = (_, refl);
    suspended = refl;
    woken = refl;
    wakes_it = refl;
    result = refl;
  }
  ran-Slept none (some false) h = record {
    defined = (_, refl);
    suspended = refl;
    woken = refl;
    wakes_it = refl;
    result = refl;
  }
  ran-Slept (some true) o h = record {
    defined = (_, refl);
    suspended = refl;
    woken = refl;
    wakes_it = refl;
    result = refl;
  }
  ran-Slept (some false) o h = record {
    defined = (_, refl);
    suspended = refl;
    woken = refl;
    wakes_it = refl;
    result = refl;
  }

  outcome-called : (p : ℕ) (calls : List (ℕ × Bool)) → called p calls ≡ 0 → outcome p calls ≡ none
  unfolding outcome called
  outcome-called p [] e = refl
  outcome-called p ((q, c) ∷ calls) e = ground (arith, outcome-called p calls, e)

  called-outcome :
      (p : ℕ) (calls : List (ℕ × Bool)) (c : Bool) → outcome p calls ≡ some c → 1 ≤ called p calls
  unfolding outcome called
  called-outcome p [] c e = absurd (cc)
  called-outcome p ((q, b) ∷ calls) c e = ground (arith, called-outcome p calls c, e)

  run_sleep_lem :
      (p : ℕ) (before after : List (ℕ × Bool)) (h : Handle)
      → called p before + called p after ≤ 1
      → run_sleep timer_canceled p before after h (awaitable empty_void)
        ≡ ran (outcome p before) (outcome p after) h
  unfolding run_sleep ran
  run_sleep_lem p before after h le =
      let a = awaitable {R = VoidResult E} empty_void in
      let first = called_back_lem p before a (omega (arith, le)) in
      elim (Option-cases (outcome p before)) [
        | inl n ↦
            let here : called_back timer_canceled p before a ≡ some a = first ∙ rw n refl in
            let w = await_sleep h a in
            let second = called_back_lem p after w.1 (omega (arith, le)) in
            elim (Option-cases (outcome p after)) [
              | inl k ↦
                  let there : called_back timer_canceled p after w.1 ≡ some w.1 =
                    second ∙ rw k refl in
                  rw (here, run_sleep, there, n, ran, k) refl
              | inr (c, k) ↦
                  let there : called_back timer_canceled p after w.1
                      ≡ callback timer_canceled c w.1 =
                    second ∙ rw k refl in
                  rw (here, run_sleep, there, n, ran, k) refl
            ]
        | inr (c, n) ↦
            let here : called_back timer_canceled p before a ≡ callback timer_canceled c a =
              first ∙ rw n refl in
            let none_left : called p after ≡ 0 = ground (arith, called-outcome p before c n, le) in
            elim (Option-cases (callback timer_canceled c a)) [
              | inl k ↦ rw (here, run_sleep, n, ran, k) refl
              | inr (a', k) ↦
                  let there = not_called p after (await_sleep h a').1 none_left in
                  rw (here, run_sleep, n, ran, k, there) refl
            ]
      ]

  pub run_sleep-Slept :
      (p : ℕ) (before after : List (ℕ × Bool)) (h : Handle)
      → called p before + called p after ≤ 1
      → Slept
          (outcome p before)
          (outcome p after)
          h
          (run_sleep timer_canceled p before after h (awaitable empty_void))
  run_sleep-Slept p before after h le =
      rw (run_sleep_lem p before after h le) (ran-Slept (outcome p before) (outcome p after) h)
