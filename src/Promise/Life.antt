-- ===== src/Promise/Life.antt =====
-- promise.h, state.cpp and state.inl: the life of a coroutine that is a task.
use librf.Prelude.{
  ℕ, suc, ◌+◌, ◌≡◌, refl, ◌∙◌, ap, true, none, some, false, List, [], ◌∷◌, ◌++◌, append_assoc,
  length, replicate, arith,
}
use librf.Future.{
  Handle, Result, value, exception, no_initor, Resumed, runs, wakes, destroys, new_state,
  has_handler, resume, set_value, set_exception, notify, is_initor,
}
use librf.Future.Reaches.{Outcome, gives, fails}
use librf.Promise.{new_promise, Coroutine, start, step, steps}

module _ {ℓ} {A E : Type ℓ} where
  -- The result that the body leaves.
  unfoldable pub final_result : Outcome A E → Result A E
  final_result (gives val) = value val
  final_result (fails e) = exception e

module _ {ℓ} {A E : Type ℓ} (self : Handle) where
  -- A coroutine that has yielded last the value that is stored, and has `ys` to yield.
  abbrev yielded : Result A E → ℕ → List A → Outcome A E → List Resumed → Coroutine A E
  yielded stored n ys r did = record {
    handle = self;
    state = record {
      stored = stored;
      coro = some self;
      initor = no_initor;
      is_future = true;
      has_scheduler = true;
      scheduled = n;
    };
    left = ys;
    outcome = r;
    frame = true;
    did = did;
  }

  -- One whose frame was destroyed.
  abbrev pub ended : ℕ → Outcome A E → List Resumed → Coroutine A E
  ended n r did = record {
    handle = self;
    state = record {
      stored = final_result r;
      coro = none;
      initor = no_initor;
      is_future = true;
      has_scheduler = true;
      scheduled = n;
    };
    left = [];
    outcome = r;
    frame = false;
    did = did;
  }

  steps-last :
      (stored : Result A E) (n : ℕ) (r : Outcome A E) (did : List Resumed)
      → steps 2 (yielded stored n [] r did)
        ≡ ended (suc n) r ((did ++ (wakes self ∷ [])) ++ (destroys ∷ []))
  unfolding steps final_result resume set_value set_exception notify has_handler is_initor
  steps-last stored n (gives val) did = refl
  steps-last stored n (fails e) did = refl

  step-yielded :
      (stored : Result A E) (n : ℕ) (y : A) (ys : List A) (r : Outcome A E) (did : List Resumed)
      → step (yielded stored n (y ∷ ys) r did)
        ≡ yielded (value y) (suc n) ys r (did ++ (wakes self ∷ []))
  unfolding step
  step-yielded stored n y ys r did = refl

  steps-yielded :
      (ys : List A) (stored : Result A E) (n : ℕ) (r : Outcome A E) (did : List Resumed)
      → steps (suc (suc (length ys))) (yielded stored n ys r did)
        ≡ ended
            (suc (n + length ys))
            r
            (did ++ (replicate (suc (length ys)) (wakes self) ++ (destroys ∷ [])))
  unfolding steps
  steps-yielded [] stored n r did =
      steps-last stored n r did
      ∙ ap (ended (suc n) r) (append_assoc did (wakes self ∷ []) (destroys ∷ []))
      ∙ ap (λ k. ended (suc k) r (did ++ (wakes self ∷ destroys ∷ []))) (omega arith)
  steps-yielded (y ∷ ys) stored n r did =
      ap (steps (suc (suc (length ys)))) (step-yielded stored n y ys r did)
      ∙ steps-yielded ys (value y) (suc n) r (did ++ (wakes self ∷ []))
      ∙ ap (ended (suc (suc n + length ys)) r) (
          append_assoc did (wakes self ∷ [])
            (replicate (suc (length ys)) (wakes self) ++ (destroys ∷ [])))
      ∙ ap
          (λ k.
            ended (suc k) r
              (did ++ (replicate (suc (suc (length ys))) (wakes self) ++ (destroys ∷ []))))
          (omega arith)

  start-none : (r : Outcome A E) → steps 2 (start self [] r) ≡ ended 2 r (runs ∷ destroys ∷ [])
  unfolding steps start new_promise new_state has_handler final_result set_value set_exception
      notify is_initor
  start-none (gives val) = refl
  start-none (fails e) = refl

  start-some :
      (y : A) (ys : List A) (r : Outcome A E)
      → step (start self (y ∷ ys) r) ≡ yielded (value y) 2 ys r (runs ∷ [])
  unfolding step start new_promise new_state has_handler is_initor
  start-some y ys r = refl

  -- A coroutine that is started as a task, and for which no other coroutine waits: its state is
  -- resumed as often as it is given to the scheduler, once to run, once for each value that it yields,
  -- after which it waits for itself, and a last time to destroy the frame, which happens once; then nothing is scheduled or waits any
  -- more, and the state holds the value that it returned, or the exception that left it, for whoever
  -- asks.
  pub steps-start :
      (ys : List A) (r : Outcome A E)
      → steps (suc (suc (length ys))) (start self ys r)
        ≡ ended
            (suc (suc (length ys)))
            r
            (runs ∷ (replicate (length ys) (wakes self) ++ (destroys ∷ [])))
  unfolding steps
  steps-start [] r = start-none r
  steps-start (y ∷ ys) r =
      ap (steps (suc (suc (length ys)))) (start-some y ys r)
      ∙ steps-yielded ys (value y) 2 r (runs ∷ [])
      ∙ ap
          (λ k.
            ended (suc k) r (runs ∷ (replicate (suc (length ys)) (wakes self) ++ (destroys ∷ []))))
          (omega arith)
