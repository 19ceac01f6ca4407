-- ===== src/When/Any.antt =====
-- when_v2.h: `when_any` gives the coroutine the task that ends first, and resumes it once.
use librf.Prelude.{
  ℕ, ◌≡◌, ◌≢◌, refl, ap, ◌∙◌, true, false, List, [], ◌∷◌, Option, none, some, arith, if◌then◌else◌,
  ◌==◌,
}
use librf.When.{
  StateWhen, await_ready, await_suspend, state_when, when_any, when_any_connector, on_notify_one,
}

-- The state after the first task ended.
abbrev pub done_state : StateWhen
done_state = record { counter = 0; coro = true; scheduled = 1 }

first-notified :
    (n : ℕ)
    → n ≢ 0
    → (on_notify_one (await_suspend (state_when (if n == 0 then 0 else 1)))).1 ≡ done_state
unfolding on_notify_one await_suspend state_when
first-notified n h = ground arith

module _ {ℓ} {A : Type ℓ} where
  -- Tasks end one after the other, each with its number and its result.
  unfoldable pub ends :
      StateWhen × Option ℕ × Option A → List (ℕ × Option A) → StateWhen × Option ℕ × Option A
  ends r [] = r
  ends r ((i, v) ∷ es) = ends (when_any_connector r i v) es

  -- The coroutine suspended by `co_await when_any(...)`.
  abbrev pub suspended : ℕ → StateWhen × Option ℕ × Option A
  suspended n = let (s, first, second) = when_any n in (await_suspend s, first, second)

  ends-late :
      (s : StateWhen) (first : ℕ) (second : Option A) (es : List (ℕ × Option A))
      → ends (s, some first, second) es ≡ (s, some first, second)
  unfolding ends when_any_connector
  ends-late s first second [] = refl
  ends-late s first second ((i, v) ∷ es) = ends-late s first second es

  -- Whatever tasks end in whatever order, a coroutine that waits for any of at least one task is
  -- resumed once, by the first that ends, and has its number and its result.
  pub ends-first :
      (n i : ℕ) (v : Option A) (es : List (ℕ × Option A))
      → n ≢ 0
      → (await_ready (when_any {A = A} n).0 ≡ false)
        × (ends (suspended n) ((i, v) ∷ es) ≡ (done_state, some i, v))
  unfolding ends when_any_connector when_any await_suspend await_ready on_notify_one state_when
  ends-first n i none es h = (
    ground arith,
    ap (λ s. ends (s, some i, none) es) (first-notified n h) ∙ ends-late done_state i none es,
  )
  ends-first n i (some v) es h = (
    ground arith,
    ap (λ s. ends (s, some i, some v) es) (first-notified n h) ∙ ends-late done_state i (some v) es,
  )
