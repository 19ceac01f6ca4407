-- ===== src/When/All.antt =====
-- when_v2.h: `when_all` resumes the coroutine once, when the last task ends, with every result.
use librf.Prelude.{
  ℕ, zero, suc, ◌+◌, ◌-◌, ◌≤◌, ◌<◌, ◌≡◌, ◌≢◌, refl, ap, ◌∙◌, true, false, List, [], ◌∷◌, Option,
  none, some, arith, if◌then◌else◌, ◌==◌, length, get_elem?, set, replicate, size_mod, ◌%◌,
}
use librf.When.{
  StateWhen, await_ready, await_suspend, state_when, when_all, when_all_connector, on_notify_one,
}

-- The state after `k` tasks ended.
unfoldable pub notified : ℕ → StateWhen → StateWhen
notified zero s = s
notified (suc k) s = notified k (on_notify_one s).1

notified-scheduled :
    (k : ℕ) (s : StateWhen)
    → s.coro ≡ true
    → s.scheduled ≡ 0
    → k ≤ s.counter
    → s.counter ≢ 0
    → s.counter < size_mod
    → (notified k s).scheduled ≡ (if k == s.counter then 1 else 0)
unfolding notified on_notify_one
notified-scheduled zero s c z le ne lt = ground arith
notified-scheduled (suc zero) s c z le ne lt = ground arith
notified-scheduled (suc (suc k)) s c z le ne lt = ground (
  arith,
  notified-scheduled (suc k) (record s { counter = (s.counter + size_mod - 1) % size_mod }) c z,
)

module _ {ℓ} {A : Type ℓ} where
  -- Tasks end one after the other, each with its number and its result.
  unfoldable pub ends :
      StateWhen × List (Option A) → List (ℕ × Option A) → StateWhen × List (Option A)
  ends r [] = r
  ends r ((i, v) ∷ es) = ends (when_all_connector r i v) es

  -- The last result of a task.
  unfoldable pub result_of : ℕ → List (ℕ × Option A) → Option A → Option A
  result_of j [] w = w
  result_of j ((i, none) ∷ es) w = result_of j es w
  result_of j ((i, some v) ∷ es) w = result_of j es (if i == j then some v else w)

  -- The coroutine suspended by `co_await when_all(...)`.
  abbrev pub suspended : ℕ → StateWhen × List (Option A)
  suspended n = let (s, values) = when_all n in (await_suspend s, values)

  set-lookup :
      (vs : List (Option A)) (i j : ℕ) (v : A) (w : Option A)
      → get_elem? vs j ≡ some w
      → get_elem? (set vs i (some v)) j ≡ some (if i == j then some v else w)
  set-lookup [] i j v w h = absurd (cc)
  set-lookup (x ∷ vs) zero zero v w h = refl
  set-lookup (x ∷ vs) zero (suc j) v w h = ground (arith, h)
  set-lookup (x ∷ vs) (suc i) zero v w h = ground (arith, h)
  set-lookup (x ∷ vs) (suc i) (suc j) v w h = ground (arith, set-lookup vs i j v w h)

  get_elem?-replicate : (n j : ℕ) (w : Option A) → j < n → get_elem? (replicate n w) j ≡ some w
  get_elem?-replicate zero j w h = absurd (ground arith)
  get_elem?-replicate (suc n) zero w h = refl
  get_elem?-replicate (suc n) (suc j) w h = get_elem?-replicate n j w (omega arith)

  ends-state :
      (es : List (ℕ × Option A)) (s : StateWhen) (vs : List (Option A))
      → (ends (s, vs) es).0 ≡ notified (length es) s
  unfolding ends notified when_all_connector
  ends-state [] s vs = refl
  ends-state ((i, none) ∷ es) s vs = ends-state es (on_notify_one s).1 vs
  ends-state ((i, some v) ∷ es) s vs = ends-state es (on_notify_one s).1 (set vs i (some v))

  ends-values :
      (es : List (ℕ × Option A)) (s : StateWhen) (vs : List (Option A)) (j : ℕ) (w : Option A)
      → get_elem? vs j ≡ some w
      → get_elem? (ends (s, vs) es).1 j ≡ some (result_of j es w)
  unfolding ends result_of when_all_connector
  ends-values [] s vs j w h = h
  ends-values ((i, none) ∷ es) s vs j w h = ends-values es (on_notify_one s).1 vs j w h
  ends-values ((i, some v) ∷ es) s vs j w h =
      ends-values es (on_notify_one s).1 (set vs i (some v)) j (if i == j then some v else w)
        (set-lookup vs i j v w h)

  -- Whatever tasks end in whatever order, at most `n` of them, a coroutine that waits for all of `n`
  -- tasks, fewer than 2^64, is not resumed before the last of them ends, is then resumed once, and
  -- has the last result of each task `j` below `n`.
  pub ends-all :
      (n j : ℕ) (es : List (ℕ × Option A))
      → j < n
      → n < size_mod
      → length es ≤ n
      → (await_ready (when_all {A = A} n).0 ≡ false)
        × ((ends (suspended n) es).0.scheduled ≡ (if length es == n then 1 else 0))
        × (get_elem? (ends (suspended n) es).1 j ≡ some (result_of j es none))
  unfolding when_all await_ready await_suspend state_when
  ends-all n j es l lt le =
      let ne : n ≢ 0 = omega arith in
      let s : StateWhen = record { counter = n; coro = true; scheduled = 0 } in
      (
        ground arith,
        ap (λ t. t.scheduled) (ends-state es s (replicate n none))
            ∙ notified-scheduled (length es) s refl refl le ne lt,
        ends-values es s (replicate n none) j none (get_elem?-replicate n j none l),
      )
