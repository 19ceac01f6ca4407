-- ===== src/Promise/Early.antt =====
-- state.cpp and state.inl: a coroutine that waits for the future of one that has started.
use librf.Prelude.{suc, ◌≡◌, Option-cases, inl, inr, arith, none, some, true, false}
use librf.Future.{
  Handle, Result, no_result, Future, no_initor, wakes, not_ready, resume, await_ready,
  await_suspend, await_resume,
}

module _ {ℓ} {A E : Type ℓ} where
  -- A wait for a coroutine that was started, runs or waits for something else, and has no result yet,
  -- gives the state to the scheduler at once. The next resumption wakes the coroutine that is kept in
  -- `_coro` too early: the one that waits now, if none waited before, else the one that did. There is
  -- no result for it, so that its `co_await` throws `not_ready`; and after that no coroutine is kept in
  -- `_coro`, also if two waited.
  pub wait_for_running :
      (f : Future (Result A E)) (h : Handle)
      → f.initor ≡ no_initor
      → f.is_future ≡ true
      → f.stored ≡ no_result
      → let w = await_suspend (await_ready f) h f in
        (await_ready f ≡ false)
        × (w.scheduled ≡ suc f.scheduled)
        × ((resume w).0 ≡ (elim f.coro [ none ↦ wakes h | some k ↦ wakes k ]))
        × (await_resume (resume w).1 ≡ not_ready)
        × ((resume w).1.coro ≡ none)
  unfolding await_suspend await_ready resume await_resume
  wait_for_running f h i a s = elim (Option-cases f.coro) [
    | inl n ↦ (
      ground (arith, s),
      ground (arith, a, s),
      ground (arith, i, n),
      ground (arith, i, n, s),
      ground (arith, i, n),
    )
    | inr (k, n) ↦ (
      ground (arith, s),
      ground (arith, a, s),
      ground (arith, i, n),
      ground (arith, i, n, s),
      ground (arith, i, n),
    )
  ]
