-- ===== src/Scheduler/Stops.antt =====
-- scheduler.cpp: `run_until_notask` returns at the first batch that leaves nothing to do.
use librf.Prelude.{
  ℕ, zero, suc, ◌≡◌, refl, ◌∙◌, Bool, true, false, not, List, [], ◌∷◌, some, if◌then◌else◌, arith,
  Bool-cases, inl, inr, ◌&&◌,
}
use librf.LinkQueue.{Ptr}
use librf.Scheduler.{
  Request, TimerOps, Scheduler, update_timer, run_batch, run_one_batch, run_until_notask, is_nil,
}

module _ {ℓ} {T : Type ℓ} (ops : TimerOps T) (body : List Ptr → Ptr → List Request) where
  -- The scheduler after some batches.
  unfoldable pub batches : ℕ → Scheduler T → Scheduler T
  batches zero s = s
  batches (suc n) s = batches n (run_one_batch ops body s).1

  -- Nothing is left to do.
  abbrev pub is_idle : Scheduler T → Bool
  is_idle s = is_nil s.runing_states && (is_nil s.ready_task && ops.empty s.timer)

  -- A batch that resumes nothing and leaves nothing to do.
  abbrev pub is_last : Scheduler T → Bool
  is_last s = not (run_one_batch ops body s).0 && is_idle (run_one_batch ops body s).1

  idle-run_batch :
      (ps : List Ptr) (s : Scheduler T)
      → ps ≡ s.runing_states
      → (run_batch ops body s ps).0 ≡ false
      → is_nil (run_batch ops body s ps).1.runing_states ≡ true
  unfolding run_batch
  idle-run_batch [] s e h = ground (arith, e)
  idle-run_batch (p ∷ ps) s e h = absurd (cc)

  idle-run_one_batch :
      (s : Scheduler T)
      → (run_one_batch ops body s).0 ≡ false
      → is_nil (run_one_batch ops body s).1.runing_states ≡ true
  unfolding run_one_batch
  idle-run_one_batch s h =
      idle-run_batch (update_timer ops s).runing_states (update_timer ops s) refl h

  pub run-last :
      (f : ℕ) (s : Scheduler T)
      → run_until_notask ops body (suc f) s ≡ (
          if is_last s
          then some (run_one_batch ops body s).1
          else run_until_notask ops body f (run_one_batch ops body s).1)
  unfolding run_until_notask
  run-last f s = ground (arith, idle-run_one_batch s)

  -- If after `n` batches there is a batch that resumes nothing and leaves no task and no timer, then
  -- `run_until_notask` returns, after at most `n + 1` batches, and what it returns has no task, no
  -- state to run and no timer.
  pub run_until_notask-idle :
      (n : ℕ) (s : Scheduler T)
      → is_last (batches n s) ≡ true
      → (r : Scheduler T) × (run_until_notask ops body (suc n) s ≡ some r) × (is_idle r ≡ true)
  unfolding batches
  run_until_notask-idle zero s h =
      let r = (run_one_batch ops body s).1 in (r, run-last 0 s ∙ rw h refl, ground (arith, h))
  run_until_notask-idle (suc n) s h = elim (Bool-cases (is_last s)) [
    | inl now ↦
        ((run_one_batch ops body s).1, run-last (suc n) s ∙ rw now refl, ground (arith, now))
    | inr later ↦
        let (r, e, i) = run_until_notask-idle n (run_one_batch ops body s).1 h in
        (r, run-last (suc n) s ∙ rw later e, i)
  ]
