-- ===== src/Scheduler/Fifo.antt =====
-- scheduler.cpp: every state that is added is resumed once, in the order of the additions.
use librf.Prelude.{
  ◌≡◌, refl, sym, ap, ◌∙◌, true, false, List, [], ◌∷◌, ◌++◌, append-nil, append_assoc, not,
}
use librf.LinkQueue.{Ptr}
use librf.Scheduler.{
  Request, adds, spawns, drops, TimerOps, Scheduler, scheduler, add_generator, new_task, del_final,
  request, resume_all, update_timer, run_one_batch, run_batch, is_nil,
}

module _ {ℓ} {T : Type ℓ} where
  -- The states that were added are those that were resumed, those of the batch that is being run, and
  -- those that wait for the next batch.
  abbrev pub InOrder : Scheduler T → List Ptr → Type 0
  InOrder s batch = s.added ≡ s.resumed ++ (batch ++ s.runing_states)

  snoc-InOrder :
      (s : Scheduler T) (batch : List Ptr) (p : Ptr)
      → InOrder s batch
      → s.added ++ (p ∷ []) ≡ s.resumed ++ (batch ++ (s.runing_states ++ (p ∷ [])))
  snoc-InOrder s batch p h =
      ap (λ l. l ++ (p ∷ [])) h
      ∙ append_assoc s.resumed (batch ++ s.runing_states) (p ∷ [])
      ∙ ap (λ l. s.resumed ++ l) (append_assoc batch s.runing_states (p ∷ []))

  request-InOrder :
      (rs : List Request) (s : Scheduler T) (batch : List Ptr)
      → InOrder s batch
      → InOrder (request s rs) batch
  unfolding request add_generator new_task del_final
  request-InOrder [] s batch h = h
  request-InOrder (adds p ∷ rs) s batch h =
      request-InOrder rs (add_generator s p) batch (snoc-InOrder s batch p h)
  request-InOrder (spawns p true ∷ rs) s batch h =
      request-InOrder rs (new_task s p true) batch (snoc-InOrder s batch p h)
  request-InOrder (spawns p false ∷ rs) s batch h = request-InOrder rs (new_task s p false) batch h
  request-InOrder (drops p ∷ rs) s batch h = request-InOrder rs (del_final s p) batch h

  resumed-request : (rs : List Request) (s : Scheduler T) → (request s rs).resumed ≡ s.resumed
  unfolding request add_generator new_task del_final
  resumed-request [] s = refl
  resumed-request (adds p ∷ rs) s = resumed-request rs (add_generator s p)
  resumed-request (spawns p true ∷ rs) s = resumed-request rs (new_task s p true)
  resumed-request (spawns p false ∷ rs) s = resumed-request rs (new_task s p false)
  resumed-request (drops p ∷ rs) s = resumed-request rs (del_final s p)

-- What happens to a scheduler: a request from outside, or a batch.
pub data Step : Type 0 where
  asks : (rs : List Request) → Step
  batch_runs : Step

module _ {ℓ} {T : Type ℓ} (ops : TimerOps T) (body : List Ptr → Ptr → List Request) where
  unfoldable pub step : Scheduler T → Step → Scheduler T
  step s (asks rs) = request s rs
  step s batch_runs = (run_one_batch ops body s).1

  unfoldable pub steps : Scheduler T → List Step → Scheduler T
  steps s [] = s
  steps s (x ∷ xs) = steps (step s x) xs

  resume_all-InOrder :
      (ps : List Ptr) (s : Scheduler T) → InOrder s ps → InOrder (resume_all ops body s ps) []
  unfolding resume_all
  resume_all-InOrder [] s h = h
  resume_all-InOrder (p ∷ ps) s h =
      let s' : Scheduler T = record s { resumed = s.resumed ++ (p ∷ []) } in
      resume_all-InOrder ps (request s' (body s.resumed p)) (
        request-InOrder (body s.resumed p) s' ps
          (h ∙ sym (append_assoc s.resumed (p ∷ []) (ps ++ s.runing_states))))

  run_batch-InOrder :
      (ps : List Ptr) (s : Scheduler T)
      → ps ≡ s.runing_states
      → InOrder s []
      → InOrder (run_batch ops body s ps).1 []
  unfolding run_batch
  run_batch-InOrder [] s e h = h
  run_batch-InOrder (p ∷ ps) s e h =
      resume_all-InOrder (p ∷ ps) (record s { runing_states = [] })
        (h ∙ ap (λ l. s.resumed ++ l) (sym e ∙ sym (append-nil (p ∷ ps))))

  run_one_batch-InOrder : (s : Scheduler T) → InOrder s [] → InOrder (run_one_batch ops body s).1 []
  unfolding run_one_batch update_timer
  run_one_batch-InOrder s h =
      let s1 = update_timer ops s in
      run_batch-InOrder s1.runing_states s1 refl
        (request-InOrder (ops.update s.timer).0 (record s { timer = (ops.update s.timer).1 }) [] h)

  steps-hold : (xs : List Step) (s : Scheduler T) → InOrder s [] → InOrder (steps s xs) []
  unfolding steps step
  steps-hold [] s h = h
  steps-hold (asks rs ∷ xs) s h = steps-hold xs (request s rs) (request-InOrder rs s [] h)
  steps-hold (batch_runs ∷ xs) s h =
      steps-hold xs (run_one_batch ops body s).1 (run_one_batch-InOrder s h)

  -- Over any sequence of requests and batches on a new scheduler, whatever the coroutines and the
  -- timer's callbacks ask: the states that were added, in that order, are those that were resumed, in
  -- that order, followed by those that are ready to run. So each addition is answered by one
  -- `resume`, in turn.
  pub steps-InOrder :
      (t : T) (xs : List Step)
      → (steps (scheduler t) xs).added
        ≡ (steps (scheduler t) xs).resumed ++ (steps (scheduler t) xs).runing_states
  unfolding scheduler
  steps-InOrder t xs = steps-hold xs (scheduler t) refl

  resumed-resume_all :
      (ps : List Ptr) (s : Scheduler T) → (resume_all ops body s ps).resumed ≡ s.resumed ++ ps
  unfolding resume_all
  resumed-resume_all [] s = sym (append-nil s.resumed)
  resumed-resume_all (p ∷ ps) s =
      let s' : Scheduler T = record s { resumed = s.resumed ++ (p ∷ []) } in
      resumed-resume_all ps (request s' (body s.resumed p))
      ∙ ap (λ l. l ++ ps) (resumed-request (body s.resumed p) s')
      ∙ append_assoc s.resumed (p ∷ []) ps

  run_batch-resumed :
      (ps : List Ptr) (s : Scheduler T)
      → ((run_batch ops body s ps).0 ≡ not (is_nil ps))
        × ((run_batch ops body s ps).1.resumed ≡ s.resumed ++ ps)
  unfolding run_batch
  run_batch-resumed [] s = (refl, sym (append-nil s.resumed))
  run_batch-resumed (p ∷ ps) s =
      (refl, resumed-resume_all (p ∷ ps) (record s { runing_states = [] }))

  -- A batch resumes the states that are ready once the timer was updated, in their order and no
  -- other, those that it adds itself wait for the next batch, and it tells whether there were any.
  pub run_one_batch-resumed :
      (s : Scheduler T)
      → ((run_one_batch ops body s).0 ≡ not (is_nil (update_timer ops s).runing_states))
        × ((run_one_batch ops body s).1.resumed ≡ s.resumed ++ (update_timer ops s).runing_states)
  unfolding run_one_batch update_timer
  run_one_batch-resumed s =
      let s1 = update_timer ops s in
      let r = run_batch-resumed s1.runing_states s1 in
      let u =
        resumed-request (ops.update s.timer).0 (record s { timer = (ops.update s.timer).1 }) in
      (r.0, r.1 ∙ ap (λ l. l ++ s1.runing_states) u)
