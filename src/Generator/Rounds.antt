-- ===== src/Generator/Rounds.antt =====
-- source/state.cpp and source/scheduler.cpp: generators as the tasks of a scheduler.
use librf.Prelude.{
  occ, occ-append, subst, sym, ◌∙◌, ℕ, zero, suc, ◌+◌, ◌≤◌, ◌<◌, ◌≡◌, refl, true, false, Bool, ◌&&◌,
  List, [], ◌∷◌, ◌++◌, Option, some, arith, length, if◌then◌else◌, ltb, leb, Bool-cases, inl, inr,
}
use librf.LinkQueue.{Ptr}
use librf.Scheduler.{
  adds, drops, TimerOps, Scheduler, scheduler, has, erase, request, resume_all, run_batch,
  run_one_batch, run_until_notask, update_timer, add_generator, del_final,
}
use librf.Scheduler.Stops.{is_idle}
use librf.Generator.{has_handler, Generator, generator}
use librf.Generator.Asks.{
  bodies, asks_next-started, has-erase, start, request-start, nil_of_has, has-eq-occ,
}

module _ {ℓ κ} {T : Type ℓ} {A : Type κ} (ops : TimerOps T) (yields : Ptr → List A)
    (results : Ptr → Option A) (ps : List Ptr) where
  abbrev pub gens : Ptr → Generator A
  gens p = generator (yields p) (results p)

  -- A scheduler that the generators were given to.
  abbrev pub begun : T → Scheduler T
  begun t = request (scheduler t) (start gens ps)

  -- Whether the task `p` still runs after `k` resumptions.
  abbrev lives : ℕ → Ptr → Bool
  lives k p = has p ps && leb k (length (yields p))

  -- The scheduler at `p` after `k` batches.
  record Round (k : ℕ) (s : Scheduler T) (p : Ptr) : Type 0 where
    runs : occ p s.runing_states ≡ (if lives k p then 1 else 0)
    tasked : has p s.ready_task ≡ lives k p
    ran : has p ps ≡ true → occ p s.resumed ≡ (if lives k p then k else suc (length (yields p)))

  -- Within a batch, of which `qs` is still to be resumed.
  record Within (k : ℕ) (qs : List Ptr) (s : Scheduler T) (p : Ptr) : Type 0 where
    turns : occ p qs ≤ 1
    waits_turn :
        1 ≤ occ p qs
        → (lives k p ≡ true)
          × (occ p s.runing_states ≡ 0)
          × (has p s.ready_task ≡ true)
          × (occ p s.resumed ≡ k)
    had_turn : occ p qs ≡ 0 → Round (suc k) s p

  step : Scheduler T → Ptr → Scheduler T
  step s q = request (record s { resumed = s.resumed ++ (q ∷ []) }) (bodies gens s.resumed q)

  bodies_lem :
      (k : ℕ) (q : Ptr) (resumed : List Ptr)
      → lives k q ≡ true
      → occ q resumed ≡ k
      → bodies gens resumed q ≡ (if ltb k (length (yields q)) then adds q ∷ [] else drops q ∷ [])
  unfolding bodies generator
  bodies_lem k q resumed l e =
      rw e (asks_next-started (yields q) k q (results q) (gens q) (ground (arith, l)))

  -- A resumption by which the generator goes on, and the last one.
  step_adds : (s : Scheduler T) (q : Ptr) → Scheduler T
  step_adds s q = record s {
    runing_states = s.runing_states ++ (q ∷ []);
    added = s.added ++ (q ∷ []);
    resumed = s.resumed ++ (q ∷ []);
  }

  step_drops : (s : Scheduler T) (q : Ptr) → Scheduler T
  step_drops s q = record s { ready_task = erase q s.ready_task; resumed = s.resumed ++ (q ∷ []) }

  step_lem :
      (k : ℕ) (q : Ptr) (s : Scheduler T)
      → lives k q ≡ true
      → occ q s.resumed ≡ k
      → step s q ≡ (if ltb k (length (yields q)) then step_adds s q else step_drops s q)
  unfolding step step_adds step_drops request add_generator del_final
  step_lem k q s l e = elim (Bool-cases (ltb k (length (yields q)))) [
    | inl more ↦ rw (bodies_lem k q s.resumed l e, more) refl
    | inr last ↦ rw (bodies_lem k q s.resumed l e, last) refl
  ]

  adds-Within :
      (k : ℕ) (q : Ptr) (qs : List Ptr) (s : Scheduler T) (p : Ptr)
      → ltb k (length (yields q)) ≡ true
      → Within k (q ∷ qs) s p
      → Within k qs (step_adds s q) p
  unfolding step_adds
  adds-Within k q qs s p more w =
      let r = occ-append p q s.runing_states in
      let d = occ-append p q s.resumed in
      record {
        turns = ground (arith, w.turns);
        waits_turn = λ h. ground (arith, w.turns, w.waits_turn, r, d);
        had_turn = λ h. record {
          runs = ground (arith, w.turns, w.waits_turn, w.had_turn, r, d);
          tasked = ground (arith, w.turns, w.waits_turn, w.had_turn, r, d);
          ran = λ t. ground (arith, w.turns, w.waits_turn, w.had_turn, r, d);
        };
      }

  drops-Within :
      (k : ℕ) (q : Ptr) (qs : List Ptr) (s : Scheduler T) (p : Ptr)
      → ltb k (length (yields q)) ≡ false
      → Within k (q ∷ qs) s p
      → Within k qs (step_drops s q) p
  unfolding step_drops
  drops-Within k q qs s p last w =
      let t = has-erase p q s.ready_task in
      let d = occ-append p q s.resumed in
      record {
        turns = ground (arith, w.turns);
        waits_turn = λ h. ground (arith, w.turns, w.waits_turn, t, d);
        had_turn = λ h. record {
          runs = ground (arith, w.turns, w.waits_turn, w.had_turn, t, d);
          tasked = ground (arith, w.turns, w.waits_turn, w.had_turn, t, d);
          ran = λ x. ground (arith, w.turns, w.waits_turn, w.had_turn, t, d);
        };
      }

  step-Within :
      (k : ℕ) (q : Ptr) (qs : List Ptr) (s : Scheduler T)
      → ((p : Ptr) → Within k (q ∷ qs) s p)
      → (p : Ptr) → Within k qs (step s q) p
  step-Within k q qs s w p =
      let own = (w q).waits_turn (ground arith) in
      let e = step_lem k q s own.0 own.3 in
      elim (Bool-cases (ltb k (length (yields q)))) [
        | inl more ↦ rw (e, more) (adds-Within k q qs s p more (w p))
        | inr last ↦ rw (e, last) (drops-Within k q qs s p last (w p))
      ]

  resume_all-Round :
      (k : ℕ) (qs : List Ptr) (s : Scheduler T)
      → ((p : Ptr) → Within k qs s p)
      → (p : Ptr) → Round (suc k) (resume_all ops (bodies gens) s qs) p
  unfolding resume_all step
  resume_all-Round k [] s w = λ p. (w p).had_turn refl
  resume_all-Round k (q ∷ qs) s w = resume_all-Round k qs (step s q) (step-Within k q qs s w)

  module _ (no_timers : (t : T) → ops.update t ≡ ([], t))
      (no_timer : (t : T) → ops.empty t ≡ true) where
    update-same : (s : Scheduler T) → update_timer ops s ≡ s
    unfolding update_timer request
    update-same s = rw (no_timers s.timer, update_timer) refl

    batch-start :
        (k : ℕ) (s : Scheduler T)
        → ((p : Ptr) → Round k s p)
        → (p : Ptr) → Within k s.runing_states (record s { runing_states = [] }) p
    batch-start k s v p = record {
      turns = ground (arith, (v p).runs);
      waits_turn = λ h. ground (arith, (v p).runs, (v p).tasked, (v p).ran);
      had_turn = λ h. record {
        runs = ground (arith, (v p).runs);
        tasked = ground (arith, (v p).runs, (v p).tasked);
        ran = λ t. ground (arith, (v p).runs, (v p).ran);
      };
    }

    one_batch :
        (s : Scheduler T) (qs : List Ptr)
        → qs ≡ s.runing_states
        → run_one_batch ops (bodies gens) s ≡ run_batch ops (bodies gens) s qs
    unfolding run_one_batch
    one_batch s qs e = rw (update-same s, ← e) refl

    until-idle :
        (f : ℕ) (s : Scheduler T)
        → [] ≡ s.runing_states
        → s.ready_task ≡ []
        → run_until_notask ops (bodies gens) (suc f) s ≡ some s
    unfolding run_until_notask run_batch
    until-idle f s e t = rw (one_batch s [] e, run_until_notask, t, no_timer s.timer) refl

    until-ran :
        (f : ℕ) (s : Scheduler T) (q : Ptr) (qs : List Ptr)
        → q ∷ qs ≡ s.runing_states
        → run_until_notask ops (bodies gens) (suc f) s
          ≡ run_until_notask ops
              (bodies gens)
              f
              (resume_all ops (bodies gens) (record s { runing_states = [] }) (q ∷ qs))
    unfolding run_until_notask run_batch
    until-ran f s q qs e = rw (one_batch s (q ∷ qs) e, run_until_notask) refl

    -- What a run ends with.
    abbrev pub Finished : Scheduler T → Type 0
    Finished r =
        (is_idle ops (bodies gens) r ≡ true)
        × ((p : Ptr) → has p ps ≡ true → occ p r.resumed ≡ suc (length (yields p)))

    no_task :
        (k : ℕ) (s : Scheduler T)
        → ((p : Ptr) → Round k s p)
        → [] ≡ s.runing_states
        → (s.ready_task ≡ []) × ((p : Ptr) → lives k p ≡ false)
    no_task k s v e =
        let none_lives : (p : Ptr) → lives k p ≡ false = λ p. ground (arith, (v p).runs, e) in
        (nil_of_has s.ready_task (λ p. ground (arith, (v p).tasked, none_lives p)), none_lives)

    run-Finished :
        (f k : ℕ) (s : Scheduler T) (qs : List Ptr)
        → qs ≡ s.runing_states
        → ((p : Ptr) → Round k s p)
        → ((p : Ptr) → has p ps ≡ true → length (yields p) < k + f)
        → (r : Scheduler T) × (run_until_notask ops (bodies gens) (suc f) s ≡ some r) × Finished r
    run-Finished f k s [] e v b =
        let (t, none_lives) = no_task k s v e in
        (
          s,
          until-idle f s e t,
          (rw (← e, t, no_timer s.timer) refl, λ p h. ground (arith, (v p).ran, none_lives p)),
        )
    run-Finished zero k s (q ∷ qs) e v b = absurd (ground (arith, (v q).runs, b q, e))
    run-Finished (suc f) k s (q ∷ qs) e v b =
        let s' = resume_all ops (bodies gens) (record s { runing_states = [] }) (q ∷ qs) in
        let w : (p : Ptr) → Within k (q ∷ qs) (record s { runing_states = [] }) p = λ p.
          subst (λ l. Within k l (record s { runing_states = [] }) p) (sym e)
            (batch-start k s v p) in
        let (r, u, d) =
          run-Finished f (suc k) s' s'.runing_states refl
            (resume_all-Round k (q ∷ qs) (record s { runing_states = [] }) w)
            (λ p h. omega (arith, b p h)) in
        (r, until-ran (suc f) s q qs e ∙ u, d)

    begun-Round : (t : T) → ((p : Ptr) → occ p ps ≤ 1) → (p : Ptr) → Round 0 (begun t) p
    unfolding scheduler generator has_handler has
    begun-Round t distinct p =
        let h = request-start gens ps (scheduler t) p (λ q. refl) in
        record {
          runs = ground (arith, h.0, distinct p, has-eq-occ p ps);
          tasked = ground (arith, h.1, has-eq-occ p ps);
          ran = λ e. ground (arith, h.2);
        }

    -- Generators that are the only tasks of a scheduler without timers, each yielding fewer than `n`
    -- values: `run_until_notask` returns, after at most `n + 1` batches; each generator was resumed
    -- once for every value that it yields and once more to its end; and no task, no state to run and
    -- no timer is left.
    pub run-generators :
        (n : ℕ) (t : T)
        → ((p : Ptr) → occ p ps ≤ 1)
        → ((p : Ptr) → has p ps ≡ true → length (yields p) < n)
        → (r : Scheduler T) × (run_until_notask ops (bodies gens) (suc n) (begun t) ≡ some r)
          × Finished r
    run-generators n t distinct short =
        run-Finished n 0 (begun t) (begun t).runing_states refl (begun-Round t distinct)
          (λ p h. omega (arith, short p h))
