-- ===== src/Timer/Acts.antt =====
-- timer.cpp: every timer that was added is called once, whatever happens to the manager.
use librf.Prelude.{
  ℕ, ◌+◌, ◌≡◌, refl, ◌∙◌, Bool, true, false, List, [], ◌∷◌, ltb, arith, Bool-cases, inl, inr,
}
use librf.Timer.{
  runing_state, Target, Manager, Request, set_st, timer_manager, request, insert, call_target,
  start, fire, update, cancel_all, cancel_entries, clear, is_added, is_invalid,
}
use librf.Timer.Once.{
  count, entries, called, EachOnce, plus, request-EachOnce, runing-request, call_target-EachOnce,
  runing-call_target, run-EachOnce, call-EachOnce,
}

pub data Event : Type 0 where
  asks : (rs : List Request) → Event
  ticks : (now : ℕ) → Event
  clears : Event

module _ (body : ℕ → Bool → List Request) where
  pub start-added :
      (m : Manager) (p : ℕ) (ps : List ℕ)
      → is_added (m.targets p).st ≡ true
      → start body m (p ∷ ps)
        ≡ start body
            (record (set_st m p runing_state) { runing = insert (m.targets p).tp p m.runing })
            ps
  unfolding start
  start-added m p ps e = rw e refl

  pub start-stopped :
      (m : Manager) (p : ℕ) (ps : List ℕ)
      → is_added (m.targets p).st ≡ false
      → start body m (p ∷ ps) ≡ start body (call_target body m p true) ps
  unfolding start
  start-stopped m p ps e = rw e refl

  pub start-EachOnce :
      (ps : List ℕ) (m : Manager)
      → EachOnce m (λ q. count q ps + entries q m.runing)
      → EachOnce (start body m ps) (λ q. entries q (start body m ps).runing)
  unfolding start count
  start-EachOnce [] m h = record { once = λ q. omega (arith, h.once q); callback = h.callback }
  start-EachOnce (p ∷ ps) m h = elim (Bool-cases (is_added (m.targets p).st)) [
    | inl e ↦ rw (start-added m p ps e) (
        start-EachOnce ps
          (record (set_st m p runing_state) { runing = insert (m.targets p).tp p m.runing })
          (run-EachOnce m p ps h))
    | inr e ↦
        rw (start-stopped m p ps e)
          (start-EachOnce ps (call_target body m p true) (call-EachOnce body m p ps h))
  ]

  fire-EachOnce :
      (now : ℕ) (r : List (ℕ × ℕ)) (m : Manager)
      → EachOnce m (λ q. entries q r)
      → EachOnce (fire body now m r) (λ q. entries q (fire body now m r).runing)
  unfolding fire entries
  fire-EachOnce now [] m h = record { once = h.once; callback = h.callback }
  fire-EachOnce now ((k, p) ∷ r) m h = elim (Bool-cases (ltb now k)) [
    | inl e ↦ rw e (record { once = h.once; callback = h.callback })
    | inr e ↦
        let b = is_invalid (m.targets p).st in
        let h' : EachOnce m (plus p (λ q. entries q r)) = record {
          once = λ q. ground (arith, h.once q);
          callback = h.callback;
        } in
        rw e (
          fire-EachOnce now r (call_target body m p b)
            (call_target-EachOnce body m (λ q. entries q r) p b h'))
  ]

  update-EachOnce :
      (now : ℕ) (m : Manager)
      → EachOnce m (λ q. entries q m.runing)
      → EachOnce (update body now m) (λ q. entries q (update body now m).runing)
  unfolding update count
  update-EachOnce now m h =
      let m' = start body (record m { added = [] }) m.added in
      fire-EachOnce now m'.runing m' (
        start-EachOnce m.added (record m { added = [] })
          (record { once = λ q. omega (arith, h.once q); callback = h.callback }))

  cancel_all-EachOnce :
      (ps : List ℕ) (m : Manager)
      → EachOnce m (λ q. count q ps + entries q m.runing)
      → EachOnce (cancel_all body m ps) (λ q. entries q (cancel_all body m ps).runing)
  unfolding cancel_all count
  cancel_all-EachOnce [] m h = record { once = λ q. omega (arith, h.once q); callback = h.callback }
  cancel_all-EachOnce (p ∷ ps) m h =
      cancel_all-EachOnce ps (call_target body m p true) (call-EachOnce body m p ps h)

  cancel_entries-EachOnce :
      (r : List (ℕ × ℕ)) (m : Manager)
      → EachOnce m (λ q. entries q r)
      → EachOnce (cancel_entries body m r) (λ q. 0)
  unfolding cancel_entries entries
  cancel_entries-EachOnce [] m h = h
  cancel_entries-EachOnce ((k, p) ∷ r) m h = cancel_entries-EachOnce r (call_target body m p true) (
      call_target-EachOnce body m (λ q. entries q r) p true
        (record { once = λ q. ground (arith, h.once q); callback = h.callback }))

  pub runing-cancel_entries :
      (r : List (ℕ × ℕ)) (m : Manager) → (cancel_entries body m r).runing ≡ m.runing
  unfolding cancel_entries
  runing-cancel_entries [] m = refl
  runing-cancel_entries ((k, p) ∷ r) m =
      runing-cancel_entries r (call_target body m p true) ∙ runing-call_target body m p true

  clear-EachOnce :
      (m : Manager)
      → EachOnce m (λ q. entries q m.runing)
      → EachOnce (clear body m) (λ q. entries q (clear body m).runing)
  unfolding clear count entries
  clear-EachOnce m h =
      let m' = cancel_all body (record m { added = [] }) m.added in
      let n : Manager = record m' { runing = [] } in
      let h' =
        cancel_all-EachOnce m.added (record m { added = [] })
          (record { once = λ q. omega (arith, h.once q); callback = h.callback }) in
      rw (runing-cancel_entries m'.runing n)
        (cancel_entries-EachOnce m'.runing n (record { once = h'.once; callback = h'.callback }))

  -- What happens to a manager: a request from outside, an update, a clearing.
  unfoldable pub act : Manager → Event → Manager
  unfolding update clear
  act m (asks rs) = request m rs
  act m (ticks now) = update body now m
  act m clears = clear body m

  unfoldable pub acts : Manager → List Event → Manager
  unfolding act
  acts m [] = m
  acts m (e ∷ es) = acts (act m e) es

  pub act-EachOnce :
      (e : Event) (m : Manager)
      → EachOnce m (λ q. entries q m.runing)
      → EachOnce (act m e) (λ q. entries q (act m e).runing)
  unfolding act
  act-EachOnce (asks rs) m h =
      rw (runing-request rs m) (request-EachOnce rs m (λ q. entries q m.runing) h)
  act-EachOnce (ticks now) m h = update-EachOnce now m h
  act-EachOnce clears m h = clear-EachOnce m h

  pub acts-hold :
      (es : List Event) (m : Manager)
      → EachOnce m (λ q. entries q m.runing)
      → EachOnce (acts m es) (λ q. entries q (acts m es).runing)
  unfolding acts
  acts-hold [] m h = h
  acts-hold (e ∷ es) m h = acts-hold es (act m e) (act-EachOnce e m h)

  -- Whatever happens to a new timer manager, whatever its callbacks ask of it: each timer that was
  -- made has been called once and is in no list, or has not been called, has its callback and stands
  -- once among the timers just added and the running ones.
  pub acts-EachOnce :
      (f : ℕ → Target) (es : List Event)
      → EachOnce (acts (timer_manager f) es) (λ q. entries q (acts (timer_manager f) es).runing)
  unfolding timer_manager called count entries
  acts-EachOnce f es =
      acts-hold es (timer_manager f)
        (record { once = λ p. ground arith; callback = λ p c b. ground arith })
