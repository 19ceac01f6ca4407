-- ===== src/Timer/Stopped.antt =====
-- timer.cpp: a timer that was stopped.
use librf.Prelude.{
  ℕ, ◌≡◌, refl, Bool, true, false, not, ◌&&◌, ◌||◌, List, [], ◌∷◌, ◌++◌, ◌==◌, ltb, arith,
  Bool-cases, inl, inr,
}
use librf.Timer.{
  invalid, runing_state, Manager, Request, adds, stops, store, set_st, add, stop, request, insert,
  call_target, start, fire, update, cancel_all, cancel_entries, clear, is_added, is_invalid,
}
use librf.Timer.Acts.{Event, asks, ticks, clears, act, acts, start-added, start-stopped}

-- Whether the callback of `p` was called with `canceld` false.
unfoldable pub fired : ℕ → List (ℕ × Bool) → Bool
fired p [] = false
fired p ((q, b) ∷ r) = ((q == p) && not b) || fired p r

fired-snoc :
    (p q : ℕ) (b : Bool) (r : List (ℕ × Bool))
    → fired p r ≡ false
    → (q ≡ p → b ≡ true)
    → fired p (r ++ ((q, b) ∷ [])) ≡ false
unfolding fired
fired-snoc p q b [] h e = ground (arith, e)
fired-snoc p q b ((x, c) ∷ r) h e = ground (arith, fired-snoc p q b r, e)

record Stopped (p : ℕ) (m : Manager) : Type 0 where
  made_before : ltb p m.made ≡ true
  is_stopped : is_invalid (m.targets p).st ≡ true
  unfired : fired p m.calls ≡ false

add-Stopped : (p : ℕ) (m : Manager) (tp : ℕ) → Stopped p m → Stopped p (add m tp)
unfolding add
add-Stopped p m tp h = record {
  made_before = ground (arith, h.made_before);
  is_stopped = ground (arith, h.made_before, h.is_stopped);
  unfired = h.unfired;
}

stop-Stopped : (p : ℕ) (m : Manager) (q : ℕ) → Stopped p m → Stopped p (stop m q).1
unfolding stop
stop-Stopped p m q h = record {
  made_before = ground (arith, h.made_before);
  is_stopped = ground (arith, h.is_stopped);
  unfired = ground (arith, h.unfired);
}

request-Stopped : (p : ℕ) (rs : List Request) (m : Manager) → Stopped p m → Stopped p (request m rs)
unfolding request
request-Stopped p [] m h = h
request-Stopped p (adds tp ∷ rs) m h = request-Stopped p rs (add m tp) (add-Stopped p m tp h)
request-Stopped p (stops q ∷ rs) m h = request-Stopped p rs (stop m q).1 (stop-Stopped p m q h)

same :
    {p : ℕ} (m : Manager) (ps : List ℕ) (r : List (ℕ × ℕ))
    → Stopped p m
    → Stopped p (record m { added = ps; runing = r })
same m ps r h = record {
  made_before = h.made_before;
  is_stopped = h.is_stopped;
  unfired = h.unfired;
}

module _ (body : ℕ → Bool → List Request) (p : ℕ) where
  call_target-Stopped :
      (m : Manager) (q : ℕ) (b : Bool)
      → (q ≡ p → b ≡ true)
      → Stopped p m
      → Stopped p (call_target body m q b)
  unfolding call_target
  call_target-Stopped m q b c h =
      let t = m.targets q in
      let m' = record m { targets = store m.targets q (record t { cb = false; st = invalid }) } in
      let n = record m' { calls = m.calls ++ ((q, b) ∷ []) } in
      let h' : Stopped p m' = record {
        made_before = h.made_before;
        is_stopped = ground (arith, h.is_stopped);
        unfired = h.unfired;
      } in
      let k : Stopped p n = record {
        made_before = h.made_before;
        is_stopped = h'.is_stopped;
        unfired = fired-snoc p q b m.calls h.unfired c;
      } in
      elim (Bool-cases (m.targets q).cb) [
        | inl e ↦ rw e (request-Stopped p (body q b) n k)
        | inr e ↦ rw e h'
      ]

  start-Stopped : (qs : List ℕ) (m : Manager) → Stopped p m → Stopped p (start body m qs)
  unfolding start
  start-Stopped [] m h = h
  start-Stopped (q ∷ qs) m h = elim (Bool-cases (is_added (m.targets q).st)) [
    | inl e ↦
        let n : Manager = record (set_st m q runing_state) {
          runing = insert (m.targets q).tp q m.runing;
        } in
        let h' : Stopped p n = record {
          made_before = h.made_before;
          is_stopped = ground (arith, h.is_stopped);
          unfired = h.unfired;
        } in
        rw (start-added body m q qs e) (start-Stopped qs n h')
    | inr e ↦
        rw (start-stopped body m q qs e) (
          start-Stopped qs (call_target body m q true) (call_target-Stopped m q true (λ d. refl) h))
  ]

  fire-Stopped :
      (now : ℕ) (r : List (ℕ × ℕ)) (m : Manager) → Stopped p m → Stopped p (fire body now m r)
  unfolding fire
  fire-Stopped now [] m h = record {
    made_before = h.made_before;
    is_stopped = h.is_stopped;
    unfired = h.unfired;
  }
  fire-Stopped now ((k, q) ∷ r) m h = elim (Bool-cases (ltb now k)) [
    | inl e ↦
        rw e
          (record { made_before = h.made_before; is_stopped = h.is_stopped; unfired = h.unfired })
    | inr e ↦
        let b = is_invalid (m.targets q).st in
        rw e (
          fire-Stopped now r (call_target body m q b)
            (call_target-Stopped m q b (λ d. rw d h.is_stopped) h))
  ]

  cancel_all-Stopped : (qs : List ℕ) (m : Manager) → Stopped p m → Stopped p (cancel_all body m qs)
  unfolding cancel_all
  cancel_all-Stopped [] m h = h
  cancel_all-Stopped (q ∷ qs) m h =
      cancel_all-Stopped qs (call_target body m q true) (call_target-Stopped m q true (λ d. refl) h)

  cancel_entries-Stopped :
      (r : List (ℕ × ℕ)) (m : Manager) → Stopped p m → Stopped p (cancel_entries body m r)
  unfolding cancel_entries
  cancel_entries-Stopped [] m h = h
  cancel_entries-Stopped ((k, q) ∷ r) m h =
      cancel_entries-Stopped r (call_target body m q true)
        (call_target-Stopped m q true (λ d. refl) h)

  act-Stopped : (e : Event) (m : Manager) → Stopped p m → Stopped p (act body m e)
  unfolding act update clear
  act-Stopped (asks rs) m h = request-Stopped p rs m h
  act-Stopped (ticks now) m h =
      let m' = start body (record m { added = [] }) m.added in
      fire-Stopped now m'.runing m'
        (start-Stopped m.added (record m { added = [] }) (same m [] m.runing h))
  act-Stopped clears m h =
      let m' = cancel_all body (record m { added = [] }) m.added in
      cancel_entries-Stopped m'.runing (record m' { runing = [] })
        (same m' m'.added []
          (cancel_all-Stopped m.added (record m { added = [] }) (same m [] m.runing h)))

  acts-Stopped : (es : List Event) (m : Manager) → Stopped p m → Stopped p (acts body m es)
  unfolding acts
  acts-Stopped [] m h = h
  acts-Stopped (e ∷ es) m h = acts-Stopped es (act body m e) (act-Stopped e m h)

  -- A timer that was made, whose callback was not called with `canceld` false so far, and which is
  -- stopped, will never be called with `canceld` false, whatever happens to the manager afterwards.
  pub stop-acts :
      (m : Manager) (es : List Event)
      → ltb p m.made ≡ true
      → fired p m.calls ≡ false
      → fired p (acts body (stop m p).1 es).calls ≡ false
  unfolding stop
  stop-acts m es made h =
      (acts-Stopped es (stop m p).1 (record {
        made_before = ground (arith, made);
        is_stopped = ground arith;
        unfired = ground (arith, h);
      })).unfired
