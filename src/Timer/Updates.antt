-- ===== src/Timer/Updates.antt =====
-- timer.cpp: the running timers stay in the order of their times, so that an update finds those that
-- are due in front.
use librf.Prelude.{ℕ, ◌≡◌, Bool, List, [], ◌∷◌, ◌++◌, ltb, Bool-cases, inl, inr, arith}
use librf.Timer.{
  Target, Manager, Request, timer_manager, call_target, start, fire, update, cancel_all, clear,
  is_invalid,
}
use librf.Timer.Once.{count, runing-request}
use librf.Timer.Acts.{
  Event, asks, ticks, clears, act, acts, acts-EachOnce, start-EachOnce, runing-cancel_entries,
}
use librf.Timer.Due.{due, later, timers, Sorted, start-Sorted, fire-due}

module _ (body : ℕ → Bool → List Request) where
  -- The manager between the two loops of `update`.
  abbrev pub started : Manager → Manager
  started m = start body (record m { added = [] }) m.added

  fire-Sorted :
      (now : ℕ) (r : List (ℕ × ℕ)) (m : Manager) → Sorted r → Sorted (fire body now m r).runing
  unfolding fire Sorted
  fire-Sorted now [] m s = tt
  fire-Sorted now ((k, p) ∷ r) m s = elim (Bool-cases (ltb now k)) [
    | inl e ↦ rw e s
    | inr e ↦ rw e (fire-Sorted now r (call_target body m p (is_invalid (m.targets p).st)) s.1)
  ]

  act-Sorted : (e : Event) (m : Manager) → Sorted m.runing → Sorted (act body m e).runing
  unfolding act update clear Sorted
  act-Sorted (asks rs) m s = rw (runing-request rs m) s
  act-Sorted (ticks now) m s =
      fire-Sorted now (started m).runing (started m)
        (start-Sorted body m.added (record m { added = [] }) s)
  act-Sorted clears m s =
      let m' = cancel_all body (record m { added = [] }) m.added in
      let n : Manager = record m' { runing = [] } in rw (runing-cancel_entries body m'.runing n) tt

  pub acts-Sorted :
      (es : List Event) (m : Manager) → Sorted m.runing → Sorted (acts body m es).runing
  unfolding acts
  acts-Sorted [] m s = s
  acts-Sorted (e ∷ es) m s = acts-Sorted es (act body m e) (act-Sorted e m s)

  -- Whatever happened to a manager before, an update calls, once the timers just added have been put
  -- among the running ones, exactly the running timers whose time is not after `now`, in the order of
  -- the multimap, and keeps exactly the others.
  pub update-acts :
      (f : ℕ → Target) (es : List Event) (now : ℕ)
      → (timers (update body now (acts body (timer_manager f) es)).calls
          ≡ timers (started (acts body (timer_manager f) es)).calls
            ++ due now (started (acts body (timer_manager f) es)).runing)
        × ((update body now (acts body (timer_manager f) es)).runing
            ≡ later now (started (acts body (timer_manager f) es)).runing)
  unfolding update Sorted timer_manager count
  update-acts f es now =
      let m = acts body (timer_manager f) es in
      let h = acts-EachOnce body f es in
      let s =
        start-Sorted body m.added (record m { added = [] }) (acts-Sorted es (timer_manager f) tt) in
      let h' =
        start-EachOnce body m.added (record m { added = [] })
          (record { once = λ q. omega (arith, h.once q); callback = h.callback }) in
      fire-due body now (started m).runing (started m) h' s
