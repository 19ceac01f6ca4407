-- ===== src/Timer/Handled.antt =====
-- timer.h: `timer_handler`.
use librf.Prelude.{
  ℕ, ◌&&◌, ◌≡◌, refl, Bool, true, false, not, List, [], ◌∷◌, some, if◌then◌else◌, ◌==◌, ltb, arith,
  Bool-cases, inl, inr,
}
use librf.Timer.{
  Target, Manager, Request, Handler, no_handler, expired, stop_handler, holds_added, holds_entry,
  stop, timer_manager, is_invalid,
}
use librf.Timer.Once.{count, entries, called}
use librf.Timer.Stopped.{fired, stop-acts}
use librf.Timer.Acts.{Event, acts, acts-EachOnce}

holds_added_lem : (p : ℕ) (qs : List ℕ) → holds_added p qs ≡ ltb 0 (count p qs)
unfolding holds_added count
holds_added_lem p [] = refl
holds_added_lem p (q ∷ qs) = ground (arith, holds_added_lem p qs)

holds_entry_lem : (p : ℕ) (r : List (ℕ × ℕ)) → holds_entry p r ≡ ltb 0 (entries p r)
unfolding holds_entry entries
holds_entry_lem p [] = refl
holds_entry_lem p ((k, q) ∷ r) = ground (arith, holds_entry_lem p r)

not-fired : (p : ℕ) (calls : List (ℕ × Bool)) → called p calls ≡ 0 → fired p calls ≡ false
unfolding fired called
not-fired p [] e = refl
not-fired p ((q, b) ∷ r) e = ground (arith, not-fired p r, e)

abbrev pub handler_of : ℕ → Handler
handler_of p = record { has_manager = true; target = some p }

module _ (body : ℕ → Bool → List Request) (f : ℕ → Target) (es : List Event) (p : ℕ)
    (made : ltb p (acts body (timer_manager f) es).made ≡ true) where
  -- The manager after a history.
  abbrev pub m : Manager
  m = acts body (timer_manager f) es

  expired-called : expired m (handler_of p) ≡ ltb 0 (called p m.calls)
  unfolding expired
  expired-called = ground (
    arith,
    (acts-EachOnce body f es).once p,
    made,
    holds_added_lem p m.added,
    holds_entry_lem p m.runing,
  )

  -- What `stop` of the handler of `p` does; `later` is what happens to the manager afterwards.
  pub record Handled (later : List Event) (r : Bool × Manager × Handler) : Type 0 where
    pub is_expired : expired m (handler_of p) ≡ ltb 0 (called p m.calls)
    pub emptied : r.2 ≡ no_handler
    pub result : r.0 ≡ ((called p m.calls == 0) && not (is_invalid (m.targets p).st))
    pub manager : r.1 ≡ (if called p m.calls == 0 then (stop m p).1 else m)
    pub never_fires : ((called p m.calls == 0) && fired p (acts body r.1 later).calls) ≡ false

  -- After any history of a new manager, a handler of a timer that was made is expired exactly if the
  -- timer's callback was called. `stop` empties the handler. If the callback was called, it leaves the
  -- manager as it is and returns false; else it stops the timer, returns whether the timer was not
  -- stopped before, and the callback will never be called with `canceld` false, whatever happens to
  -- the manager afterwards.
  pub stop_handler-Handled : (later : List Event) → Handled later (stop_handler m (handler_of p))
  unfolding stop_handler stop
  stop_handler-Handled later = elim (Bool-cases (expired m (handler_of p))) [
    | inl e ↦ rw e (record {
      is_expired = ground (arith, e, expired-called);
      emptied = refl;
      result = ground (arith, e, expired-called);
      manager = ground (arith, e, expired-called);
      never_fires = ground (arith, e, expired-called);
    })
    | inr e ↦
        let h : called p m.calls ≡ 0 = ground (arith, e, expired-called) in
        let n : fired p (acts body (stop m p).1 later).calls ≡ false =
          stop-acts body p m later made (not-fired p m.calls h) in
        rw e (record {
          is_expired = ground (arith, e, expired-called);
          emptied = refl;
          result = ground (arith, h);
          manager = ground (arith, h);
          never_fires = ground (arith, h, n);
        })
  ]
