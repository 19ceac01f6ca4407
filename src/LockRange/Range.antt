-- ===== src/LockRange/Range.antt =====
-- without_deadlock_assemble.inl: two locks, and `_Lock_range`.
use librf.Prelude.{
  ℕ, zero, suc, ◌+◌, ◌≡◌, refl, ap, subst, sym, Bool, true, false, ltb, arith, ◌⊎◌, inl, inr,
  Option, Option-cases, none, some,
}
use librf.LockRange.{
  Outcome, try_lock_ref, Result, all_locked, failed, thrown, Locks, unlock_ref, lock_done, lock_ref,
  small2_rest, lock_attempt_small2, lock_nonmember2, lock_range,
}
use librf.LockRange.Ranges.{is_all, Outcome-cases, took}
use librf.LockRange.Attempt.{Free, Attempted, done, lock_done_lem}
use librf.LockRange.Whole.{
  AllFree, Taken, Ends, Ends-again, Attempted-Taken, next-Free, lock_nonmember3-Ends,
}

-- What `_Lock_attempt_small2` returns, as what `_Lock_attempt` does.
unfoldable pub to_result : Option Bool → Result
to_result none = thrown
to_result (some true) = failed 0
to_result (some false) = all_locked

abbrev pub as_result : Option Bool × Locks → Result × Locks
as_result r = (to_result r.0, r.1)

pub small_cases : (o : Option Bool) → (o ≡ none) ⊎ ((o ≡ some true) ⊎ (o ≡ some false))
small_cases none = inl refl
small_cases (some true) = inr (inl refl)
small_cases (some false) = inr (inr refl)

module _ (tries : ℕ → ℕ → Outcome) where
  small2_rest-Attempted :
      (a b : ℕ) (s : Locks) (took : Bool)
      → a + b ≡ 1
      → Free 2 s.held
      → Attempted 2 s (as_result (small2_rest tries a b (done took a s)))
  unfolding to_result Free is_all unlock_ref small2_rest try_lock_ref
  small2_rest-Attempted a b s true one free = elim (Outcome-cases (tries (suc s.clock) b)) [
    | inl c ↦ record {
      held_after = λ j. ground (arith, c, free j);
      waited_once = ground (arith, c);
      later = ground (arith, c);
      bound = λ i q. ground (arith, c);
    }
    | inr (inl c) ↦ record {
      held_after = λ j. ground (arith, c, free j);
      waited_once = ground (arith, c);
      later = ground (arith, c);
      bound = λ i q. ground (arith, c);
    }
    | inr (inr c) ↦ record {
      held_after = λ j. ground (arith, c, free j);
      waited_once = ground (arith, c);
      later = ground (arith, c);
      bound = λ i q. ground (arith, c);
    }
  ]
  small2_rest-Attempted a b s false one free = record {
    held_after = λ j. ground (arith, free j);
    waited_once = refl;
    later = omega arith;
    bound = λ i q. ground arith;
  }

module _ (tries : ℕ → ℕ → Outcome) (waits : ℕ → ℕ → Option Bool) where
  small2-Attempted :
      (a b : ℕ) (s : Locks) (r : Option Bool × Locks)
      → a + b ≡ 1
      → Free 2 s.held
      → lock_attempt_small2 tries waits a b s ≡ some r
      → Attempted 2 s (as_result r)
  unfolding lock_attempt_small2 lock_ref
  small2-Attempted a b s r one free e = elim (Option-cases (waits s.clock a)) [
    | inl n ↦ absurd (ground (arith, n, e))
    | inr (took, n) ↦
        let h = small2_rest-Attempted tries a b s took one free in
        let same : small2_rest tries a b (lock_done took a s) ≡ r = ground (arith, n, e) in
        subst (λ x. Attempted 2 s (as_result x)) same
          (subst (λ l. Attempted 2 s (as_result (small2_rest tries a b l)))
            (sym (lock_done_lem took a s)) h)
  ]

  -- The locks after an attempt at two of them.
  small2-Taken :
      (a b : ℕ) (s : Locks) (r : Option Bool × Locks) (o : Option Bool)
      → a + b ≡ 1
      → Free 2 s.held
      → AllFree 2 s.blocked
      → lock_attempt_small2 tries waits a b s ≡ some r
      → r.0 ≡ o
      → Taken 2 s (is_all (to_result o), r.1)
  small2-Taken a b s r o one free w n e =
      Attempted-Taken 2 s (as_result r) (is_all (to_result o)) (ap (λ p. is_all (to_result p)) e)
        (small2-Attempted a b s r one free n) free w

  lock_nonmember2-Ends :
      (f : ℕ) (s : Locks)
      → Free 2 s.held
      → AllFree 2 s.blocked
      → Ends 2 s (lock_nonmember2 tries waits f s)
  unfolding lock_nonmember2 Ends is_all to_result
  lock_nonmember2-Ends zero s free w = tt
  lock_nonmember2-Ends (suc f) s free w =
      elim (Option-cases (lock_attempt_small2 tries waits 0 1 s)) [
        | inl n ↦ rw (n, lock_nonmember2) tt
        | inr (r, n) ↦ elim (small_cases r.0) [
          | inl e ↦ rw (n, lock_nonmember2, e) (small2-Taken 0 1 s r none refl free w n e)
          | inr (inl e) ↦
              let t = small2-Taken 0 1 s r (some true) refl free w n e in
              let free' = next-Free 2 s r.1 t.held_after in
              let same : (j : ℕ) → ltb j 2 ≡ false → r.1.held j ≡ s.held j =
                λ j m. ground (arith, t.held_after j) in
              Ends-again 2 s r.1 (lock_nonmember2 tries waits (suc f) s) same
                (elim (Option-cases (lock_attempt_small2 tries waits 1 0 r.1)) [
                  | inl k ↦ rw (n, lock_nonmember2, e, k) tt
                  | inr (q, k) ↦ elim (small_cases q.0) [
                    | inl d ↦
                        rw (n, lock_nonmember2, e, k, d)
                          (small2-Taken 1 0 r.1 q none refl free' t.waited_free k d)
                    | inr (inl d) ↦
                        let u = small2-Taken 1 0 r.1 q (some true) refl free' t.waited_free k d in
                        rw (n, lock_nonmember2, e, k, d)
                          (Ends-again 2 r.1 q.1 (lock_nonmember2 tries waits f q.1)
                            (λ j m. ground (arith, u.held_after j))
                            (lock_nonmember2-Ends f q.1 (next-Free 2 r.1 q.1 u.held_after)
                              u.waited_free))
                    | inr (inr d) ↦
                        rw (n, lock_nonmember2, e, k, d)
                          (small2-Taken 1 0 r.1 q (some false) refl free' t.waited_free k d)
                  ]
                ])
          | inr (inr e) ↦
              rw (n, lock_nonmember2, e) (small2-Taken 0 1 s r (some false) refl free w n e)
        ]
      ]

  lock_range-Ends :
      (f size : ℕ) (s : Locks)
      → Free size s.held
      → AllFree size s.blocked
      → Ends size s (lock_range tries waits f size s)
  unfolding lock_range lock_ref lock_done Ends Free AllFree
  lock_range-Ends f zero s free w = record { held_after = λ j. ground arith; waited_free = w }
  lock_range-Ends f (suc zero) s free w = elim (Option-cases (waits s.clock 0)) [
    | inl n ↦ rw (n, Ends) tt
    | inr (true, n) ↦
        rw (n, Ends) (record { held_after = λ j. ground (arith, free j); waited_free = (free, w) })
    | inr (false, n) ↦
        rw (n, Ends) (record { held_after = λ j. ground (arith, free j); waited_free = (free, w) })
  ]
  lock_range-Ends f (suc (suc zero)) s free w = lock_nonmember2-Ends f s free w
  lock_range-Ends f (suc (suc (suc n))) s free w =
      lock_nonmember3-Ends tries waits f (suc (suc (suc n))) 0 s (omega arith) free w

  -- Whatever the others do with the locks: if none of the locks of the range is held at first, nor
  -- was at the calls that waited before, then when `_Lock_range` returns all of them are held, and
  -- when it throws none of them is; the other locks are as before; and whenever it waited for a
  -- lock, none of the range was held.
  pub lock_range-Taken :
      (f size : ℕ) (s : Locks) (r : Bool × Locks)
      → Free size s.held
      → AllFree size s.blocked
      → lock_range tries waits f size s ≡ some r
      → Taken size s r
  unfolding Ends
  lock_range-Taken f size s r free w e = subst (Ends size s) e (lock_range-Ends f size s free w)
