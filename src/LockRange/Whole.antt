-- ===== src/LockRange/Whole.antt =====
-- without_deadlock_assemble.inl: the loops take all the locks, or throw and hold none, and never wait
-- while they hold one.
use librf.Prelude.{
  ℕ, zero, suc, ◌<◌, ◌≡◌, refl, Bool, true, false, List, [], ◌∷◌, if◌then◌else◌, ltb, arith, inl,
  inr, Option, Option-cases, none, some,
}
use librf.LockRange.{Outcome, Result, Locks, lock_attempt, lock_nonmember3}
use librf.LockRange.Ranges.{is_all}
use librf.LockRange.Attempt.{Result-cases, Free, Attempted, lock_attempt-Attempted}

-- At each call that waited, no lock below `size` was held.
unfoldable pub AllFree : ℕ → List (ℕ → Bool) → Type 0
AllFree size [] = Unit {0}
AllFree size (f ∷ fs) = Free size f × AllFree size fs

pub record Taken (size : ℕ) (s : Locks) (r : Bool × Locks) : Type 0 where
  pub held_after : (j : ℕ) → r.1.held j ≡ (if ltb j size then r.0 else s.held j)
  pub waited_free : AllFree size r.1.blocked

unfoldable pub Ends : ℕ → Locks → Option (Bool × Locks) → Type 0
Ends size s none = Unit {0}
Ends size s (some r) = Taken size s r

-- After an attempt that did not take the locks.
pub Ends-again :
    (size : ℕ) (s n : Locks) (o : Option (Bool × Locks))
    → ((j : ℕ) → ltb j size ≡ false → n.held j ≡ s.held j)
    → Ends size n o
    → Ends size s o
unfolding Ends
Ends-again size s n none h e = tt
Ends-again size s n (some r) h e = record {
  held_after = λ j. ground (arith, e.held_after j, h j);
  waited_free = e.waited_free;
}

pub next-Free :
    (size : ℕ) (s n : Locks)
    → ((j : ℕ) → n.held j ≡ (if ltb j size then false else s.held j))
    → Free size n.held
unfolding Free
next-Free size s n h = λ j e. ground (arith, h j)

-- An attempt whose last result is `b`.
pub Attempted-Taken :
    (size : ℕ) (s : Locks) (r : Result × Locks) (b : Bool)
    → is_all r.0 ≡ b
    → Attempted size s r
    → Free size s.held
    → AllFree size s.blocked
    → Taken size s (b, r.1)
unfolding AllFree
Attempted-Taken size s r b e h free w = record {
  held_after = λ j. ground (arith, h.held_after j, e);
  waited_free = rw h.waited_once (free, w);
}

module _ (tries : ℕ → ℕ → Outcome) (waits : ℕ → ℕ → Option Bool) where
  pub lock_nonmember3-Ends :
      (f size hard : ℕ) (s : Locks)
      → hard < size
      → Free size s.held
      → AllFree size s.blocked
      → Ends size s (lock_nonmember3 tries waits f size hard s)
  unfolding lock_nonmember3 Ends is_all
  lock_nonmember3-Ends zero size hard s lt free w = tt
  lock_nonmember3-Ends (suc f) size hard s lt free w =
      elim (Option-cases (lock_attempt tries waits size hard s)) [
        | inl n ↦ rw (n, lock_nonmember3) tt
        | inr (r, n) ↦
            let h = lock_attempt-Attempted tries waits size hard s r lt free n in
            elim (Result-cases r.0) [
              | inl e ↦
                  rw (n, lock_nonmember3, e) (Attempted-Taken size s r true (rw e refl) h free w)
              | inr (inl (i, e)) ↦
                  let u : is_all r.0 ≡ false = rw e refl in
                  let t = Attempted-Taken size s r false u h free w in
                  let free' : Free size r.1.held = next-Free size s r.1 t.held_after in
                  rw (n, lock_nonmember3, e)
                    (Ends-again size s r.1 (lock_nonmember3 tries waits f size i r.1)
                      (λ j q. ground (arith, t.held_after j))
                      (lock_nonmember3-Ends f size i r.1 (h.bound i e) free' t.waited_free))
              | inr (inr e) ↦
                  rw (n, lock_nonmember3, e) (Attempted-Taken size s r false (rw e refl) h free w)
            ]
      ]
