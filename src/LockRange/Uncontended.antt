-- ===== src/LockRange/Uncontended.antt =====
-- without_deadlock_assemble.inl: `_Lock_range` where no other thread is in the way.
use librf.Prelude.{
  ℕ, zero, suc, ◌≡◌, ◌≢◌, refl, Bool, true, false, if◌then◌else◌, Option, none, some, arith,
}
use librf.LockRange.{
  Outcome, got, try_lock_ref, try_lock_range, Result, all_locked, failed, thrown, Locks, backout,
  lock_done, lock_ref, attempt_rest, small2_rest, lock_attempt, lock_attempt_small2,
  lock_nonmember2, lock_nonmember3, lock_range,
}
use librf.LockRange.Attempt.{Free}
use librf.LockRange.Whole.{AllFree, Taken}
use librf.LockRange.Range.{lock_range-Taken}

backout-all_locked :
    (start hard : ℕ) (r : Result × Locks) → r.0 ≡ all_locked → (backout start hard r).0 ≡ all_locked
unfolding backout
backout-all_locked start hard (all_locked, s) e = refl
backout-all_locked start hard (failed i, s) e = absurd (ground (arith, e))
backout-all_locked start hard (thrown, s) e = absurd (ground (arith, e))

module _ (tries : ℕ → ℕ → Outcome) (alone : (t i : ℕ) → i ≢ 0 → tries t i ≡ got) where
  try_lock_range-alone :
      (n first next : ℕ) (s : Locks) → (try_lock_range tries first (suc next) n s).0 ≡ all_locked
  unfolding try_lock_range try_lock_ref
  try_lock_range-alone zero first next s = refl
  try_lock_range-alone (suc n) first next s =
      rw (alone s.clock (suc next) (omega arith), try_lock_range, try_lock_ref)
        (try_lock_range-alone n first (suc next) _)

  attempt_rest-alone :
      (size : ℕ) (took : Bool) (s : Locks)
      → (attempt_rest tries size 0 (took, s)).0 ≡ (if took then all_locked else thrown)
  unfolding attempt_rest try_lock_range
  attempt_rest-alone size true s = backout-all_locked 0 0 _ (try_lock_range-alone _ 1 0 s)
  attempt_rest-alone size false s = refl

  small2_rest-alone :
      (took : Bool) (s : Locks)
      → (small2_rest tries 0 1 (took, s)).0 ≡ (if took then some false else none)
  unfolding small2_rest try_lock_ref
  small2_rest-alone true s = rw (alone s.clock 1 (omega arith), small2_rest, try_lock_ref) refl
  small2_rest-alone false s = refl

  module _ (waits : ℕ → ℕ → Option Bool) (f : ℕ) where
    lock_ref-returns :
        (took : Bool) (s : Locks)
        → waits s.clock 0 ≡ some took
        → lock_ref tries waits 0 s ≡ some (took, (lock_done took 0 s).1)
    unfolding lock_ref lock_done
    lock_ref-returns true s e = ground (arith, e)
    lock_ref-returns false s e = ground (arith, e)

    nonmember3-alone :
        (size : ℕ) (took : Bool) (s : Locks)
        → waits s.clock 0 ≡ some took
        → (r : Locks) × (lock_nonmember3 tries waits (suc f) size 0 s ≡ some (took, r))
    unfolding lock_nonmember3 lock_attempt
    nonmember3-alone size true s e =
        let l = (lock_done true 0 s).1 in
        let a = attempt_rest-alone size true l in
        ((attempt_rest tries size 0 (true, l)).1, ground (arith, lock_ref-returns true s e, a))
    nonmember3-alone size false s e =
        let l = (lock_done false 0 s).1 in
        let a = attempt_rest-alone size false l in
        ((attempt_rest tries size 0 (false, l)).1, ground (arith, lock_ref-returns false s e, a))

    nonmember2-alone :
        (took : Bool) (s : Locks)
        → waits s.clock 0 ≡ some took
        → (r : Locks) × (lock_nonmember2 tries waits (suc f) s ≡ some (took, r))
    unfolding lock_nonmember2 lock_attempt_small2
    nonmember2-alone true s e =
        let l = (lock_done true 0 s).1 in
        let a = small2_rest-alone true l in
        ((small2_rest tries 0 1 (true, l)).1, ground (arith, lock_ref-returns true s e, a))
    nonmember2-alone false s e =
        let l = (lock_done false 0 s).1 in
        let a = small2_rest-alone false l in
        ((small2_rest tries 0 1 (false, l)).1, ground (arith, lock_ref-returns false s e, a))

    returns :
        (n : ℕ) (took : Bool) (s : Locks)
        → waits s.clock 0 ≡ some took
        → (r : Locks) × (lock_range tries waits (suc f) (suc n) s ≡ some (took, r))
    unfolding lock_range
    returns zero took s e = ((lock_done took 0 s).1, lock_ref-returns took s e)
    returns (suc zero) took s e = nonmember2-alone took s e
    returns (suc (suc n)) took s e = nonmember3-alone (suc (suc (suc n))) took s e

    -- If no other thread is in the way, so that every try on a lock other than the first gets it, and
    -- if the wait for the first lock returns or throws: `_Lock_range` ends, after one turn of its
    -- loop. It returns, with all of the locks of the range, if that wait returned, and else throws
    -- and holds none; and it waited only while it held none of them. This is for one lock or more,
    -- none of which is held at first, nor was at the calls that waited before. What a try on the
    -- first lock finds does not matter, since it is not tried while it is held.
    pub lock_range-alone :
        (n : ℕ) (took : Bool) (s : Locks)
        → Free (suc n) s.held
        → AllFree (suc n) s.blocked
        → waits s.clock 0 ≡ some took
        → (r : Locks) × (lock_range tries waits (suc f) (suc n) s ≡ some (took, r))
          × Taken (suc n) s (took, r)
    lock_range-alone n took s free w e =
        let (r, ends) = returns n took s e in
        (r, ends, lock_range-Taken tries waits (suc f) (suc n) s (took, r) free w ends)
