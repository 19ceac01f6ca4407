-- ===== src/LockRange/Attempt.antt =====
-- without_deadlock_assemble.inl: one attempt at all the locks, which waits for one of them only.
use librf.Prelude.{
  ℕ, suc, ◌+◌, ◌-◌, ◌<◌, ◌≡◌, refl, sym, subst, ◌∙◌, Bool, true, false, ◌∷◌, if◌then◌else◌, ltb,
  arith, ◌⊎◌, inl, inr, Bool-cases, Option, Option-cases, some,
}
use librf.LockRange.{
  Outcome, Result, all_locked, failed, thrown, Locks, put, lock_done, lock_ref, try_lock_range,
  backout, attempt_rest, lock_attempt,
}
use librf.LockRange.Ranges.{
  is_all, within, left, Ranged, try_lock_range-Ranged, held-unlock_locks, blocked-unlock_locks,
  clock-unlock_locks,
}

pub Result-cases : (r : Result) → (r ≡ all_locked) ⊎ (((i : ℕ) × (r ≡ failed i)) ⊎ (r ≡ thrown))
Result-cases all_locked = inl refl
Result-cases (failed i) = inr (inl (i, refl))
Result-cases thrown = inr (inr refl)

pub is_all-all_locked : (r : Result) → is_all r ≡ true → r ≡ all_locked
unfolding is_all
is_all-all_locked all_locked e = refl
is_all-all_locked (failed i) e = ground arith
is_all-all_locked thrown e = ground arith

-- None of the locks below `size` is held.
unfoldable pub Free : ℕ → (ℕ → Bool) → Type 0
Free size f = (j : ℕ) → ltb j size ≡ true → f j ≡ false

abbrev pub asked : Locks → Locks
asked s = record s { clock = suc s.clock; blocked = s.held ∷ s.blocked }

abbrev pub waited : ℕ → Locks → Locks
waited i s = record s {
  clock = suc s.clock;
  blocked = s.held ∷ s.blocked;
  held = put s.held i true;
}

-- The locks are all held or none is, and the only call that waited did so with those of the
-- beginning.
pub record Attempted (size : ℕ) (s : Locks) (r : Result × Locks) : Type 0 where
  pub held_after : (j : ℕ) → r.1.held j ≡ (if ltb j size then is_all r.0 else s.held j)
  pub waited_once : r.1.blocked ≡ s.held ∷ s.blocked
  pub later : s.clock < r.1.clock
  pub bound : (i : ℕ) → r.0 ≡ failed i → i < size

pub backout-result : (start hard : ℕ) (r : Result × Locks) → (backout start hard r).0 ≡ r.0
unfolding backout
backout-result start hard (all_locked, s) = refl
backout-result start hard (failed i, s) = refl
backout-result start hard (thrown, s) = refl

backout-held :
    (start hard : ℕ) (r : Result × Locks) (j : ℕ)
    → (backout start hard r).1.held j ≡ (
        if is_all r.0
        then r.1.held j
        else (if within start (start + (suc hard - start)) j then false else r.1.held j))
unfolding backout is_all
backout-held start hard (all_locked, s) j = refl
backout-held start hard (failed i, s) j = held-unlock_locks (suc hard - start) start s j
backout-held start hard (thrown, s) j = held-unlock_locks (suc hard - start) start s j

backout-blocked :
    (start hard : ℕ) (r : Result × Locks) → (backout start hard r).1.blocked ≡ r.1.blocked
unfolding backout
backout-blocked start hard (all_locked, s) = refl
backout-blocked start hard (failed i, s) = blocked-unlock_locks (suc hard - start) start s
backout-blocked start hard (thrown, s) = blocked-unlock_locks (suc hard - start) start s

backout-clock : (start hard : ℕ) (r : Result × Locks) → (backout start hard r).1.clock ≡ r.1.clock
unfolding backout
backout-clock start hard (all_locked, s) = refl
backout-clock start hard (failed i, s) = clock-unlock_locks (suc hard - start) start s
backout-clock start hard (thrown, s) = clock-unlock_locks (suc hard - start) start s

-- The lower range failed.
low-Attempted :
    (size hard : ℕ) (s : Locks) (low : Result × Locks)
    → hard < size
    → Free size s.held
    → Ranged 0 0 hard (waited hard s) low
    → is_all low.0 ≡ false
    → Attempted size s (backout hard hard low)
unfolding left Free
low-Attempted size hard s low lt free h f = record {
  held_after = λ j. ground (
    arith,
    backout-held hard hard low j,
    backout-result hard hard low,
    h.held_after j,
    free j,
    f,
  );
  waited_once = backout-blocked hard hard low ∙ h.not_blocked;
  later = omega (arith, h.later, backout-clock hard hard low);
  bound =
      λ i e. omega (arith, h.bound i (subst (λ q. q ≡ failed i) (backout-result hard hard low) e));
}

-- The lower range is held; the upper range was tried.
high-Attempted :
    (size hard : ℕ) (s : Locks) (low high : Result × Locks)
    → hard < size
    → Free size s.held
    → Ranged 0 0 hard (waited hard s) low
    → low.0 ≡ all_locked
    → Ranged (suc hard) (suc hard) (size - suc hard) low.1 high
    → Attempted size s (backout 0 hard high)
unfolding left Free is_all
high-Attempted size hard s low high lt free h all k =
    let e : suc hard + (size - suc hard) ≡ size = omega arith in
    let a : is_all low.0 ≡ true = rw all refl in
    record {
      held_after = λ j. ground (
        arith,
        backout-held 0 hard high j,
        backout-result 0 hard high,
        h.held_after j,
        k.held_after j,
        free j,
        a,
        e,
      );
      waited_once = backout-blocked 0 hard high ∙ k.not_blocked ∙ h.not_blocked;
      later = omega (arith, h.later, k.later, backout-clock 0 hard high);
      bound = λ i q. omega (arith, k.bound i (sym (backout-result 0 hard high) ∙ q));
    }

-- The state after a wait that returned.
abbrev pub done : Bool → ℕ → Locks → Bool × Locks
done took i s = if took then (true, waited i s) else (false, asked s)

pub lock_done_lem : (took : Bool) (i : ℕ) (s : Locks) → lock_done took i s ≡ done took i s
unfolding lock_done
lock_done_lem true i s = refl
lock_done_lem false i s = refl

module _ (tries : ℕ → ℕ → Outcome) where
  -- The range below the hard lock.
  abbrev pub low_range : ℕ → Locks → Result × Locks
  low_range hard s = try_lock_range tries 0 0 hard (waited hard s)

  attempt-high :
      (size hard : ℕ) (s : Locks)
      → (low_range hard s).0 ≡ all_locked
      → attempt_rest tries size hard (true, waited hard s)
        ≡ backout 0 hard
            (try_lock_range tries (suc hard) (suc hard) (size - suc hard) (low_range hard s).1)
  unfolding attempt_rest
  attempt-high size hard s a = rw (attempt_rest, a) refl

  attempt-low :
      (size hard : ℕ) (s : Locks)
      → is_all (low_range hard s).0 ≡ false
      → attempt_rest tries size hard (true, waited hard s) ≡ backout hard hard (low_range hard s)
  unfolding attempt_rest is_all
  attempt-low size hard s f = elim (Result-cases (low_range hard s).0) [
    | inl a ↦ ground (arith, a, f)
    | inr (inl (i, a)) ↦ rw (attempt_rest, a) refl
    | inr (inr a) ↦ rw (attempt_rest, a) refl
  ]

  attempt_rest-Attempted :
      (size hard : ℕ) (s : Locks) (took : Bool)
      → hard < size
      → Free size s.held
      → Attempted size s (attempt_rest tries size hard (done took hard s))
  unfolding Free is_all left attempt_rest
  attempt_rest-Attempted size hard s true lt free =
      let low =
        try_lock_range-Ranged tries hard 0 0 (waited hard s) (omega arith)
          (λ j w. ground (arith, free j)) in
      let r = low_range hard s in
      elim (Bool-cases (is_all r.0)) [
        | inl a ↦
            let all = is_all-all_locked r.0 a in
            let e' : suc hard + (size - suc hard) ≡ size = omega arith in
            let high =
              try_lock_range-Ranged tries (size - suc hard) (suc hard) (suc hard) r.1 (omega arith)
                (λ j w. ground (arith, low.held_after j, free j, a, e')) in
            subst (Attempted size s) (sym (attempt-high size hard s all)) (
              high-Attempted size hard s r
                (try_lock_range tries (suc hard) (suc hard) (size - suc hard) r.1) lt free low all
                high)
        | inr f ↦
            subst (Attempted size s) (sym (attempt-low size hard s f))
              (low-Attempted size hard s r lt free low f)
      ]
  attempt_rest-Attempted size hard s false lt free = record {
    held_after = λ j. ground (arith, free j);
    waited_once = refl;
    later = omega arith;
    bound = λ i q. ground arith;
  }

  pub lock_attempt-Attempted :
      (waits : ℕ → ℕ → Option Bool) (size hard : ℕ) (s : Locks) (r : Result × Locks)
      → hard < size
      → Free size s.held
      → lock_attempt tries waits size hard s ≡ some r
      → Attempted size s r
  unfolding lock_attempt lock_ref
  lock_attempt-Attempted waits size hard s r lt free e = elim (Option-cases (waits s.clock hard)) [
    | inl n ↦ absurd (ground (arith, n, e))
    | inr (took, n) ↦
        let h = attempt_rest-Attempted size hard s took lt free in
        let d = lock_done_lem took hard s in
        let same : attempt_rest tries size hard (lock_done took hard s) ≡ r =
          ground (arith, n, e) in
        subst (Attempted size s) same
          (subst (λ l. Attempted size s (attempt_rest tries size hard l)) (sym d) h)
  ]
