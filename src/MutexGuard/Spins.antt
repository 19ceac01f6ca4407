-- ===== src/MutexGuard/Spins.antt =====
-- mutex_v2.cpp: the calls by which a thread tries until it succeeds, or until a time.
use librf.Prelude.{
  ℕ, zero, suc, ◌+◌, ◌<◌, ◌≡◌, refl, Bool, true, false, some, leb, arith, Bool-cases, inl, inr,
}
use librf.Mutex.{Ptr, Mutex, try_lock}
use librf.MutexGuard.{lock_until_succeed, try_lock_until}

module _ (others : ℕ → Mutex → Mutex) where
  -- If the `k`-th try from now on would succeed whatever the mutex was, `lock_until_succeed` returns.
  pub lock_until_succeed-returns :
      (k n : ℕ) (m : Mutex) (sch : Ptr)
      → ((m' : Mutex) → (try_lock (others (n + k) m') sch).0 ≡ true)
      → (m' : Mutex) × (lock_until_succeed others (suc k) n m sch ≡ some m')
  unfolding lock_until_succeed
  lock_until_succeed-returns zero n m sch h =
      let e : (try_lock (others n m) sch).0 ≡ true = ground (arith, h m) in
      ((try_lock (others n m) sch).1, rw e refl)
  lock_until_succeed-returns (suc k) n m sch h = elim (Bool-cases (try_lock (others n m) sch).0) [
    | inl e ↦ ((try_lock (others n m) sch).1, rw e refl)
    | inr e ↦ rw e (
        lock_until_succeed-returns k (suc n) (try_lock (others n m) sch).1 sch
          (λ m'. let same : suc n + k ≡ n + suc k = omega arith in rw same (h m')))
  ]

  -- If the clock is past the time after the `k`-th try from now on, `try_lock_until` returns.
  pub try_lock_until-returns :
      (now : ℕ → ℕ) (k n : ℕ) (m : Mutex) (tp : ℕ) (sch : Ptr)
      → tp < now (n + k)
      → (b : Bool) × (m' : Mutex) × (try_lock_until others now (suc k) n m tp sch ≡ some (b, m'))
  unfolding try_lock_until
  try_lock_until-returns now zero n m tp sch late =
      let past : leb (now n) tp ≡ false = ground (arith, late) in
      elim (Bool-cases (try_lock (others n m) sch).0) [
        | inl e ↦ (true, (try_lock (others n m) sch).1, rw e refl)
        | inr e ↦ (false, (try_lock (others n m) sch).1, rw (e, past) refl)
      ]
  try_lock_until-returns now (suc k) n m tp sch late =
      let later : tp < now (suc n + k) =
        let same : suc n + k ≡ n + suc k = omega arith in rw same late in
      elim (Bool-cases (try_lock (others n m) sch).0) [
        | inl e ↦ (true, (try_lock (others n m) sch).1, rw e refl)
        | inr e ↦ elim (Bool-cases (leb (now n) tp)) [
          | inl early ↦
              rw (e, early)
                (try_lock_until-returns now k (suc n) (try_lock (others n m) sch).1 tp sch later)
          | inr past ↦ (false, (try_lock (others n m) sch).1, rw (e, past) refl)
        ]
      ]
