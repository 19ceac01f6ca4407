-- ===== src/MutexGuard/Range.antt =====
-- mutex_v2.cpp: a mutex that one owner locks several times and unlocks as often.
use librf.Prelude.{
  ℕ, zero, suc, ◌+◌, ◌≤◌, ◌<◌, ◌≡◌, ◌≢◌, refl, ◌∙◌, ap, sym, Bool, true, List, [], ◌∷◌, ◌==◌, arith,
  size_mod, occ, inl, inr, ◌⊎◌, Bool-cases,
}
use librf.Mutex.{Ptr, null, Mutex, try_lock, unlock}
use librf.Mutex.Inv.{IsValid, try_lock-IsValid}
use librf.Mutex.Exclusion.{unlock-try_lock}
use librf.MutexGuard.{Family, put, unlock_all}

module _ (o : Ptr) where
  -- `n` calls of `try_lock`, and of `unlock`, by the owner `o`.
  unfoldable pub locks : ℕ → Mutex → Mutex
  locks zero m = m
  locks (suc n) m = (try_lock (locks n m) o).1

  unfoldable pub unlocks : ℕ → Mutex → Mutex
  unlocks zero m = m
  unlocks (suc n) m = unlocks n (unlock m o).1

  -- The mutex is free or owned by `o`.
  abbrev pub Open : Mutex → Type 0
  Open m = (m.owner ≡ null) ⊎ (m.owner ≡ o)

  pub try_lock-Open : (m : Mutex) → Open m → (try_lock m o).0 ≡ true
  unfolding try_lock
  try_lock-Open m h = ground arith

  pub Open-try_lock : (m : Mutex) → (try_lock m o).0 ≡ true → Open m
  unfolding try_lock
  Open-try_lock m h = elim (Bool-cases (m.owner == null)) [
    | inl e ↦ inl (ground arith)
    | inr e ↦ inr (ground arith)
  ]

  pub locks-Open : (n : ℕ) (m : Mutex) → Open m → Open (locks n m)
  unfolding locks try_lock
  locks-Open zero m h = h
  locks-Open (suc n) m h = ground (arith, locks-Open n m h)

  pub locks-owner : (n : ℕ) (m : Mutex) → 1 ≤ n → Open m → (locks n m).owner ≡ o
  unfolding locks try_lock
  locks-owner zero m le h = absurd (omega arith)
  locks-owner (suc n) m le h = ground (arith, locks-Open n m h)

  locks-counter : (n : ℕ) (m : Mutex) → (locks n m).counter ≤ m.counter + n
  unfolding locks try_lock
  locks-counter zero m = omega arith
  locks-counter (suc n) m = ground (arith, locks-counter n m)

  pub locks-IsValid :
      (n : ℕ) (m : Mutex) → o ≢ null → m.counter + n < size_mod → IsValid m → IsValid (locks n m)
  unfolding locks
  locks-IsValid zero m nn b v = v
  locks-IsValid (suc n) m nn b v =
      try_lock-IsValid (locks n m) o nn (omega (arith, locks-counter n m))
        (locks-IsValid n m nn (omega arith) v)

  pub unlocks-locks :
      (n : ℕ) (m : Mutex)
      → o ≢ null
      → m.counter + n < size_mod
      → IsValid m
      → (1 ≤ n → Open m)
      → unlocks n (locks n m) ≡ m
  unfolding locks unlocks
  unlocks-locks zero m nn b v h = refl
  unlocks-locks (suc n) m nn b v h =
      let k = locks n m in
      let t : try_lock k o ≡ (true, (try_lock k o).1) =
        ap (λ (c : Bool). (c, (try_lock k o).1))
          (try_lock-Open k (locks-Open n m (h (omega arith)))) in
      let u =
        unlock-try_lock k (try_lock k o).1 o nn (omega (arith, locks-counter n m))
          (locks-IsValid n m nn (omega arith) v) t in
      ap (λ r. unlocks n r.1) u ∙ unlocks-locks n m nn (omega arith) v (λ l. h (omega arith))

  -- The loop of unlocks is, at each mutex, as many unlocks as the mutex is named.
  pub unlock_all-at :
      (is : List ℕ) (ms : Family) (j : ℕ) → unlock_all ms o is j ≡ unlocks (occ j is) (ms j)
  unfolding unlock_all unlocks
  unlock_all-at [] ms j = refl
  unlock_all-at (i ∷ is) ms j = elim (Bool-cases (i == j)) [
    | inl e ↦
        let same : i ≡ j = ground arith in
        let once_more : occ j (i ∷ is) ≡ suc (occ j is) = ground arith in
        let here : put ms i (unlock (ms i) o).1 j ≡ (unlock (ms j) o).1 = rw (e, same) refl in
        unlock_all-at is (put ms i (unlock (ms i) o).1) j
        ∙ ap (unlocks (occ j is)) here
        ∙ ap (λ n. unlocks n (ms j)) (sym once_more)
    | inr e ↦
        let no_more : occ j (i ∷ is) ≡ occ j is = ground arith in
        let there : put ms i (unlock (ms i) o).1 j ≡ ms j = rw e refl in
        unlock_all-at is (put ms i (unlock (ms i) o).1) j
        ∙ ap (unlocks (occ j is)) there
        ∙ ap (λ n. unlocks n (ms j)) (sym no_more)
  ]
