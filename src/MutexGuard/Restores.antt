-- ===== src/MutexGuard/Restores.antt =====
-- mutex_v2.inl: mutexes that are locked together and unlocked again are as before.
use librf.Prelude.{
  ℕ, zero, suc, ◌+◌, ◌≤◌, ◌<◌, ◌≡◌, ◌≢◌, refl, subst, ◌∙◌, ap, sym, true, false, List, [], ◌∷◌,
  ◌++◌, ◌==◌, arith, size_mod, occ, occ-append, occ-le-length, length, length-append, append-nil,
  append_assoc, inl, inr, Bool-cases, Option, none, some,
}
use librf.Mutex.{Ptr, null, Mutex, try_lock}
use librf.Mutex.Inv.{IsValid}
use librf.MutexGuard.{Family, put, unlock_all, try_lock_range, destroy_batch}
use librf.MutexGuard.Range.{
  locks, unlocks, Open, Open-try_lock, try_lock-Open, locks-Open, locks-owner, unlocks-locks,
  unlock_all-at,
}

module _ (o : Ptr) (before : Family) where
  -- The mutexes of `taken` were locked, each as often as it is named, and the others left alone.
  abbrev pub Locked : List ℕ → Family → Type 0
  Locked taken ms =
      (j : ℕ) → (ms j ≡ locks o (occ j taken) (before j)) × (1 ≤ occ j taken → Open o (before j))

  -- What is left when the guard of a successful lock was destroyed.
  abbrev pub given_back : List ℕ → Option ℕ × Family → Family
  given_back all (none, ms) = destroy_batch (record { mutexes = all; owner = o }) ms
  given_back all (some k, ms) = ms

  -- What a try to lock all of them tells, and what becomes of the mutexes.
  abbrev pub Tried : List ℕ → Option ℕ × Family → Type 0
  Tried all (none, ms) = (j : ℕ) → 1 ≤ occ j all → (ms j).owner ≡ o
  Tried all (some k, ms) = (i : ℕ) × (1 ≤ occ i all) × ¬ Open o (before i)

  Open-before : (m : Mutex) → Open o (try_lock m o).1 → Open o m
  unfolding try_lock
  Open-before m h = ground arith

  Open-locks : (n : ℕ) (m : Mutex) → Open o (locks o n m) → Open o m
  unfolding locks
  Open-locks zero m h = h
  Open-locks (suc n) m h = Open-locks n m (Open-before (locks o n m) h)

  Locked-snoc :
      (taken : List ℕ) (ms : Family) (i : ℕ)
      → Locked taken ms
      → (try_lock (ms i) o).0 ≡ true
      → Locked (taken ++ (i ∷ [])) (put ms i (try_lock (ms i) o).1)
  unfolding locks
  Locked-snoc taken ms i l t j = elim (Bool-cases (i == j)) [
    | inl e ↦
        let same : i ≡ j = ground arith in
        let once_more : occ j (taken ++ (i ∷ [])) ≡ suc (occ j taken) =
          ground (arith, occ-append j i taken) in
        let here : put ms i (try_lock (ms i) o).1 j ≡ (try_lock (ms j) o).1 = rw (e, same) refl in
        let step : (try_lock (ms j) o).1 ≡ locks o (suc (occ j taken)) (before j) =
          rw (l j).0 refl in
        let tried : (try_lock (ms j) o).0 ≡ true = rw (← same) t in
        (
          here ∙ step ∙ ap (λ n. locks o n (before j)) (sym once_more),
          λ h.
              Open-locks (occ j taken) (before j)
                (subst (Open o) (l j).0 (Open-try_lock o (ms j) tried)),
        )
    | inr e ↦
        let no_more : occ j (taken ++ (i ∷ [])) ≡ occ j taken =
          ground (arith, occ-append j i taken) in
        let there : put ms i (try_lock (ms i) o).1 j ≡ ms j = rw e refl in
        (
          there ∙ (l j).0 ∙ ap (λ n. locks o n (before j)) (sym no_more),
          λ h. (l j).1 (omega (arith, no_more)),
        )
  ]

occ-middle : (i : ℕ) (xs ys : List ℕ) → 1 ≤ occ i (xs ++ (i ∷ ys))
occ-middle i [] ys = ground arith
occ-middle i (x ∷ xs) ys = omega (arith, occ-middle i xs ys)

module _ (o : Ptr) (before : Family) (not_null : o ≢ null)
    (valid : (j : ℕ) → IsValid (before j)) where
  restored :
      (taken : List ℕ) (ms : Family)
      → ((j : ℕ) → (before j).counter + length taken < size_mod)
      → Locked o before taken ms
      → (j : ℕ) → unlock_all ms o taken j ≡ before j
  restored taken ms room l j =
      unlock_all-at o taken ms j
      ∙ ap (unlocks o (occ j taken)) (l j).0
      ∙ unlocks-locks o (occ j taken) (before j) not_null
          (omega (arith, room j, occ-le-length j taken)) (valid j) (l j).1

  -- A mutex that refuses the lock is as it was.
  refused :
      (ms : Family) (i : ℕ)
      → (try_lock (ms i) o).0 ≡ false
      → (j : ℕ) → put ms i (try_lock (ms i) o).1 j ≡ ms j
  unfolding try_lock
  refused ms i f j = ground arith

  not-Open :
      (ms : Family) (i : ℕ) (taken : List ℕ)
      → Locked o before taken ms
      → (try_lock (ms i) o).0 ≡ false
      → ¬ Open o (before i)
  not-Open ms i taken l f h =
      let t : (try_lock (ms i) o).0 ≡ true =
        try_lock-Open o (ms i) (rw (l i).0 (locks-Open o (occ i taken) (before i) h)) in
      absurd (ground (arith, t, f))

  -- What `_Try_lock_range` leaves.
  Whole : List ℕ → Option ℕ × Family → Type 0
  Whole all (none, ms) = Locked o before all ms
  Whole all (some k, ms) =
      (k < length all)
      × ((j : ℕ) → ms j ≡ before j)
      × ((i : ℕ) × (1 ≤ occ i all) × ¬ Open o (before i))

  try_lock_range-Whole :
      (left taken : List ℕ) (ms : Family)
      → ((j : ℕ) → (before j).counter + length (taken ++ left) < size_mod)
      → Locked o before taken ms
      → Whole (taken ++ left) (try_lock_range ms o taken left)
  unfolding try_lock_range Whole
  try_lock_range-Whole [] taken ms room l = rw append-nil l
  try_lock_range-Whole (i ∷ left) taken ms room l = elim (Bool-cases (try_lock (ms i) o).0) [
    | inl e ↦ rw e (
        subst
          (λ all.
            Whole all (try_lock_range (put ms i (try_lock (ms i) o).1) o (taken ++ (i ∷ [])) left))
          (append_assoc taken (i ∷ []) left)
          (try_lock_range-Whole left (taken ++ (i ∷ [])) (put ms i (try_lock (ms i) o).1)
            (λ j. rw (append_assoc taken (i ∷ []) left) (room j))
            (Locked-snoc o before taken ms i l e)))
    | inr e ↦ rw e (
      omega (arith, length-append taken (i ∷ left)),
      restored taken (put ms i (try_lock (ms i) o).1)
          (λ j. omega (arith, room j, length-append taken (i ∷ left)))
          (λ j. (refused ms i e j ∙ (l j).0, (l j).1)),
      (i, ground (arith, occ-middle i taken left), λ h. not-Open ms i taken l e h),
    )
  ]

  Whole-given_back :
      (all : List ℕ) (r : Option ℕ × Family)
      → ((j : ℕ) → (before j).counter + length all < size_mod)
      → Whole all r
      → Tried o before all r × ((j : ℕ) → given_back o before all r j ≡ before j)
  unfolding Whole destroy_batch
  Whole-given_back all (none, ms) room w = (
    λ j h. ap (λ m. m.owner) (w j).0 ∙ locks-owner o (occ j all) (before j) h ((w j).1 h),
    λ j. let f : (o == null) ≡ false = ground arith in rw f (restored all ms room w j),
  )
  Whole-given_back all (some k, ms) room w = (w.2, w.1)

  -- An owner tries to lock mutexes that keep their invariant, in order; a mutex may be named more than
  -- once, and counts have room. Either it then owns all of them, and when its guard is destroyed,
  -- which unlocks them in the same order, every mutex is as it was before; or one of them has another
  -- owner, and every mutex is as it was at once.
  pub try_lock_range-restores :
      (all : List ℕ)
      → ((j : ℕ) → (before j).counter + length all < size_mod)
      → let r = try_lock_range before o [] all in
        Tried o before all r × ((j : ℕ) → given_back o before all r j ≡ before j)
  unfolding locks
  try_lock_range-restores all room =
      Whole-given_back all (try_lock_range before o [] all) room
        (try_lock_range-Whole all [] before room (λ j. (refl, λ h. absurd (omega arith))))
