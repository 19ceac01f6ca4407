-- ===== src/LockRange/Ranges.antt =====
-- without_deadlock_assemble.inl: a range of locks is taken whole, or not at all.
use librf.Prelude.{
  ℕ, zero, suc, ◌+◌, ◌-◌, ◌≤◌, ◌<◌, ◌≡◌, refl, Bool, true, false, if◌then◌else◌, ltb, leb, arith,
  ◌⊎◌, inl, inr, ◌&&◌,
}
use librf.LockRange.{
  Outcome, got, busy, throws, Result, all_locked, failed, thrown, Locks, put, unlock_ref,
  unlock_locks, try_lock_ref, try_lock_range,
}

pub Outcome-cases : (o : Outcome) → (o ≡ got) ⊎ ((o ≡ busy) ⊎ (o ≡ throws))
Outcome-cases got = inl refl
Outcome-cases busy = inr (inl refl)
Outcome-cases throws = inr (inr refl)

unfoldable pub is_all : Result → Bool
is_all all_locked = true
is_all _ = false

abbrev pub within : ℕ → ℕ → ℕ → Bool
within first end j = leb first j && ltb j end

pub held-unlock_locks :
    (n first : ℕ) (s : Locks) (j : ℕ)
    → (unlock_locks first n s).held j ≡ (if within first (first + n) j then false else s.held j)
unfolding unlock_locks unlock_ref
held-unlock_locks zero first s j = ground arith
held-unlock_locks (suc n) first s j =
    ground (arith, held-unlock_locks n (suc first) (unlock_ref first s) j)

pub blocked-unlock_locks : (n first : ℕ) (s : Locks) → (unlock_locks first n s).blocked ≡ s.blocked
unfolding unlock_locks unlock_ref
blocked-unlock_locks zero first s = refl
blocked-unlock_locks (suc n) first s = blocked-unlock_locks n (suc first) (unlock_ref first s)

pub clock-unlock_locks : (n first : ℕ) (s : Locks) → (unlock_locks first n s).clock ≡ s.clock
unfolding unlock_locks unlock_ref
clock-unlock_locks zero first s = refl
clock-unlock_locks (suc n) first s = clock-unlock_locks n (suc first) (unlock_ref first s)

-- Of the locks from `first`, those from `next` on were to be tried.
unfoldable pub left : ℕ → ℕ → ℕ → Bool → (ℕ → Bool) → ℕ → Bool
left first next end b f j =
    if b
    then (if within next end j then true else f j)
    else (if within first end j then false else f j)

pub record Ranged (first next n : ℕ) (s : Locks) (r : Result × Locks) : Type 0 where
  pub held_after : (j : ℕ) → r.1.held j ≡ left first next (next + n) (is_all r.0) s.held j
  pub not_blocked : r.1.blocked ≡ s.blocked
  pub later : s.clock ≤ r.1.clock
  pub bound : (i : ℕ) → r.0 ≡ failed i → i < next + n

abbrev pub ticked : Locks → Locks
ticked s = record s { clock = suc s.clock }

abbrev pub took : ℕ → Locks → Locks
took i s = record s { clock = suc s.clock; held = put s.held i true }

Ranged-took :
    (n first next : ℕ) (s : Locks) (r : Result × Locks)
    → Ranged first (suc next) n (took next s) r
    → first ≤ next
    → Ranged first next (suc n) s r
unfolding left
Ranged-took n first next s r h le = record {
  held_after = λ j. ground (arith, h.held_after j);
  not_blocked = h.not_blocked;
  later = omega (arith, h.later);
  bound = λ i e. omega (arith, h.bound i e);
}

Ranged-gave :
    (n first next : ℕ) (s : Locks) (r : Result)
    → is_all r ≡ false
    → ((i : ℕ) → r ≡ failed i → i ≡ next)
    → first ≤ next
    → ((j : ℕ) → within next (next + suc n) j ≡ true → s.held j ≡ false)
    → Ranged first next (suc n) s (r, unlock_locks first (next - first) (ticked s))
unfolding left
Ranged-gave n first next s r f b le h =
    let d = next - first in
    let e : first + d ≡ next = omega arith in
    record {
      held_after = λ j. ground (arith, held-unlock_locks d first (ticked s) j, h j, f, e);
      not_blocked = blocked-unlock_locks d first (ticked s);
      later = omega (arith, clock-unlock_locks d first (ticked s));
      bound = λ i q. omega (arith, b i q);
    }

module _ (tries : ℕ → ℕ → Outcome) where
  pub ref-got :
      (i : ℕ) (s : Locks) → tries s.clock i ≡ got → try_lock_ref tries i s ≡ (got, took i s)
  unfolding try_lock_ref
  ref-got i s e = rw (e, try_lock_ref) refl

  pub try-got :
      (n first next : ℕ) (s : Locks)
      → tries s.clock next ≡ got
      → try_lock_range tries first next (suc n) s
        ≡ try_lock_range tries first (suc next) n (took next s)
  unfolding try_lock_range
  try-got n first next s e = rw (ref-got next s e, try_lock_range, ref-got next s e) refl

  pub ref-busy :
      (i : ℕ) (s : Locks) → tries s.clock i ≡ busy → try_lock_ref tries i s ≡ (busy, ticked s)
  unfolding try_lock_ref
  ref-busy i s e = rw (e, try_lock_ref) refl

  pub try-busy :
      (n first next : ℕ) (s : Locks)
      → tries s.clock next ≡ busy
      → try_lock_range tries first next (suc n) s
        ≡ (failed next, unlock_locks first (next - first) (ticked s))
  unfolding try_lock_range
  try-busy n first next s e = rw (ref-busy next s e, try_lock_range, ref-busy next s e) refl

  pub ref-throws :
      (i : ℕ) (s : Locks) → tries s.clock i ≡ throws → try_lock_ref tries i s ≡ (throws, ticked s)
  unfolding try_lock_ref
  ref-throws i s e = rw (e, try_lock_ref) refl

  try-throws :
      (n first next : ℕ) (s : Locks)
      → tries s.clock next ≡ throws
      → try_lock_range tries first next (suc n) s
        ≡ (thrown, unlock_locks first (next - first) (ticked s))
  unfolding try_lock_range
  try-throws n first next s e = rw (ref-throws next s e, try_lock_range, ref-throws next s e) refl

  pub try_lock_range-Ranged :
      (n first next : ℕ) (s : Locks)
      → first ≤ next
      → ((j : ℕ) → within next (next + n) j ≡ true → s.held j ≡ false)
      → Ranged first next n s (try_lock_range tries first next n s)
  unfolding try_lock_range is_all left
  try_lock_range-Ranged zero first next s le h = record {
    held_after = λ j. ground arith;
    not_blocked = refl;
    later = omega arith;
    bound = λ i e. ground arith;
  }
  try_lock_range-Ranged (suc n) first next s le h = elim (Outcome-cases (tries s.clock next)) [
    | inl e ↦ rw (try-got n first next s e) (
        Ranged-took n first next s (try_lock_range tries first (suc next) n (took next s))
          (try_lock_range-Ranged n first (suc next) (took next s) (omega arith)
            (λ j w. ground (arith, h j)))
          le)
    | inr (inl e) ↦
        rw (try-busy n first next s e)
          (Ranged-gave n first next s (failed next) refl (λ i q. ground arith) le h)
    | inr (inr e) ↦
        rw (try-throws n first next s e)
          (Ranged-gave n first next s thrown refl (λ i q. ground arith) le h)
  ]
