-- ===== src/Spinlock/Exclusion.antt =====
-- spinlock.h: at most one thread has the lock, in any interleaving; a thread that tries gets a free lock.
use librf.Prelude.{
  ℕ, ◌≡◌, refl, ◌⊎◌, Bool, true, false, List, [], ◌∷◌, ◌==◌, arith, Bool-cases, inl, inr,
}
use librf.Spinlock.{
  start, spin, Pc, outside, loading, exchanging, inside, Spinlock, free_value, locked_value,
  spinlock, exchange, lock_step, unlock_step, try_step, Turn, locks, tries, unlocks, turn, turns,
  move,
}
use librf.Spinlock.Backoff.{spins}

abbrev pub is_inside : Pc → Bool
is_inside inside = true
is_inside _ = false

-- The locals of a waiting thread come from the start by failed loads.
abbrev Spun : Pc → Type 0
Spun (loading s) = (n : ℕ) × (s ≡ spins n)
Spun (exchanging s) = (n : ℕ) × (s ≡ spins n)
Spun _ = Unit {0}

pub record Excludes (m : Spinlock) : Type 0 where
  pub value : (m.lck ≡ free_value) ⊎ (m.lck ≡ locked_value)
  pub owned : m.lck ≡ locked_value → (t : ℕ) × (is_inside (m.pcs t) ≡ true)
  pub taken : (t : ℕ) → is_inside (m.pcs t) ≡ true → m.lck ≡ locked_value
  pub alone : (t u : ℕ) → is_inside (m.pcs t) ≡ true → is_inside (m.pcs u) ≡ true → t ≡ u

-- A thread goes to a place where it does not have the lock, and the lock is as it was.
move-Excludes :
    (m : Spinlock) (t : ℕ) (pc : Pc)
    → is_inside (m.pcs t) ≡ false
    → is_inside pc ≡ false
    → Excludes m
    → Excludes (move m t pc)
move-Excludes m t pc o n v = record {
  value = v.value;
  owned = λ h. let (u, e) = v.owned h in (u, ground arith);
  taken = λ u h. ground (arith, v.taken u);
  alone = λ u w h k. ground (arith, v.alone u w);
}

enter-Excludes :
    (m : Spinlock) (t : ℕ)
    → m.lck ≡ free_value
    → Excludes m
    → Excludes (move (record m { lck = locked_value }) t inside)
enter-Excludes m t e v = record {
  value = inr refl;
  owned = λ h. (t, ground arith);
  taken = λ u h. refl;
  alone = λ u w h k. ground (arith, v.taken u, v.taken w);
}

leave-Excludes :
    (m : Spinlock) (t : ℕ)
    → is_inside (m.pcs t) ≡ true
    → Excludes m
    → Excludes (move (record m { lck = free_value }) t outside)
leave-Excludes m t e v = record {
  value = inl refl;
  owned = λ h. absurd (omega (arith, h));
  taken = λ u h. ground (arith, v.alone t u);
  alone = λ u w h k. ground (arith, v.alone u w);
}

exchange-Excludes :
    (m : Spinlock) (t : ℕ) (fails : Bool) (pc : Pc)
    → is_inside (m.pcs t) ≡ false
    → is_inside pc ≡ false
    → Excludes m
    → Excludes (exchange m t fails pc)
unfolding exchange
exchange-Excludes m t true pc o n v = move-Excludes m t pc o n v
exchange-Excludes m t false pc o n v = elim (Bool-cases (m.lck == free_value)) [
  | inl e ↦ rw e (enter-Excludes m t (ground arith) v)
  | inr e ↦ rw e (move-Excludes m t pc o n v)
]

lock_step-Excludes :
    (m : Spinlock) (t : ℕ) (fails : Bool) (pc : Pc)
    → pc ≡ m.pcs t
    → Excludes m
    → Excludes (lock_step m t fails pc)
unfolding lock_step
lock_step-Excludes m t fails outside p v =
    exchange-Excludes m t fails (loading start) (rw (← p) refl) refl v
lock_step-Excludes m t fails (loading s) p v = elim (Bool-cases (m.lck == free_value)) [
  | inl e ↦ rw e (move-Excludes m t (exchanging s) (rw (← p) refl) refl v)
  | inr e ↦ rw e (move-Excludes m t (loading (spin s)) (rw (← p) refl) refl v)
]
lock_step-Excludes m t fails (exchanging s) p v =
    exchange-Excludes m t fails (loading s) (rw (← p) refl) refl v
lock_step-Excludes m t fails inside p v = v

unlock_step-Excludes :
    (m : Spinlock) (t : ℕ) (pc : Pc) → pc ≡ m.pcs t → Excludes m → Excludes (unlock_step m t pc)
unfolding unlock_step
unlock_step-Excludes m t inside e v = leave-Excludes m t (rw (← e) refl) v
unlock_step-Excludes m t outside e v = v
unlock_step-Excludes m t (loading s) e v = v
unlock_step-Excludes m t (exchanging s) e v = v

try_step-Excludes :
    (m : Spinlock) (t : ℕ) (pc : Pc) → pc ≡ m.pcs t → Excludes m → Excludes (try_step m t pc)
unfolding try_step
try_step-Excludes m t outside p v = exchange-Excludes m t false outside (rw (← p) refl) refl v
try_step-Excludes m t inside p v = v
try_step-Excludes m t (loading s) p v = v
try_step-Excludes m t (exchanging s) p v = v

turn-Excludes : (m : Spinlock) (a : Turn) → Excludes m → Excludes (turn m a)
unfolding turn
turn-Excludes m (locks t fails) v = lock_step-Excludes m t fails (m.pcs t) refl v
turn-Excludes m (tries t) v = try_step-Excludes m t (m.pcs t) refl v
turn-Excludes m (unlocks t) v = unlock_step-Excludes m t (m.pcs t) refl v

turns-Excludes_from : (rest : List Turn) (m : Spinlock) → Excludes m → Excludes (turns m rest)
unfolding turns
turns-Excludes_from [] m v = v
turns-Excludes_from (a ∷ rest) m v = turns-Excludes_from rest (turn m a) (turn-Excludes m a v)

-- In whatever order threads come to the lock's accesses, in calls of `lock`, `try_lock` and, by a
-- thread that has the lock, `unlock`: never do two threads have it; and its value is `LOCKED_VALUE`
-- if some thread has it, and else `FREE_VALUE`.
pub turns-Excludes : (rest : List Turn) → Excludes (turns spinlock rest)
unfolding spinlock
turns-Excludes rest = turns-Excludes_from rest spinlock (record {
  value = inl refl;
  owned = λ h. absurd (omega (arith, h));
  taken = λ t h. absurd (cc);
  alone = λ t u h k. absurd (cc);
})
