-- ===== src/Spinlock/Waiting.antt =====
-- spinlock.h: the locals of a thread that waits in `lock`, in any interleaving.
use librf.Prelude.{
  ℕ, suc, ◌≡◌, refl, ap, subst, sym, ◌∙◌, ◌⊎◌, inl, inr, Bool, true, false, List, [], ◌∷◌, ◌==◌,
  Bool-cases, not, ◌&&◌, if◌then◌else◌, arith,
}
use librf.Spinlock.{
  Spin, start, spin, Pc, outside, loading, exchanging, inside, Spinlock, free_value, spinlock,
  exchange, lock_step, unlock_step, try_step, Turn, locks, tries, unlocks, turn, turns,
}
use librf.Spinlock.Backoff.{spins, backoff, spins_lem}

-- How many loads of its present call of `lock` have found the lock taken, after one more step of the
-- thread, which was at the given place and finds the given value.
unfoldable pub count_load : Pc → (lck n : ℕ) → ℕ
count_load outside lck n = 0
count_load (loading s) lck n = if lck == free_value then n else suc n
count_load _ lck n = n

abbrev pub count_turn : ℕ → Spinlock → Turn → ℕ → ℕ
count_turn t m (locks u fails) n = if u == t then count_load (m.pcs t) m.lck n else n
count_turn t m _ n = n

unfoldable pub failed_loads : ℕ → Spinlock → ℕ → List Turn → ℕ
unfolding count_load turn
failed_loads t m n [] = n
failed_loads t m n (a ∷ rest) = failed_loads t (turn m a) (count_turn t m a n) rest

-- The locals come from the start by `n` failed loads.
abbrev Spun : Pc → ℕ → Type 0
Spun (loading s) n = s ≡ spins n
Spun (exchanging s) n = s ≡ spins n
Spun _ n = Unit {0}

same : (t : ℕ) → (t == t) ≡ true
same t = ground arith

-- A step of the thread itself.
exchange-Spun :
    (m : Spinlock) (t : ℕ) (fails : Bool) (pc : Pc) (n : ℕ)
    → Spun pc n
    → Spun ((exchange m t fails pc).pcs t) n
unfolding exchange
exchange-Spun m t fails pc n h = elim (Bool-cases (not fails && m.lck == free_value)) [
  | inl e ↦ rw (e, same t) tt
  | inr e ↦ rw (e, same t) h
]

lock_step-Spun :
    (m : Spinlock) (t : ℕ) (fails : Bool) (pc : Pc) (n : ℕ)
    → m.pcs t ≡ pc
    → Spun pc n
    → Spun ((lock_step m t fails pc).pcs t) (count_load pc m.lck n)
unfolding lock_step spins count_load
lock_step-Spun m t fails outside n p h = exchange-Spun m t fails (loading start) 0 refl
lock_step-Spun m t fails (loading s) n p h = elim (Bool-cases (m.lck == free_value)) [
  | inl e ↦ rw (e, same t) h
  | inr e ↦ rw (e, same t) (ap spin h)
]
lock_step-Spun m t fails (exchanging s) n p h = exchange-Spun m t fails (loading s) n h
lock_step-Spun m t fails inside n p h = rw p tt

unlock_step-Spun :
    (m : Spinlock) (t : ℕ) (pc : Pc) (n : ℕ)
    → Spun (m.pcs t) n
    → Spun ((unlock_step m t pc).pcs t) n
unfolding unlock_step
unlock_step-Spun m t inside n v = rw (same t) tt
unlock_step-Spun m t outside n v = v
unlock_step-Spun m t (loading s) n v = v
unlock_step-Spun m t (exchanging s) n v = v

try_step-Spun :
    (m : Spinlock) (t : ℕ) (pc : Pc) (n : ℕ) → Spun (m.pcs t) n → Spun ((try_step m t pc).pcs t) n
unfolding try_step
try_step-Spun m t outside n v = exchange-Spun m t false outside n tt
try_step-Spun m t inside n v = v
try_step-Spun m t (loading s) n v = v
try_step-Spun m t (exchanging s) n v = v

-- A step of another thread.
exchange-other :
    (m : Spinlock) (u t : ℕ) (fails : Bool) (pc : Pc)
    → (u == t) ≡ false
    → (exchange m u fails pc).pcs t ≡ m.pcs t
unfolding exchange
exchange-other m u t fails pc d = elim (Bool-cases (not fails && m.lck == free_value)) [
  | inl e ↦ rw (e, d) refl
  | inr e ↦ rw (e, d) refl
]

lock_step-other :
    (m : Spinlock) (u t : ℕ) (fails : Bool) (pc : Pc)
    → (u == t) ≡ false
    → (lock_step m u fails pc).pcs t ≡ m.pcs t
unfolding lock_step
lock_step-other m u t fails outside d = exchange-other m u t fails (loading start) d
lock_step-other m u t fails (loading s) d = elim (Bool-cases (m.lck == free_value)) [
  | inl e ↦ rw (e, d) refl
  | inr e ↦ rw (e, d) refl
]
lock_step-other m u t fails (exchanging s) d = exchange-other m u t fails (loading s) d
lock_step-other m u t fails inside d = refl

unlock_step-other :
    (m : Spinlock) (u t : ℕ) (pc : Pc) → (u == t) ≡ false → (unlock_step m u pc).pcs t ≡ m.pcs t
unfolding unlock_step
unlock_step-other m u t inside d = rw d refl
unlock_step-other m u t outside d = refl
unlock_step-other m u t (loading s) d = refl
unlock_step-other m u t (exchanging s) d = refl

try_step-other :
    (m : Spinlock) (u t : ℕ) (pc : Pc) → (u == t) ≡ false → (try_step m u pc).pcs t ≡ m.pcs t
unfolding try_step
try_step-other m u t outside d = exchange-other m u t false outside d
try_step-other m u t inside d = refl
try_step-other m u t (loading s) d = refl
try_step-other m u t (exchanging s) d = refl

turn-Spun :
    (m : Spinlock) (a : Turn) (t n : ℕ)
    → Spun (m.pcs t) n
    → Spun ((turn m a).pcs t) (count_turn t m a n)
unfolding turn
turn-Spun m (locks u fails) t n v = elim (Bool-cases (u == t)) [
  | inl e ↦ rw e (
      subst (λ x. Spun ((lock_step m x fails (m.pcs x)).pcs t) (count_load (m.pcs t) m.lck n))
        (ground (arith, e)) (lock_step-Spun m t fails (m.pcs t) n refl v))
  | inr e ↦ rw e (subst (λ pc. Spun pc n) (sym (lock_step-other m u t fails (m.pcs u) e)) v)
]
turn-Spun m (tries u) t n v = elim (Bool-cases (u == t)) [
  | inl e ↦
      subst (λ x. Spun ((try_step m x (m.pcs x)).pcs t) n) (ground (arith, e))
        (try_step-Spun m t (m.pcs t) n v)
  | inr e ↦ subst (λ pc. Spun pc n) (sym (try_step-other m u t (m.pcs u) e)) v
]
turn-Spun m (unlocks u) t n v = elim (Bool-cases (u == t)) [
  | inl e ↦
      subst (λ x. Spun ((unlock_step m x (m.pcs x)).pcs t) n) (ground (arith, e))
        (unlock_step-Spun m t (m.pcs t) n v)
  | inr e ↦ subst (λ pc. Spun pc n) (sym (unlock_step-other m u t (m.pcs u) e)) v
]

turns-Spun :
    (rest : List Turn) (m : Spinlock) (t n : ℕ)
    → Spun (m.pcs t) n
    → Spun ((turns m rest).pcs t) (failed_loads t m n rest)
unfolding turns failed_loads
turns-Spun [] m t n v = v
turns-Spun (a ∷ rest) m t n v =
    turns-Spun rest (turn m a) t (count_turn t m a n) (turn-Spun m a t n v)

abbrev SpunBy : Pc → Spin → Type 0
SpunBy pc s = (pc ≡ loading s) ⊎ (pc ≡ exchanging s)

Spun-backoff : (pc : Pc) (s : Spin) (n : ℕ) → SpunBy pc s → Spun pc n → s ≡ backoff n
Spun-backoff pc s n (inl e) h = subst (λ p. Spun p n) e h ∙ spins_lem n
Spun-backoff pc s n (inr e) h = subst (λ p. Spun p n) e h ∙ spins_lem n

-- In whatever order threads come to the lock's accesses, the locals of one that waits in `lock` are
-- those of `backoff`, for the number of loads of this call so far that found the lock taken, failed
-- exchanges between them or not: the first 4000 of these were followed by the next load at once, the
-- next 4000 by a yield, and all others by a sleep, which doubles from 1 up to 128 milliseconds and
-- then stays; the count never exceeds 8000.
pub turns-backoff :
    (rest : List Turn) (t : ℕ) (s : Spin)
    → ((turns spinlock rest).pcs t ≡ loading s) ⊎ ((turns spinlock rest).pcs t ≡ exchanging s)
    → s ≡ backoff (failed_loads t spinlock 0 rest)
unfolding spinlock
turns-backoff rest t s w =
    Spun-backoff ((turns spinlock rest).pcs t) s (failed_loads t spinlock 0 rest) w
      (turns-Spun rest spinlock t 0 tt)
