-- ===== src/Spinlock/Backoff.antt =====
-- spinlock.h: how a thread that finds the lock taken spins, yields and sleeps.
use native.Mathlib.Nat.{pow-suc}
use native.Mathlib.Decide.{dec_lt}
use librf.Prelude.{
  ap, ◌∙◌, ◌<◌, ℕ, zero, suc, ◌-◌, ◌*◌, ◌^◌, ◌≤◌, ◌≡◌, refl, List, [], ◌∷◌, min, arith,
}
use librf.Spinlock.{Spin, start, spin}

-- The locals after `n` loads that found the lock taken.
unfoldable pub spins : ℕ → Spin
unfolding spin
spins zero = start
spins (suc n) = spin (spins n)

-- The sleeps of `k` rounds, the latest first: 1, 2, 4, ... milliseconds, but never more than 128.
abbrev pub naps : ℕ → List ℕ
naps zero = []
naps (suc k) = min 128 (2 ^ k) ∷ naps k

-- The locals as a function of the number of such loads.
abbrev pub backoff : ℕ → Spin
backoff n = record {
  spin_count = min n 8000;
  dt = min 128 (2 ^ (n - 8000));
  yields = min (n - 4000) 4000;
  sleeps = naps (n - 8000);
}

min-doubled : (k : ℕ) → min 128 (min 128 (2 ^ k) * 2) ≡ min 128 (2 ^ suc k)
min-doubled k = omega (arith, pow-suc 2 k)

spin-early : (n : ℕ) → n < 8000 → spin (backoff n) ≡ backoff (suc n)
unfolding spin
spin-early n lt =
    let past : suc n - 8000 ≡ 0 = omega arith in
    let now : n - 8000 ≡ 0 = omega arith in rw (past, now) (ground arith)

spin-late : (n : ℕ) → 8000 ≤ n → spin (backoff n) ≡ backoff (suc n)
unfolding spin
spin-late n le =
    let k = n - 8000 in
    let next : suc n - 8000 ≡ suc (n - 8000) = omega arith in
    rw next (ground (arith, min-doubled (n - 8000)))

-- However long a thread waits: of the loads that found the lock taken the first 4000 are followed by
-- the next load at once, the next 4000 by a yield, and all others by a sleep, which doubles from 1
-- up to 128 milliseconds and then stays; the count stops at 8000.
pub spins_lem : (n : ℕ) → spins n ≡ backoff n
unfolding spins
spins_lem zero = refl
spins_lem (suc n) = elim (dec_lt n 8000) [
  | yes lt ↦ ap spin (spins_lem n) ∙ spin-early n lt
  | no le ↦ ap spin (spins_lem n) ∙ spin-late n (omega arith)
]
