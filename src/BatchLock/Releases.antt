-- ===== src/BatchLock/Releases.antt =====
-- spinlock.h: the locks of a container are held while a guard of it is engaged, and no longer.
use librf.Prelude.{
  ℕ, zero, suc, ◌+◌, ◌≤◌, ◌<◌, ◌≡◌, refl, Bool, true, false, List, [], ◌∷◌, ◌++◌, Option, none,
  some, if◌then◌else◌, ltb, set, length, arith, Bool-cases, inl, inr,
}
use librf.LockRange.{Outcome, Locks, lock_range}
use librf.LockRange.Ranges.{held-unlock_locks}
use librf.LockRange.Attempt.{Free}
use librf.LockRange.Whole.{AllFree, Taken}
use librf.LockRange.Range.{lock_range-Taken}
use librf.BatchLock.{Guards, is_engaged, construct, constructed, unlock, construct_move}

-- What is done with guards.
pub data Action : Type 0 where
  unlocks : (i : ℕ) → Action
  moves : (i : ℕ) → Action

abbrev pub act : ℕ → Guards → Action → Guards
act size w (unlocks i) = unlock size w i
act size w (moves i) = construct_move w i

abbrev pub acts : ℕ → Guards → List Action → Guards
acts size w [] = w
acts size w (a ∷ rest) = acts size (act size w a) rest

-- A move is from a guard that exists.
abbrev pub Allowed : Guards → Action → Type 0
Allowed w (unlocks i) = Unit
Allowed w (moves i) = i < length w.engaged

abbrev pub AllowedAll : ℕ → Guards → List Action → Type 0
AllowedAll size w [] = Unit
AllowedAll size w (a ∷ rest) = Allowed w a × AllowedAll size (act size w a) rest

-- How many guards are engaged.
abbrev pub number : List Bool → ℕ
number [] = 0
number (b ∷ bs) = (if b then 1 else 0) + number bs

number-append :
    (xs : List Bool) (b : Bool) → number (xs ++ (b ∷ [])) ≡ number xs + (if b then 1 else 0)
number-append [] b = omega arith
number-append (x ∷ xs) b = omega (arith, number-append xs b)

number-set :
    (xs : List Bool) (i : ℕ) (b : Bool)
    → i < length xs
    → number (set xs i b) + (if is_engaged xs i then 1 else 0) ≡ number xs + (if b then 1 else 0)
number-set [] i b lt = elim lt [ ]
number-set (x ∷ xs) zero b lt = omega arith
number-set (x ∷ xs) (suc i) b lt = omega (arith, number-set xs i b (omega arith))

engaged-lt : (xs : List Bool) (i : ℕ) → is_engaged xs i ≡ true → i < length xs
engaged-lt [] i e = absurd (cc)
engaged-lt (x ∷ xs) zero e = omega arith
engaged-lt (x ∷ xs) (suc i) e = omega (arith, engaged-lt xs i e)

-- At most one guard is engaged; the locks below `size` are held while one is, and the others are as in
-- `before`.
pub record Guarded (size : ℕ) (before : Locks) (w : Guards) : Type 0 where
  pub single : number w.engaged ≤ 1
  pub held_while :
      (j : ℕ) → w.locks.held j ≡ (if ltb j size then ltb 0 (number w.engaged) else before.held j)

act-Guarded :
    (size : ℕ) (before : Locks) (w : Guards) (a : Action)
    → Allowed w a
    → Guarded size before w
    → Guarded size before (act size w a)
unfolding unlock construct_move
act-Guarded size before w (unlocks i) h v = elim (Bool-cases (is_engaged w.engaged i)) [
  | inl e ↦
      let n = number-set w.engaged i false (engaged-lt w.engaged i e) in
      rw e (record {
        single = ground (arith, n, v.single);
        held_while =
            λ j. ground (arith, n, e, v.single, v.held_while j, held-unlock_locks size 0 w.locks j);
      })
  | inr e ↦ rw e v
]
act-Guarded size before w (moves i) h v =
    let n = number-set w.engaged i false h in
    let k = number-append (set w.engaged i false) (is_engaged w.engaged i) in
    record {
      single = ground (arith, n, k, v.single);
      held_while = λ j. ground (arith, n, k, v.held_while j);
    }

acts-Guarded :
    (rest : List Action) (size : ℕ) (before : Locks) (w : Guards)
    → AllowedAll size w rest
    → Guarded size before w
    → Guarded size before (acts size w rest)
acts-Guarded [] size before w h v = v
acts-Guarded (a ∷ rest) size before w h v =
    acts-Guarded rest size before (act size w a) h.1 (act-Guarded size before w a h.0 v)

abbrev pub no_guard : Locks → Guards
no_guard s = record { locks = s; engaged = [] }

constructed-Guarded :
    (o : Option (Bool × Locks)) (size : ℕ) (s : Locks) (b : Bool) (w : Guards)
    → ((r : Bool × Locks) → o ≡ some r → Taken size s r)
    → constructed (no_guard s) o ≡ some (b, w)
    → Guarded size s w
unfolding constructed
constructed-Guarded none size s b w t e = absurd (cc)
constructed-Guarded (some (true, s')) size s b w t e = record {
  single = ground arith;
  held_while = λ j. ground (arith, (t (true, s') refl).held_after j);
}
constructed-Guarded (some (false, s')) size s b w t e = record {
  single = ground arith;
  held_while = λ j. ground (arith, (t (false, s') refl).held_after j);
}

-- Whatever the other threads do: after a guard of free locks was constructed, and through any sequence
-- of `unlock`, destruction and move construction, at most one guard is engaged; the locks of the
-- container are held while one is and released, each by that one guard, when none is; and all other
-- locks are as before the construction. If the construction throws, no guard is engaged and none of
-- the locks is held.
pub construct-acts :
    (tries : ℕ → ℕ → Outcome) (waits : ℕ → ℕ → Option Bool) (fuel size : ℕ) (s : Locks) (b : Bool)
    (w : Guards) (rest : List Action)
    → Free size s.held
    → AllFree size s.blocked
    → construct tries waits fuel size (no_guard s) ≡ some (b, w)
    → AllowedAll size w rest
    → Guarded size s (acts size w rest)
unfolding construct
construct-acts tries waits fuel size s b w rest free none_before e h =
    acts-Guarded rest size s w h (
      constructed-Guarded (lock_range tries waits fuel size s) size s b w
        (λ r q. lock_range-Taken tries waits fuel size s r free none_before q) e)
