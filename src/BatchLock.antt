-- ===== src/BatchLock.antt =====
-- include/librf/src/spinlock.h: `batch_lock_t`, guards of one container of locks, over the locking of
-- several locks in LockRange.
pub mod Releases
mod Tests
use librf.Prelude.{
  ℕ, zero, suc, Bool, true, false, List, [], ◌∷◌, ◌++◌, Option, none, some, if◌then◌else◌, ◌==◌,
  set,
}
use librf.LockRange.{Outcome, Locks, lock_range, unlock_locks}

-- The guards in the order of their construction: whether `_LkN` still points to the container.
pub record Guards : Type 0 where
  pub locks : Locks
  pub engaged : List Bool

abbrev pub is_engaged : List Bool → ℕ → Bool
is_engaged [] i = false
is_engaged (b ∷ bs) zero = b
is_engaged (b ∷ bs) (suc i) = is_engaged bs i

-- The constructors that lock: whether it succeeded, and else no guard comes to be. None is a wait
-- that never returns, or a loop that runs out of fuel.
unfoldable pub constructed : Guards → Option (Bool × Locks) → Option (Bool × Guards)
constructed w none = none
constructed w (some (true, s)) =
    some (true, record { locks = s; engaged = w.engaged ++ (true ∷ []) })
constructed w (some (false, s)) = some (false, record w { locks = s })

unfoldable pub construct :
    (tries : ℕ → ℕ → Outcome) (waits : ℕ → ℕ → Option Bool) (fuel size : ℕ)
    → Guards
    → Option (Bool × Guards)
unfolding constructed
construct tries waits fuel size w = constructed w (lock_range tries waits fuel size w.locks)

-- With `adopt_lock`.
unfoldable pub construct_adopt : Guards → Guards
construct_adopt w = record w { engaged = w.engaged ++ (true ∷ []) }

-- `unlock`, which resets `_LkN` first; the destructor, after which there is no guard, does the same.
unfoldable pub unlock : ℕ → Guards → ℕ → Guards
unfolding unlock_locks
unlock size w i =
    if is_engaged w.engaged i
    then record w { engaged = set w.engaged i false; locks = unlock_locks 0 size w.locks }
    else w

unfoldable pub construct_move : Guards → ℕ → Guards
construct_move w i = record w { engaged = set w.engaged i false ++ (is_engaged w.engaged i ∷ []) }
