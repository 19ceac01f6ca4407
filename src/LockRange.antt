-- ===== src/LockRange.antt =====
-- include/librf/src/without_deadlock_assemble.inl: the locking of several locks. The locks are the
-- numbers below the size; the others that use them are parameters: what the `n`-th call finds.
pub mod Ranges
pub mod Attempt
pub mod Whole
pub mod Range
pub mod Uncontended
mod Tests
use librf.Prelude.{
  ℕ, zero, suc, ◌+◌, ◌-◌, Bool, true, false, List, [], ◌∷◌, Option, none, some, if◌then◌else◌, ◌==◌,
}

-- What a `_Try_lock_ref` does.
pub data Outcome : Type 0 where
  got busy throws : Outcome

-- What a function returns: -1, the number of the lock that failed, or an exception.
pub data Result : Type 0 where
  all_locked : Result
  failed : (lock : ℕ) → Result
  thrown : Result

-- The locks we hold, the number of calls so far, and for each call that waited the locks that were
-- held then.
pub record Locks : Type 0 where
  pub held : ℕ → Bool
  pub clock : ℕ
  pub blocked : List (ℕ → Bool)

abbrev pub put : (ℕ → Bool) → ℕ → Bool → ℕ → Bool
put f i b j = if i == j then b else f j

unfoldable pub unlock_ref : ℕ → Locks → Locks
unlock_ref i s = record s { held = put s.held i false }

-- From `first`, `n` locks.
unfoldable pub unlock_locks : ℕ → ℕ → Locks → Locks
unfolding unlock_ref
unlock_locks first zero s = s
unlock_locks first (suc n) s = unlock_locks (suc first) n (unlock_ref first s)

module _ (tries : ℕ → ℕ → Outcome) where
  unfoldable pub try_lock_ref : ℕ → Locks → Outcome × Locks
  try_lock_ref i s =
      let s' : Locks = record s { clock = suc s.clock } in
      elim (tries s.clock i) [
        | got ↦ (got, record s' { held = put s.held i true })
        | busy ↦ (busy, s')
        | throws ↦ (throws, s')
      ]

  -- The locks from `next` on, of which there are `n` up to the end of the range.
  unfoldable pub try_lock_range : ℕ → ℕ → ℕ → Locks → Result × Locks
  unfolding try_lock_ref unlock_locks
  try_lock_range first next zero s = (all_locked, s)
  try_lock_range first next (suc n) s =
      let r = try_lock_ref next s in
      elim r.0 [
        | got ↦ try_lock_range first (suc next) n r.1
        | busy ↦ (failed next, unlock_locks first (next - first) r.1)
        | throws ↦ (thrown, unlock_locks first (next - first) r.1)
      ]

-- After a range was tried: the end of `_Lock_attempt`, which returns, or gives up the locks from
-- `start` to the hard one.
unfoldable pub backout : ℕ → ℕ → Result × Locks → Result × Locks
unfolding unlock_locks
backout start hard (all_locked, s) = (all_locked, s)
backout start hard (failed i, s) = (failed i, unlock_locks start (suc hard - start) s)
backout start hard (thrown, s) = (thrown, unlock_locks start (suc hard - start) s)

-- What a `_Lock_ref` comes to that returns: it takes the lock, or throws.
unfoldable pub lock_done : (took : Bool) → ℕ → Locks → Bool × Locks
lock_done took i s =
    let s' : Locks = record s { clock = suc s.clock; blocked = s.held ∷ s.blocked } in
    if took then (true, record s' { held = put s.held i true }) else (false, s')

module _ (tries : ℕ → ℕ → Outcome) where
  -- `_Lock_attempt` and `_Lock_attempt_small2` after their wait. The latter returns whether to try
  -- again; none for an exception.
  unfoldable pub attempt_rest : ℕ → ℕ → Bool × Locks → Result × Locks
  unfolding try_lock_range backout
  attempt_rest size hard l =
      let low = try_lock_range tries 0 0 hard l.1 in
      if l.0
      then elim low.0 [
        | all_locked ↦
            backout 0 hard (try_lock_range tries (suc hard) (suc hard) (size - suc hard) low.1)
        | failed i ↦ backout hard hard low
        | thrown ↦ backout hard hard low
      ]
      else (thrown, l.1)

  unfoldable pub small2_rest : ℕ → ℕ → Bool × Locks → Option Bool × Locks
  unfolding try_lock_ref unlock_ref
  small2_rest a b l =
      let r = try_lock_ref tries b l.1 in
      if l.0
      then elim r.0 [
        | got ↦ (some false, r.1)
        | busy ↦ (some true, unlock_ref a r.1)
        | throws ↦ (none, unlock_ref a r.1)
      ]
      else (none, l.1)

-- `waits` says what the `n`-th call comes to if it waits: none is a call that never returns.
module _ (tries : ℕ → ℕ → Outcome) (waits : ℕ → ℕ → Option Bool) where
  unfoldable pub lock_ref : ℕ → Locks → Option (Bool × Locks)
  unfolding lock_done
  lock_ref i s = elim (waits s.clock i) [ none ↦ none | some took ↦ some (lock_done took i s) ]

  unfoldable pub lock_attempt : ℕ → ℕ → Locks → Option (Result × Locks)
  unfolding lock_ref attempt_rest
  lock_attempt size hard s = elim (lock_ref hard s) [
    | none ↦ none
    | some l ↦ some (attempt_rest tries size hard l)
  ]

  -- The loop, on fuel; what it returns tells whether it ended without an exception.
  unfoldable pub lock_nonmember3 : ℕ → ℕ → ℕ → Locks → Option (Bool × Locks)
  unfolding lock_attempt
  lock_nonmember3 zero size hard s = none
  lock_nonmember3 (suc f) size hard s = elim (lock_attempt size hard s) [
    | none ↦ none
    | some r ↦ elim r.0 [
      | all_locked ↦ some (true, r.1)
      | failed i ↦ lock_nonmember3 f size i r.1
      | thrown ↦ some (false, r.1)
    ]
  ]

  unfoldable pub lock_attempt_small2 : ℕ → ℕ → Locks → Option (Option Bool × Locks)
  unfolding lock_ref small2_rest
  lock_attempt_small2 a b s = elim (lock_ref a s) [
    | none ↦ none
    | some l ↦ some (small2_rest tries a b l)
  ]

  unfoldable pub lock_nonmember2 : ℕ → Locks → Option (Bool × Locks)
  unfolding lock_attempt_small2
  lock_nonmember2 zero s = none
  lock_nonmember2 (suc f) s = elim (lock_attempt_small2 0 1 s) [
    | none ↦ none
    | some r ↦ elim r.0 [
      | none ↦ some (false, r.1)
      | some false ↦ some (true, r.1)
      | some true ↦ elim (lock_attempt_small2 1 0 r.1) [
        | none ↦ none
        | some q ↦ elim q.0 [
          | none ↦ some (false, q.1)
          | some false ↦ some (true, q.1)
          | some true ↦ lock_nonmember2 f q.1
        ]
      ]
    ]
  ]

  -- None is a call that never returns, or a loop that runs out of fuel.
  unfoldable pub lock_range : ℕ → ℕ → Locks → Option (Bool × Locks)
  unfolding lock_ref lock_nonmember2 lock_nonmember3
  lock_range fuel zero s = some (true, s)
  lock_range fuel (suc zero) s = lock_ref 0 s
  lock_range fuel (suc (suc zero)) s = lock_nonmember2 fuel s
  lock_range fuel (suc (suc (suc n))) s = lock_nonmember3 fuel (suc (suc (suc n))) 0 s
