-- ===== src/MutexGuard.antt =====
-- include/librf/src/mutex_v2.inl and source/mutex_v2.cpp: the awaiters of `mutex_t`, the guards
-- `batch_unlock_t`, and the calls for threads, which name the owner by an address. The mutex itself
-- is in Mutex.
pub mod Range
pub mod Restores
pub mod Awaited
pub mod Spins
mod Tests
use librf.Prelude.{
  ℕ, zero, suc, Bool, true, false, not, List, [], ◌∷◌, ◌++◌, Option, none, some, if◌then◌else◌,
  ◌==◌, leb, length,
}
use librf.Mutex.{Ptr, null, Mutex, try_lock, unlock, await_suspend, await_resume}

-- `lock_awaiter` and its subclasses, `try_awaiter` and `unlock_awaiter`: whether `_mutex` is set, and
-- `_root`, which is not used by the last two.
pub record Awaiter : Type 0 where
  pub has_mutex : Bool
  pub root : Ptr

-- `batch_unlock_t<mutex_t>`: whether `_mutex` is set, and `_owner`.
pub record Guard : Type 0 where
  pub has_mutex : Bool
  pub owner : Ptr

unfoldable pub awaiter : Awaiter
awaiter = record { has_mutex = true; root = null }

-- The destructor: whether it throws `not_await_lock`.
unfoldable pub destroy_awaiter : Awaiter → Bool
destroy_awaiter a = a.has_mutex

-- `await_suspend2`: whether the coroutine is suspended. If it is, the state that waits has the address
-- of `_mutex`, and what it leaves there is read at the resumption.
unfoldable pub lock_suspend :
    Awaiter → Mutex → (root state : Ptr) → (timed : Bool) → Bool × Mutex × Awaiter
unfolding await_suspend
lock_suspend a m root state timed =
    let r = await_suspend m root state timed in (r.0, r.1, record a { root = root })

-- `_mutex` when the coroutine goes on after the state answered.
unfoldable pub settled : Awaiter → Mutex → (state : Ptr) → Awaiter
unfolding await_resume
settled a m state = record a { has_mutex = await_resume m state }

-- `awaiter::await_resume`, `manual_awaiter::await_resume` and `timeout_awaiter::await_resume`.
unfoldable pub lock_resume : Awaiter → Guard × Awaiter
lock_resume a = (record { has_mutex = a.has_mutex; owner = a.root }, record a { has_mutex = false })

unfoldable pub manual_resume : Awaiter → Awaiter
manual_resume a = record a { has_mutex = false }

unfoldable pub timeout_resume : Awaiter → Bool × Awaiter
timeout_resume a = (a.has_mutex, record a { has_mutex = false })

-- `try_awaiter`; the coroutine is not suspended.
unfoldable pub try_suspend : Awaiter → Mutex → (root : Ptr) → Mutex × Awaiter
unfolding try_lock
try_suspend a m root =
    let r = try_lock m root in (r.1, if not r.0 then record a { has_mutex = false } else a)

unfoldable pub try_resume : Awaiter → Bool × Awaiter
try_resume a = (a.has_mutex, record a { has_mutex = false })

-- `unlock_awaiter`; the coroutine is not suspended.
unfoldable pub unlock_suspend : Awaiter → Mutex → (root : Ptr) → Mutex × Awaiter
unfolding unlock
unlock_suspend a m root = ((unlock m root).1, a)

unfoldable pub unlock_resume : Awaiter → Awaiter
unlock_resume a = record a { has_mutex = false }

unfoldable pub adopt : (owner : Ptr) → Guard
adopt owner = record { has_mutex = true; owner = owner }

unfoldable pub guard_unlock : Guard → Mutex → Guard × Mutex
unfolding unlock
guard_unlock g m =
    if g.has_mutex then (record g { has_mutex = false }, (unlock m g.owner).1) else (g, m)

unfoldable pub destroy_guard : Guard → Mutex → Mutex
unfolding unlock
destroy_guard g m = if g.has_mutex then (unlock m g.owner).1 else m

-- The move constructor: the new guard, and what is left of the old one.
unfoldable pub move_guard : Guard → Guard × Guard
move_guard g = (g, record g { has_mutex = false })

-- Several mutexes, by their numbers; one may be named more than once.
abbrev pub Family : Type 0
Family = ℕ → Mutex

abbrev pub put : Family → ℕ → Mutex → Family
put ms i m j = if i == j then m else ms j

-- `mutex_t::unlock(unique_address, mtxs...)`, and the loops of `batch_unlock_t`.
unfoldable pub unlock_all : Family → (owner : Ptr) → List ℕ → Family
unfolding unlock
unlock_all ms owner [] = ms
unlock_all ms owner (i ∷ is) = unlock_all (put ms i (unlock (ms i) owner).1) owner is

-- `_Try_lock_range` on the mutexes of a `_MutexAddressAssembleT`, of which the first were taken: none
-- if it took all, or the place of the one that failed.
unfoldable pub try_lock_range : Family → (owner : Ptr) → (taken left : List ℕ) → Option ℕ × Family
unfolding try_lock unlock_all
try_lock_range ms owner taken [] = (none, ms)
try_lock_range ms owner taken (i ∷ left) =
    let r = try_lock (ms i) owner in
    let rest = try_lock_range (put ms i r.1) owner (taken ++ (i ∷ [])) left in
    if r.0 then rest else (some (length taken), unlock_all (put ms i r.1) owner taken)

-- `batch_unlock_t<_Mtxs...>`, whose `_owner` is null after `unlock`.
pub record BatchUnlock : Type 0 where
  pub mutexes : List ℕ
  pub owner : Ptr

unfoldable pub batch_unlock : BatchUnlock → Family → BatchUnlock × Family
unfolding unlock_all
batch_unlock b ms =
    if b.owner == null
    then (b, ms)
    else (record b { owner = null }, unlock_all ms b.owner b.mutexes)

unfoldable pub destroy_batch : BatchUnlock → Family → Family
unfolding unlock_all
destroy_batch b ms = if b.owner == null then ms else unlock_all ms b.owner b.mutexes

-- The move constructor moves the vector and copies the owner.
unfoldable pub move_batch : BatchUnlock → BatchUnlock × BatchUnlock
move_batch b = (b, record b { mutexes = [] })

module _ (others : ℕ → Mutex → Mutex) where
  -- `lock_until_succeed`: `others` is what the other threads do before the `n`-th try. On fuel, one
  -- unit for each try.
  unfoldable pub lock_until_succeed : ℕ → (n : ℕ) → Mutex → Ptr → Option Mutex
  unfolding try_lock
  lock_until_succeed zero n m sch = none
  lock_until_succeed (suc f) n m sch =
      let r = try_lock (others n m) sch in
      let rest = lock_until_succeed f (suc n) r.1 sch in if r.0 then some r.1 else rest

  -- `try_lock_until`; `now` is the clock after the `n`-th try.
  unfoldable pub try_lock_until :
      (now : ℕ → ℕ) → ℕ → (n : ℕ) → Mutex → (tp : ℕ) → Ptr → Option (Bool × Mutex)
  unfolding try_lock
  try_lock_until now zero n m tp sch = none
  try_lock_until now (suc f) n m tp sch =
      let r = try_lock (others n m) sch in
      let rest = try_lock_until now f (suc n) r.1 tp sch in
      if r.0 then some (true, r.1) else (if leb (now n) tp then rest else some (false, r.1))
