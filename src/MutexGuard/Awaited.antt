-- ===== src/MutexGuard/Awaited.antt =====
-- mutex_v2.inl: what a coroutine gets by `co_await`, and what happens to an awaiter that it does not
-- await.
use librf.Prelude.{◌≡◌, refl, not, Bool, true, false, if◌then◌else◌, arith, Bool-cases, inl, inr}
use librf.Mutex.{Ptr, Mutex, try_lock, unlock, await_suspend, await_resume}
use librf.MutexGuard.{
  Awaiter, awaiter, destroy_awaiter, lock_suspend, settled, lock_resume, manual_resume,
  timeout_resume, try_suspend, try_resume, unlock_suspend, unlock_resume, destroy_guard,
}

-- The five kinds of awaiters.
pub data Kind : Type 0 where
  locks locks_manually locks_timed tries unlocks : Kind

-- `co_await` of an awaiter by a coroutine with the given root, with a state for the wait; `later` is
-- what happens to the mutex while the coroutine is suspended. What is left of the awaiter, whether it
-- was suspended, and the mutex.
unfoldable pub co_await :
    Kind → (later : Mutex → Mutex) → Mutex → (root state : Ptr) → Awaiter × Bool × Mutex
co_await tries later m root state =
    let r = try_suspend awaiter m root in ((try_resume r.1).1, false, r.0)
co_await unlocks later m root state =
    let r = unlock_suspend awaiter m root in (unlock_resume r.1, false, r.0)
co_await locks later m root state =
    let r = lock_suspend awaiter m root state false in
    if r.0
    then ((lock_resume (settled r.2 (later r.1) state)).1, true, later r.1)
    else ((lock_resume r.2).1, false, r.1)
co_await locks_manually later m root state =
    let r = lock_suspend awaiter m root state false in
    if r.0
    then (manual_resume (settled r.2 (later r.1) state), true, later r.1)
    else (manual_resume r.2, false, r.1)
co_await locks_timed later m root state =
    let r = lock_suspend awaiter m root state true in
    if r.0
    then ((timeout_resume (settled r.2 (later r.1) state)).1, true, later r.1)
    else ((timeout_resume r.2).1, false, r.1)

-- An awaiter of a mutex throws `not_await_lock` in its destructor if it was never awaited, and does
-- not if it was, whatever its kind, whether the coroutine was suspended, and whatever happened then.
pub destroy_awaiter-co_await :
    (kind : Kind) (later : Mutex → Mutex) (m : Mutex) (root state : Ptr)
    → (destroy_awaiter awaiter ≡ true)
      × (destroy_awaiter (co_await kind later m root state).0 ≡ false)
unfolding co_await destroy_awaiter awaiter try_resume unlock_resume lock_resume manual_resume
    timeout_resume
destroy_awaiter-co_await tries later m root state = (refl, refl)
destroy_awaiter-co_await unlocks later m root state = (refl, refl)
destroy_awaiter-co_await locks later m root state = (refl, ground arith)
destroy_awaiter-co_await locks_manually later m root state = (refl, ground arith)
destroy_awaiter-co_await locks_timed later m root state = (refl, ground arith)

-- The coroutine's calls against those of a thread that names the root as the owner.
pub record SameCalls (m : Mutex) (root state : Ptr) (timed : Bool) : Type 0 where
  pub same_try :
      let r = try_suspend awaiter m root in
      let same : Bool × Mutex = ((try_resume r.1).0, r.0) in same ≡ try_lock m root
  pub same_unlock : (unlock_suspend awaiter m root).0 ≡ (unlock m root).1
  pub waits_if_refused : (lock_suspend awaiter m root state timed).0 ≡ not (try_lock m root).0
  pub same_lock :
      (try_lock m root).0 ≡ true → (lock_suspend awaiter m root state timed).1 ≡ (try_lock m root).1
  pub guarded :
      (try_lock m root).0 ≡ true
      → (m' : Mutex)
      → (destroy_guard (lock_resume (lock_suspend awaiter m root state timed).2).0 m'
          ≡ (unlock m' root).1)
        × ((timeout_resume (lock_suspend awaiter m root state timed).2).0 ≡ true)
  pub guarded_later :
      (m' m'' : Mutex)
      → let a = settled (lock_suspend awaiter m root state timed).2 m' state in
        (destroy_guard (lock_resume a).0 m''
          ≡ (if await_resume m' state then (unlock m'' root).1 else m''))
        × ((timeout_resume a).0 ≡ await_resume m' state)

-- What a coroutine does by `co_await` is what a thread does that names the coroutine's root as the
-- owner: `try_lock` and `unlock` have the same result; `lock` and its timed kinds wait exactly if
-- `try_lock` fails, and else lock as it does, and tell so; and the guard of a lock that was obtained, at
-- once or, as the state that waited tells, later, does `unlock` when it is destroyed, while the guard
-- of one that was not does nothing.
pub await-SameCalls : (m : Mutex) (root state : Ptr) (timed : Bool) → SameCalls m root state timed
unfolding try_suspend try_resume unlock_suspend lock_suspend lock_resume timeout_resume settled
    destroy_guard awaiter await_suspend
await-SameCalls m root state timed = record {
  same_try = elim (Bool-cases (try_lock m root).0) [
    | inl e ↦ ground (arith, e)
    | inr e ↦ ground (arith, e)
  ];
  same_unlock = refl;
  waits_if_refused = ground arith;
  same_lock = λ e. ground (arith, e);
  guarded = λ e m'. (ground (arith, e), ground (arith, e));
  guarded_later = λ m' m''. (ground arith, ground arith);
}
