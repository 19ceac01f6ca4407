-- ===== src/Mutex/Exclusion.antt =====
-- mutex_v2.cpp: any sequence of operations keeps the invariant, and who may change the owner.
use librf.Prelude.{
  ◌+◌, ◌≤◌, ◌<◌, ◌≡◌, ◌≢◌, Bool, true, false, Option, none, some, List, [], ◌∷◌, arith, size_mod,
  ◌⊎◌, length,
}
use librf.Mutex.{Ptr, null, Mutex, on_timeout, on_cancel, resume, try_lock, unlock, await_suspend}
use librf.Mutex.Handover.{next_open, given, unlock_lem}
use librf.Mutex.Inv.{
  IsValid, try_lock-IsValid, unlock-IsValid, await_suspend-IsValid, on_timeout-IsValid,
  on_cancel-IsValid, resume-IsValid,
}

-- What coroutines, timers and schedulers do to a mutex, each under its lock. `sch` and `root` are
-- owners' addresses, `state` a waiting state's.
pub data Action : Type 0 where
  locks : (sch : Ptr) → Action
  unlocks : (sch : Ptr) → Action
  awaits : (root state : Ptr) → (timed : Bool) → Action
  times_out : (state : Ptr) → Action
  cancels : (state : Ptr) → Action
  resumes : (state : Ptr) → Action

unfoldable pub act : Mutex → Action → Mutex
act m (locks sch) = (try_lock m sch).1
act m (unlocks sch) = (unlock m sch).1
act m (awaits root state timed) = (await_suspend m root state timed).1
act m (times_out state) = (on_timeout m state).1
act m (cancels state) = on_cancel m state
act m (resumes state) = (resume m state).1

unfoldable pub acts : Mutex → List Action → Mutex
acts m [] = m
acts m (a ∷ rest) = acts (act m a) rest

-- The asserts `sch != nullptr` and `_root != nullptr`.
abbrev pub Asserts : Action → Type 0
Asserts (locks sch) = sch ≢ null
Asserts (unlocks sch) = sch ≢ null
Asserts (awaits root state timed) = root ≢ null
Asserts _ = Unit

abbrev pub AssertsAll : List Action → Type 0
AssertsAll [] = Unit
AssertsAll (a ∷ rest) = Asserts a × AssertsAll rest

act-IsValid :
    (m : Mutex) (a : Action) → Asserts a → m.counter + 1 < size_mod → IsValid m → IsValid (act m a)
unfolding act
act-IsValid m (locks sch) n b v = try_lock-IsValid m sch n b v
act-IsValid m (unlocks sch) n b v = unlock-IsValid m sch n v
act-IsValid m (awaits root s timed) n b v = await_suspend-IsValid m root s timed n b v
act-IsValid m (times_out s) n b v = on_timeout-IsValid m s v
act-IsValid m (cancels s) n b v = on_cancel-IsValid m s v
act-IsValid m (resumes s) n b v = resume-IsValid m s v

given-counter : (m : Mutex) (n : Option (Ptr × List Ptr)) → (given m n).counter ≤ 1
given-counter m none = omega arith
given-counter m (some (s, rest)) = omega arith

act-counter : (m : Mutex) (a : Action) → Asserts a → IsValid m → (act m a).counter ≤ m.counter + 1
unfolding act try_lock await_suspend on_timeout on_cancel resume
act-counter m (locks sch) n v = ground arith
act-counter m (unlocks sch) n v =
    ground (arith, unlock_lem m sch, given-counter m (next_open m.states m.wait_awakes))
act-counter m (awaits root s timed) n v = ground arith
act-counter m (times_out s) n v = ground arith
act-counter m (cancels s) n v = ground arith
act-counter m (resumes s) n v = ground arith

-- Whatever happens to it, as long as the addresses that are asserted not to be null are not, a mutex
-- keeps its invariant: while nobody owns it its count is 0 and nobody waits for it; while somebody
-- does the count is at least 1; and every waiting state has a root. The count is an `intptr_t`, so
-- the history must be shorter than its range.
pub acts-IsValid :
    (rest : List Action) (m : Mutex)
    → AssertsAll rest
    → m.counter + length rest < size_mod
    → IsValid m
    → IsValid (acts m rest)
unfolding acts
acts-IsValid [] m n b v = v
acts-IsValid (a ∷ rest) m n b v =
    acts-IsValid rest (act m a) n.1 (omega (arith, act-counter m a n.0 v))
      (act-IsValid m a n.0 (omega arith) v)

-- While a mutex is owned only its owner's last `unlock` changes the owner.
pub owner-act :
    (m : Mutex) (a : Action)
    → m.owner ≢ null
    → ((act m a).owner ≡ m.owner) ⊎ ((a ≡ unlocks m.owner) × (m.counter ≡ 1))
unfolding act try_lock await_suspend on_timeout on_cancel resume
owner-act m (locks sch) h = ground arith
owner-act m (unlocks sch) h = ground (arith, unlock_lem m sch)
owner-act m (awaits root s timed) h = ground arith
owner-act m (times_out s) h = ground arith
owner-act m (cancels s) h = ground arith
owner-act m (resumes s) h = ground arith

-- An owner may lock again, and an `unlock` undoes the lock: on a mutex that has its invariant and
-- whose count has room, a lock that succeeds, on a free mutex or one already owned, followed by the
-- same owner's `unlock`, restores the mutex.
pub unlock-try_lock :
    (m m' : Mutex) (sch : Ptr)
    → sch ≢ null
    → m.counter + 1 < size_mod
    → IsValid m
    → try_lock m sch ≡ (true, m')
    → unlock m' sch ≡ (true, m)
unfolding try_lock next_open
unlock-try_lock m m' sch n b v e = ground (arith, unlock_lem m' sch)

-- While a mutex is owned nobody else locks or unlocks it: the call fails and changes nothing.
pub other_fails :
    (m : Mutex) (sch : Ptr)
    → m.owner ≢ null
    → sch ≢ m.owner
    → (try_lock m sch ≡ (false, m)) × (unlock m sch ≡ (false, m))
unfolding try_lock
other_fails m sch h n = ground (arith, unlock_lem m sch)
