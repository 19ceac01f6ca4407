-- ===== src/Mutex/Waiting.antt =====
-- mutex_v2.cpp: the coroutines that wait. Each is answered once, and none is forgotten.
use librf.Prelude.{
  ◌<◌, ◌≡◌, ◌≢◌, refl, ◌∙◌, Bool, true, false, Option, none, some, List, [], ◌∷◌, ◌++◌, ◌==◌, arith,
  size_mod, Bool-cases, ◌⊎◌, inl, inr, length, ◌||◌,
}
use librf.Mutex.{
  Ptr, null, WaitState, Mutex, mutex, on_timeout, on_cancel, resume, try_lock, await_suspend,
  await_resume,
}
use librf.Mutex.Handover.{next_open, given, unlock_lem}
use librf.Mutex.Inv.{mutex-IsValid}
use librf.Mutex.Exclusion.{
  Action, locks, unlocks, awaits, times_out, cancels, resumes, act, acts, AssertsAll, acts-IsValid,
}

-- Whether an address is listed.
unfoldable pub listed : Ptr → List Ptr → Bool
listed s [] = false
listed s (x ∷ xs) = (x == s) || listed s xs

-- A state whose coroutine still waits for an answer is in the mutex's list.
pub record NoneLost (m : Mutex) : Type 0 where
  pub open_listed : (s : Ptr) → (m.states s).open_value ≡ true → listed s m.wait_awakes ≡ true

next_open-open :
    (f : Ptr → WaitState) (ss : List Ptr) (s : Ptr) (rest : List Ptr)
    → next_open f ss ≡ some (s, rest)
    → (f s).open_value ≡ true
unfolding next_open
next_open-open f [] s rest e = cc
next_open-open f (x ∷ ss) s rest e = ground (arith, next_open-open f ss s rest)

-- The states that are passed over are not open.
next_open-listed :
    (f : Ptr → WaitState) (ss : List Ptr) (t : Ptr)
    → (f t).open_value ≡ true
    → listed t ss ≡ true
    → (s : Ptr) × (rest : List Ptr) × (next_open f ss ≡ some (s, rest))
      × ((s ≡ t) ⊎ (listed t rest ≡ true))
unfolding next_open listed
next_open-listed f [] t o l = absurd (cc)
next_open-listed f (x ∷ ss) t o l = elim (Bool-cases (f x).open_value) [
  | inl here ↦ (x, ss, rw here, ground arith)
  | inr closed ↦
      let (s, rest, e, h) = next_open-listed f ss t o (ground arith) in (s, rest, rw closed e, h)
]

listed-snoc : (s x : Ptr) (xs : List Ptr) → listed s (xs ++ (x ∷ [])) ≡ (listed s xs || (x == s))
unfolding listed
listed-snoc s x [] = ground arith
listed-snoc s x (y ∷ xs) = ground (arith, listed-snoc s x xs)

given-NoneLost :
    (m : Mutex) (n : Option (Ptr × List Ptr))
    → NoneLost m
    → next_open m.states m.wait_awakes ≡ n
    → NoneLost (given m n)
given-NoneLost m none h e = record {
  open_listed = λ t o.
      let (s, rest, found, _) = next_open-listed m.states m.wait_awakes t o (h.open_listed t o) in
      absurd (cc);
}
given-NoneLost m (some (s, rest)) h e = record {
  open_listed = λ t o.
      let was : (m.states t).open_value ≡ true = ground arith in
      let other : s ≢ t = ground arith in
      let (s', rest', found, at) =
        next_open-listed m.states m.wait_awakes t was (h.open_listed t was) in
      ground (arith, e, found, at);
}

act-NoneLost : (m : Mutex) (a : Action) → NoneLost m → NoneLost (act m a)
unfolding act try_lock await_suspend on_timeout on_cancel resume
act-NoneLost m (locks sch) h = record { open_listed = λ t o. ground (arith, h.open_listed t) }
act-NoneLost m (unlocks sch) h =
    let g = given-NoneLost m (next_open m.states m.wait_awakes) h refl in
    record {
      open_listed = λ t o. ground (arith, unlock_lem m sch, g.open_listed t, h.open_listed t);
    }
act-NoneLost m (awaits root s timed) h = record {
  open_listed = λ t o. ground (arith, h.open_listed t, listed-snoc t s m.wait_awakes);
}
act-NoneLost m (times_out s) h = record { open_listed = λ t o. ground (arith, h.open_listed t) }
act-NoneLost m (cancels s) h = record { open_listed = λ t o. ground (arith, h.open_listed t) }
act-NoneLost m (resumes s) h = record { open_listed = λ t o. ground (arith, h.open_listed t) }

acts-NoneLost : (history : List Action) (m : Mutex) → NoneLost m → NoneLost (acts m history)
unfolding acts
acts-NoneLost [] m h = h
acts-NoneLost (a ∷ rest) m h = acts-NoneLost rest (act m a) (act-NoneLost m a h)

-- No waiter is left behind: whenever a mutex is free, after any history that started with a new
-- mutex and no open state, every coroutine that ever waited for it has had its answer. The history
-- is shorter than the range of an `intptr_t`, and the addresses that are asserted not to be null are
-- not.
pub free-answered :
    (st : Ptr → WaitState) (history : List Action)
    → ((s : Ptr) → (st s).open_value ≡ false)
    → AssertsAll history
    → length history < size_mod
    → (acts (mutex st) history).owner ≡ null
    → (s : Ptr) → ((acts (mutex st) history).states s).open_value ≡ false
unfolding mutex listed
free-answered st history closed n b free s =
    let m = acts (mutex st) history in
    let start : NoneLost (mutex st) = record {
      open_listed = λ t o. absurd (ground (arith, closed t));
    } in
    let lost = acts-NoneLost history (mutex st) start in
    let valid = acts-IsValid history (mutex st) n (omega arith) (mutex-IsValid st) in
    ground (arith, lost.open_listed s, valid.mode)

-- The action does not start a wait in the state `s`.
abbrev pub Spares : Ptr → Action → Type 0
Spares s (awaits root t timed) = t ≢ s
Spares s _ = Unit

abbrev pub SparesAll : Ptr → List Action → Type 0
SparesAll s [] = Unit
SparesAll s (a ∷ rest) = Spares s a × SparesAll s rest

given-answered :
    (m : Mutex) (n : Option (Ptr × List Ptr)) (s : Ptr)
    → next_open m.states m.wait_awakes ≡ n
    → (m.states s).open_value ≡ false
    → (((given m n).states s).open_value ≡ false)
      × (((given m n).states s).granted ≡ (m.states s).granted)
given-answered m none s e c = (c, refl)
given-answered m (some (t, rest)) s e c =
    let was = next_open-open m.states m.wait_awakes t rest e in
    let other : t ≢ s = ground arith in ground arith

answered-act :
    (m : Mutex) (a : Action) (s : Ptr)
    → Spares s a
    → (m.states s).open_value ≡ false
    → (((act m a).states s).open_value ≡ false)
      × (((act m a).states s).granted ≡ (m.states s).granted)
unfolding act try_lock await_suspend on_timeout on_cancel resume
answered-act m (locks sch) s n c = ground arith
answered-act m (unlocks sch) s n c =
    let g = given-answered m (next_open m.states m.wait_awakes) s refl c in
    ground (arith, unlock_lem m sch, g)
answered-act m (awaits root t timed) s n c = ground arith
answered-act m (times_out t) s n c = ground arith
answered-act m (cancels t) s n c = ground arith
answered-act m (resumes t) s n c = ground arith

-- Each wait is answered once: after a grant, a timeout or a cancellation nothing changes whether the
-- coroutine obtained the lock, until its state is used for a new wait.
pub answered-acts :
    (history : List Action) (m : Mutex) (s : Ptr)
    → SparesAll s history
    → (m.states s).open_value ≡ false
    → (((acts m history).states s).open_value ≡ false)
      × (await_resume (acts m history) s ≡ await_resume m s)
unfolding acts await_resume
answered-acts [] m s n c = (c, refl)
answered-acts (a ∷ rest) m s n c =
    let (closed, same) = answered-act m a s n.0 c in
    let (closed', same') = answered-acts rest (act m a) s n.1 closed in (closed', same' ∙ same)
