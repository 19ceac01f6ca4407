-- ===== src/Mutex/Inv.antt =====
-- mutex_v2.cpp: the invariant of the mutex.
use librf.Prelude.{
  ◌+◌, ◌≤◌, ◌<◌, ◌≡◌, ◌≢◌, refl, Option, none, some, Bool, true, false, List, [], ◌∷◌, ◌++◌, arith,
  size_mod, ◌⊎◌, inl, inr,
}
use librf.Mutex.Handover.{next_open, given, unlock_lem}
use librf.Mutex.{
  Ptr, null, WaitState, Mutex, mutex, store, on_timeout, on_cancel, resume, try_lock, unlock,
  await_suspend,
}

-- Every listed state has a root.
abbrev pub Rooted : (Ptr → WaitState) → List Ptr → Type 0
Rooted st [] = Unit
Rooted st (s ∷ ss) = ((st s).root ≢ null) × Rooted st ss

-- A free mutex has no waiters and a count of 0; a held one a count of at least 1.
pub record IsValid (m : Mutex) : Type 0 where
  pub mode :
      ((m.owner ≡ null) × (m.counter ≡ 0) × (m.wait_awakes ≡ []))
      ⊎ ((m.owner ≢ null) × (1 ≤ m.counter))
  pub bounded : m.counter < size_mod
  pub rooted : Rooted m.states m.wait_awakes

pub mutex-IsValid : (st : Ptr → WaitState) → IsValid (mutex st)
unfolding mutex
mutex-IsValid st = record { mode = inl (refl, refl, refl); bounded = omega arith; rooted = tt }

-- A change of a state that keeps its root spares `Rooted`.
Rooted-store :
    (f : Ptr → WaitState) (s : Ptr) (st : WaitState) (ss : List Ptr)
    → st.root ≡ (f s).root
    → Rooted f ss
    → Rooted (store f s st) ss
Rooted-store f s st [] e h = tt
Rooted-store f s st (x ∷ ss) e h = (ground (arith, h.0), Rooted-store f s st ss e h.1)

-- So does a change of a state that is not listed.
Rooted-store_new :
    (f : Ptr → WaitState) (s : Ptr) (st : WaitState) (ss : List Ptr)
    → st.root ≢ null
    → Rooted f ss
    → Rooted (store f s st) ss
Rooted-store_new f s st [] e h = tt
Rooted-store_new f s st (x ∷ ss) e h = (ground (arith, h.0), Rooted-store_new f s st ss e h.1)

Rooted-snoc :
    (f : Ptr → WaitState) (s : Ptr) (ss : List Ptr)
    → (f s).root ≢ null
    → Rooted f ss
    → Rooted f (ss ++ (s ∷ []))
Rooted-snoc f s [] e h = (e, tt)
Rooted-snoc f s (x ∷ ss) e h = (h.0, Rooted-snoc f s ss e h.1)

pub try_lock-IsValid :
    (m : Mutex) (sch : Ptr)
    → sch ≢ null
    → m.counter + 1 < size_mod
    → IsValid m
    → IsValid (try_lock m sch).1
unfolding try_lock
try_lock-IsValid m sch n b v = ground arith

pub on_timeout-IsValid : (m : Mutex) (s : Ptr) → IsValid m → IsValid (on_timeout m s).1
unfolding on_timeout
on_timeout-IsValid m s v = ground (
  arith,
  Rooted-store m.states s
      (record (m.states s) { open_value = false; granted = false; timer = false }) m.wait_awakes
      refl v.rooted,
)

pub on_cancel-IsValid : (m : Mutex) (s : Ptr) → IsValid m → IsValid (on_cancel m s)
unfolding on_cancel
on_cancel-IsValid m s v = ground (
  arith,
  Rooted-store m.states s
      (record (m.states s) { open_value = false; granted = false; timer = false; coro = false })
      m.wait_awakes refl v.rooted,
)

pub resume-IsValid : (m : Mutex) (s : Ptr) → IsValid m → IsValid (resume m s).1
unfolding resume
resume-IsValid m s v = ground (
  arith,
  Rooted-store m.states s (record (m.states s) { coro = false }) m.wait_awakes refl v.rooted,
)

next_open-Rooted :
    (f : Ptr → WaitState) (ss : List Ptr) (s : Ptr) (rest : List Ptr)
    → Rooted f ss
    → next_open f ss ≡ some (s, rest)
    → ((f s).root ≢ null) × Rooted f rest
unfolding next_open
next_open-Rooted f [] s rest r e = cc
next_open-Rooted f (x ∷ ss) s rest r e = ground (arith, next_open-Rooted f ss s rest r.1)

given-IsValid :
    (m : Mutex) (n : Option (Ptr × List Ptr))
    → ((s : Ptr) (rest : List Ptr)
        → n ≡ some (s, rest)
        → ((m.states s).root ≢ null) × Rooted m.states rest)
    → IsValid (given m n)
given-IsValid m none h = record {
  mode = inl (refl, refl, refl);
  bounded = omega arith;
  rooted = tt;
}
given-IsValid m (some (s, rest)) h =
    let (root, rooted) = h s rest refl in
    record {
      mode = inr (root, omega arith);
      bounded = omega arith;
      rooted = Rooted-store m.states s _ rest refl rooted;
    }

pub unlock-IsValid : (m : Mutex) (sch : Ptr) → sch ≢ null → IsValid m → IsValid (unlock m sch).1
unlock-IsValid m sch n v =
    let g =
      given-IsValid m (next_open m.states m.wait_awakes)
        (λ s rest e. next_open-Rooted m.states m.wait_awakes s rest v.rooted e) in
    rw (unlock_lem m sch) (ground (arith, g))

pub await_suspend-IsValid :
    (m : Mutex) (root s : Ptr) (timed : Bool)
    → root ≢ null
    → m.counter + 1 < size_mod
    → IsValid m
    → IsValid (await_suspend m root s timed).1
unfolding await_suspend try_lock
await_suspend-IsValid m root s timed n b v =
    let st : WaitState = record {
      root = root;
      open_value = true;
      granted = true;
      coro = true;
      timer = timed;
    } in
    let kept = Rooted-store_new m.states s st m.wait_awakes n v.rooted in
    let self : (store m.states s st s).root ≢ null = ground arith in
    ground (
      arith,
      try_lock-IsValid m root n b v,
      Rooted-snoc (store m.states s st) s m.wait_awakes self kept,
    )
