-- ===== src/Mutex/Handover.antt =====
-- mutex_v2.cpp: to whom `unlock` gives the mutex.
use native.Mathlib.Decide.{ℕ_discrete}
use librf.Prelude.{
  ℕ, ◌≡◌, refl, ◌∙◌, true, false, Option, none, some, List, [], ◌∷◌, ◌++◌, if◌then◌else◌, ◌==◌,
  arith, Bool-cases, inl, inr,
}
use librf.Mutex.{Ptr, null, WaitState, Mutex, store, up, down, on_notify, hand_over, unlock}

-- The oldest waiting state that was neither cancelled nor timed out, and those behind it.
unfoldable pub next_open : (Ptr → WaitState) → List Ptr → Option (Ptr × List Ptr)
next_open f [] = none
next_open f (s ∷ ss) = if (f s).open_value then some (s, ss) else next_open f ss

-- The mutex given to a waiting state, and the mutex given to nobody.
abbrev pub given : Mutex → Option (Ptr × List Ptr) → Mutex
given m none = record m { owner = null; counter = 0; wait_awakes = [] }
given m (some (s, rest)) = record m {
  owner = (m.states s).root;
  counter = 1;
  wait_awakes = rest;
  states =
      store m.states s (record (m.states s) { open_value = false; granted = true; timer = false });
  scheduled = if (m.states s).coro then m.scheduled ++ (s ∷ []) else m.scheduled;
}

given-same :
    (m : Mutex) (o : Ptr) (c : ℕ) (ws : List Ptr) (n : Option (Ptr × List Ptr))
    → given (record m { owner = o; counter = c; wait_awakes = ws }) n ≡ given m n
given-same m o c ws none = refl
given-same m o c ws (some (s, rest)) = refl

-- The loop of `unlock` gives the mutex to the oldest state that is still open, and to nobody if there
-- is none.
pub hand_over_lem :
    (ss : List Ptr) (m : Mutex)
    → m.owner ≡ null
    → m.counter ≡ 0
    → hand_over m ss ≡ given m (next_open m.states ss)
unfolding hand_over next_open
hand_over_lem [] m o c = ground arith
hand_over_lem (s ∷ ss) m o c =
    let m' = record m { owner = null; counter = down (up m.counter); wait_awakes = ss } in
    elim (Bool-cases (m.states s).open_value) [
      | inl live ↦ ground (arith, live)
      | inr dead ↦
          rw (dead, hand_over, on_notify)
            (hand_over_lem ss m' refl (omega arith)
              ∙ given-same m null (down (up m.counter)) ss (next_open m.states ss))
    ]

-- What `unlock` does, on each branch: nothing for one that does not own the mutex; one level less for
-- an owner that holds it more than once; else the mutex goes to the oldest open waiting state.
pub unlock_lem :
    (m : Mutex) (sch : Ptr)
    → unlock m sch ≡ (
        if m.owner == sch
        then (
          true,
          if m.counter == 1
              then given m (next_open m.states m.wait_awakes)
              else record m { counter = down m.counter },
        )
        else (false, m))
unfolding unlock
unlock_lem m sch = elim (ℕ_discrete m.counter 1) [
  | yes e ↦
      let m' = record m { owner = null; counter = down m.counter } in
      ground (
        arith,
        hand_over_lem m.wait_awakes m' refl (omega arith),
        given-same m null (down m.counter) m.wait_awakes (next_open m.states m.wait_awakes),
      )
  | no e ↦ ground arith
]
