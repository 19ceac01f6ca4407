-- ===== src/RingQueue/Refine.antt =====
-- ring_queue.h: `try_push` and `try_pop` on a ring that holds a sequence, and the ring as a bounded
-- queue for a client that makes any calls.
use native.Mathlib.Decide.{ℕ_discrete}
use librf.Prelude.{
  ℕ, ◌+◌, ◌<◌, ◌≡◌, ◌≢◌, refl, sym, ap, ◌∙◌, Bool, true, false, not, Option, none, some, List, [],
  ◌∷◌, ◌++◌, arith, if◌then◌else◌, ◌==◌, length, set, u32_mod, length-replicate, length-append,
  length-set,
}
use librf.RingQueue.{
  RingQueue, ring_queue, next_index, size, capacity, empty, full, try_push, try_pop,
}
use librf.RingQueue.Inv.{
  ahead, ahead_lt, ahead_step, ahead_ne, ahead_zero, ahead-ahead, Stored, Holds, Stored-set,
  Stored-snoc, next_index-ahead, size-length, empty_lem, full_lem,
}

-- What a client may ask, and what it sees.
pub data Op {ℓ} (A : Type ℓ) : Type ℓ where
  push : A → Op A
  pop : Op A
  ask : Op A

pub data Reply {ℓ} (A : Type ℓ) : Type ℓ where
  pushed : Bool → Reply A
  popped : Option (Option A) → Reply A
  asked : ℕ → Bool → Bool → Reply A

module _ {ℓ} {A : Type ℓ} where
  unfoldable pub run : Bool → RingQueue A → List (Op A) → List (Reply A)
  run o q [] = []
  run o q (push x ∷ ops) = let (done, r) = try_push q x in pushed done ∷ run o r ops
  run o q (pop ∷ ops) = elim (try_pop o q) [
    | none ↦ popped none ∷ run o q ops
    | some (v, r) ↦ popped (some v) ∷ run o r ops
  ]
  run o q (ask ∷ ops) = asked (size q) (empty q) (full q) ∷ run o q ops

  -- The bounded queue.
  unfoldable pub run_fifo : ℕ → List A → List (Op A) → List (Reply A)
  run_fifo cap xs [] = []
  run_fifo cap xs (push x ∷ ops) =
      let full = length xs == cap in
      pushed (not full) ∷ run_fifo cap (if full then xs else xs ++ (x ∷ [])) ops
  run_fifo cap [] (pop ∷ ops) = popped none ∷ run_fifo cap [] ops
  run_fifo cap (x ∷ xs) (pop ∷ ops) = popped (some (some x)) ∷ run_fifo cap xs ops
  run_fifo cap xs (ask ∷ ops) =
      asked (length xs) (length xs == 0) (length xs == cap) ∷ run_fifo cap xs ops

  -- A ring made for `sz` values is empty and has that capacity.
  pub ring_queue-Holds :
      (sz : ℕ)
      → sz + 1 < u32_mod
      → Holds {A = A} (ring_queue sz) [] × (capacity {A = A} (ring_queue sz) ≡ sz)
  unfolding ring_queue capacity
  ring_queue-Holds sz h = (
    record {
      bound = omega arith;
      allocated = omega (arith, length-replicate {A = Option A} (sz + 1) none);
      read_in = omega arith;
      room = omega arith;
      write_at = sym (ahead_zero _ 0 (omega arith));
      stored = tt;
    },
    omega arith,
  )

  -- The ring that `try_push` leaves where there is room.
  pub written : RingQueue A → A → RingQueue A
  written q x = record q {
    buffer = set q.buffer q.write_index (some x);
    write_index = next_index q q.write_index;
  }

  module _ {q : RingQueue A} {xs : List A} (h : Holds q xs) where
    pub try_push-full : (x : A) → length xs ≡ capacity q → try_push q x ≡ (false, q)
    unfolding try_push full
    try_push-full x e = ground (arith, full_lem h)

    write_in : q.write_index < q.buffer_size
    write_in = rw h.write_at (ahead_lt q.buffer_size q.read_index (length xs) h.read_in h.room)

    written-Holds : (x : A) → length xs ≢ capacity q → Holds (written q x) (xs ++ (x ∷ []))
    unfolding written capacity
    written-Holds x ne = record {
      bound = h.bound;
      allocated = length-set q.buffer q.write_index (some x) ∙ h.allocated;
      read_in = h.read_in;
      room = omega (arith, length-append xs (x ∷ []), h.room, h.bound);
      write_at =
          next_index-ahead h q.write_index write_in
          ∙ ap (λ w. ahead q.buffer_size w 1) h.write_at
          ∙ ahead_step q.buffer_size q.read_index (length xs) h.read_in
              (omega (arith, h.room, h.bound))
          ∙ ap (ahead q.buffer_size q.read_index) (sym (length-append xs (x ∷ [])));
      stored =
          Stored-snoc q.buffer q.buffer_size q.read_index q.write_index x xs h.allocated h.read_in
            h.room h.write_at h.stored;
    }

    pub try_push-room :
        (x : A)
        → length xs ≢ capacity q
        → (try_push q x ≡ (true, written q x))
          × Holds (written q x) (xs ++ (x ∷ []))
          × (capacity (written q x) ≡ capacity q)
    unfolding try_push written capacity full
    try_push-room x ne = (ground (arith, full_lem h), written-Holds x ne, refl)

  -- The ring that `try_pop` leaves.
  pub taken : Bool → RingQueue A → RingQueue A
  taken o q = record q {
    buffer = if o then set q.buffer q.read_index none else q.buffer;
    read_index = next_index q q.read_index;
  }

  pub try_pop-empty : (o : Bool) {q : RingQueue A} → Holds q [] → try_pop o q ≡ none
  unfolding try_pop empty
  try_pop-empty o {q} h = ground (arith, empty_lem h)

  module _ (o : Bool) {q : RingQueue A} {x : A} {xs : List A} (h : Holds q (x ∷ xs)) where
    taken-Stored :
        (o : Bool)
        → Stored
            (if o then set q.buffer q.read_index none else q.buffer)
            q.buffer_size
            (ahead q.buffer_size q.read_index 1)
            xs
    taken-Stored false = h.stored.1
    taken-Stored true =
        Stored-set q.buffer q.buffer_size (ahead q.buffer_size q.read_index 1) q.read_index none xs
          (ahead_lt q.buffer_size q.read_index 1 h.read_in (omega (arith, h.room)))
          (omega (arith, h.room))
          (λ k lt e.
            ahead_ne q.buffer_size q.read_index k h.read_in (omega (arith, h.room)) (
              sym (ahead-ahead q.buffer_size q.read_index k h.read_in (omega (arith, h.room))) ∙ e))
          h.stored.1

    taken-Holds : Holds (taken o q) xs
    unfolding taken
    taken-Holds =
        let next = next_index-ahead h q.read_index h.read_in in
        record {
          bound = h.bound;
          allocated = ground (arith, length-set q.buffer q.read_index none, h.allocated);
          read_in =
              rw next (ahead_lt q.buffer_size q.read_index 1 h.read_in (omega (arith, h.room)));
          room = omega (arith, h.room);
          write_at = rw next (
              h.write_at
              ∙ sym (ahead-ahead q.buffer_size q.read_index (length xs) h.read_in h.room));
          stored = rw next (taken-Stored o);
        }

    pub try_pop-cons :
        (try_pop o q ≡ some (some x, taken o q))
        × Holds (taken o q) xs
        × (capacity (taken o q) ≡ capacity q)
    unfolding try_pop taken capacity empty
    try_pop-cons = (ground (arith, empty_lem h, h.stored.0), taken-Holds, refl)

module _ {ℓ} {A : Type ℓ} (o : Bool) where
  -- Whatever a client asks in whatever order, a ring that holds a sequence answers as the bounded
  -- queue with that sequence.
  pub run-fifo :
      (ops : List (Op A)) (q : RingQueue A) (xs : List A)
      → Holds q xs
      → run o q ops ≡ run_fifo (capacity q) xs ops
  unfolding run run_fifo
  run-fifo [] q xs h = refl
  run-fifo (push x ∷ ops) q xs h = elim (ℕ_discrete (length xs) (capacity q)) [
    | yes e ↦ ground (arith, try_push-full h x, run-fifo ops q xs h)
    | no ne ↦ ground (
      arith,
      try_push-room h x ne,
      run-fifo ops (written q x) (xs ++ (x ∷ [])) (try_push-room h x ne).1,
    )
  ]
  run-fifo (pop ∷ ops) q [] h = ground (arith, try_pop-empty o h, run-fifo ops q [] h)
  run-fifo (pop ∷ ops) q (x ∷ xs) h =
      ground (arith, try_pop-cons o h, run-fifo ops (taken o q) xs (try_pop-cons o h).1)
  run-fifo (ask ∷ ops) q xs h = rw (size-length h, empty_lem h, full_lem h, run-fifo ops q xs h)

  -- Whatever a client asks in whatever order, a new ring answers as an empty bounded queue of the
  -- requested capacity, as long as the capacity and the spare cell fit in 32 bits.
  pub run-ring_queue :
      (sz : ℕ) (ops : List (Op A))
      → sz + 1 < u32_mod
      → run o (ring_queue sz) ops ≡ run_fifo sz [] ops
  run-ring_queue sz ops h =
      let (holds, cap) = ring_queue-Holds sz h in rw cap at (run-fifo ops (ring_queue sz) [] holds)
