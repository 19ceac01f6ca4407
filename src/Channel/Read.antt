-- ===== src/Channel/Read.antt =====
-- channel_v2.inl: what a read does to a channel, in each of the four cases.
use librf.Prelude.{
  ◌≡◌, ◌≢◌, refl, ◌∙◌, ap, Bool, true, Option, none, some, List, [], ◌∷◌, ◌++◌, arith, inl, inr,
  length, length-append,
}
use librf.RingQueue.{RingQueue, capacity}
use librf.RingQueue
use librf.RingQueue.Refine.{taken, written, try_pop-empty, try_pop-cons, try_push-room}
use librf.LinkQueue.{Ptr, null, Node, LinkQueue}
use librf.LinkQueue
use librf.LinkQueue.Chain.{Fresh}
use librf.LinkQueue.Refine as Links
use librf.Channel.{
  Channel, store, awake_one_writer, awake_one_writer_val, try_read_nolock, read_await_suspend,
}
use librf.Channel.Inv.{Rep, woken}

module _ {ℓ} {A : Type ℓ} where
  awake_one_writer-nil :
      (c : Channel A)
      → LinkQueue.try_pop c.write_awakes ≡ (null, c.write_awakes)
      → awake_one_writer c ≡ c
  unfolding awake_one_writer
  awake_one_writer-nil c e = ground (arith, e)

  awake_one_writer-cons :
      (c : Channel A) (w : Ptr) (vs : RingQueue A)
      → (LinkQueue.try_pop c.write_awakes).0 ≡ w
      → w ≢ null
      → RingQueue.try_push c.values (c.write_value w) ≡ (true, vs)
      → awake_one_writer c ≡ record c {
        values = vs;
        write_awakes = (LinkQueue.try_pop c.write_awakes).1;
        scheduled = woken c w;
      }
  unfolding awake_one_writer
  awake_one_writer-cons c w vs e n p = ground (arith, e, p)

  awake_one_writer_val-nil :
      (c : Channel A)
      → LinkQueue.try_pop c.write_awakes ≡ (null, c.write_awakes)
      → awake_one_writer_val c ≡ (none, c)
  unfolding awake_one_writer_val
  awake_one_writer_val-nil c e = ground (arith, e)

  awake_one_writer_val-cons :
      (c : Channel A) (w : Ptr)
      → (LinkQueue.try_pop c.write_awakes).0 ≡ w
      → w ≢ null
      → awake_one_writer_val c ≡ (
        some (some (c.write_value w)),
        record c { write_awakes = (LinkQueue.try_pop c.write_awakes).1; scheduled = woken c w },
      )
  unfolding awake_one_writer_val
  awake_one_writer_val-cons c w e n = ground (arith, e)

  try_read-empty :
      (o : Bool) (c : Channel A)
      → RingQueue.try_pop o c.values ≡ none
      → try_read_nolock o c ≡ awake_one_writer_val c
  unfolding try_read_nolock
  try_read-empty o c e = rw (e, try_read_nolock)

  try_read-popped :
      (o : Bool) (c : Channel A) (v : Option A) (vs : RingQueue A)
      → RingQueue.try_pop o c.values ≡ some (v, vs)
      → try_read_nolock o c ≡ (some v, awake_one_writer (record c { values = vs }))
  unfolding try_read_nolock
  try_read-popped o c v vs e = rw (e, try_read_nolock)

  -- While somebody waits to write the buffer is full, and nobody waits to read.
  pub at_capacity :
      {c : Channel A} {xs : List A} {rs : List Ptr} {w : Ptr} {ws : List Ptr}
      → Rep c xs rs (w ∷ ws)
      → length xs ≡ c.max_counter
  at_capacity r = ground (arith, r.idle_writers)

  pub no_readers :
      {c : Channel A} {xs : List A} {rs : List Ptr} {w : Ptr} {ws : List Ptr}
      → Rep c xs rs (w ∷ ws)
      → rs ≡ []
  no_readers r = ground (arith, r.idle_readers)

  module _ (o : Bool) {c : Channel A} where
    -- A buffered value is read, and nobody waits.
    pub read-buffered :
        (x : A) (xs : List A) (rs : List Ptr)
        → Rep c (x ∷ xs) rs []
        → let c' = record c { values = taken o c.values } in
          (try_read_nolock o c ≡ (some (some x), c')) × Rep c' xs rs []
    read-buffered x xs rs r =
        let (popped, holds, cap) = try_pop-cons o r.holds in
        (
          try_read-popped o c (some x) (taken o c.values) popped
              ∙ ap (λ k. (some (some x), k)) (awake_one_writer-nil _ (Links.try_pop-nil r.writers)),
          record {
            holds = holds;
            sized = cap ∙ r.sized;
            readers = r.readers;
            writers = r.writers;
            idle_readers = ground arith;
            idle_writers = inl refl;
          },
        )

    -- A buffered value is read, and the oldest waiting writer's value takes the room.
    pub read-refilled :
        (x : A) (xs : List A) (rs : List Ptr) (w : Ptr) (ws : List Ptr)
        → Rep c (x ∷ xs) rs (w ∷ ws)
        → let c' = record c {
          values = written (taken o c.values) (c.write_value w);
          write_awakes = (LinkQueue.try_pop c.write_awakes).1;
          scheduled = woken c w;
        } in
          (try_read_nolock o c ≡ (some (some x), c')) × Rep c' (xs ++ (c.write_value w ∷ [])) rs ws
    read-refilled x xs rs w ws r =
        let (popped, holds, cap) = try_pop-cons o r.holds in
        let (front, rest) = Links.try_pop-cons r.writers in
        let room : length xs ≢ capacity (taken o c.values) = ground (arith, cap, r.sized) in
        let (pushed, holds', cap') = try_push-room holds (c.write_value w) room in
        (
          try_read-popped o c (some x) (taken o c.values) popped
              ∙ ap (λ k. (some (some x), k))
                  (awake_one_writer-cons _ w _ front r.writers.chain.1 pushed),
          record {
            holds = holds';
            sized = cap' ∙ cap ∙ r.sized;
            readers = r.readers;
            writers = rest;
            idle_readers = ground arith;
            idle_writers =
                inr (omega (arith, length-append xs (c.write_value w ∷ []), at_capacity r));
          },
        )

    -- The buffer is empty, and the oldest waiting writer hands its value over.
    pub read-direct :
        (rs : List Ptr) (w : Ptr) (ws : List Ptr)
        → Rep c [] rs (w ∷ ws)
        → let c' = record c {
          write_awakes = (LinkQueue.try_pop c.write_awakes).1;
          scheduled = woken c w;
        } in
          (try_read_nolock o c ≡ (some (some (c.write_value w)), c')) × Rep c' [] rs ws
    read-direct rs w ws r =
        let (front, rest) = Links.try_pop-cons r.writers in
        (
          try_read-empty o c (try_pop-empty o r.holds)
              ∙ awake_one_writer_val-cons c w front r.writers.chain.1,
          record {
            holds = r.holds;
            sized = r.sized;
            readers = r.readers;
            writers = rest;
            idle_readers = inl (no_readers r);
            idle_writers = inr (at_capacity r);
          },
        )

    -- There is nothing to read.
    pub read-none : (rs : List Ptr) → Rep c [] rs [] → try_read_nolock o c ≡ (none, c)
    read-none rs r =
        try_read-empty o c (try_pop-empty o r.holds)
        ∙ awake_one_writer_val-nil c (Links.try_pop-nil r.writers)

    -- Then the new state waits behind the others.
    pub read-waits :
        (rs : List Ptr) (p : Ptr)
        → p ≢ null
        → Fresh p rs
        → Rep c [] rs []
        → let c' = record c {
          read_awakes = LinkQueue.push_back c.read_awakes p;
          read_value = store c.read_value p none;
          coro = store c.coro p true;
        } in
          (read_await_suspend o c p ≡ (none, c')) × Rep c' [] (rs ++ (p ∷ [])) []
    unfolding read_await_suspend
    read-waits rs p n out r = (
      ground (arith, read-none rs r),
      record {
        holds = r.holds;
        sized = r.sized;
        readers = Links.push_back-IsQueue p r.readers n out;
        writers = r.writers;
        idle_readers = inr (refl, refl);
        idle_writers = inl refl;
      },
    )

  -- A read that finds a value does not suspend.
  pub read-ready :
      (o : Bool) (c : Channel A) (p : Ptr) (v : Option A) (c' : Channel A)
      → try_read_nolock o c ≡ (some v, c')
      → read_await_suspend o c p ≡ (some v, c')
  unfolding read_await_suspend
  read-ready o c p v c' e = ground (arith, e)
