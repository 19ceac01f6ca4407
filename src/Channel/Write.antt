-- ===== src/Channel/Write.antt =====
-- channel_v2.inl: what a write does to a channel, in each of the four cases.
use librf.Prelude.{
  ◌≡◌, ◌≢◌, refl, sym, ◌∙◌, ap, Bool, true, false, Option, some, List, [], ◌∷◌, ◌++◌, arith, inl,
  inr, length,
}
use librf.RingQueue.{RingQueue, capacity}
use librf.RingQueue
use librf.RingQueue.Refine.{taken, written, try_pop-cons, try_push-room, try_push-full}
use librf.LinkQueue.{Ptr, null, Node, LinkQueue}
use librf.LinkQueue
use librf.LinkQueue.Chain.{Fresh}
use librf.LinkQueue.Refine as Links
use librf.Channel.{
  Channel, store, awake_one_reader, awake_one_reader_val, try_write_nolock, write_await_suspend,
}
use librf.Channel.Inv.{Rep, woken}

module _ {ℓ} {A : Type ℓ} where
  awake_one_reader-nil :
      (o : Bool) (c : Channel A)
      → LinkQueue.try_pop c.read_awakes ≡ (null, c.read_awakes)
      → awake_one_reader o c ≡ c
  unfolding awake_one_reader
  awake_one_reader-nil o c e = ground (arith, e)

  awake_one_reader-cons :
      (o : Bool) (c : Channel A) (p : Ptr) (v : Option A) (vs : RingQueue A)
      → (LinkQueue.try_pop c.read_awakes).0 ≡ p
      → p ≢ null
      → RingQueue.try_pop o c.values ≡ some (v, vs)
      → awake_one_reader o c ≡ record c {
        values = vs;
        read_awakes = (LinkQueue.try_pop c.read_awakes).1;
        read_value = store c.read_value p v;
        scheduled = woken c p;
      }
  unfolding awake_one_reader
  awake_one_reader-cons o c p v vs e n f = ground (arith, e, f)

  awake_one_reader_val-nil :
      (c : Channel A) (v : A)
      → LinkQueue.try_pop c.read_awakes ≡ (null, c.read_awakes)
      → awake_one_reader_val c v ≡ (false, c)
  unfolding awake_one_reader_val
  awake_one_reader_val-nil c v e = ground (arith, e)

  awake_one_reader_val-cons :
      (c : Channel A) (p : Ptr) (v : A)
      → (LinkQueue.try_pop c.read_awakes).0 ≡ p
      → p ≢ null
      → awake_one_reader_val c v ≡ (
        true,
        record c {
          read_awakes = (LinkQueue.try_pop c.read_awakes).1;
          read_value = store c.read_value p (some v);
          scheduled = woken c p;
        },
      )
  unfolding awake_one_reader_val
  awake_one_reader_val-cons c p v e n = ground (arith, e)

  try_write-pushed :
      (o : Bool) (c : Channel A) (v : A) (vs : RingQueue A)
      → RingQueue.try_push c.values v ≡ (true, vs)
      → try_write_nolock o c v ≡ (true, awake_one_reader o (record c { values = vs }))
  unfolding try_write_nolock
  try_write-pushed o c v vs e = rw (e, try_write_nolock)

  try_write-full :
      (o : Bool) (c : Channel A) (v : A)
      → RingQueue.try_push c.values v ≡ (false, c.values)
      → try_write_nolock o c v ≡ awake_one_reader_val c v
  unfolding try_write_nolock
  try_write-full o c v e = rw (e, try_write_nolock)

  module _ (o : Bool) {c : Channel A} (v : A) where
    -- There is room, and nobody waits to read.
    pub write-buffered :
        (xs : List A) (ws : List Ptr)
        → length xs ≢ c.max_counter
        → Rep c xs [] ws
        → let c' = record c { values = written c.values v } in
          (try_write_nolock o c v ≡ (true, c')) × Rep c' (xs ++ (v ∷ [])) [] ws
    write-buffered xs ws ne r =
        let (pushed, holds, cap) = try_push-room r.holds v (λ e. ne (e ∙ r.sized)) in
        (
          try_write-pushed o c v (written c.values v) pushed
              ∙ ap (λ k. (true, k)) (awake_one_reader-nil o _ (Links.try_pop-nil r.readers)),
          record {
            holds = holds;
            sized = cap ∙ r.sized;
            readers = r.readers;
            writers = r.writers;
            idle_readers = inl refl;
            idle_writers = ground (arith, r.idle_writers);
          },
        )

    -- There is room and somebody waits to read: the value passes through the buffer.
    pub write-through :
        (p : Ptr) (rs : List Ptr)
        → 0 ≢ c.max_counter
        → Rep c [] (p ∷ rs) []
        → let c' = record c {
          values = taken o (written c.values v);
          read_awakes = (LinkQueue.try_pop c.read_awakes).1;
          read_value = store c.read_value p (some v);
          scheduled = woken c p;
        } in
          (try_write_nolock o c v ≡ (true, c')) × Rep c' [] rs []
    write-through p rs ne r =
        let (pushed, holds, cap) = try_push-room r.holds v (λ e. ne (e ∙ r.sized)) in
        let (popped, holds', cap') = try_pop-cons o holds in
        let (front, rest) = Links.try_pop-cons r.readers in
        (
          try_write-pushed o c v (written c.values v) pushed
              ∙ ap (λ k. (true, k))
                  (awake_one_reader-cons o _ p (some v) _ front r.readers.chain.1 popped),
          record {
            holds = holds';
            sized = cap' ∙ cap ∙ r.sized;
            readers = rest;
            writers = r.writers;
            idle_readers = inr (refl, refl);
            idle_writers = inl refl;
          },
        )

    -- There is no buffer, and the oldest waiting reader is handed the value.
    pub write-handed :
        (p : Ptr) (rs : List Ptr)
        → 0 ≡ c.max_counter
        → Rep c [] (p ∷ rs) []
        → let c' = record c {
          read_awakes = (LinkQueue.try_pop c.read_awakes).1;
          read_value = store c.read_value p (some v);
          scheduled = woken c p;
        } in
          (try_write_nolock o c v ≡ (true, c')) × Rep c' [] rs []
    write-handed p rs e r =
        let (front, rest) = Links.try_pop-cons r.readers in
        (
          try_write-full o c v (try_push-full r.holds v (e ∙ sym r.sized))
              ∙ awake_one_reader_val-cons c p v front r.readers.chain.1,
          record {
            holds = r.holds;
            sized = r.sized;
            readers = rest;
            writers = r.writers;
            idle_readers = inr (refl, refl);
            idle_writers = inl refl;
          },
        )

    -- The buffer is full and nobody waits to read.
    pub write-full :
        (xs : List A) (ws : List Ptr)
        → length xs ≡ c.max_counter
        → Rep c xs [] ws
        → try_write_nolock o c v ≡ (false, c)
    write-full xs ws e r =
        try_write-full o c v (try_push-full r.holds v (e ∙ sym r.sized))
        ∙ awake_one_reader_val-nil c v (Links.try_pop-nil r.readers)

    -- Then the new state waits behind the others.
    pub write-waits :
        (xs : List A) (ws : List Ptr) (p : Ptr)
        → p ≢ null
        → Fresh p ws
        → length xs ≡ c.max_counter
        → Rep c xs [] ws
        → let c' = record c {
          write_awakes = LinkQueue.push_back c.write_awakes p;
          write_value = store c.write_value p v;
          coro = store c.coro p true;
        } in
          (write_await_suspend o c p v ≡ (false, c')) × Rep c' xs [] (ws ++ (p ∷ []))
    unfolding write_await_suspend
    write-waits xs ws p n out e r = (
      rw (write-full xs ws e r),
      record {
        holds = r.holds;
        sized = r.sized;
        readers = r.readers;
        writers = Links.push_back-IsQueue p r.writers n out;
        idle_readers = inl refl;
        idle_writers = inr e;
      },
    )

  -- A write that is taken at once does not suspend.
  pub write-ready :
      (o : Bool) (c : Channel A) (p : Ptr) (v : A) (c' : Channel A)
      → try_write_nolock o c v ≡ (true, c')
      → write_await_suspend o c p v ≡ (true, c')
  unfolding write_await_suspend
  write-ready o c p v c' e = ground (arith, e)
