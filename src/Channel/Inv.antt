-- ===== src/Channel/Inv.antt =====
-- channel_v2.inl: the invariant of a channel, by the values that it buffers and the states that wait.
use librf.Prelude.{
  ℕ, ◌≡◌, refl, Bool, Option, List, [], ◌∷◌, ◌++◌, map, arith, ◌⊎◌, inl, if◌then◌else◌, length, ◌+◌,
  ◌<◌, u32_mod,
}
use librf.RingQueue.{capacity}
use librf.RingQueue.Inv.{Holds}
use librf.RingQueue.Refine.{ring_queue-Holds}
use librf.LinkQueue.{Ptr, Links}
use librf.LinkQueue.Chain.{Fresh}
use librf.LinkQueue.Refine.{IsQueue, empty_queue-IsQueue}
use librf.Channel.{Channel, channel, store, on_notify}

module _ {ℓ} {A : Type ℓ} where
  -- The buffer holds `xs`; the states `rs` wait to read and `ws` to write, oldest first. Nobody waits
  -- to read while there is a value or a writer, nor to write while there is room.
  pub record Rep (c : Channel A) (xs : List A) (rs ws : List Ptr) : Type ℓ where
    pub holds : Holds c.values xs
    pub sized : capacity c.values ≡ c.max_counter
    pub readers : IsQueue c.read_awakes rs
    pub writers : IsQueue c.write_awakes ws
    pub idle_readers : (rs ≡ []) ⊎ ((xs ≡ []) × (ws ≡ []))
    pub idle_writers : (ws ≡ []) ⊎ (length xs ≡ c.max_counter)

  -- The values on their way, in the order in which they will be read.
  abbrev pub pending : Channel A → List A → List Ptr → List A
  pending c xs ws = xs ++ map c.write_value ws

  -- What `on_notify` makes of the scheduled states.
  abbrev pub woken : Channel A → Ptr → List Ptr
  woken c state = if c.coro state then c.scheduled ++ (state ∷ []) else c.scheduled

  pub on_notify-woken :
      (c : Channel A) (state : Ptr) → on_notify c state ≡ record c { scheduled = woken c state }
  unfolding on_notify
  on_notify-woken c state = ground arith

  -- A new channel is empty and nobody waits.
  pub channel-Rep :
      (rl wl : Links) (rv : Ptr → Option A) (wv : Ptr → A) (co : Ptr → Bool) (cache_size : ℕ)
      → cache_size + 1 < u32_mod
      → Rep (channel rl wl rv wv co cache_size) [] [] []
  unfolding channel
  channel-Rep rl wl rv wv co n h = record {
    holds = (ring_queue-Holds n h).0;
    sized = (ring_queue-Holds n h).1;
    readers = empty_queue-IsQueue rl;
    writers = empty_queue-IsQueue wl;
    idle_readers = inl refl;
    idle_writers = inl refl;
  }

  -- A write to the slot of a state outside spares the values of the writers.
  pub map-store :
      (f : Ptr → A) (p : Ptr) (v : A) (ws : List Ptr) → Fresh p ws → map (store f p v) ws ≡ map f ws
  map-store f p v [] h = refl
  map-store f p v (w ∷ ws) h = ground (arith, map-store f p v ws h.1)
