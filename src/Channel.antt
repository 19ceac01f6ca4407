-- ===== src/Channel.antt =====
-- include/librf/src/channel_v2.inl: `channel_impl_v2` with `USE_RING_QUEUE` and `USE_LINK_QUEUE`, and
-- the part of the two awaiters that runs under the channel's lock. Every operation holds `_lock`
-- throughout, so threads interleave whole operations.
pub mod Inv
pub mod Read
pub mod Write
pub mod Meet
pub mod Waking
mod Tests
pub mod Fifo
use librf.Prelude.{
  ℕ, ◌+◌, Bool, true, false, Option, none, some, List, [], ◌∷◌, ◌++◌, if◌then◌else◌, ◌==◌,
}
use librf.RingQueue.{RingQueue, ring_queue}
use librf.RingQueue
use librf.LinkQueue.{LinkQueue, Ptr, null, Links, empty_queue}
use librf.LinkQueue

-- The channel with the fields of the `state_channel_t` objects that it reaches: `*_value` of a
-- reader's and of a writer's state, and whether `_coro` is set. `scheduled` lists the states that
-- `add_generator` was called with, the latest last.
pub record Channel {ℓ} (A : Type ℓ) : Type ℓ where
  pub max_counter : ℕ
  pub values : RingQueue A
  pub read_awakes : LinkQueue
  pub write_awakes : LinkQueue
  pub read_value : Ptr → Option A
  pub write_value : Ptr → A
  pub coro : Ptr → Bool
  pub scheduled : List Ptr

abbrev pub store {ℓ} : {V : Type ℓ} → (Ptr → V) → Ptr → V → Ptr → V
store f p v a = if p == a then v else f a

module _ {ℓ} {A : Type ℓ} where
  -- The states' fields and links before first use are those of the memory that is given.
  pub channel : Links → Links → (Ptr → Option A) → (Ptr → A) → (Ptr → Bool) → ℕ → Channel A
  channel rl wl rv wv co cache_size = record {
    max_counter = cache_size;
    values = ring_queue cache_size;
    read_awakes = empty_queue rl;
    write_awakes = empty_queue wl;
    read_value = rv;
    write_value = wv;
    coro = co;
    scheduled = [];
  }

  pub on_notify : Channel A → Ptr → Channel A
  on_notify c state =
      if c.coro state then record c { scheduled = c.scheduled ++ (state ∷ []) } else c

  pub on_cancel : Channel A → Ptr → Channel A
  on_cancel c state = record c { coro = store c.coro state false }

  pub try_pop_reader : Channel A → Ptr × Channel A
  try_pop_reader c =
      let (state, rest) = LinkQueue.try_pop c.read_awakes in
      (state, record c { read_awakes = rest })

  pub try_pop_writer : Channel A → Ptr × Channel A
  try_pop_writer c =
      let (state, rest) = LinkQueue.try_pop c.write_awakes in
      (state, record c { write_awakes = rest })

  pub add_read_list : Channel A → Ptr → Channel A
  add_read_list c state = record c { read_awakes = LinkQueue.push_back c.read_awakes state }

  pub add_write_list : Channel A → Ptr → Channel A
  add_write_list c state = record c { write_awakes = LinkQueue.push_back c.write_awakes state }

  -- The overload that hands `val` straight to a waiting reader.
  pub awake_one_reader_val : Channel A → A → Bool × Channel A
  unfolding try_pop_reader on_notify
  awake_one_reader_val c val =
      let (state, c') = try_pop_reader c in
      if state == null
      then (false, c')
      else (true, on_notify (record c' { read_value = store c'.read_value state (some val) }) state)

  pub awake_one_writer : Channel A → Channel A
  unfolding try_pop_writer on_notify
  awake_one_writer c =
      let (state, c') = try_pop_writer c in
      if state == null
      then c'
      else on_notify
          (record c' { values = (RingQueue.try_push c'.values (c'.write_value state)).1 }) state

  -- The overload that takes the value of a waiting writer; `none` is the result `false`.
  pub awake_one_writer_val : Channel A → Option (Option A) × Channel A
  unfolding try_pop_writer on_notify
  awake_one_writer_val c =
      let (writer, c') = try_pop_writer c in
      if writer == null
      then (none, c')
      else (some (some (c'.write_value writer)), on_notify c' writer)

  module _ (use_option : Bool) where
    -- `_values.try_pop(*state->_value)`, whose result is ignored.
    pub pop_into : Channel A → Ptr → Channel A
    pop_into c state = elim (RingQueue.try_pop use_option c.values) [
      | none ↦ c
      | some (v, rest) ↦ record c { values = rest; read_value = store c.read_value state v }
    ]

    pub awake_one_reader : Channel A → Channel A
    unfolding try_pop_reader pop_into on_notify
    awake_one_reader c =
        let (state, c') = try_pop_reader c in
        if state == null then c' else on_notify (pop_into c' state) state

    -- `none` is the result `false`, else what is moved into `val`.
    pub try_read_nolock : Channel A → Option (Option A) × Channel A
    unfolding awake_one_writer awake_one_writer_val
    try_read_nolock c = elim (RingQueue.try_pop use_option c.values) [
      | none ↦ awake_one_writer_val c
      | some (v, rest) ↦ (some v, awake_one_writer (record c { values = rest }))
    ]

    pub try_write_nolock : Channel A → A → Bool × Channel A
    unfolding awake_one_reader awake_one_reader_val
    try_write_nolock c val =
        let (pushed, rest) = RingQueue.try_push c.values val in
        if pushed
        then (true, awake_one_reader (record c { values = rest }))
        else awake_one_reader_val c val

    -- `read_awaiter::await_suspend`: the value, or `none` where the coroutine is suspended with the
    -- new state at the given address, whose value is still unset.
    pub read_await_suspend : Channel A → Ptr → Option (Option A) × Channel A
    unfolding try_read_nolock add_read_list
    read_await_suspend c state =
        let (r, c') = try_read_nolock c in
        elim r [
          | some v ↦ (some v, c')
          | none ↦ (
            none,
            add_read_list
                (record c' {
                  read_value = store c'.read_value state none;
                  coro = store c'.coro state true;
                })
                state,
          )
        ]

    -- `write_awaiter::await_suspend`: whether the value was taken at once.
    pub write_await_suspend : Channel A → Ptr → A → Bool × Channel A
    unfolding try_write_nolock add_write_list
    write_await_suspend c state val =
        let (done, c') = try_write_nolock c val in
        if done then (true, c') else (
          false,
          add_write_list
              (record c' {
                write_value = store c'.write_value state val;
                coro = store c'.coro state true;
              })
              state,
        )
