-- ===== src/RingQueue.antt =====
-- include/librf/src/ring_queue.h: `ring_queue<_Ty, _Option, uint32_t>`, the instance that the channel
-- uses. The file is included before `_WITH_LOCK_FREE_Q_KEEP_REAL_SIZE` is defined, so there is no
-- `m_count` and the size is computed from the two indices.
pub mod Inv
pub mod Refine
mod Tests
use librf.Prelude.{
  ℕ, ◌+◌, ◌-◌, ◌%◌, ◌≡◌, Bool, true, false, Option, none, some, List, if◌then◌else◌, ◌==◌, leb,
  get_elem?, set, replicate, u32_mod,
}

-- A cell holds a value, or `none`: not yet written, or `std::nullopt`.
pub record RingQueue {ℓ} (A : Type ℓ) : Type ℓ where
  pub buffer : List (Option A)
  pub buffer_size : ℕ
  pub write_index : ℕ
  pub read_index : ℕ

-- `uint32_t` addition and subtraction.
abbrev pub add32 : ℕ → ℕ → ℕ
add32 a b = (a + b) % u32_mod

abbrev pub sub32 : ℕ → ℕ → ℕ
sub32 a b = (a + u32_mod - b) % u32_mod

module _ {ℓ} {A : Type ℓ} where
  -- `sz` is a 64-bit `size_t`, and `m_bufferSize` its successor cast to `uint32_t`.
  unfoldable pub ring_queue : ℕ → RingQueue A
  ring_queue sz = record {
    buffer = replicate (sz + 1) none;
    buffer_size = (sz + 1) % u32_mod;
    write_index = 0;
    read_index = 0;
  }

  pub next_index : RingQueue A → ℕ → ℕ
  next_index q a_count = add32 a_count 1 % q.buffer_size

  pub size : RingQueue A → ℕ
  size q =
      if leb q.read_index q.write_index
      then sub32 q.write_index q.read_index
      else sub32 (add32 q.buffer_size q.write_index) q.read_index

  pub capacity : RingQueue A → ℕ
  capacity q = sub32 q.buffer_size 1

  pub empty : RingQueue A → Bool
  empty q = q.write_index == q.read_index

  pub full : RingQueue A → Bool
  unfolding next_index
  full q = next_index q q.write_index == q.read_index

  unfoldable pub try_push : RingQueue A → A → Bool × RingQueue A
  unfolding next_index
  try_push q value =
      let next_write_index = next_index q q.write_index in
      if next_write_index == q.read_index then (false, q) else (
        true,
        record q {
          buffer = set q.buffer q.write_index (some value);
          write_index = next_write_index;
        },
      )

  -- What the read of a cell gives: `none` too where the index is out of range.
  abbrev pub cell : List (Option A) → ℕ → Option A
  cell buffer i = elim (get_elem? buffer i) [ none ↦ none | some c ↦ c ]

  -- `none` is the result `false`; else the value that is moved out, and the queue. A moved-out value
  -- of `none` would be `bad_optional_access` with `use_option`, and an unset object without.
  unfoldable pub try_pop : Bool → RingQueue A → Option (Option A × RingQueue A)
  unfolding next_index
  try_pop use_option q =
      if q.read_index == q.write_index
      then none
      else some (
        cell q.buffer q.read_index,
        record q {
          buffer = if use_option then set q.buffer q.read_index none else q.buffer;
          read_index = next_index q q.read_index;
        },
      )
