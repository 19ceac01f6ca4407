-- ===== src/RingQueue/Inv.antt =====
-- ring_queue.h: the relation between a ring and the sequence that it holds, with what it says of the
-- 32-bit index arithmetic.
use native.Mathlib.Nat.{mod-eq_of_lt, mod_self}
use native.Mathlib.Decide.{dec_lt}
use librf.Prelude.{
  ℕ, suc, ◌+◌, ◌-◌, ◌%◌, ◌≤◌, ◌<◌, ◌≡◌, ◌≢◌, sym, ◌∙◌, Option, some, List, [], ◌∷◌, ◌++◌, arith,
  if◌then◌else◌, ◌==◌, leb, length, get_elem?, set, u32_mod, get_elem?-set_self, get_elem?-set_ne,
}
use librf.RingQueue.{RingQueue, add32, next_index, size, capacity, empty, full}

-- The index `k` steps after `p` on a ring of `n` cells.
unfoldable pub ahead : ℕ → ℕ → ℕ → ℕ
ahead n p k = if leb n (p + k) then p + k - n else p + k

pub ahead_lt : (n p k : ℕ) → p < n → k < n → ahead n p k < n
unfolding ahead
ahead_lt n p k h g = ground arith

pub ahead_ne : (n p k : ℕ) → p < n → suc k < n → ahead n p (suc k) ≢ p
unfolding ahead
ahead_ne n p k h g = ground arith

pub ahead-ahead : (n p k : ℕ) → p < n → suc k < n → ahead n (ahead n p 1) k ≡ ahead n p (suc k)
unfolding ahead
ahead-ahead n p k h g = ground arith

pub ahead_step : (n p k : ℕ) → p < n → suc k < n → ahead n (ahead n p k) 1 ≡ ahead n p (k + 1)
unfolding ahead
ahead_step n p k h g = ground arith

pub ahead_zero : (n p : ℕ) → p < n → ahead n p 0 ≡ p
unfolding ahead
ahead_zero n p h = ground arith

pub mod-ahead : (n p : ℕ) → p < n → n < u32_mod → add32 p 1 % n ≡ ahead n p 1
unfolding ahead
mod-ahead n p h g = elim (dec_lt (p + 1) n) [
  | yes lt ↦ ground (arith, mod-eq_of_lt {n = p + 1} {m = n} lt)
  | no ge ↦ let e : p + 1 ≡ n = omega arith in ground (arith, mod_self n)
]

module _ {ℓ} {A : Type ℓ} where
  -- The cells from `p` on hold the values of the list, in order.
  abbrev pub Stored : List (Option A) → ℕ → ℕ → List A → Type ℓ
  Stored buffer n p [] = Unit
  Stored buffer n p (x ∷ xs) =
      (get_elem? buffer p ≡ some (some x)) × Stored buffer n (ahead n p 1) xs

  pub record Holds (q : RingQueue A) (xs : List A) : Type ℓ where
    pub bound : q.buffer_size < u32_mod
    pub allocated : length q.buffer ≡ q.buffer_size
    pub read_in : q.read_index < q.buffer_size
    pub room : length xs < q.buffer_size
    pub write_at : q.write_index ≡ ahead q.buffer_size q.read_index (length xs)
    pub stored : Stored q.buffer q.buffer_size q.read_index xs

  -- A write to a cell outside the stored ones spares them.
  pub Stored-set :
      (buffer : List (Option A)) (n p i : ℕ) (c : Option A) (xs : List A)
      → p < n
      → length xs < n
      → ((k : ℕ) → k < length xs → ahead n p k ≢ i)
      → Stored buffer n p xs
      → Stored (set buffer i c) n p xs
  Stored-set buffer n p i c [] h g out s = tt
  Stored-set buffer n p i c (x ∷ xs) h g out (s, t) = (
    get_elem?-set_ne buffer i p c (λ e. out 0 (omega arith) (ahead_zero n p h ∙ sym e)) ∙ s,
    Stored-set buffer n (ahead n p 1) i c xs (ahead_lt n p 1 h (omega arith)) (omega arith)
        (λ k lt e. out (suc k) (omega arith) (sym (ahead-ahead n p k h (omega arith)) ∙ e)) t,
  )

  -- The cell just past the stored ones extends them.
  pub Stored-snoc :
      (buffer : List (Option A)) (n p i : ℕ) (x : A) (xs : List A)
      → length buffer ≡ n
      → p < n
      → length xs < n
      → i ≡ ahead n p (length xs)
      → Stored buffer n p xs
      → Stored (set buffer i (some x)) n p (xs ++ (x ∷ []))
  Stored-snoc buffer n p i x [] e h g at s =
      rw (at, ahead_zero n p h) (get_elem?-set_self buffer p (some x) (omega arith), tt)
  Stored-snoc buffer n p i x (y ∷ xs) e h g at (s, t) = (
    get_elem?-set_ne buffer i p (some x) (λ d. ahead_ne n p (length xs) h g (sym at ∙ d)) ∙ s,
    Stored-snoc buffer n (ahead n p 1) i x xs e (ahead_lt n p 1 h (omega arith)) (omega arith)
        (at ∙ sym (ahead-ahead n p (length xs) h g)) t,
  )

  module _ {q : RingQueue A} {xs : List A} (holds : Holds q xs) where
    -- No index computation of `uint32_t` wraps, except one in `size` that wraps back.
    pub next_index-ahead : (a : ℕ) → a < q.buffer_size → next_index q a ≡ ahead q.buffer_size a 1
    unfolding next_index
    next_index-ahead a h = mod-ahead q.buffer_size a h holds.bound

    pub size-length : size q ≡ length xs
    unfolding size ahead
    size-length = ground (arith, holds.write_at)

    pub length-le-capacity : length xs ≤ capacity q
    unfolding capacity
    length-le-capacity = omega (arith, holds.room, holds.bound)

    pub empty_lem : empty q ≡ (length xs == 0)
    unfolding empty ahead
    empty_lem = ground arith

    pub full_lem : full q ≡ (length xs == capacity q)
    unfolding full capacity ahead
    full_lem = ground (arith, mod-ahead q.buffer_size q.write_index)
