-- ===== src/Spinlock.antt =====
-- include/librf/src/spinlock.h: `spinlock`. The threads take turns at its atomic accesses, in any
-- order; a `compare_exchange_weak` may fail although the lock is free.
pub mod Backoff
pub mod Exclusion
pub mod Waiting
mod Tests
use librf.Prelude.{
  ℕ, zero, suc, ◌+◌, ◌*◌, Bool, true, false, not, ◌&&◌, List, [], ◌∷◌, ◌++◌, if◌then◌else◌, ◌==◌,
  ltb, min,
}

abbrev pub max_active_spin : ℕ
max_active_spin = 4000

abbrev pub max_yield_spin : ℕ
max_yield_spin = 8000

abbrev pub free_value : ℕ
free_value = 0

abbrev pub locked_value : ℕ
locked_value = 1

-- The locals of `lock`, the time in milliseconds; and what the thread did: how often it yielded, and
-- for how long it slept each time, the latest first.
pub record Spin : Type 0 where
  pub spin_count : ℕ
  pub dt : ℕ
  pub yields : ℕ
  pub sleeps : List ℕ

abbrev pub start : Spin
start = record { spin_count = 0; dt = 1; yields = 0; sleeps = [] }

-- The body of the inner loop.
unfoldable pub spin : Spin → Spin
spin s =
    if ltb s.spin_count max_active_spin
    then record s { spin_count = suc s.spin_count }
    else if ltb s.spin_count max_yield_spin
    then record s { spin_count = suc s.spin_count; yields = suc s.yields }
    else record s { sleeps = s.dt ∷ s.sleeps; dt = min 128 (s.dt * 2) }

-- Where a thread is: outside, before a load of the inner loop, before the `compare_exchange_weak` of
-- the outer one, or with the lock.
pub data Pc : Type 0 where
  outside : Pc
  loading : (s : Spin) → Pc
  exchanging : (s : Spin) → Pc
  inside : Pc

pub record Spinlock : Type 0 where
  pub lck : ℕ
  pub pcs : ℕ → Pc

unfoldable pub spinlock : Spinlock
spinlock = record { lck = free_value; pcs = λ t. outside }

abbrev pub move : Spinlock → ℕ → Pc → Spinlock
move m t pc = record m { pcs = λ u. if t == u then pc else m.pcs u }

-- A `compare_exchange` that goes to `inside` or to another place.
unfoldable pub exchange : Spinlock → ℕ → (fails : Bool) → Pc → Spinlock
exchange m t fails pc =
    if not fails && m.lck == free_value
    then move (record m { lck = locked_value }) t inside
    else move m t pc

-- The next access of a thread that calls `lock`, waits in it, or calls `unlock`.
unfoldable pub lock_step : Spinlock → ℕ → (fails : Bool) → Pc → Spinlock
unfolding exchange spin
lock_step m t fails outside = exchange m t fails (loading start)
lock_step m t fails (loading s) =
    if m.lck == free_value then move m t (exchanging s) else move m t (loading (spin s))
lock_step m t fails (exchanging s) = exchange m t fails (loading s)
lock_step m t fails inside = m

unfoldable pub unlock_step : Spinlock → ℕ → Pc → Spinlock
unlock_step m t inside = move (record m { lck = free_value }) t outside
unlock_step m t _ = m

-- `compare_exchange_strong` fails only if the lock is not free.
unfoldable pub try_step : Spinlock → ℕ → Pc → Spinlock
unfolding exchange
try_step m t outside = exchange m t false outside
try_step m t _ = m

-- What a thread does next. One that is inside a call of `lock` goes on with it.
pub data Turn : Type 0 where
  locks : (thread : ℕ) → (fails : Bool) → Turn
  tries : (thread : ℕ) → Turn
  unlocks : (thread : ℕ) → Turn

unfoldable pub turn : Spinlock → Turn → Spinlock
unfolding lock_step unlock_step try_step
turn m (locks t fails) = lock_step m t fails (m.pcs t)
turn m (tries t) = try_step m t (m.pcs t)
turn m (unlocks t) = unlock_step m t (m.pcs t)

unfoldable pub turns : Spinlock → List Turn → Spinlock
unfolding turn
turns m [] = m
turns m (a ∷ rest) = turns (turn m a) rest
