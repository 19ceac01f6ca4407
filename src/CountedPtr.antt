-- ===== src/CountedPtr.antt =====
-- include/librf/src/counted_ptr.h, and the count in include/librf/src/state.h: `counted_ptr` with the
-- `lock` and `unlock` of the state that it points to.
pub mod Count
pub mod Kept
pub mod Freed
mod Tests
use librf.Prelude.{
  ℕ, zero, suc, ◌+◌, ◌-◌, ◌%◌, List, [], ◌∷◌, ◌++◌, if◌then◌else◌, ◌==◌, size_mod, set,
}

-- An address; `null` is `nullptr`.
abbrev pub Ptr : Type 0
Ptr = ℕ

abbrev pub null : Ptr
null = 0

-- The variables of type `counted_ptr` by their number, each with its `_p`; the `_count` of every
-- state, and how often `destroy_deallocate` was called for it.
pub record Heap : Type 0 where
  pub ptrs : List Ptr
  pub count : Ptr → ℕ
  pub freed : Ptr → ℕ

-- `get`, the pointer of a variable.
abbrev pub get : List Ptr → ℕ → Ptr
get [] i = null
get (p ∷ ps) zero = p
get (p ∷ ps) (suc i) = get ps i

abbrev pub store : (Ptr → ℕ) → Ptr → ℕ → Ptr → ℕ
store f p v a = if p == a then v else f a

-- `state_base_t::lock` and `unlock`.
unfoldable pub lock : Heap → Ptr → Heap
lock h p = record h { count = store h.count p ((h.count p + 1) % size_mod) }

unfoldable pub unlock : Heap → Ptr → Heap
unlock h p =
    let h' : Heap = record h { count = store h.count p ((h.count p + size_mod - 1) % size_mod) } in
    if h.count p == 1 then record h' { freed = store h.freed p (suc (h.freed p)) } else h'

-- `_lock` of a variable whose `_p` is given, and `_unlock` after `_p` was reset.
unfoldable pub hold : Heap → Ptr → Heap
unfolding lock
hold h p = if p == null then h else lock h p

unfoldable pub drop : Heap → Ptr → Heap
unfolding unlock
drop h p = if p == null then h else unlock h p

abbrev pub put : Heap → ℕ → Ptr → Heap
put h i p = record h { ptrs = set h.ptrs i p }

-- The constructors make a new variable, the last.
abbrev pub push : Heap → Ptr → Heap
push h p = record h { ptrs = h.ptrs ++ (p ∷ []) }

unfoldable pub construct_null : Heap → Heap
construct_null h = push h null

unfoldable pub construct_raw : Heap → Ptr → Heap
unfolding hold
construct_raw h p = push (hold h p) p

unfoldable pub construct_copy : Heap → ℕ → Heap
unfolding hold
construct_copy h i = push (hold h (get h.ptrs i)) (get h.ptrs i)

unfoldable pub construct_move : Heap → ℕ → Heap
construct_move h i = push (put h i null) (get h.ptrs i)

-- The copy `t` takes the old pointer of `i`, and its destructor gives that up.
unfoldable pub assign_copy : Heap → (i cp : ℕ) → Heap
unfolding hold drop
assign_copy h i cp =
    if cp == i then h else drop (put (hold h (get h.ptrs cp)) i (get h.ptrs cp)) (get h.ptrs i)

unfoldable pub swap : Heap → (i cp : ℕ) → Heap
swap h i cp = put (put h i (get h.ptrs cp)) cp (get h.ptrs i)

-- `_unlock`, which is also `reset` and the destructor.
unfoldable pub reset : Heap → ℕ → Heap
unfolding drop
reset h i = drop (put h i null) (get h.ptrs i)

unfoldable pub assign_move : Heap → (i cp : ℕ) → Heap
unfolding swap reset
assign_move h i cp = if cp == i then h else reset (swap h i cp) cp
