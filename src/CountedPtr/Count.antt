-- ===== src/CountedPtr/Count.antt =====
-- counted_ptr.h: the count of a state is the number of the pointers to it.
use librf.Prelude.{
  occ, occ-append, occ-le-length, ℕ, zero, suc, ◌+◌, ◌≤◌, ◌<◌, ◌≡◌, ◌≢◌, List, [], ◌∷◌, arith,
  size_mod, set, length, length-set, length-append,
}
use librf.CountedPtr.{Ptr, null, Heap, get, hold, drop, put, push}

pub occ-set :
    (p v : Ptr) (ps : List Ptr) (i : ℕ)
    → i < length ps
    → occ p (set ps i v) + occ p (get ps i ∷ []) ≡ occ p ps + occ p (v ∷ [])
occ-set p v [] i lt = elim lt [ ]
occ-set p v (q ∷ ps) zero lt = omega arith
occ-set p v (q ∷ ps) (suc i) lt = ground (arith, occ-set p v ps i (omega arith))

-- Every state is counted, but for one pointer to `d` that is not in a variable yet, or no longer; no
-- variable points to a freed state.
pub record Owes (h : Heap) (d : Ptr) : Type 0 where
  pub counted : (p : Ptr) → p ≢ null → h.count p ≡ occ p h.ptrs + occ p (d ∷ [])
  pub once : (p : Ptr) → p ≢ null → h.freed p ≤ 1
  pub dead : (p : Ptr) → p ≢ null → 1 ≤ h.freed p → occ p h.ptrs + occ p (d ∷ []) ≡ 0
  pub room : length h.ptrs + 1 < size_mod

abbrev pub IsCounted : Heap → Type 0
IsCounted h = Owes h null

pub hold-Owes : (h : Heap) (d : Ptr) → (d ≢ null → h.freed d ≡ 0) → IsCounted h → Owes (hold h d) d
unfolding hold
hold-Owes h d fresh v = record {
  counted = λ p n. ground (arith, v.counted p n, occ-le-length p h.ptrs, v.room);
  once = λ p n. ground (arith, v.once p n);
  dead = λ p n f. ground (arith, v.dead p n, fresh);
  room = ground (arith, v.room);
}

pub put-Owes :
    (h : Heap) (d : Ptr) (i : ℕ) → i < length h.ptrs → Owes h d → Owes (put h i d) (get h.ptrs i)
put-Owes h d i lt v = record {
  counted = λ p n. omega (arith, v.counted p n, occ-set p d h.ptrs i lt);
  once = λ p n. v.once p n;
  dead = λ p n f. omega (arith, v.dead p n f, occ-set p d h.ptrs i lt);
  room = omega (arith, v.room, length-set h.ptrs i d);
}

pub push-IsCounted :
    (h : Heap) (d : Ptr) → length h.ptrs + 2 < size_mod → Owes h d → IsCounted (push h d)
push-IsCounted h d b v = record {
  counted = λ p n. ground (arith, v.counted p n, occ-append p d h.ptrs);
  once = λ p n. v.once p n;
  dead = λ p n f. ground (arith, v.dead p n f, occ-append p d h.ptrs);
  room = omega (arith, length-append h.ptrs (d ∷ []));
}

pub drop-IsCounted : (h : Heap) (d : Ptr) → Owes h d → IsCounted (drop h d)
unfolding drop
drop-IsCounted h d v = record {
  counted = λ p n. ground (arith, v.counted p n, occ-le-length p h.ptrs, v.room);
  once = λ p n. ground (arith, v.counted p n, v.once p n, v.dead p n);
  dead = λ p n f. ground (arith, v.counted p n, v.dead p n, occ-le-length p h.ptrs, v.room);
  room = ground (arith, v.room);
}
