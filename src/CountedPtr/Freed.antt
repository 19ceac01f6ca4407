-- ===== src/CountedPtr/Freed.antt =====
-- counted_ptr.h: a state is freed when its last pointer goes, and only then.
use librf.Prelude.{
  occ, occ-append, ℕ, ◌+◌, ◌≤◌, ◌<◌, ◌≡◌, ◌≢◌, subst, List, [], ◌∷◌, arith, size_mod, length,
  if◌then◌else◌, ◌==◌, inl, inr, Bool-cases,
}
use librf.CountedPtr.{
  Ptr, null, Heap, get, hold, drop, put, push, construct_null, construct_raw, construct_copy,
  construct_move, assign_copy, swap, reset, assign_move, unlock, lock,
}
use librf.CountedPtr.Count.{occ-set, Owes, IsCounted, hold-Owes, put-Owes}
use librf.CountedPtr.Kept.{
  Action, constructs, adopts, copies, moves, assigns, assigns_moved, swaps, resets, act, acts,
  Allowed, AllowedAll, act-IsCounted, act-length, hold-ptrs, occ-swap, get-fresh, swap-IsCounted,
  length-swap,
}

-- A state `p` that was pointed to is freed once if no pointer to it is left, and else was not; `d` is
-- the pointer that `Owes` allows for.
abbrev Exact : Heap → Ptr → Ptr → Type 0
Exact h d p = h.freed p ≡ (if occ p h.ptrs + occ p (d ∷ []) == 0 then 1 else 0)

module _ (h : Heap) (p : Ptr) (n : p ≢ null) where
  hold-Exact : (d : Ptr) → (d ≢ null → h.freed d ≡ 0) → Exact h null p → Exact (hold h d) d p
  unfolding hold lock
  hold-Exact d fresh x = ground (arith, fresh)

  put-Exact :
      (d : Ptr) (i : ℕ) → i < length h.ptrs → Exact h d p → Exact (put h i d) (get h.ptrs i) p
  put-Exact d i lt x = rw (occ-set p d h.ptrs i lt) x

  push-Exact : (d : Ptr) → Exact h d p → Exact (push h d) null p
  push-Exact d x = ground (arith, occ-append p d h.ptrs)

  drop-Exact : (d : Ptr) → Owes h d → Exact h d p → Exact (drop h d) null p
  unfolding drop unlock
  drop-Exact d v x = ground (arith, v.counted p n)

  swap-Exact :
      (i cp : ℕ)
      → i < length h.ptrs
      → cp < length h.ptrs
      → Exact h null p
      → Exact (swap h i cp) null p
  unfolding swap
  swap-Exact i cp li lc x = rw (occ-swap p h.ptrs i cp li lc) x

reset-Exact :
    (h : Heap) (p : Ptr)
    → p ≢ null
    → (i : ℕ) → i < length h.ptrs
    → IsCounted h
    → Exact h null p
    → Exact (reset h i) null p
unfolding reset
reset-Exact h p n i lt v x =
    drop-Exact (put h i null) p n (get h.ptrs i) (put-Owes h null i lt v)
      (put-Exact h p n null i lt x)

act-Exact :
    (h : Heap) (p : Ptr) (a : Action)
    → p ≢ null
    → Allowed h a
    → IsCounted h
    → Exact h null p
    → Exact (act h a) null p
unfolding act construct_null construct_raw construct_copy construct_move assign_copy assign_move
act-Exact h p constructs n w v x = push-Exact h p n null x
act-Exact h p (adopts q) n w v x = push-Exact (hold h q) p n q (hold-Exact h p n q (λ _. w) x)
act-Exact h p (copies cp) n w v x =
    let q = get h.ptrs cp in push-Exact (hold h q) p n q (hold-Exact h p n q (get-fresh h cp w v) x)
act-Exact h p (moves cp) n w v x =
    push-Exact (put h cp null) p n (get h.ptrs cp) (put-Exact h p n null cp w x)
act-Exact h p (assigns i cp) n w v x =
    let q = get h.ptrs cp in
    let fresh = get-fresh h cp w.1 v in
    elim (Bool-cases (cp == i)) [
      | inl e ↦ rw e x
      | inr e ↦ rw e (
          drop-Exact (put (hold h q) i q) p n (get h.ptrs i)
            (subst (λ ps. Owes (put (hold h q) i q) (get ps i)) (hold-ptrs h q)
              (put-Owes (hold h q) q i (rw (hold-ptrs h q) w.0) (hold-Owes h q fresh v)))
            (subst (λ ps. Exact (put (hold h q) i q) (get ps i) p) (hold-ptrs h q)
              (put-Exact (hold h q) p n q i (rw (hold-ptrs h q) w.0) (hold-Exact h p n q fresh x))))
    ]
act-Exact h p (assigns_moved i cp) n w v x = elim (Bool-cases (cp == i)) [
  | inl e ↦ rw e x
  | inr e ↦ rw e (
      reset-Exact (swap h i cp) p n cp (rw (length-swap h i cp) w.1)
        (swap-IsCounted h i cp w.0 w.1 v) (swap-Exact h p n i cp w.0 w.1 x))
]
act-Exact h p (swaps i cp) n w v x = swap-Exact h p n i cp w.0 w.1 x
act-Exact h p (resets i) n w v x = reset-Exact h p n i w v x

acts-Exact :
    (rest : List Action) (h : Heap) (p : Ptr)
    → p ≢ null
    → AllowedAll h rest
    → length h.ptrs + length rest + 1 < size_mod
    → IsCounted h
    → Exact h null p
    → Exact (acts h rest) null p
unfolding acts
acts-Exact [] h p n w b v x = x
acts-Exact (a ∷ rest) h p n w b v x =
    acts-Exact rest (act h a) p n w.1 (omega (arith, act-length h a))
      (act-IsCounted h a w.0 (omega arith) v) (act-Exact h p a n w.0 v x)

-- Once a variable points to a state, and whatever is then done with the pointers, the state has been
-- freed once if no variable points to it any more, and has not been freed while one does: it is not
-- leaked, nor freed early or twice.
pub acts-freed :
    (rest : List Action) (h : Heap) (p : Ptr)
    → p ≢ null
    → 1 ≤ occ p h.ptrs
    → AllowedAll h rest
    → length h.ptrs + length rest + 1 < size_mod
    → IsCounted h
    → (acts h rest).freed p ≡ (if occ p (acts h rest).ptrs == 0 then 1 else 0)
acts-freed rest h p n some_ptr w b v =
    let start : Exact h null p = ground (arith, v.once p n, v.dead p n) in
    ground (arith, acts-Exact rest h p n w b v start)
