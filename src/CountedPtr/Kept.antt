-- ===== src/CountedPtr/Kept.antt =====
-- counted_ptr.h: every operation keeps the counts, over any sequence of them.
use librf.Prelude.{
  occ, ℕ, zero, suc, ◌+◌, ◌≤◌, ◌<◌, ◌≡◌, ◌≢◌, refl, subst, List, [], ◌∷◌, arith, size_mod, length,
  length-set, length-append, ◌==◌, set, inl, inr, Bool-cases,
}
use librf.CountedPtr.{
  Ptr, null, Heap, get, hold, drop, put, construct_null, construct_raw, construct_copy,
  construct_move, assign_copy, swap, reset, assign_move, unlock, lock,
}
use librf.CountedPtr.Count.{
  occ-set, Owes, IsCounted, hold-Owes, put-Owes, push-IsCounted, drop-IsCounted,
}

-- The operations, on variables `i` and `cp`.
pub data Action : Type 0 where
  constructs : Action
  adopts : (p : Ptr) → Action
  copies : (cp : ℕ) → Action
  moves : (cp : ℕ) → Action
  assigns : (i cp : ℕ) → Action
  assigns_moved : (i cp : ℕ) → Action
  swaps : (i cp : ℕ) → Action
  resets : (i : ℕ) → Action

unfoldable pub act : Heap → Action → Heap
unfolding construct_null construct_raw construct_copy construct_move assign_copy assign_move swap
    reset
act h constructs = construct_null h
act h (adopts p) = construct_raw h p
act h (copies cp) = construct_copy h cp
act h (moves cp) = construct_move h cp
act h (assigns i cp) = assign_copy h i cp
act h (assigns_moved i cp) = assign_move h i cp
act h (swaps i cp) = swap h i cp
act h (resets i) = reset h i

unfoldable pub acts : Heap → List Action → Heap
acts h [] = h
acts h (a ∷ rest) = acts (act h a) rest

-- The variables exist, and a bare pointer refers to a state that was not freed.
abbrev pub Allowed : Heap → Action → Type 0
Allowed h constructs = Unit
Allowed h (adopts p) = h.freed p ≡ 0
Allowed h (copies cp) = cp < length h.ptrs
Allowed h (moves cp) = cp < length h.ptrs
Allowed h (assigns i cp) = (i < length h.ptrs) × (cp < length h.ptrs)
Allowed h (assigns_moved i cp) = (i < length h.ptrs) × (cp < length h.ptrs)
Allowed h (swaps i cp) = (i < length h.ptrs) × (cp < length h.ptrs)
Allowed h (resets i) = i < length h.ptrs

abbrev pub AllowedAll : Heap → List Action → Type 0
AllowedAll h [] = Unit
AllowedAll h (a ∷ rest) = Allowed h a × AllowedAll (act h a) rest

pub occ-get : (p : Ptr) (ps : List Ptr) (i : ℕ) → i < length ps → occ p (get ps i ∷ []) ≤ occ p ps
occ-get p [] i lt = elim lt [ ]
occ-get p (q ∷ ps) zero lt = omega arith
occ-get p (q ∷ ps) (suc i) lt = ground (arith, occ-get p ps i (omega arith))

-- A state that a variable points to was not freed.
pub get-fresh :
    (h : Heap) (i : ℕ)
    → i < length h.ptrs
    → IsCounted h
    → get h.ptrs i ≢ null
    → h.freed (get h.ptrs i) ≡ 0
get-fresh h i lt v n =
    ground
      (arith, occ-get (get h.ptrs i) h.ptrs i lt, v.once (get h.ptrs i) n, v.dead (get h.ptrs i) n)

pub hold-ptrs : (h : Heap) (d : Ptr) → (hold h d).ptrs ≡ h.ptrs
unfolding hold lock
hold-ptrs h d = ground arith

pub drop-ptrs : (h : Heap) (d : Ptr) → (drop h d).ptrs ≡ h.ptrs
unfolding drop unlock
drop-ptrs h d = ground arith

pub reset-IsCounted : (h : Heap) (i : ℕ) → i < length h.ptrs → IsCounted h → IsCounted (reset h i)
unfolding reset
reset-IsCounted h i lt v = drop-IsCounted (put h i null) (get h.ptrs i) (put-Owes h null i lt v)

pub get-set_self : (ps : List Ptr) (i : ℕ) (v : Ptr) → i < length ps → get (set ps i v) i ≡ v
get-set_self [] i v lt = elim lt [ ]
get-set_self (p ∷ ps) zero v lt = refl
get-set_self (p ∷ ps) (suc i) v lt = get-set_self ps i v (omega arith)

get-set_ne : (ps : List Ptr) (i j : ℕ) (v : Ptr) → i ≢ j → get (set ps i v) j ≡ get ps j
get-set_ne [] i j v n = refl
get-set_ne (p ∷ ps) zero zero v n = absurd (n refl)
get-set_ne (p ∷ ps) zero (suc j) v n = refl
get-set_ne (p ∷ ps) (suc i) zero v n = refl
get-set_ne (p ∷ ps) (suc i) (suc j) v n = get-set_ne ps i j v (λ e. n (omega (arith, e)))

pub occ-swap :
    (p : Ptr) (ps : List Ptr) (i cp : ℕ)
    → i < length ps
    → cp < length ps
    → occ p (set (set ps i (get ps cp)) cp (get ps i)) ≡ occ p ps
occ-swap p ps i cp li lc = elim (Bool-cases (i == cp)) [
  | inl e ↦ ground (
    arith,
    occ-set p (get ps cp) ps i li,
    occ-set p (get ps i) (set ps i (get ps cp)) cp (omega (arith, lc, length-set ps i (get ps cp))),
    get-set_self ps i (get ps cp) li,
  )
  | inr e ↦ ground (
    arith,
    occ-set p (get ps cp) ps i li,
    occ-set p (get ps i) (set ps i (get ps cp)) cp (omega (arith, lc, length-set ps i (get ps cp))),
    get-set_ne ps i cp (get ps cp),
  )
]

pub length-swap : (h : Heap) (i cp : ℕ) → length (swap h i cp).ptrs ≡ length h.ptrs
unfolding swap
length-swap h i cp = omega (
  arith,
  length-set (set h.ptrs i (get h.ptrs cp)) cp (get h.ptrs i),
  length-set h.ptrs i (get h.ptrs cp),
)

pub swap-IsCounted :
    (h : Heap) (i cp : ℕ)
    → i < length h.ptrs
    → cp < length h.ptrs
    → IsCounted h
    → IsCounted (swap h i cp)
unfolding swap
swap-IsCounted h i cp li lc v = record {
  counted = λ p n. omega (arith, v.counted p n, occ-swap p h.ptrs i cp li lc);
  once = v.once;
  dead = λ p n f. omega (arith, v.dead p n f, occ-swap p h.ptrs i cp li lc);
  room = omega (
    arith,
    v.room,
    length-set (set h.ptrs i (get h.ptrs cp)) cp (get h.ptrs i),
    length-set h.ptrs i (get h.ptrs cp),
  );
}

pub act-IsCounted :
    (h : Heap) (a : Action)
    → Allowed h a
    → length h.ptrs + 2 < size_mod
    → IsCounted h
    → IsCounted (act h a)
unfolding act construct_null construct_raw construct_copy construct_move assign_copy assign_move
act-IsCounted h constructs w b v = push-IsCounted h null b v
act-IsCounted h (adopts p) w b v =
    push-IsCounted (hold h p) p (rw (hold-ptrs h p) b) (hold-Owes h p (λ n. w) v)
act-IsCounted h (copies cp) w b v =
    let p = get h.ptrs cp in
    push-IsCounted (hold h p) p (rw (hold-ptrs h p) b) (hold-Owes h p (get-fresh h cp w v) v)
act-IsCounted h (moves cp) w b v =
    push-IsCounted (put h cp null) (get h.ptrs cp) (omega (arith, b, length-set h.ptrs cp null))
      (put-Owes h null cp w v)
act-IsCounted h (assigns i cp) w b v =
    let p = get h.ptrs cp in
    let held = hold-Owes h p (get-fresh h cp w.1 v) v in
    elim (Bool-cases (cp == i)) [
      | inl e ↦ rw e v
      | inr e ↦ rw e (
          drop-IsCounted (put (hold h p) i p) (get h.ptrs i) (
            subst (λ ps. Owes (put (hold h p) i p) (get ps i)) (hold-ptrs h p)
              (put-Owes (hold h p) p i (rw (hold-ptrs h p) w.0) held)))
    ]
act-IsCounted h (assigns_moved i cp) w b v = elim (Bool-cases (cp == i)) [
  | inl e ↦ rw e v
  | inr e ↦ rw e (
      reset-IsCounted (swap h i cp) cp (rw (length-swap h i cp) w.1)
        (swap-IsCounted h i cp w.0 w.1 v))
]
act-IsCounted h (swaps i cp) w b v = swap-IsCounted h i cp w.0 w.1 v
act-IsCounted h (resets i) w b v = reset-IsCounted h i w v

pub act-length : (h : Heap) (a : Action) → length (act h a).ptrs ≤ length h.ptrs + 1
unfolding act construct_null construct_raw construct_copy construct_move assign_copy assign_move
    reset
act-length h constructs = omega (arith, length-append h.ptrs (null ∷ []))
act-length h (adopts p) = rw (hold-ptrs h p) (omega (arith, length-append h.ptrs (p ∷ [])))
act-length h (copies cp) =
    rw (hold-ptrs h (get h.ptrs cp)) (omega (arith, length-append h.ptrs (get h.ptrs cp ∷ [])))
act-length h (moves cp) =
    omega
      (arith, length-append (set h.ptrs cp null) (get h.ptrs cp ∷ []), length-set h.ptrs cp null)
act-length h (assigns i cp) =
    let p = get h.ptrs cp in
    elim (Bool-cases (cp == i)) [
      | inl e ↦ rw e (omega arith)
      | inr e ↦
          rw (e, drop-ptrs (put (hold h p) i p) (get h.ptrs i), hold-ptrs h p)
            (omega (arith, length-set h.ptrs i p))
    ]
act-length h (assigns_moved i cp) =
    let h' = swap h i cp in
    elim (Bool-cases (cp == i)) [
      | inl e ↦ rw e (omega arith)
      | inr e ↦
          rw (e, drop-ptrs (put h' cp null) (get h'.ptrs cp))
            (omega (arith, length-set h'.ptrs cp null, length-swap h i cp))
    ]
act-length h (swaps i cp) = omega (arith, length-swap h i cp)
act-length h (resets i) =
    rw (drop-ptrs (put h i null) (get h.ptrs i)) (omega (arith, length-set h.ptrs i null))

-- Whatever is done with the pointers to them, as long as the variables exist and no bare pointer to
-- a freed state is adopted: the count of every state is the number of variables that point to it, no
-- state is freed twice, and no variable points to a freed one. The count is an `intptr_t`, so there
-- are fewer variables than its range.
pub acts-IsCounted :
    (rest : List Action) (h : Heap)
    → AllowedAll h rest
    → length h.ptrs + length rest + 1 < size_mod
    → IsCounted h
    → IsCounted (acts h rest)
unfolding acts
acts-IsCounted [] h w b v = v
acts-IsCounted (a ∷ rest) h w b v =
    acts-IsCounted rest (act h a) w.1 (omega (arith, act-length h a))
      (act-IsCounted h a w.0 (omega arith) v)
