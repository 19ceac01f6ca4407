-- ===== src/CountedPtr/Tests.antt =====
-- Runs of counted_ptr.h, and its theorems at two states.
use librf.Prelude.{occ, ◌≡◌, refl, List, [], ◌∷◌, arith, if◌then◌else◌, ◌==◌}
use librf.CountedPtr.{Heap}
use librf.CountedPtr.Count.{IsCounted}
use librf.CountedPtr.Kept.{
  Action, constructs, adopts, copies, moves, assigns, assigns_moved, swaps, resets, act, acts,
  acts-IsCounted,
}
use librf.CountedPtr.Freed.{acts-freed}

abbrev fresh : Heap
fresh = record { ptrs = []; count = λ p. 0; freed = λ p. 0 }

fresh-IsCounted : IsCounted fresh
fresh-IsCounted = record {
  counted = λ p n. ground arith;
  once = λ p n. omega arith;
  dead = λ p n f. omega arith;
  room = omega arith;
}

-- Two pointers to 7 and one to 9, of which the second of 7 is assigned to it.
abbrev shared : List Action
shared = adopts 7 ∷ copies 0 ∷ adopts 9 ∷ constructs ∷ assigns 2 1 ∷ []

shared_counts : ((acts fresh shared).count 7 ≡ 3) × ((acts fresh shared).freed 9 ≡ 1)
unfolding acts act
shared_counts = (refl, refl)

-- The pointers move on, and all go.
abbrev gone : List Action
gone = moves 0 ∷ swaps 3 4 ∷ assigns_moved 1 3 ∷ resets 1 ∷ resets 2 ∷ []

gone_counts :
    let h = acts (acts fresh shared) gone in
    (h.count 7 ≡ 0) × (h.freed 7 ≡ 1) × (h.ptrs ≡ 0 ∷ 0 ∷ 0 ∷ 0 ∷ 0 ∷ [])
unfolding acts act
gone_counts = (refl, refl, refl)

acts-IsCounted_example : IsCounted (acts fresh shared)
unfolding acts act
acts-IsCounted_example = acts-IsCounted shared fresh (omega arith) (omega arith) fresh-IsCounted

acts-freed_example :
    (acts (acts fresh shared) gone).freed 7
    ≡ (if occ 7 (acts (acts fresh shared) gone).ptrs == 0 then 1 else 0)
unfolding acts act
acts-freed_example =
    acts-freed gone (acts fresh shared) 7 (omega arith) (omega arith) (omega arith) (omega arith)
      (acts-IsCounted shared fresh (omega arith) (omega arith) fresh-IsCounted)
