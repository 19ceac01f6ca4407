-- ===== src/RingQueue/Tests.antt =====
-- Runs of ring_queue.h, and its theorems at concrete rings.
use librf.Prelude.{ℕ, ◌≡◌, refl, true, false, none, some, List, [], ◌∷◌, arith}
use librf.RingQueue.{RingQueue, ring_queue, capacity, size, try_push, try_pop}
use librf.RingQueue
use librf.RingQueue.Inv.{Holds, ahead}
use librf.RingQueue.Refine.{
  Op, push, pop, ask, pushed, popped, asked, run, run_fifo, run-ring_queue,
}

abbrev script : List (Op ℕ)
script = push 5 ∷ push 6 ∷ push 7 ∷ ask ∷ pop ∷ push 8 ∷ pop ∷ pop ∷ pop ∷ ask ∷ []

-- Two values fit; the third is refused.
run-script :
    run true (ring_queue 2) script
    ≡ pushed true
      ∷ pushed true
      ∷ pushed false
      ∷ asked 2 false true
      ∷ popped (some (some 5))
      ∷ pushed true
      ∷ popped (some (some 6))
      ∷ popped (some (some 8))
      ∷ popped none
      ∷ asked 0 true false
      ∷ []
unfolding run ring_queue try_push try_pop size RingQueue.empty RingQueue.full
run-script = refl

-- A queue of no capacity takes nothing.
run-no_capacity :
    run {A = ℕ} false (ring_queue 0) (push 1 ∷ pop ∷ []) ≡ pushed false ∷ popped none ∷ []
unfolding run ring_queue try_push try_pop
run-no_capacity = refl

run-ring_queue_example : run true (ring_queue 2) script ≡ run_fifo 2 [] script
run-ring_queue_example = run-ring_queue true 2 script (omega arith)

-- 8, then 9, round the end of the buffer.
abbrev wrapped : RingQueue ℕ
wrapped = record {
  buffer = some 9 ∷ none ∷ some 8 ∷ [];
  buffer_size = 3;
  write_index = 1;
  read_index = 2;
}

wrapped-Holds : Holds wrapped (8 ∷ 9 ∷ [])
unfolding ahead
wrapped-Holds = record {
  bound = omega arith;
  allocated = refl;
  read_in = omega arith;
  room = omega arith;
  write_at = refl;
  stored = (refl, (refl, tt));
}
