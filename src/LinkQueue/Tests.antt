-- ===== src/LinkQueue/Tests.antt =====
-- Runs of intrusive_link_queue.h, and its theorems at concrete queues.
use librf.Prelude.{Bool, ℕ, ◌≡◌, refl, true, false, List, [], ◌∷◌, arith}
use librf.LinkQueue.{
  Node, Links, LinkQueue, empty_queue, push_back, push_front, erase, try_pop, size, null,
}
use librf.LinkQueue
use librf.LinkQueue.Refine.{empty_queue-IsQueue}
use librf.LinkQueue.Deque.{
  Op, back, front, drop, pop, Seen, run, run_list, PermitsAll, call, call_list, remove, run-list,
}

abbrev blank : Links
blank _ = record { prev = 0; next = 0 }

abbrev seen : ℕ → ℕ → Bool → Seen
seen e n b = record { node = e; count = n; none_left = b }

abbrev script : List Op
script = back 4 ∷ back 5 ∷ front 3 ∷ drop 4 ∷ pop ∷ pop ∷ pop ∷ []

run-script :
    run (empty_queue blank) script
    ≡ seen 0 1 false
      ∷ seen 0 2 false
      ∷ seen 0 3 false
      ∷ seen 0 2 false
      ∷ seen 3 1 false
      ∷ seen 5 0 true
      ∷ seen 0 0 true
      ∷ []
unfolding run call empty_queue push_back push_front erase try_pop size LinkQueue.empty
run-script = refl

script-Permitted : PermitsAll [] script
unfolding PermitsAll call_list remove
script-Permitted = ground arith

run-list_example : run (empty_queue blank) script ≡ run_list [] script
run-list_example =
    run-list script (empty_queue blank) [] (empty_queue-IsQueue blank) script-Permitted
