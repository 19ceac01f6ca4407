-- ===== src/LocalScheduler/Tests.antt =====
-- Runs of the guards `local_scheduler_t`, and their theorem at a concrete history.
use librf.Prelude.{◌≡◌, refl, true, false, not, ◌||◌, List, [], ◌∷◌, ◌==◌}
use librf.CountedPtr.{null}
use librf.LocalScheduler.{
  g_scheduler, Threads, Act, constructs, constructs_global, leaves, threads, this_scheduler,
  construct_with, acts,
}
use librf.LocalScheduler.Bound.{first, acts-this_scheduler}

abbrev history : List Act
history =
    constructs 1
    ∷ constructs 1
    ∷ constructs 2
    ∷ constructs_global 2
    ∷ leaves 1
    ∷ leaves 2
    ∷ constructs_global 3
    ∷ leaves 3
    ∷ []

abbrev after : Threads
after = acts threads history

own : this_scheduler after 1 ≡ 2
unfolding acts threads this_scheduler
own = refl

-- A thread stays bound to the global scheduler after its guard has ended.
stays : this_scheduler after 3 ≡ g_scheduler
unfolding acts threads this_scheduler
stays = refl

unbinds : (acts after (leaves 1 ∷ [])).th_scheduler_ptr 1 ≡ null
unfolding acts threads
unbinds = refl

-- The thread 4 binds the scheduler that the thread 1 has made, and its guard ends; then that of the
-- thread 1 ends.
abbrev borrowed : Threads
borrowed = acts (construct_with after 4 2) (leaves 4 ∷ leaves 1 ∷ [])

dangles : borrowed.exists (this_scheduler borrowed 4) ≡ false
unfolding acts threads this_scheduler construct_with
dangles = refl

acts-this_scheduler_example :
    (after.exists (this_scheduler after 1) ≡ true)
    × (((first (after.guards 1) == null) || (this_scheduler after 1 == first (after.guards 1)))
        ≡ true)
    × (((this_scheduler after 1 == g_scheduler)
          || not (this_scheduler after 1 == this_scheduler after 2)
          || (1 == 2))
        ≡ true)
acts-this_scheduler_example = acts-this_scheduler history 1 2
