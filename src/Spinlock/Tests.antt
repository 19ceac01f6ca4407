-- ===== src/Spinlock/Tests.antt =====
-- Runs of spinlock.h, and its theorems at three threads.
use librf.Prelude.{◌≡◌, refl, true, false, List, [], ◌∷◌, inl}
use librf.Spinlock.{loading, inside, Turn, locks, tries, unlocks, spinlock, turns}
use librf.Spinlock.Exclusion.{Excludes, turns-Excludes}
use librf.Spinlock.Backoff.{backoff, spins}
use librf.Spinlock.Waiting.{failed_loads, turns-backoff}

-- Thread 1 takes the lock; 2 waits; 3 tries; 1 unlocks; 2 fails once without cause, and gets it.
abbrev waits_turn : List Turn
waits_turn = locks 1 false ∷ locks 2 false ∷ tries 3 ∷ locks 2 false ∷ locks 2 false ∷ []

abbrev gets_it : List Turn
gets_it = unlocks 1 ∷ locks 2 false ∷ locks 2 true ∷ locks 2 false ∷ locks 2 false ∷ []

two_loads : (turns spinlock waits_turn).pcs 2 ≡ loading (spins 2)
unfolding turns spinlock spins
two_loads = refl

gets_in : (turns (turns spinlock waits_turn) gets_it).pcs 2 ≡ inside
unfolding turns spinlock
gets_in = refl

turns-Excludes_example : Excludes (turns spinlock waits_turn)
turns-Excludes_example = turns-Excludes waits_turn

turns-backoff_example : spins 2 ≡ backoff (failed_loads 2 spinlock 0 waits_turn)
unfolding turns spinlock spins
turns-backoff_example = turns-backoff waits_turn 2 (spins 2) (inl refl)

counted : failed_loads 2 spinlock 0 waits_turn ≡ 2
unfolding failed_loads spinlock
counted = refl
