-- ===== src/Scheduler.antt =====
-- source/scheduler.cpp and include/librf/src/scheduler.h: `scheduler_t`, run by one thread. Its timer
-- is any component with an update and a test for emptiness; a state's virtual `resume` is a parameter,
-- which says what the coroutine asks of the scheduler until it is suspended again.
pub mod Fifo
pub mod Stops
mod Tests
use librf.Prelude.{
  ℕ, zero, suc, Bool, true, false, ◌&&◌, List, [], ◌∷◌, ◌++◌, Option, none, some, if◌then◌else◌,
  ◌==◌,
}
use librf.LinkQueue.{Ptr}

-- What a coroutine or a timer's callback may ask: `add_generator`, `new_task` of a state that has a
-- handler or not, `del_final` and `del_switch`.
pub data Request : Type 0 where
  adds : (state : Ptr) → Request
  spawns : (state : Ptr) → (has_handler : Bool) → Request
  drops : (state : Ptr) → Request

-- What the scheduler uses of its timer: what the callbacks of an update ask, and `empty`.
pub record TimerOps {ℓ} (T : Type ℓ) : Type ℓ where
  pub update : T → List Request × T
  pub empty : T → Bool

-- `ready_task` lists the keys of the dictionary. `added` lists the states that `add_generator` was
-- called with, `resumed` those that were resumed, the latest last.
pub record Scheduler {ℓ} (T : Type ℓ) : Type ℓ where
  pub runing_states : List Ptr
  pub ready_task : List Ptr
  pub timer : T
  pub added : List Ptr
  pub resumed : List Ptr

-- `emplace` and `erase` of the dictionary.
unfoldable pub has : Ptr → List Ptr → Bool
has p [] = false
has p (q ∷ qs) = if q == p then true else has p qs

unfoldable pub emplace : Ptr → List Ptr → List Ptr
unfolding has
emplace p ps = if has p ps then ps else p ∷ ps

unfoldable pub erase : Ptr → List Ptr → List Ptr
erase p [] = []
erase p (q ∷ qs) = if q == p then erase p qs else q ∷ erase p qs

abbrev pub is_nil : List Ptr → Bool
is_nil [] = true
is_nil (p ∷ ps) = false

module _ {ℓ} {T : Type ℓ} where
  unfoldable pub scheduler : T → Scheduler T
  scheduler t = record { runing_states = []; ready_task = []; timer = t; added = []; resumed = [] }

  unfoldable pub add_generator : Scheduler T → Ptr → Scheduler T
  add_generator s p = record s {
    runing_states = s.runing_states ++ (p ∷ []);
    added = s.added ++ (p ∷ []);
  }

  unfoldable pub new_task : Scheduler T → Ptr → Bool → Scheduler T
  unfolding add_generator emplace
  new_task s p has_handler =
      let s' : Scheduler T = record s { ready_task = emplace p s.ready_task } in
      if has_handler then add_generator s' p else s'

  unfoldable pub del_final : Scheduler T → Ptr → Scheduler T
  unfolding erase
  del_final s p = record s { ready_task = erase p s.ready_task }

  unfoldable pub request : Scheduler T → List Request → Scheduler T
  unfolding add_generator new_task del_final
  request s [] = s
  request s (adds p ∷ rs) = request (add_generator s p) rs
  request s (spawns p h ∷ rs) = request (new_task s p h) rs
  request s (drops p ∷ rs) = request (del_final s p) rs

module _ {ℓ} {T : Type ℓ} (ops : TimerOps T) where
  unfoldable pub update_timer : Scheduler T → Scheduler T
  unfolding request
  update_timer s = let (rs, t) = ops.update s.timer in request (record s { timer = t }) rs

module _ {ℓ} {T : Type ℓ} (ops : TimerOps T) (body : List Ptr → Ptr → List Request) where
  -- The loop of `run_one_batch`; what a coroutine asks may depend on what was resumed before.
  unfoldable pub resume_all : Scheduler T → List Ptr → Scheduler T
  unfolding request
  resume_all s [] = s
  resume_all s (p ∷ ps) =
      resume_all (request (record s { resumed = s.resumed ++ (p ∷ []) }) (body s.resumed p)) ps

  -- `run_one_batch` with the states that it swapped out.
  unfoldable pub run_batch : Scheduler T → List Ptr → Bool × Scheduler T
  unfolding resume_all
  run_batch s [] = (false, s)
  run_batch s (p ∷ ps) = (true, resume_all (record s { runing_states = [] }) (p ∷ ps))

  unfoldable pub run_one_batch : Scheduler T → Bool × Scheduler T
  unfolding run_batch update_timer
  run_one_batch s = let s1 = update_timer ops s in run_batch s1 s1.runing_states

  -- On fuel, one unit for each batch.
  unfoldable pub run_until_notask : ℕ → Scheduler T → Option (Scheduler T)
  unfolding run_one_batch
  run_until_notask zero s = none
  run_until_notask (suc f) s =
      let (ran, s') = run_one_batch s in
      let rest = run_until_notask f s' in
      if ran
      then rest
      else (if is_nil s'.ready_task then (if ops.empty s'.timer then some s' else rest) else rest)
