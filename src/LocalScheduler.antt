-- ===== src/LocalScheduler.antt =====
-- source/scheduler.cpp: the scheduler of a thread, `this_scheduler`, and the guards
-- `local_scheduler_t` that bind one to it. A guard is a local variable, so that a thread's guards end
-- in the order opposite to that of their construction.
pub mod Bound
mod Tests
use librf.Prelude.{ℕ, suc, Bool, true, false, not, List, [], ◌∷◌, if◌then◌else◌, ◌==◌}
use librf.CountedPtr.{Ptr, null}

abbrev pub g_scheduler : Ptr
g_scheduler = 1

-- `th_scheduler_ptr` and the guards of every thread, a guard by its `_scheduler_ptr`, the latest
-- first; which schedulers exist; and the address of the next one.
pub record Threads : Type 0 where
  pub th_scheduler_ptr : ℕ → Ptr
  pub guards : ℕ → List Ptr
  pub exists : Ptr → Bool
  pub next : Ptr

abbrev pub store {ℓ} : {V : Type ℓ} → (ℕ → V) → ℕ → V → ℕ → V
store f t v u = if t == u then v else f u

-- The constructor of a scheduler, for its address.
unfoldable pub construct_scheduler : Threads → (thread : ℕ) → Ptr → Threads
construct_scheduler w t p =
    let w' : Threads = record w { exists = store w.exists p true } in
    if w.th_scheduler_ptr t == null
    then record w' { th_scheduler_ptr = store w.th_scheduler_ptr t p }
    else w'

unfoldable pub destroy_scheduler : Threads → (thread : ℕ) → Ptr → Threads
destroy_scheduler w t p =
    let w' : Threads = record w { exists = store w.exists p false } in
    if w.th_scheduler_ptr t == p
    then record w' { th_scheduler_ptr = store w.th_scheduler_ptr t null }
    else w'

-- The program before the first thread binds a scheduler: the global one was made by the thread 0.
unfoldable pub threads : Threads
unfolding construct_scheduler
threads =
    construct_scheduler
      (record { th_scheduler_ptr = λ t. null; guards = λ t. []; exists = λ p. false; next = 2 }) 0
      g_scheduler

unfoldable pub this_scheduler : Threads → (thread : ℕ) → Ptr
this_scheduler w t =
    if not (w.th_scheduler_ptr t == null) then w.th_scheduler_ptr t else g_scheduler

abbrev pub push : Threads → (thread : ℕ) → Ptr → Threads
push w t p = record w { guards = store w.guards t (p ∷ w.guards t) }

-- The two constructors of a guard.
unfoldable pub construct : Threads → (thread : ℕ) → Threads
unfolding construct_scheduler
construct w t =
    let made = construct_scheduler (record w { next = suc w.next }) t w.next in
    if w.th_scheduler_ptr t == null
    then push (record made { th_scheduler_ptr = store made.th_scheduler_ptr t w.next }) t w.next
    else push w t null

unfoldable pub construct_with : Threads → (thread : ℕ) → (sch : Ptr) → Threads
construct_with w t sch =
    if w.th_scheduler_ptr t == null
    then push (record w { th_scheduler_ptr = store w.th_scheduler_ptr t sch }) t null
    else push w t null

-- The destructor of a guard, for its `_scheduler_ptr`; `delete` of a null pointer does nothing.
unfoldable pub destroy : Threads → (thread : ℕ) → Ptr → Threads
unfolding destroy_scheduler
destroy w t p =
    let w' : Threads =
      if w.th_scheduler_ptr t == p
      then record w { th_scheduler_ptr = store w.th_scheduler_ptr t null }
      else w in
    if p == null then w' else destroy_scheduler w' t p

-- The end of the latest guard of a thread.
unfoldable pub leave : Threads → (thread : ℕ) → List Ptr → Threads
unfolding destroy
leave w t [] = w
leave w t (p ∷ rest) = destroy (record w { guards = store w.guards t rest }) t p

pub data Act : Type 0 where
  constructs : (thread : ℕ) → Act
  constructs_global : (thread : ℕ) → Act
  leaves : (thread : ℕ) → Act

unfoldable pub act : Threads → Act → Threads
unfolding construct construct_with leave
act w (constructs t) = construct w t
act w (constructs_global t) = construct_with w t g_scheduler
act w (leaves t) = leave w t (w.guards t)

unfoldable pub acts : Threads → List Act → Threads
unfolding act
acts w [] = w
acts w (a ∷ rest) = acts (act w a) rest
