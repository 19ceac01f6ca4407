-- ===== src/LocalScheduler/Bound.antt =====
-- scheduler.cpp: the scheduler that a thread is bound to.
use librf.Prelude.{
  ℕ, ◌≡◌, refl, Bool, true, false, not, ◌&&◌, ◌||◌, List, [], ◌∷◌, if◌then◌else◌, ◌==◌, ltb, arith,
  Bool-cases, inl, inr,
}
use librf.CountedPtr.{Ptr, null}
use librf.LocalScheduler.{
  Threads, g_scheduler, threads, this_scheduler, construct, construct_with, construct_scheduler,
  destroy_scheduler, destroy, leave, Act, constructs, constructs_global, leaves, act, acts, push,
}

-- The first guard of a thread, and whether all later ones have a null pointer.
unfoldable pub first : List Ptr → Ptr
first [] = null
first (p ∷ []) = p
first (p ∷ q ∷ qs) = first (q ∷ qs)

unfoldable pub later_null : List Ptr → Bool
later_null [] = true
later_null (p ∷ []) = true
later_null (p ∷ q ∷ qs) = (p == null) && later_null (q ∷ qs)

abbrev pub is_nil : List Ptr → Bool
is_nil [] = true
is_nil (p ∷ ps) = false

-- What holds of a thread: its pointer, its guards, and which schedulers exist.
unfoldable pub bound : Ptr → List Ptr → (Ptr → Bool) → (next : Ptr) → Bool
unfolding first later_null
bound th gs exists next =
    let p = first gs in
    later_null gs
    && (if th == null then is_nil gs else exists th)
    && (if p == null
        then (th == null) || (th == g_scheduler)
        else (th == p) && (ltb g_scheduler p && ltb p next))

pub record IsBound (w : Threads) : Type 0 where
  pub each : (t : ℕ) → bound (w.th_scheduler_ptr t) (w.guards t) w.exists w.next ≡ true
  pub global : (w.exists g_scheduler && ltb g_scheduler w.next) ≡ true
  pub distinct :
      (t u : ℕ)
      → ((first (w.guards t) == null) || not (first (w.guards t) == first (w.guards u)) || (t == u))
        ≡ true

first-push_null : (gs : List Ptr) → first (null ∷ gs) ≡ first gs
unfolding first
first-push_null [] = refl
first-push_null (p ∷ ps) = refl

later_null-push_null : (gs : List Ptr) → later_null (null ∷ gs) ≡ later_null gs
unfolding later_null
later_null-push_null [] = refl
later_null-push_null (p ∷ ps) = refl

push-IsBound :
    (w : Threads) (t : ℕ)
    → (w.th_scheduler_ptr t == null) ≡ false
    → IsBound w
    → IsBound (push w t null)
unfolding bound
push-IsBound w t e h = record {
  each = λ u. ground (
    arith,
    h.each u,
    h.each t,
    e,
    first-push_null (w.guards t),
    later_null-push_null (w.guards t),
  );
  global = h.global;
  distinct = λ u v.
      ground (arith, h.distinct u v, h.distinct t v, h.distinct u t, first-push_null (w.guards t));
}

-- A thread that is bound to nothing has no guard.
unbound :
    (w : Threads) (t : ℕ) → (w.th_scheduler_ptr t == null) ≡ true → IsBound w → w.guards t ≡ []
unfolding bound
unbound w t e h = is_nil_lem (w.guards t) (ground (arith, h.each t, e))
  where
    is_nil_lem : (gs : List Ptr) → is_nil gs ≡ true → gs ≡ []
    is_nil_lem [] d = refl
    is_nil_lem (p ∷ ps) d = ground (arith, d)

construct-IsBound : (w : Threads) (t : ℕ) → IsBound w → IsBound (construct w t)
unfolding construct construct_scheduler bound first later_null
construct-IsBound w t h = elim (Bool-cases (w.th_scheduler_ptr t == null)) [
  | inl e ↦ rw e (record {
    each = λ u. ground (arith, h.each u, h.each t, h.global, unbound w t e h);
    global = ground (arith, h.global);
    distinct = λ u v. ground (arith, h.distinct u v, h.each u, h.each v, unbound w t e h);
  })
  | inr e ↦ rw e (push-IsBound w t e h)
]

construct_with-IsBound :
    (w : Threads) (t : ℕ) → IsBound w → IsBound (construct_with w t g_scheduler)
unfolding construct_with bound first later_null
construct_with-IsBound w t h = elim (Bool-cases (w.th_scheduler_ptr t == null)) [
  | inl e ↦ rw e (record {
    each = λ u. ground (arith, h.each u, h.each t, h.global, unbound w t e h);
    global = ground (arith, h.global);
    distinct = λ u v. ground (arith, h.distinct u v, h.each u, h.each v, unbound w t e h);
  })
  | inr e ↦ rw e (push-IsBound w t e h)
]

leave-IsBound :
    (w : Threads) (t : ℕ) (gs : List Ptr) → w.guards t ≡ gs → IsBound w → IsBound (leave w t gs)
unfolding leave destroy destroy_scheduler bound first later_null
leave-IsBound w t [] e h = h
leave-IsBound w t (p ∷ []) e h = record {
  each = λ u. ground (arith, h.each u, h.each t, h.distinct t u, h.distinct u t, h.global, e);
  global = ground (arith, h.each t, h.global, e);
  distinct = λ u v. ground (arith, h.distinct u v, e);
}
leave-IsBound w t (p ∷ q ∷ qs) e h = record {
  each = λ u. ground (arith, h.each u, h.each t, h.distinct t u, h.distinct u t, h.global, e);
  global = ground (arith, h.each t, h.global, e);
  distinct = λ u v. ground (arith, h.distinct u v, h.distinct t v, h.distinct u t, e);
}

act-IsBound : (w : Threads) (a : Act) → IsBound w → IsBound (act w a)
unfolding act
act-IsBound w (constructs t) h = construct-IsBound w t h
act-IsBound w (constructs_global t) h = construct_with-IsBound w t h
act-IsBound w (leaves t) h = leave-IsBound w t (w.guards t) refl h

acts-IsBound : (xs : List Act) (w : Threads) → IsBound w → IsBound (acts w xs)
unfolding acts
acts-IsBound [] w h = h
acts-IsBound (a ∷ xs) w h = acts-IsBound xs (act w a) (act-IsBound w a h)

threads-IsBound : IsBound threads
unfolding threads construct_scheduler bound first later_null
threads-IsBound = record { each = λ t. ground arith; global = refl; distinct = λ t u. refl }

-- After any history of guards on any threads, where a guard binds a new scheduler or the global one:
-- the scheduler of each thread exists, it is the one that the thread's first guard made if that made
-- one, and two threads have the same scheduler only if it is the global one.
pub acts-this_scheduler :
    (xs : List Act) (t u : ℕ)
    → let w = acts threads xs in
      (w.exists (this_scheduler w t) ≡ true)
      × (((first (w.guards t) == null) || (this_scheduler w t == first (w.guards t))) ≡ true)
      × (((this_scheduler w t == g_scheduler)
            || not (this_scheduler w t == this_scheduler w u)
            || (t == u))
          ≡ true)
unfolding this_scheduler bound
acts-this_scheduler xs t u =
    let w = acts threads xs in
    let h = acts-IsBound xs threads threads-IsBound in
    (
      ground (arith, h.each t, h.global),
      ground (arith, h.each t, h.global),
      ground (arith, h.each t, h.each u, h.distinct t u),
    )
