-- ===== src/Generator/Asks.antt =====
-- source/state.cpp: what a generator asks of its scheduler at each resumption.
use librf.Prelude.{
  occ, occ-append, ℕ, zero, suc, ◌+◌, ◌≤◌, ◌≡◌, refl, true, false, List, [], ◌∷◌, Option, none,
  some, arith, length, if◌then◌else◌, ◌==◌, ltb,
}
use librf.LinkQueue.{Ptr}
use librf.Scheduler.{
  Request, adds, spawns, drops, Scheduler, has, emplace, erase, request, add_generator, new_task,
}
use librf.Generator.{has_handler, Generator, resume, resume_coro, advance}

module _ {ℓ} {A : Type ℓ} where
  -- A generator after some resumptions, and what the next one asks.
  unfoldable pub after : ℕ → Ptr → Generator A → Generator A
  after zero p g = g
  after (suc k) p g = elim (resume p g) [ none ↦ g | some (rs, g') ↦ after k p g' ]

  unfoldable pub asks_next : ℕ → Ptr → Generator A → List Request
  unfolding after
  asks_next k p g = elim (resume p (after k p g)) [ none ↦ [] | some (rs, g') ↦ rs ]

  -- What the generators ask of the scheduler, by how often each was resumed.
  unfoldable pub bodies : (Ptr → Generator A) → List Ptr → Ptr → List Request
  unfolding asks_next
  bodies gens resumed p = asks_next (occ p resumed) p (gens p)

  abbrev pub started : List A → Option A → Generator A → Generator A
  started ys r g = record g {
    has_coro = true;
    frame = record g.frame { rest = ys; result = r; done = false };
  }

  -- After the value `y` was yielded.
  abbrev pub yielded : A → Generator A → Generator A
  yielded y g = record g { frame = record g.frame { current_value = some y } }

  pub asks_next-suc :
      (y : A) (ys : List A) (k : ℕ) (p : Ptr) (r : Option A) (g : Generator A)
      → asks_next (suc k) p (started (y ∷ ys) r g) ≡ asks_next k p (started ys r (yielded y g))
  unfolding asks_next after resume resume_coro advance
  asks_next-suc y ys k p r g = refl

  pub asks_next-zero :
      (ys : List A) (p : Ptr) (r : Option A) (g : Generator A)
      → asks_next 0 p (started ys r g) ≡ (if ltb 0 (length ys) then adds p ∷ [] else drops p ∷ [])
  unfolding asks_next after resume resume_coro advance
  asks_next-zero [] p r g = refl
  asks_next-zero (y ∷ ys) p r g = ground arith

  pub asks_next-started :
      (ys : List A) (k : ℕ) (p : Ptr) (r : Option A) (g : Generator A)
      → k ≤ length ys
      → asks_next k p (started ys r g) ≡ (if ltb k (length ys) then adds p ∷ [] else drops p ∷ [])
  asks_next-started ys zero p r g le = asks_next-zero ys p r g
  asks_next-started [] (suc k) p r g le = absurd (omega arith)
  asks_next-started (y ∷ ys) (suc k) p r g le =
      ground
        (arith, asks_next-suc y ys k p r g, asks_next-started ys k p r (yielded y g) (omega arith))

pub has-erase :
    (p q : Ptr) (ps : List Ptr) → has p (erase q ps) ≡ (if q == p then false else has p ps)
unfolding has erase
has-erase p q [] = ground arith
has-erase p q (x ∷ ps) = ground (arith, has-erase p q ps)

pub has-emplace :
    (p q : Ptr) (ps : List Ptr) → has p (emplace q ps) ≡ (if q == p then true else has p ps)
unfolding has emplace
has-emplace p q ps = ground arith

pub nil_of_has : (ps : List Ptr) → ((p : Ptr) → has p ps ≡ false) → ps ≡ []
unfolding has
nil_of_has [] h = refl
nil_of_has (p ∷ ps) h = ground (arith, h p)

pub has-eq-occ : (p : Ptr) (ps : List Ptr) → has p ps ≡ ltb 0 (occ p ps)
unfolding has
has-eq-occ p [] = refl
has-eq-occ p (q ∷ ps) = ground (arith, has-eq-occ p ps)

-- The tasks that are started, each with a generator that has its handler.
abbrev pub start {ℓ} : {A : Type ℓ} → (Ptr → Generator A) → List Ptr → List Request
start gens [] = []
start gens (p ∷ ps) = spawns p (has_handler (gens p)) ∷ start gens ps

module _ {ℓ κ} {T : Type ℓ} {A : Type κ} where
  pub request-start :
      (gens : Ptr → Generator A) (ps : List Ptr) (s : Scheduler T) (p : Ptr)
      → ((q : Ptr) → has_handler (gens q) ≡ true)
      → let r = request s (start gens ps) in
        (occ p r.runing_states ≡ occ p s.runing_states + occ p ps)
        × (has p r.ready_task ≡ (if has p ps then true else has p s.ready_task))
        × (r.resumed ≡ s.resumed)
  unfolding request new_task add_generator has
  request-start gens [] s p h = (omega arith, refl, refl)
  request-start gens (q ∷ ps) s p h =
      let s' = new_task s q true in
      let ih = request-start gens ps s' p h in
      rw (h q) (
        ground (arith, ih, occ-append p q s.runing_states),
        ground (arith, ih, has-emplace p q s.ready_task),
        ih.2,
      )
