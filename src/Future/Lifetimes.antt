-- ===== src/Future/Lifetimes.antt =====
-- state.h and state.inl: what is constructed in the union of a state is destroyed once.
use librf.Prelude.{suc, ◌≡◌, refl, ap, false, List, [], ◌∷◌, Option, some}
use librf.Future as Future
use librf.Future.{Result, no_result, value, exception, Got, new_state}
use librf.Future.Storage.{
  nothing_set, value_set, exception_set, dead, object, pointer, held, moved, Storage, storage,
  set_value_internal, set_exception_internal, destroy, set_value_internal_ref,
  set_exception_internal_ref, destroy_ref, assign_value, assign_exception, destroy_value,
  destroy_exception, await_resume, Set, values, exceptions, sets, sets_ref,
}

module _ {ℓ} {A E : Type ℓ} where
  -- The last result that was set.
  unfoldable pub last : Result A E → List (Set A E) → Result A E
  last r [] = r
  last r (values val ∷ xs) = last (value val) xs
  last r (exceptions e ∷ xs) = last (exception e) xs

  -- The storage holds the result, in a state of objects and in a state of references.
  unfoldable pub Holds : Result A E → Storage A E → Type ℓ
  Holds no_result s = (s.has_value ≡ nothing_set) × (s.member ≡ dead) × (s.begun ≡ s.ended)
  Holds (value val) s =
      (s.has_value ≡ value_set) × (s.member ≡ object val) × (s.begun ≡ suc s.ended)
  Holds (exception e) s =
      (s.has_value ≡ exception_set) × (s.member ≡ held e) × (s.begun ≡ suc s.ended)

  unfoldable pub HoldsRef : Result A E → Storage A E → Type ℓ
  HoldsRef no_result s = (s.has_value ≡ nothing_set) × (s.member ≡ dead) × (s.begun ≡ s.ended)
  HoldsRef (value val) s =
      (s.has_value ≡ value_set) × (s.member ≡ pointer val) × (s.begun ≡ s.ended)
  HoldsRef (exception e) s =
      (s.has_value ≡ exception_set) × (s.member ≡ held e) × (s.begun ≡ suc s.ended)

  set_value_internal-Holds :
      (r : Result A E) (s : Storage A E) (val : A)
      → Holds r s
      → (s' : Storage A E) × (set_value_internal val s ≡ some s') × Holds (value val) s'
  unfolding set_value_internal Holds assign_value destroy_exception
  set_value_internal-Holds no_result s val (t, m, c) = rw t (_, refl, (refl, refl, ap suc c))
  set_value_internal-Holds (value v) s val (t, m, c) = rw (t, m) (_, refl, (refl, refl, c))
  set_value_internal-Holds (exception e) s val (t, m, c) =
      rw (t, m) (_, refl, (refl, refl, ap suc c))

  set_exception_internal-Holds :
      (r : Result A E) (s : Storage A E) (e : E)
      → Holds r s
      → (s' : Storage A E) × (set_exception_internal e s ≡ some s') × Holds (exception e) s'
  unfolding set_exception_internal Holds assign_exception destroy_value
  set_exception_internal-Holds no_result s e (t, m, c) = rw t (_, refl, (refl, refl, ap suc c))
  set_exception_internal-Holds (value v) s e (t, m, c) = rw (t, m) (_, refl, (refl, refl, ap suc c))
  set_exception_internal-Holds (exception x) s e (t, m, c) = rw (t, m) (_, refl, (refl, refl, c))

  set_value_internal_ref-HoldsRef :
      (r : Result A E) (s : Storage A E) (val : A)
      → HoldsRef r s
      → (s' : Storage A E) × (set_value_internal_ref val s ≡ some s') × HoldsRef (value val) s'
  unfolding set_value_internal_ref HoldsRef destroy_exception
  set_value_internal_ref-HoldsRef no_result s val (t, m, c) = rw t (_, refl, (refl, refl, c))
  set_value_internal_ref-HoldsRef (value v) s val (t, m, c) = rw t (_, refl, (refl, refl, c))
  set_value_internal_ref-HoldsRef (exception e) s val (t, m, c) =
      rw (t, m) (_, refl, (refl, refl, c))

  set_exception_internal_ref-HoldsRef :
      (r : Result A E) (s : Storage A E) (e : E)
      → HoldsRef r s
      → (s' : Storage A E) × (set_exception_internal_ref e s ≡ some s') × HoldsRef (exception e) s'
  unfolding set_exception_internal_ref HoldsRef assign_exception
  set_exception_internal_ref-HoldsRef no_result s e (t, m, c) =
      rw t (_, refl, (refl, refl, ap suc c))
  set_exception_internal_ref-HoldsRef (value v) s e (t, m, c) =
      rw t (_, refl, (refl, refl, ap suc c))
  set_exception_internal_ref-HoldsRef (exception x) s e (t, m, c) =
      rw (t, m) (_, refl, (refl, refl, c))

  sets-Holds :
      (xs : List (Set A E)) (r : Result A E) (s : Storage A E)
      → Holds r s
      → (s' : Storage A E) × (sets xs s ≡ some s') × Holds (last r xs) s'
  unfolding sets last
  sets-Holds [] r s h = (s, refl, h)
  sets-Holds (values val ∷ xs) r s h =
      let (n, e, k) = set_value_internal-Holds r s val h in
      rw (e, sets) (sets-Holds xs (value val) n k)
  sets-Holds (exceptions x ∷ xs) r s h =
      let (n, e, k) = set_exception_internal-Holds r s x h in
      rw (e, sets) (sets-Holds xs (exception x) n k)

  sets_ref-HoldsRef :
      (xs : List (Set A E)) (r : Result A E) (s : Storage A E)
      → HoldsRef r s
      → (s' : Storage A E) × (sets_ref xs s ≡ some s') × HoldsRef (last r xs) s'
  unfolding sets_ref last
  sets_ref-HoldsRef [] r s h = (s, refl, h)
  sets_ref-HoldsRef (values val ∷ xs) r s h =
      let (n, e, k) = set_value_internal_ref-HoldsRef r s val h in
      rw (e, sets_ref) (sets_ref-HoldsRef xs (value val) n k)
  sets_ref-HoldsRef (exceptions x ∷ xs) r s h =
      let (n, e, k) = set_exception_internal_ref-HoldsRef r s x h in
      rw (e, sets_ref) (sets_ref-HoldsRef xs (exception x) n k)

  -- A storage that was set, read and destroyed without undefined behaviour, where the read gives the
  -- result `r` and nothing is left to destroy.
  pub record Lived (run : Option (Storage A E)) (r : Result A E)
      (destructor : Storage A E → Option (Storage A E)) : Type ℓ where
    pub set_state : Storage A E
    pub is_set : run ≡ some set_state
    pub read_state : Storage A E
    pub is_read :
        await_resume set_state ≡ some (Future.await_resume (new_state r false false), read_state)
    pub final_state : Storage A E
    pub is_destroyed : destructor read_state ≡ some final_state
    pub balanced : final_state.begun ≡ final_state.ended

  Lived-sets :
      (r : Result A E) (run : Option (Storage A E)) (s : Storage A E)
      → run ≡ some s
      → Holds r s
      → Lived run r destroy
  unfolding Holds await_resume destroy destroy_value destroy_exception Future.await_resume new_state
  Lived-sets no_result run s e (t, m, c) = record {
    set_state = s;
    is_set = e;
    read_state = s;
    is_read = rw t refl;
    final_state = s;
    is_destroyed = rw t refl;
    balanced = c;
  }
  Lived-sets (value val) run s e (t, m, c) = record {
    set_state = s;
    is_set = e;
    read_state = s;
    is_read = rw (t, m) refl;
    final_state = record s { member = dead; ended = suc s.ended };
    is_destroyed = rw (t, m) refl;
    balanced = c;
  }
  Lived-sets (exception x) run s e (t, m, c) = record {
    set_state = s;
    is_set = e;
    read_state = record s { member = moved };
    is_read = rw (t, m) refl;
    final_state = record s { member = dead; ended = suc s.ended };
    is_destroyed =
        rw t (ap (λ x'. some (record s { has_value = x'; member = dead; ended = suc s.ended })) t);
    balanced = c;
  }

  Lived-sets_ref :
      (r : Result A E) (run : Option (Storage A E)) (s : Storage A E)
      → run ≡ some s
      → HoldsRef r s
      → Lived run r destroy_ref
  unfolding HoldsRef await_resume destroy_ref destroy_exception Future.await_resume new_state
  Lived-sets_ref no_result run s e (t, m, c) = record {
    set_state = s;
    is_set = e;
    read_state = s;
    is_read = rw t refl;
    final_state = s;
    is_destroyed = rw t refl;
    balanced = c;
  }
  Lived-sets_ref (value val) run s e (t, m, c) = record {
    set_state = s;
    is_set = e;
    read_state = s;
    is_read = rw (t, m) refl;
    final_state = s;
    is_destroyed = rw t refl;
    balanced = c;
  }
  Lived-sets_ref (exception x) run s e (t, m, c) = record {
    set_state = s;
    is_set = e;
    read_state = record s { member = moved };
    is_read = rw (t, m) refl;
    final_state = record s { member = dead; ended = suc s.ended };
    is_destroyed =
        rw t (ap (λ x'. some (record s { has_value = x'; member = dead; ended = suc s.ended })) t);
    balanced = c;
  }

  -- Whatever values and exceptions are set in a new state, one after the other, in a state of objects
  -- or of references: no member is used that is not alive; the first read gives the last result that
  -- was set, as a state without a union does; and once the state is destroyed, each object and
  -- exception that was constructed in the union was destroyed.
  pub sets-Lived :
      (xs : List (Set A E))
      → Lived (sets xs storage) (last no_result xs) destroy
        × Lived (sets_ref xs storage) (last no_result xs) destroy_ref
  unfolding Holds HoldsRef storage
  sets-Lived xs =
      let (s, e, h) = sets-Holds xs no_result storage (refl, refl, refl) in
      let (s', e', h') = sets_ref-HoldsRef xs no_result storage (refl, refl, refl) in
      (
        Lived-sets (last no_result xs) (sets xs storage) s e h,
        Lived-sets_ref (last no_result xs) (sets_ref xs storage) s' e' h',
      )
