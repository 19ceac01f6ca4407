-- ===== src/Future/Storage.antt =====
-- include/librf/src/state.h and state.inl: the union in which `state_t<_Ty>` and `state_t<_Ty&>` keep
-- their result, with the lifetimes of what is in it. None is undefined behaviour: a use of a member
-- that is not alive, or a result that was already moved out.
use librf.Prelude.{ℕ, suc, List, [], ◌∷◌, Option, none, some}
use librf.Future.{Got, returns, rethrows, not_ready}

-- `_has_value`.
pub data Tag : Type 0 where
  nothing_set value_set exception_set : Tag

-- The member that is alive. A pointer needs no destruction; an exception that was moved out is a null
-- pointer.
pub data Member {ℓ} (A E : Type ℓ) : Type ℓ where
  dead : Member A E
  object : (val : A) → Member A E
  pointer : (val : A) → Member A E
  held : (e : E) → Member A E
  moved : Member A E

-- `begun` and `ended` count the objects and exceptions that were constructed and destroyed.
pub record Storage {ℓ} (A E : Type ℓ) : Type ℓ where
  pub has_value : Tag
  pub member : Member A E
  pub begun : ℕ
  pub ended : ℕ

module _ {ℓ} {A E : Type ℓ} where
  unfoldable pub storage : Storage A E
  storage = record { has_value = nothing_set; member = dead; begun = 0; ended = 0 }

  -- The destructors of the two members, and placement new.
  unfoldable pub destroy_value : Storage A E → Option (Storage A E)
  destroy_value s = elim s.member [
    | object val ↦ some (record s { member = dead; ended = suc s.ended })
    | _ ↦ none
  ]

  unfoldable pub destroy_exception : Storage A E → Option (Storage A E)
  destroy_exception s = elim s.member [
    | held e ↦ some (record s { member = dead; ended = suc s.ended })
    | moved ↦ some (record s { member = dead; ended = suc s.ended })
    | _ ↦ none
  ]

  abbrev pub new_value : A → Storage A E → Storage A E
  new_value val s = record s { has_value = value_set; member = object val; begun = suc s.begun }

  abbrev pub new_exception : E → Storage A E → Storage A E
  new_exception e s = record s { has_value = exception_set; member = held e; begun = suc s.begun }

  -- Assignment to a member that is alive.
  unfoldable pub assign_value : A → Storage A E → Option (Storage A E)
  assign_value val s = elim s.member [
    | object old ↦ some (record s { member = object val })
    | _ ↦ none
  ]

  unfoldable pub assign_exception : E → Storage A E → Option (Storage A E)
  assign_exception e s = elim s.member [
    | held old ↦ some (record s { member = held e })
    | moved ↦ some (record s { member = held e })
    | _ ↦ none
  ]

  -- `set_value_internal` and `set_exception_internal` of `state_t<_Ty>`.
  unfoldable pub set_value_internal : A → Storage A E → Option (Storage A E)
  unfolding assign_value destroy_exception
  set_value_internal val s = elim s.has_value [
    | value_set ↦ assign_value val s
    | exception_set ↦ elim (destroy_exception s) [ some s' ↦ some (new_value val s') | none ↦ none ]
    | nothing_set ↦ some (new_value val s)
  ]

  unfoldable pub set_exception_internal : E → Storage A E → Option (Storage A E)
  unfolding assign_exception destroy_value
  set_exception_internal e s = elim s.has_value [
    | exception_set ↦ assign_exception e s
    | value_set ↦ elim (destroy_value s) [ some s' ↦ some (new_exception e s') | none ↦ none ]
    | nothing_set ↦ some (new_exception e s)
  ]

  -- The destructor of `state_t<_Ty>`.
  unfoldable pub destroy : Storage A E → Option (Storage A E)
  unfolding destroy_value destroy_exception
  destroy s = elim s.has_value [
    | value_set ↦ destroy_value s
    | exception_set ↦ destroy_exception s
    | nothing_set ↦ some s
  ]

  -- The same of `state_t<_Ty&>`; `A` is the type of the addresses.
  unfoldable pub set_value_internal_ref : A → Storage A E → Option (Storage A E)
  unfolding destroy_exception
  set_value_internal_ref val s =
      let set = λ (s' : Storage A E). record s' { has_value = value_set; member = pointer val } in
      elim s.has_value [
        | exception_set ↦ elim (destroy_exception s) [ some s' ↦ some (set s') | none ↦ none ]
        | _ ↦ some (set s)
      ]

  unfoldable pub set_exception_internal_ref : E → Storage A E → Option (Storage A E)
  unfolding assign_exception
  set_exception_internal_ref e s = elim s.has_value [
    | exception_set ↦ assign_exception e s
    | _ ↦ some (new_exception e s)
  ]

  unfoldable pub destroy_ref : Storage A E → Option (Storage A E)
  unfolding destroy_exception
  destroy_ref s = elim s.has_value [ exception_set ↦ destroy_exception s | _ ↦ some s ]

  -- `future_await_resume`: what it returns or throws, and what it leaves. A value that was moved out is
  -- still an object.
  unfoldable pub await_resume : Storage A E → Option (Got A E × Storage A E)
  await_resume s = elim s.has_value [
    | nothing_set ↦ some (not_ready, s)
    | exception_set ↦ elim s.member [
      | held e ↦ some (rethrows e, record s { member = moved })
      | _ ↦ none
    ]
    | value_set ↦ elim s.member [
      | object val ↦ some (returns val, record s { member = object val })
      | pointer val ↦ some (returns val, record s { member = pointer val })
      | _ ↦ none
    ]
  ]

-- What is set, one after the other.
pub data Set {ℓ} (A E : Type ℓ) : Type ℓ where
  values : (val : A) → Set A E
  exceptions : (e : E) → Set A E

module _ {ℓ} {A E : Type ℓ} where
  unfoldable pub sets : List (Set A E) → Storage A E → Option (Storage A E)
  unfolding set_value_internal set_exception_internal
  sets [] s = some s
  sets (values val ∷ r) s = elim (set_value_internal val s) [ some s' ↦ sets r s' | none ↦ none ]
  sets (exceptions e ∷ r) s = elim (set_exception_internal e s) [
    | some s' ↦ sets r s'
    | none ↦ none
  ]

  unfoldable pub sets_ref : List (Set A E) → Storage A E → Option (Storage A E)
  unfolding set_value_internal_ref set_exception_internal_ref
  sets_ref [] s = some s
  sets_ref (values val ∷ r) s = elim (set_value_internal_ref val s) [
    | some s' ↦ sets_ref r s'
    | none ↦ none
  ]
  sets_ref (exceptions e ∷ r) s = elim (set_exception_internal_ref e s) [
    | some s' ↦ sets_ref r s'
    | none ↦ none
  ]
