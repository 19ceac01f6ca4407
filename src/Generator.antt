-- ===== src/Generator.antt =====
-- include/librf/src/generator.h: `generator_t` with its promise and iterator; and `state_generator_t` of
-- source/state.cpp, by which a scheduler runs a generator. The body of the coroutine, which the
-- compiler turns into a frame, is the values that it yields and the one that it returns at its end.
-- `return_value` keeps the address of the operand of `co_return`: what it returns is none where that is
-- a temporary or a local, which is gone after the final suspension.
pub mod Values
pub mod Asks
pub mod Rounds
mod Tests
use mathlib.Core.Option
use librf.Prelude.{
  ℕ, zero, suc, Bool, true, false, not, List, [], ◌∷◌, Option, none, some, if◌then◌else◌,
}
use librf.LinkQueue.{Ptr}
use librf.Scheduler.{Request, adds, drops}

-- A coroutine that is suspended: what it will still yield and return, whether it is done, and
-- what `_CurrentValue` of its promise points to: none is nothing, as at first, or an object that is
-- gone.
pub record Frame {ℓ} (A : Type ℓ) : Type ℓ where
  pub rest : List A
  pub result : Option A
  pub done : Bool
  pub current_value : Option A

-- `generator_t`: whether `_Coro` refers to the frame.
pub record Generator {ℓ} (A : Type ℓ) : Type ℓ where
  pub has_coro : Bool
  pub frame : Frame A

module _ {ℓ} {A : Type ℓ} where
  unfoldable pub generator : List A → Option A → Generator A
  generator ys r = record {
    has_coro = true;
    frame = record { rest = ys; result = r; done = false; current_value = none };
  }

  unfoldable pub yield_value : Frame A → A → Frame A
  yield_value c v = record c { current_value = some v }

  unfoldable pub return_value : Frame A → Option A → Frame A
  return_value c v = record c { current_value = v; done = true }

  -- The body up to its next `co_yield` or its end.
  unfoldable pub advance : Frame A → List A → Frame A
  unfolding yield_value return_value
  advance c [] = return_value c c.result
  advance c (y ∷ ys) = yield_value (record c { rest = ys }) y

  -- `resume` of the handle; none is undefined, a resumption of a coroutine that is done.
  unfoldable pub resume_coro : Frame A → Option (Frame A)
  unfolding advance
  resume_coro c = if c.done then none else some (advance c c.rest)

  -- An iterator of the generator: whether its `_Coro` refers to the frame, which the iterator at the
  -- end does not.
  unfoldable pub begin : Generator A → Option (Bool × Frame A)
  unfolding resume_coro
  begin g =
      if g.has_coro
      then elim (resume_coro g.frame) [
        | none ↦ none
        | some c ↦ if c.done then some (false, c) else some (true, c)
      ]
      else some (false, g.frame)

  -- `operator++` of an iterator that is not at the end.
  unfoldable pub increment : Frame A → Option (Bool × Frame A)
  unfolding resume_coro
  increment c =
      if c.done
      then some (false, c)
      else elim (resume_coro c) [ none ↦ none | some c' ↦ some (true, c') ]

  -- A range `for` over the generator: the values that `operator*` reads, one by one. On fuel, one
  -- unit for each test of the iterator; none is fuel that ran out, or undefined, as is a read of an
  -- object that is gone.
  unfoldable pub iterate : ℕ → Bool → Frame A → Option (List A)
  unfolding increment
  iterate zero live c = none
  iterate (suc f) live c =
      let go : Option (List A) = elim c.current_value [
        | none ↦ none
        | some v ↦ elim (increment c) [
          | none ↦ none
          | some (live', c') ↦ Option.map (λ vs. v ∷ vs) (iterate f live' c')
        ]
      ] in
      if live then go else some []

  unfoldable pub for_each : ℕ → Generator A → Option (List A)
  unfolding begin iterate
  for_each f g = elim (begin g) [ none ↦ none | some (live, c) ↦ iterate f live c ]

  -- The move constructor: the new generator, and what is left of the old one.
  unfoldable pub construct_move : Generator A → Generator A × Generator A
  construct_move right = (right, record right { has_coro = false })

  -- The move assignment to another generator, whose frame is not destroyed.
  unfoldable pub assign_move : (left right : Generator A) → Generator A × Generator A
  assign_move left right = (right, record right { has_coro = false })

  -- `detach_state`: the generator gives its frame up to a task.
  unfoldable pub detach_state : Generator A → Generator A
  detach_state g = record g { has_coro = false }

  -- `state_generator_t::resume`: what it asks of its scheduler, and the state, whose handler is null
  -- after the frame was destroyed.
  unfoldable pub resume : Ptr → Generator A → Option (List Request × Generator A)
  unfolding resume_coro
  resume self g =
      if g.has_coro
      then elim (resume_coro g.frame) [
        | none ↦ none
        | some c ↦
            if not c.done
            then some (adds self ∷ [], record g { frame = c })
            else some (drops self ∷ [], record { has_coro = false; frame = c })
      ]
      else some ([], g)

  unfoldable pub has_handler : Generator A → Bool
  has_handler g = g.has_coro
