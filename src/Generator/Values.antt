-- ===== src/Generator/Values.antt =====
-- generator.h: the values that a range `for` over a generator reads.
use mathlib.Core.Option
use librf.Prelude.{
  ℕ, zero, suc, ◌+◌, ◌≤◌, ◌≡◌, refl, ap, true, false, List, [], ◌∷◌, ◌++◌, Option, none, some,
  arith, length,
}
use librf.Generator.{Frame, generator, advance, resume_coro, begin, increment, iterate, for_each}

module _ {ℓ} {A : Type ℓ} where
  -- All that is yielded and then what is returned, which must still be there; but nothing, if nothing
  -- is yielded.
  abbrev pub visited : List A → Option A → Option (List A)
  visited [] r = some []
  visited (y ∷ ys) none = none
  visited (y ∷ ys) (some r) = some ((y ∷ ys) ++ (r ∷ []))

  -- The frame after the value `v` was yielded.
  abbrev yielded : A → List A → Option A → Frame A
  yielded v ys r = record { rest = ys; result = r; done = false; current_value = some v }

  iterate-yielded :
      (ys : List A) (v : A) (r : Option A) (f : ℕ)
      → length ys + 3 ≤ f
      → iterate f true (yielded v ys r) ≡ visited (v ∷ ys) r
  unfolding iterate increment resume_coro advance
  iterate-yielded [] v r zero le = absurd (omega arith)
  iterate-yielded [] v r (suc zero) le = absurd (omega arith)
  iterate-yielded [] v r (suc (suc zero)) le = absurd (omega arith)
  iterate-yielded [] v none (suc (suc (suc f))) le = refl
  iterate-yielded [] v (some r) (suc (suc (suc f))) le = refl
  iterate-yielded (y ∷ ys) v r zero le = absurd (omega arith)
  iterate-yielded (y ∷ ys) v none (suc f) le =
      ap (Option.map (λ vs. v ∷ vs)) (iterate-yielded ys y none f (omega arith))
  iterate-yielded (y ∷ ys) v (some r) (suc f) le =
      ap (Option.map (λ vs. v ∷ vs)) (iterate-yielded ys y (some r) f (omega arith))

  -- A range `for` over a new generator reads the values that the coroutine yields, in order, and after
  -- them what it returns: if the operand of `co_return` outlives the coroutine's body, the loop ends
  -- with that as its last value; if not, that read is undefined. A coroutine that returns before it
  -- yields is the exception: the loop reads nothing. Fuel for two tests of the iterator more than
  -- there are values to yield is enough.
  pub for_each-visited :
      (ys : List A) (r : Option A) (f : ℕ)
      → length ys + 2 ≤ f
      → for_each f (generator ys r) ≡ visited ys r
  unfolding for_each generator begin iterate resume_coro advance
  for_each-visited [] r zero le = elim le [ ]
  for_each-visited [] r (suc f) le = refl
  for_each-visited (y ∷ ys) r f le = iterate-yielded ys y r f (omega arith)
