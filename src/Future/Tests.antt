-- ===== src/Future/Tests.antt =====
-- Theorems of the states of futures at concrete results.
use librf.Prelude.{ℕ, List, [], ◌∷◌}
use librf.Future.{no_result}
use librf.Future.Storage.{Set, values, exceptions, storage, sets, sets_ref, destroy, destroy_ref}
use librf.Future.Lifetimes.{last, Lived, sets-Lived}
use librf.Future.Reaches.{Reaches}

abbrev three_sets : List (Set ℕ ℕ)
three_sets = values 4 ∷ exceptions 7 ∷ values 5 ∷ []

sets-Lived_example :
    Lived (sets three_sets storage) (last no_result three_sets) destroy
    × Lived (sets_ref three_sets storage) (last no_result three_sets) destroy_ref
sets-Lived_example = sets-Lived three_sets
