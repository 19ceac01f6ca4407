-- ===== src/Timer.antt =====
-- source/timer.cpp and include/librf/src/timer.h: `timer_manager`. A callback is a parameter: it is
-- what it asks of the manager while it runs. The clock is read once for each `update` that looks at
-- it, and its value is an argument.
pub mod Once
pub mod Acts
pub mod Stopped
pub mod Handled
pub mod Grows
pub mod Due
pub mod Updates
mod Tests
use librf.Prelude.{
  ℕ, suc, ◌+◌, Bool, true, false, List, [], ◌∷◌, ◌++◌, if◌then◌else◌, ◌==◌, leb, ltb, not, ◌||◌,
  Option, none, some,
}

-- `timer_target::State`.
pub data State : Type 0 where
  invalid added_state runing_state : State

pub record Target : Type 0 where
  pub tp : ℕ
  pub cb : Bool
  pub st : State

-- `_added_timers`, and the multimap `_runing_timers` as its entries in order. Targets are numbered as
-- they are made; `calls` lists the callbacks that were called, with `canceld`, the latest last.
pub record Manager : Type 0 where
  pub targets : ℕ → Target
  pub added : List ℕ
  pub runing : List (ℕ × ℕ)
  pub made : ℕ
  pub calls : List (ℕ × Bool)

pub data Request : Type 0 where
  adds : (tp : ℕ) → Request
  stops : (target : ℕ) → Request

abbrev pub store : (ℕ → Target) → ℕ → Target → ℕ → Target
store f p t a = if p == a then t else f a

abbrev pub set_st : Manager → ℕ → State → Manager
set_st m p s = record m { targets = store m.targets p (record (m.targets p) { st = s }) }

abbrev pub is_added : State → Bool
is_added added_state = true
is_added _ = false

abbrev pub is_invalid : State → Bool
is_invalid invalid = true
is_invalid _ = false

unfoldable pub timer_manager : (ℕ → Target) → Manager
timer_manager f = record { targets = f; added = []; runing = []; made = 0; calls = [] }

-- `add_`, with the new target.
unfoldable pub add : Manager → ℕ → Manager
add m tp = record m {
  targets = store m.targets m.made (record { tp = tp; cb = true; st = added_state });
  added = m.added ++ (m.made ∷ []);
  made = suc m.made;
}

unfoldable pub stop : Manager → ℕ → Bool × Manager
stop m p = if is_invalid (m.targets p).st then (false, m) else (true, set_st m p invalid)

unfoldable pub empty : Manager → Bool
empty m = elim m.runing [ [] ↦ elim m.added [ [] ↦ true | _ ↦ false ] | _ ↦ false ]

unfoldable pub request : Manager → List Request → Manager
unfolding add stop
request m [] = m
request m (adds tp ∷ rs) = request (add m tp) rs
request m (stops p ∷ rs) = request (stop m p).1 rs

-- `multimap::insert`: behind the entries of an equal key.
unfoldable pub insert : ℕ → ℕ → List (ℕ × ℕ) → List (ℕ × ℕ)
insert k p [] = (k, p) ∷ []
insert k p ((j, q) ∷ r) = if leb j k then (j, q) ∷ insert k p r else (k, p) ∷ (j, q) ∷ r

module _ (body : ℕ → Bool → List Request) where
  unfoldable pub call_target : Manager → ℕ → Bool → Manager
  unfolding request
  call_target m p canceld =
      let t = m.targets p in
      let m' = record m { targets = store m.targets p (record t { cb = false; st = invalid }) } in
      if t.cb
      then request (record m' { calls = m.calls ++ ((p, canceld) ∷ []) }) (body p canceld)
      else m'

  -- The first loop of `update`, over the timers that were added.
  unfoldable pub start : Manager → List ℕ → Manager
  unfolding call_target insert
  start m [] = m
  start m (p ∷ ps) =
      start
        (if is_added (m.targets p).st
          then record (set_st m p runing_state) { runing = insert (m.targets p).tp p m.runing }
          else call_target m p true)
        ps

  -- The second loop, over the entries of the multimap, which it erases up to the first that is not
  -- due. A callback cannot reach the multimap, so the entries are those of the beginning.
  unfoldable pub fire : ℕ → Manager → List (ℕ × ℕ) → Manager
  unfolding call_target
  fire now m [] = record m { runing = [] }
  fire now m ((k, p) ∷ r) =
      let next = fire now (call_target m p (is_invalid (m.targets p).st)) r in
      if ltb now k then record m { runing = (k, p) ∷ r } else next

  unfoldable pub update : ℕ → Manager → Manager
  unfolding start fire
  update now m = let m' = start (record m { added = [] }) m.added in fire now m' m'.runing

  -- The two loops of `clear`.
  unfoldable pub cancel_all : Manager → List ℕ → Manager
  unfolding call_target
  cancel_all m [] = m
  cancel_all m (p ∷ ps) = cancel_all (call_target m p true) ps

  unfoldable pub cancel_entries : Manager → List (ℕ × ℕ) → Manager
  unfolding call_target
  cancel_entries m [] = m
  cancel_entries m ((k, p) ∷ r) = cancel_entries (call_target m p true) r

  unfoldable pub clear : Manager → Manager
  unfolding cancel_all cancel_entries
  clear m =
      let m' = cancel_all (record m { added = [] }) m.added in
      cancel_entries (record m' { runing = [] }) m'.runing

-- `timer_handler`: whether `_manager` refers to the manager, and `_target` to a target.
pub record Handler : Type 0 where
  pub has_manager : Bool
  pub target : Option ℕ

-- `add_handler`, with the handler of the new target.
unfoldable pub add_handler : Manager → ℕ → Manager × Handler
unfolding add
add_handler m tp = (add m tp, record { has_manager = true; target = some m.made })

abbrev pub no_handler : Handler
no_handler = record { has_manager = false; target = none }

-- Whether the manager holds a target. Between its calls nobody else does, so that a weak pointer to
-- any other target has expired.
unfoldable pub holds_added : ℕ → List ℕ → Bool
holds_added p [] = false
holds_added p (q ∷ qs) = if q == p then true else holds_added p qs

unfoldable pub holds_entry : ℕ → List (ℕ × ℕ) → Bool
holds_entry p [] = false
holds_entry p ((k, q) ∷ r) = if q == p then true else holds_entry p r

unfoldable pub expired : Manager → Handler → Bool
unfolding holds_added holds_entry
expired m h = elim h.target [
  | none ↦ true
  | some p ↦ not (holds_added p m.added || holds_entry p m.runing)
]

-- `timer_handler::stop` and `reset`.
unfoldable pub stop_handler : Manager → Handler → Bool × Manager × Handler
unfolding expired stop
stop_handler m h =
    let stopped : Bool × Manager = elim h.target [
      | none ↦ (false, m)
      | some p ↦ if h.has_manager then stop m p else (false, m)
    ] in
    if not (expired m h) then (stopped.0, stopped.1, no_handler) else (false, m, no_handler)

unfoldable pub reset_handler : Handler → Handler
reset_handler h = no_handler

-- The move constructor, and the move assignment to another handler: the new one and what is left of
-- the old one.
unfoldable pub move_handler : Handler → Handler × Handler
move_handler right = (right, no_handler)

unfoldable pub assign_handler : (left right : Handler) → Handler × Handler
assign_handler left right = (right, no_handler)
