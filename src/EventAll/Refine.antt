-- ===== src/EventAll/Refine.antt =====
-- event_v2.cpp: a coroutine that waits for all of several events is resumed once, with the right
-- result.
use librf.Prelude.{
  ap, ℕ, zero, suc, ◌≡◌, ◌≢◌, refl, Bool, true, false, ◌||◌, List, [], ◌∷◌, none, some, map,
  if◌then◌else◌, ◌==◌, get_elem?, set, arith,
}
use librf.EventAll.{
  SubState, StateAll, sub_state, waiting_for, await_suspend, all_second, on_cancel, clear_first,
  on_notify, on_timeout,
}

-- What a waiting coroutine may be told.
pub data Answer : Type 0 where
  notifies : (idx : ℕ) → Answer
  cancels : (idx : ℕ) → Answer
  times_out : Answer

unfoldable pub act : StateAll → Answer → StateAll
act a (notifies idx) = (on_notify a idx).1
act a (cancels idx) = on_cancel a idx
act a times_out = (on_timeout a).1

unfoldable pub acts : StateAll → List Answer → StateAll
acts a [] = a
acts a (x ∷ xs) = acts (act a x) xs

-- The specification: how many answers are still awaited and whether a wait was cancelled, or the
-- result.
pub data Waiting : Type 0 where
  awaits : (left : ℕ) → (good : Bool) → Waiting
  ended : (result : Bool) → Waiting

unfoldable pub next : ℕ → Bool → Waiting
next zero good = ended good
next (suc n) good = awaits (suc n) good

unfoldable pub tell : Waiting → Answer → Waiting
unfolding next
tell (ended r) x = ended r
tell (awaits zero good) x = awaits zero good
tell (awaits (suc n) good) (notifies idx) = next n good
tell (awaits (suc n) good) (cancels idx) = next n false
tell (awaits (suc n) good) times_out = ended false

unfoldable pub tells : Waiting → List Answer → Waiting
tells w [] = w
tells w (x ∷ xs) = tells (tell w x) xs

-- The proxies that are still in a wait list.
unfoldable pub proxies : List SubState → ℕ
proxies [] = 0
proxies (s ∷ ss) = if s.first then suc (proxies ss) else proxies ss

abbrev pub has_proxy : List SubState → ℕ → Bool
has_proxy vs idx = elim (get_elem? vs idx) [ none ↦ false | some s ↦ s.first ]

-- An event tells a proxy once: the proxy is still set, or the wait is over.
unfoldable pub Fits : StateAll → Answer → Type 0
Fits a (notifies idx) = (a.counter == 0 || has_proxy a.values idx) ≡ true
Fits a (cancels idx) = (a.counter == 0 || has_proxy a.values idx) ≡ true
Fits a times_out = Unit {0}

unfoldable pub FitsAll : StateAll → List Answer → Type 0
unfolding Fits act
FitsAll a [] = Unit {0}
FitsAll a (x ∷ xs) = Fits a x × FitsAll (act a x) xs

-- What the coroutine sees of the wait: it is suspended, or was resumed once with the result.
unfoldable pub Shows : StateAll → Waiting → Type 0
Shows a (awaits n good) =
    (n ≢ 0)
    × (a.counter ≡ n)
    × (proxies a.values ≡ n)
    × (all_second a.values ≡ good)
    × (a.coro ≡ true)
    × (a.scheduled ≡ 0)
Shows a (ended r) = (a.counter ≡ 0) × (a.result ≡ r) × (a.scheduled ≡ 1)

proxies-clear_first :
    (vs : List SubState) (idx : ℕ)
    → has_proxy vs idx ≡ true
    → suc (proxies (clear_first vs idx)) ≡ proxies vs
unfolding proxies
proxies-clear_first [] idx h = cc
proxies-clear_first (s ∷ ss) zero h = ground (arith, h)
proxies-clear_first (s ∷ ss) (suc i) h = ground (arith, proxies-clear_first ss i h)

second-clear_first :
    (vs : List SubState) (idx : ℕ) → all_second (clear_first vs idx) ≡ all_second vs
unfolding all_second
second-clear_first [] idx = refl
second-clear_first (s ∷ ss) zero = refl
second-clear_first (s ∷ ss) (suc i) = ground (arith, second-clear_first ss i)

abbrev pub cleared : SubState
cleared = record { first = false; second = false }

proxies-set :
    (vs : List SubState) (idx : ℕ)
    → has_proxy vs idx ≡ true
    → suc (proxies (set vs idx cleared)) ≡ proxies vs
unfolding proxies
proxies-set [] idx h = cc
proxies-set (s ∷ ss) zero h = ground (arith, h)
proxies-set (s ∷ ss) (suc i) h = ground (arith, proxies-set ss i h)

second-set :
    (vs : List SubState) (idx : ℕ)
    → has_proxy vs idx ≡ true
    → all_second (set vs idx cleared) ≡ false
unfolding all_second
second-set [] idx h = cc
second-set (s ∷ ss) zero h = refl
second-set (s ∷ ss) (suc i) h = ground (arith, second-set ss i h)

act-Shows :
    (x : Answer) (a : StateAll) (w : Waiting) → Fits a x → Shows a w → Shows (act a x) (tell w x)
unfolding act tell next Fits Shows on_notify on_cancel on_timeout
act-Shows (notifies idx) a (ended r) f (c, r', s) = ground arith
act-Shows (cancels idx) a (ended r) f (c, r', s) = ground arith
act-Shows times_out a (ended r) f (c, r', s) = ground arith
act-Shows x a (awaits zero good) f h = absurd (h.0 refl)
act-Shows (notifies idx) a (awaits (suc zero) good) f (ne, c, p, g, k, s) =
    ground (arith, second-clear_first a.values idx)
act-Shows (notifies idx) a (awaits (suc (suc n)) good) f (ne, c, p, g, k, s) =
    ground (arith, second-clear_first a.values idx, proxies-clear_first a.values idx)
act-Shows (cancels idx) a (awaits (suc zero) good) f (ne, c, p, g, k, s) = ground arith
act-Shows (cancels idx) a (awaits (suc (suc n)) good) f (ne, c, p, g, k, s) =
    ground (arith, second-set a.values idx, proxies-set a.values idx)
act-Shows times_out a (awaits (suc n) good) f (ne, c, p, g, k, s) = ground arith

proxies-sub_state : (ready : List Bool) → proxies (map sub_state ready) ≡ waiting_for ready
unfolding proxies waiting_for
proxies-sub_state [] = refl
proxies-sub_state (true ∷ rs) = proxies-sub_state rs
proxies-sub_state (false ∷ rs) = ap suc (proxies-sub_state rs)

second-sub_state : (ready : List Bool) → all_second (map sub_state ready) ≡ true
unfolding all_second
second-sub_state [] = refl
second-sub_state (true ∷ rs) = second-sub_state rs
second-sub_state (false ∷ rs) = second-sub_state rs

acts-hold :
    (xs : List Answer) (a : StateAll) (w : Waiting)
    → FitsAll a xs
    → Shows a w
    → Shows (acts a xs) (tells w xs)
unfolding acts tells FitsAll
acts-hold [] a w f h = h
acts-hold (x ∷ xs) a w f h = acts-hold xs (act a x) (tell w x) f.1 (act-Shows x a w f.0 h)

-- A coroutine that is suspended to wait for all of several events sees what the specification says,
-- whatever it is told in whatever order, as long as each proxy is told at most once while the wait
-- lasts: it stays suspended while an answer is awaited, and is then resumed exactly once, with
-- `true` if every event was signalled and none was cancelled or too late.
pub await_suspend-acts :
    (timed : Bool) (ready : List Bool) (xs : List Answer)
    → (await_suspend timed ready).0 ≡ true
    → FitsAll (await_suspend timed ready).1 xs
    → Shows (acts (await_suspend timed ready).1 xs) (tells (awaits (waiting_for ready) true) xs)
unfolding await_suspend Shows
await_suspend-acts timed ready xs e f =
    acts-hold xs (await_suspend timed ready).1 (awaits (waiting_for ready) true) f
      (λ z. ground (arith, e, z), refl, proxies-sub_state ready, second-sub_state ready, refl, refl)
