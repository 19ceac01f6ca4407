-- ===== src/Event/Waiting.antt =====
-- event_v2.cpp: no coroutine waits while a signal is kept, and each wait is answered once.
use librf.Prelude.{
  ℕ, ◌+◌, ◌-◌, ◌≤◌, ◌<◌, ◌^◌, ◌≡◌, ◌≢◌, refl, Bool, true, false, ◌||◌, ◌&&◌, Option, none, some,
  List, [], ◌∷◌, ◌++◌, ◌==◌, arith, Bool-cases, inl, inr, if◌then◌else◌, length,
}
use librf.LinkQueue.{Ptr}
use librf.LinkQueue.Deque.{remove}
use librf.Event.{
  WaitState, Event, Resets, event_v2, on_timeout, on_cancel, signal, signal_all, reset,
  try_wait_one, await_suspend, destroy,
}
use librf.Event.Signal.{
  next_open, signalled, listed, signal_lem, notify_all-answered, notify_all-counter,
  notify_all_mono,
}

-- What happens to an event. Resets may come between the accesses of a wait to the count. The awaiter of a coroutine that is suspended is not destroyed.
pub data Action : Type 0 where
  signals : Action
  signals_all : Action
  resets : Action
  readies : (raced : Resets) → Action
  awaits : (state : Ptr) → (timed : Bool) → (raced : Resets) → Action
  times_out : (state : Ptr) → Action
  cancels : (state : Ptr) → Action
  destroys : (state : Ptr) → Action

unfoldable pub act : Event → Action → Event
act e signals = signal e
act e signals_all = signal_all e
act e resets = reset e
act e (readies raced) = (try_wait_one e raced).1
act e (awaits s timed raced) = (await_suspend e s timed raced).1
act e (times_out s) = (on_timeout e s).1
act e (cancels s) = on_cancel e s
act e (destroys s) = if (e.states s).open_value then e else destroy e s

unfoldable pub acts : Event → List Action → Event
acts e [] = e
acts e (a ∷ rest) = acts (act e a) rest

-- The largest `intptr_t`, plus one.
abbrev pub limit : ℕ
limit = 2 ^ 63

-- Whether a reset came both before the `fetch_add(-1)` and before the `fetch_add(1)` of some wait.
abbrev pub twice : Resets → Bool
twice raced = raced.first && raced.second

abbrev pub reset_twice : Action → Bool
reset_twice (readies raced) = twice raced
reset_twice (awaits s timed raced) = twice raced
reset_twice _ = false

abbrev pub any_twice : List Action → Bool
any_twice [] = false
any_twice (a ∷ rest) = reset_twice a || any_twice rest

-- A state whose coroutine waits is in the list, and then no signal is kept, or one at most after a
-- wait that was reset twice.
pub record Waits (reset : Bool) (e : Event) : Type 0 where
  pub open_listed : (t : Ptr) → (e.states t).open_value ≡ true → listed t e.wait_awakes ≡ true
  pub open_coro : (t : Ptr) → (e.states t).open_value ≡ true → (e.states t).coro ≡ true
  pub open_unkept :
      (t : Ptr) → (e.states t).open_value ≡ true → e.counter ≤ (if reset then 1 else 0)
  pub bounded : e.counter < limit

listed-snoc : (t x : Ptr) (xs : List Ptr) → listed t (xs ++ (x ∷ [])) ≡ (listed t xs || (x == t))
unfolding listed
listed-snoc t x [] = ground arith
listed-snoc t x (y ∷ xs) = ground (arith, listed-snoc t x xs)

listed-remove : (t s : Ptr) (xs : List Ptr) → s ≢ t → listed t (remove s xs) ≡ listed t xs
unfolding listed remove
listed-remove t s [] n = refl
listed-remove t s (x ∷ xs) n = ground (arith, listed-remove t s xs n)

try_wait_lem :
    (e : Event) (raced : Resets)
    → e.counter < limit
    → try_wait_one e raced ≡ (
        if e.counter == 0
        then (false, e)
        else (if raced.first
            then (false, record e { counter = if raced.second then 1 else 0 })
            else (true, record e { counter = e.counter - 1 })))
unfolding try_wait_one reset
try_wait_lem e raced b = elim (Bool-cases raced.first) [
  | inl f ↦ elim (Bool-cases raced.second) [
    | inl g ↦ rw (f, g) (ground arith)
    | inr g ↦ rw (f, g) (ground arith)
  ]
  | inr f ↦ rw f (ground arith)
]

-- The states that are passed over are not open.
next_open-none :
    (f : Ptr → WaitState) (ss : List Ptr) (t : Ptr)
    → next_open f ss ≡ none
    → listed t ss ≡ true
    → (f t).open_value ≡ false
unfolding next_open listed
next_open-none f [] t e l = absurd (cc)
next_open-none f (x ∷ ss) t e l = ground (arith, next_open-none f ss t)

next_open-rest :
    (f : Ptr → WaitState) (ss : List Ptr) (s : Ptr) (rest : List Ptr) (t : Ptr)
    → next_open f ss ≡ some (s, rest)
    → listed t ss ≡ true
    → (f t).open_value ≡ true
    → s ≢ t
    → listed t rest ≡ true
unfolding next_open listed
next_open-rest f [] s rest t e l o n = absurd (cc)
next_open-rest f (x ∷ ss) s rest t e l o n = ground (arith, next_open-rest f ss s rest t)

pub next_open-open :
    (f : Ptr → WaitState) (ss : List Ptr) (s : Ptr) (rest : List Ptr)
    → next_open f ss ≡ some (s, rest)
    → (f s).open_value ≡ true
unfolding next_open
next_open-open f [] s rest e = cc
next_open-open f (x ∷ ss) s rest e = ground (arith, next_open-open f ss s rest)

signalled-Waits :
    (reset : Bool) (e : Event) (n : Option (Ptr × List Ptr))
    → e.counter + 1 < limit
    → next_open e.states e.wait_awakes ≡ n
    → Waits reset e
    → Waits reset (signalled e n)
signalled-Waits reset e none b q h =
    let no : (t : Ptr) → (e.states t).open_value ≡ false = λ t.
      elim (Bool-cases (e.states t).open_value) [
        | inl o ↦ next_open-none e.states e.wait_awakes t q (h.open_listed t o)
        | inr c ↦ c
      ] in
    record {
      open_listed = λ t o. ground (arith, no t, o);
      open_coro = λ t o. ground (arith, no t, o);
      open_unkept = λ t o. ground (arith, no t, o);
      bounded = omega arith;
    }
signalled-Waits reset e (some (s, rest)) b q h = record {
  open_listed = λ t o.
      let was : (e.states t).open_value ≡ true = ground arith in
      let other : s ≢ t = ground arith in
      next_open-rest e.states e.wait_awakes s rest t q (h.open_listed t was) was other;
  open_coro = λ t o. ground (arith, h.open_coro t, o);
  open_unkept = λ t o. h.open_unkept t (ground arith);
  bounded = h.bounded;
}

act-Waits :
    (reset : Bool) (a : Action) (e : Event)
    → e.counter + 1 < limit
    → Waits reset e
    → Waits (reset_twice a || reset) (act e a)
unfolding act signal_all reset await_suspend on_timeout on_cancel destroy
act-Waits reset signals e b h =
    rw (signal_lem e) (signalled-Waits reset e (next_open e.states e.wait_awakes) b refl h)
act-Waits reset signals_all e b h = record {
  open_listed = λ t o.
      let was = notify_all_mono e.wait_awakes e t o in
      ground (arith, notify_all-answered e.wait_awakes e t (h.open_listed t was), o);
  open_coro = λ t o.
      let was = notify_all_mono e.wait_awakes e t o in
      ground (arith, notify_all-answered e.wait_awakes e t (h.open_listed t was), o);
  open_unkept = λ t o.
      let was = notify_all_mono e.wait_awakes e t o in
      ground (arith, notify_all-counter e.wait_awakes e, h.open_unkept t was);
  bounded = ground (arith, notify_all-counter e.wait_awakes e, h.bounded);
}
act-Waits reset resets e b h = record {
  open_listed = h.open_listed;
  open_coro = h.open_coro;
  open_unkept = λ t o. ground arith;
  bounded = omega arith;
}
act-Waits reset (readies raced) e b h =
    let w = try_wait_lem e raced h.bounded in
    record {
      open_listed = λ t o. ground (arith, w, h.open_listed t);
      open_coro = λ t o. ground (arith, w, h.open_coro t);
      open_unkept = λ t o. ground (arith, w, h.open_unkept t);
      bounded = ground (arith, w, h.bounded);
    }
act-Waits reset (awaits s timed raced) e b h =
    let w = try_wait_lem e raced h.bounded in
    record {
      open_listed = λ t o. ground (arith, w, h.open_listed t, listed-snoc t s e.wait_awakes);
      open_coro = λ t o. ground (arith, w, h.open_coro t);
      open_unkept = λ t o. ground (arith, w, h.open_unkept t);
      bounded = ground (arith, w, h.bounded);
    }
act-Waits reset (times_out s) e b h = record {
  open_listed = λ t o. ground (arith, h.open_listed t, listed-remove t s e.wait_awakes);
  open_coro = λ t o. ground (arith, h.open_coro t);
  open_unkept = λ t o. ground (arith, h.open_unkept t);
  bounded = ground (arith, h.bounded);
}
act-Waits reset (cancels s) e b h = record {
  open_listed = λ t o. ground (arith, h.open_listed t);
  open_coro = λ t o. ground (arith, h.open_coro t);
  open_unkept = λ t o. ground (arith, h.open_unkept t);
  bounded = ground (arith, h.bounded);
}
act-Waits reset (destroys s) e b h = record {
  open_listed = λ t o. ground (arith, h.open_listed t, listed-remove t s e.wait_awakes);
  open_coro = λ t o. ground (arith, h.open_coro t);
  open_unkept = λ t o. ground (arith, h.open_unkept t);
  bounded = ground (arith, h.bounded);
}

signalled-counter :
    (e : Event) (n : Option (Ptr × List Ptr)) → (signalled e n).counter ≤ e.counter + 1
signalled-counter e none = omega arith
signalled-counter e (some (s, rest)) = omega arith

act-counter :
    (reset : Bool) (a : Action) (e : Event) → Waits reset e → (act e a).counter ≤ e.counter + 1
unfolding act signal_all reset await_suspend on_timeout on_cancel destroy
act-counter reset signals e h =
    rw (signal_lem e) (signalled-counter e (next_open e.states e.wait_awakes))
act-counter reset signals_all e h = omega (arith, notify_all-counter e.wait_awakes e)
act-counter reset resets e h = omega arith
act-counter reset (readies raced) e h = ground (arith, try_wait_lem e raced h.bounded)
act-counter reset (awaits s timed raced) e h = ground (arith, try_wait_lem e raced h.bounded)
act-counter reset (times_out s) e h = ground arith
act-counter reset (cancels s) e h = ground arith
act-counter reset (destroys s) e h = ground arith

Waits-subst : (a b : Bool) (e : Event) → a ≡ b → Waits a e → Waits b e
Waits-subst a b e q h = record {
  open_listed = h.open_listed;
  open_coro = h.open_coro;
  open_unkept = λ t o. ground (arith, q, h.open_unkept t o);
  bounded = h.bounded;
}

acts-hold :
    (history : List Action) (reset : Bool) (e : Event)
    → e.counter + length history < limit
    → Waits reset e
    → Waits (any_twice history || reset) (acts e history)
unfolding acts
acts-hold [] reset e b h = h
acts-hold (a ∷ rest) reset e b h =
    Waits-subst (any_twice rest || (reset_twice a || reset))
      ((reset_twice a || any_twice rest) || reset) (acts (act e a) rest) (ground arith)
      (acts-hold rest (reset_twice a || reset) (act e a) (omega (arith, act-counter reset a e h))
        (act-Waits reset a e (omega arith) h))

-- After any history that started with a new event and no open state: a state whose coroutine waits
-- stands in the event's list and can be woken; and while one waits the count of kept signals is 0, or
-- at most 1 if a reset came both before the `fetch_add(-1)` and before the `fetch_add(1)` of some wait.
-- The count is an `intptr_t`, so the history must be shorter than its range.
pub acts-Waits :
    (st : Ptr → WaitState) (initially : Bool) (history : List Action)
    → ((s : Ptr) → (st s).open_value ≡ false)
    → length history + 1 < limit
    → Waits (any_twice history) (acts (event_v2 st initially) history)
unfolding event_v2
acts-Waits st initially history closed b =
    Waits-subst (any_twice history || false) (any_twice history)
      (acts (event_v2 st initially) history) (ground arith)
      (acts-hold history false (event_v2 st initially) (ground arith) (record {
        open_listed = λ t o. absurd (ground (arith, closed t));
        open_coro = λ t o. absurd (ground (arith, closed t));
        open_unkept = λ t o. absurd (ground (arith, closed t));
        bounded = ground arith;
      }))
