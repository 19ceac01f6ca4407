-- ===== src/Event/Signal.antt =====
-- event_v2.cpp: what `signal` and `signal_all` do.
use librf.Prelude.{
  ◌≡◌, refl, ◌∙◌, Bool, true, false, Option, none, some, List, [], ◌∷◌, arith, Bool-cases, inl, inr,
  if◌then◌else◌, ◌==◌, ◌||◌,
}
use librf.LinkQueue.{Ptr}
use librf.Event.{WaitState, Event, up, store, schedule, on_notify, notify_one, signal, notify_all}

-- The first state of a list whose coroutine still waits, and the states behind it.
unfoldable pub next_open : (Ptr → WaitState) → List Ptr → Option (Ptr × List Ptr)
next_open f [] = none
next_open f (s ∷ ss) = if (f s).open_value then some (s, ss) else next_open f ss

-- Whether an address is listed.
unfoldable pub listed : Ptr → List Ptr → Bool
listed s [] = false
listed s (x ∷ xs) = (x == s) || listed s xs

-- The event with a state answered.
abbrev pub answered : Event → Ptr → Event
answered e s = record e {
  states =
      store e.states s
        (record (e.states s) { open_value = false; event_set = true; timer = false });
  scheduled = schedule e s;
}

abbrev pub signalled : Event → Option (Ptr × List Ptr) → Event
signalled e none = record e { wait_awakes = []; counter = up e.counter }
signalled e (some (s, rest)) = record (answered e s) { wait_awakes = rest }

signalled-same :
    (e : Event) (ws : List Ptr) (n : Option (Ptr × List Ptr))
    → signalled (record e { wait_awakes = ws }) n ≡ signalled e n
signalled-same e ws none = refl
signalled-same e ws (some (s, rest)) = refl

notify_one_lem : (ss : List Ptr) (e : Event) → notify_one e ss ≡ signalled e (next_open e.states ss)
unfolding notify_one next_open
notify_one_lem [] e = refl
notify_one_lem (s ∷ ss) e = elim (Bool-cases (e.states s).open_value) [
  | inl here ↦ rw (here, notify_one, on_notify) refl
  | inr closed ↦
      rw (closed, notify_one, on_notify)
        (notify_one_lem ss (record e { wait_awakes = ss })
          ∙ signalled-same e ss (next_open e.states ss))
]

-- A signal goes to the oldest waiting state that is still open, which is answered, and the closed
-- states before it leave the list; if no state of the list is open, the list is left empty and the
-- count goes up by one.
pub signal_lem : (e : Event) → signal e ≡ signalled e (next_open e.states e.wait_awakes)
unfolding signal
signal_lem e = notify_one_lem e.wait_awakes e

-- Once answered, a state stays closed through the loop of `signal_all`.
notify_all-closed :
    (ss : List Ptr) (e : Event) (t : Ptr)
    → (e.states t).open_value ≡ false
    → ((notify_all e ss).states t).open_value ≡ false
unfolding notify_all on_notify
notify_all-closed [] e t c = c
notify_all-closed (s ∷ ss) e t c =
    notify_all-closed ss (on_notify (record e { wait_awakes = ss }) s).1 t (ground (arith, c))

pub notify_all-answered :
    (ss : List Ptr) (e : Event) (t : Ptr)
    → listed t ss ≡ true
    → ((notify_all e ss).states t).open_value ≡ false
unfolding notify_all on_notify listed
notify_all-answered [] e t l = absurd (cc)
notify_all-answered (s ∷ ss) e t l =
    let n = (on_notify (record e { wait_awakes = ss }) s).1 in
    elim (Bool-cases (s == t)) [
      | inl here ↦ notify_all-closed ss n t (ground (arith, here))
      | inr other ↦ notify_all-answered ss n t (ground (arith, l, other))
    ]

pub notify_all-counter : (ss : List Ptr) (e : Event) → (notify_all e ss).counter ≡ e.counter
unfolding notify_all on_notify
notify_all-counter [] e = refl
notify_all-counter (s ∷ ss) e =
    notify_all-counter ss (on_notify (record e { wait_awakes = ss }) s).1 ∙ ground arith

pub notify_all_mono :
    (ss : List Ptr) (e : Event) (t : Ptr)
    → ((notify_all e ss).states t).open_value ≡ true
    → (e.states t).open_value ≡ true
notify_all_mono ss e t o = elim (Bool-cases (e.states t).open_value) [
  | inl was ↦ was
  | inr closed ↦ ground (arith, notify_all-closed ss e t closed, o)
]
