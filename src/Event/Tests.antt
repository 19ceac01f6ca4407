-- ===== src/Event/Tests.antt =====
-- Runs of event_v2.cpp, and its theorems at an event with two coroutines that wait, the first of
-- which times out.
use librf.Prelude.{occ, ◌+◌, ◌||◌, if◌then◌else◌, ◌≡◌, refl, true, false, List, [], ◌∷◌, arith}
use librf.LinkQueue.{Ptr}
use librf.Event.{
  WaitState, Event, Resets, try_wait_one, event_v2, signal, signal_all, await_resume, on_timeout,
  await_suspend,
}
use librf.Event.Waiting.{
  Action, signals, readies, awaits, times_out, destroys, act, acts, Waits, acts-Waits,
}
use librf.Event.Answers.{signal_all-answers, settled-acts}

abbrev blank : Ptr → WaitState
blank _ = record { open_value = false; event_set = false; coro = false; timer = false }

abbrev calm : Resets
calm = record { first = false; second = false }

abbrev history : List Action
history = awaits 1 false calm ∷ awaits 2 true calm ∷ times_out 1 ∷ []

abbrev waiting : Event
waiting = acts (event_v2 blank false) history

-- The first signal wakes the second coroutine, and the next is kept.
kept : (acts waiting (signals ∷ signals ∷ [])).counter ≡ 1
unfolding acts event_v2 act signal on_timeout await_suspend
kept = refl

woken : (acts waiting (signals ∷ [])).scheduled ≡ 1 ∷ 2 ∷ []
unfolding acts event_v2 act signal on_timeout await_suspend
woken = refl

acts-Waits_example : Waits false waiting
acts-Waits_example = acts-Waits blank false history (λ s. refl) (ground arith)

signal_all-answers_example :
    (((signal_all waiting).states 2).open_value ≡ false)
    × (occ 2 (signal_all waiting).scheduled
        ≡ occ 2 waiting.scheduled + (if (waiting.states 2).open_value then 1 else 0))
    × (await_resume (signal_all waiting) 2
        ≡ ((waiting.states 2).open_value || await_resume waiting 2))
    × ((signal_all waiting).counter ≡ waiting.counter)
signal_all-answers_example =
    signal_all-answers false waiting 2 (acts-Waits blank false history (λ s. refl) (ground arith))

-- Two resets during a wait leave a signal behind, and the coroutine waits: a later one passes it.
abbrev reset_in_wait : Event
reset_in_wait =
    acts (event_v2 blank true)
      (awaits 1 false (record { first = true; second = true }) ∷ readies calm ∷ [])

passed : ((reset_in_wait.states 1).open_value ≡ true) × (reset_in_wait.counter ≡ 0)
unfolding acts event_v2 act try_wait_one await_suspend
passed = (refl, refl)

left_over :
    (acts
      (event_v2 blank true)
      (awaits 1 false (record { first = true; second = true }) ∷ [])).counter
    ≡ 1
unfolding acts event_v2 act await_suspend
left_over = refl

settled-acts_example :
    (((acts waiting (signals ∷ destroys 1 ∷ [])).states 1).open_value ≡ false)
    × (await_resume (acts waiting (signals ∷ destroys 1 ∷ [])) 1 ≡ await_resume waiting 1)
unfolding acts event_v2 act signal on_timeout await_suspend
settled-acts_example = settled-acts (signals ∷ destroys 1 ∷ []) waiting 1 (tt, (tt, tt)) refl
