-- ===== src/Event/Answers.antt =====
-- event_v2.cpp: each wait is answered once, and `signal_all` answers every one.
use librf.Prelude.{
  occ, occ-append, ◌+◌, ◌≡◌, ◌≢◌, refl, ◌∙◌, Bool, true, false, not, ◌&&◌, ◌||◌, ◌==◌,
  if◌then◌else◌, Option, none, some, List, [], ◌∷◌, arith, Bool-cases, inl, inr,
}
use librf.LinkQueue.{Ptr}
use librf.Event.{
  Event, on_timeout, on_cancel, signal_all, notify_all, on_notify, reset, try_wait_one,
  await_suspend, await_resume, destroy,
}
use librf.Event.Signal.{
  next_open, signalled, signal_lem, notify_all-answered, notify_all-counter, notify_all_mono,
}
use librf.Event.Waiting.{
  Action, signals, signals_all, resets, readies, awaits, times_out, cancels, destroys, act, acts,
  Waits, next_open-open,
}

notify_all-settled :
    (ss : List Ptr) (e : Event) (s : Ptr)
    → (e.states s).open_value ≡ false
    → (((notify_all e ss).states s).open_value ≡ false)
      × (((notify_all e ss).states s).event_set ≡ (e.states s).event_set)
unfolding notify_all on_notify
notify_all-settled [] e s c = (c, refl)
notify_all-settled (t ∷ ts) e s c =
    let n = (on_notify (record e { wait_awakes = ts }) t).1 in
    let h = notify_all-settled ts n s (ground (arith, c)) in (h.0, h.1 ∙ ground (arith, c))

-- What is scheduled through the loop of `signal_all`, for one state.
notify_all-scheduled :
    (ss : List Ptr) (e : Event) (t : Ptr)
    → ((e.states t).open_value ≡ true → (e.states t).coro ≡ true)
    → occ t (notify_all e ss).scheduled
      ≡ occ t e.scheduled
        + (if (e.states t).open_value && not ((notify_all e ss).states t).open_value then 1 else 0)
unfolding notify_all on_notify
notify_all-scheduled [] e t h = ground arith
notify_all-scheduled (s ∷ ss) e t h =
    let n = (on_notify (record e { wait_awakes = ss }) s).1 in
    let k : (n.states t).open_value ≡ true → (n.states t).coro ≡ true = λ o. ground (arith, h, o) in
    elim (Bool-cases (s == t)) [
      | inl here ↦ ground (
        arith,
        here,
        h,
        notify_all-scheduled ss n t k,
        occ-append t s e.scheduled,
        notify_all-settled ss n t,
      )
      | inr other ↦ ground (arith, other, notify_all-scheduled ss n t k, occ-append t s e.scheduled)
    ]

notify_all-event_set :
    (ss : List Ptr) (e : Event) (t : Ptr)
    → ((notify_all e ss).states t).event_set ≡ (
        ((e.states t).open_value && not ((notify_all e ss).states t).open_value)
        || (e.states t).event_set)
unfolding notify_all on_notify
notify_all-event_set [] e t = ground arith
notify_all-event_set (s ∷ ss) e t =
    let n = (on_notify (record e { wait_awakes = ss }) s).1 in
    elim (Bool-cases (s == t)) [
      | inl here ↦ ground (arith, here, notify_all-event_set ss n t, notify_all-settled ss n t)
      | inr other ↦ ground (arith, other, notify_all-event_set ss n t)
    ]

-- On an event whose waiting states are listed and can be woken, `signal_all` answers every coroutine
-- that waits: each is given to the scheduler once more, and its `await_resume` will return that the
-- event was signalled. Nobody else is given to the scheduler, the answers of others stay as they are,
-- and no signal is kept.
pub signal_all-answers :
    (reset : Bool) (e : Event) (t : Ptr)
    → Waits reset e
    → (((signal_all e).states t).open_value ≡ false)
      × (occ t (signal_all e).scheduled
          ≡ occ t e.scheduled + (if (e.states t).open_value then 1 else 0))
      × (await_resume (signal_all e) t ≡ ((e.states t).open_value || await_resume e t))
      × ((signal_all e).counter ≡ e.counter)
unfolding signal_all await_resume
signal_all-answers reset e t h =
    let closed : ((notify_all e e.wait_awakes).states t).open_value ≡ false =
      elim (Bool-cases ((notify_all e e.wait_awakes).states t).open_value) [
        | inl o ↦
            notify_all-answered e.wait_awakes e t
              (h.open_listed t (notify_all_mono e.wait_awakes e t o))
        | inr c ↦ c
      ] in
    (
      closed,
      ground (arith, closed, notify_all-scheduled e.wait_awakes e t (h.open_coro t)),
      ground (arith, closed, notify_all-event_set e.wait_awakes e t),
      notify_all-counter e.wait_awakes e,
    )

-- The action does not start a wait in the state `s`.
abbrev pub Spares : Ptr → Action → Type 0
Spares s (awaits t timed raced) = t ≢ s
Spares s _ = Unit {0}

abbrev pub SparesAll : Ptr → List Action → Type 0
SparesAll s [] = Unit {0}
SparesAll s (a ∷ rest) = Spares s a × SparesAll s rest

signalled-settled :
    (e : Event) (n : Option (Ptr × List Ptr)) (s : Ptr)
    → next_open e.states e.wait_awakes ≡ n
    → (e.states s).open_value ≡ false
    → (((signalled e n).states s).open_value ≡ false)
      × (((signalled e n).states s).event_set ≡ (e.states s).event_set)
signalled-settled e none s q c = (c, refl)
signalled-settled e (some (t, rest)) s q c =
    let was = next_open-open e.states e.wait_awakes t rest q in
    let other : t ≢ s = ground arith in ground arith

settled-act :
    (e : Event) (a : Action) (s : Ptr)
    → Spares s a
    → (e.states s).open_value ≡ false
    → (((act e a).states s).open_value ≡ false)
      × (((act e a).states s).event_set ≡ (e.states s).event_set)
unfolding act signal_all reset try_wait_one await_suspend on_timeout on_cancel destroy
settled-act e signals s n c =
    let g = signalled-settled e (next_open e.states e.wait_awakes) s refl c in
    ground (arith, signal_lem e, g)
settled-act e signals_all s n c = notify_all-settled e.wait_awakes e s c
settled-act e resets s n c = (c, refl)
settled-act e (readies raced) s n c = ground arith
settled-act e (awaits t timed raced) s n c = ground arith
settled-act e (times_out t) s n c = ground arith
settled-act e (cancels t) s n c = ground arith
settled-act e (destroys t) s n c = ground arith

-- Each wait is answered once: after a signal, a timeout or a cancellation nothing changes what the
-- coroutine's `await_resume` returns, until its state is used for a new wait.
pub settled-acts :
    (history : List Action) (e : Event) (s : Ptr)
    → SparesAll s history
    → (e.states s).open_value ≡ false
    → (((acts e history).states s).open_value ≡ false)
      × (await_resume (acts e history) s ≡ await_resume e s)
unfolding acts await_resume
settled-acts [] e s n c = (c, refl)
settled-acts (a ∷ rest) e s n c =
    let (closed, same) = settled-act e a s n.0 c in
    let (closed', same') = settled-acts rest (act e a) s n.1 closed in (closed', same' ∙ same)
