-- ===== src/EventAll/Tests.antt =====
-- Runs of `state_event_all_t`, and its theorem at a wait for three events, one of which is signalled
-- at the start.
use librf.Prelude.{◌≡◌, refl, Bool, true, false, List, [], ◌∷◌}
use librf.EventAll.{StateAll, await_suspend, waiting_for, on_notify, on_timeout}
use librf.EventAll.Refine.{
  Answer, notifies, times_out, act, acts, awaits, tells, FitsAll, Shows, await_suspend-acts,
}

abbrev ready : List Bool
ready = false ∷ true ∷ false ∷ []

abbrev told : List Answer
told = notifies 2 ∷ notifies 0 ∷ times_out ∷ []

abbrev after_told : StateAll
after_told = acts (await_suspend true ready).1 told

shown : after_told.result ≡ true
unfolding acts act await_suspend on_notify on_timeout
shown = refl

too_late : (acts (await_suspend true ready).1 (notifies 2 ∷ times_out ∷ [])).removed ≡ 0 ∷ []
unfolding acts act await_suspend on_notify on_timeout
too_late = refl

await_suspend-acts_example : Shows after_told (tells (awaits (waiting_for ready) true) told)
unfolding await_suspend FitsAll on_notify
await_suspend-acts_example = await_suspend-acts true ready told refl (refl, (refl, (tt, tt)))
