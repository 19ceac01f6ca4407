-- ===== src/Channel/Tests.antt =====
-- Runs of channel_v2.inl, and its theorems at concrete channels.
use librf.Prelude.{
  ℕ, ◌≡◌, refl, true, false, none, some, List, [], ◌∷◌, arith, ◌↔◌, ◌&&◌, not, ◌==◌, length, ap,
  ◌++◌, if◌then◌else◌,
}
use librf.RingQueue
use librf.LinkQueue.{Links}
use librf.LinkQueue
use librf.Channel.{Channel, store, channel, read_await_suspend, write_await_suspend}
use librf.Channel.Inv.{Rep, pending, channel-Rep}
use librf.Channel.Meet.{Call, read, write, step}
use librf.Channel.Fifo.{run, AreNew, Ran, run-Ran, IsFifo, channel-IsFifo}
use librf.Channel.Read.{read-waits}
use librf.Channel.Write.{write-waits}
use librf.Channel.Waking.{write_wakes, read_wakes, none_waits}

abbrev blank : Links
blank _ = record { prev = 0; next = 0 }

-- A new channel for `n` values.
abbrev fresh : ℕ → Channel ℕ
fresh n = channel blank blank (λ _. none) (λ _. 0) (λ _. false) n

-- Three writes into a buffer for one, then four reads, then a write to the waiting reader.
abbrev script : List (Call ℕ)
script = write 1 10 ∷ write 2 20 ∷ write 3 30 ∷ read 4 ∷ read 5 ∷ read 6 ∷ read 7 ∷ write 8 40 ∷ []

run-script :
    run true (fresh 1) script
    ≡ none
      ∷ none
      ∷ none
      ∷ some (4, some 10)
      ∷ some (5, some 20)
      ∷ some (6, some 30)
      ∷ none
      ∷ some (7, some 40)
      ∷ []
unfolding run step channel read_await_suspend write_await_suspend RingQueue.ring_queue
    RingQueue.try_push RingQueue.try_pop LinkQueue.empty_queue LinkQueue.push_back LinkQueue.try_pop
run-script = refl

-- With no buffer the same values go to the same reads.
run-no_capacity : run true (fresh 0) script ≡ run true (fresh 1) script
unfolding run step channel read_await_suspend write_await_suspend RingQueue.ring_queue
    RingQueue.try_push RingQueue.try_pop LinkQueue.empty_queue LinkQueue.push_back LinkQueue.try_pop
run-no_capacity = refl

script-AreNew : AreNew script [] []
script-AreNew = omega arith

fresh-Rep : (n : ℕ) → n ≡ 1 → Rep (fresh n) [] [] []
fresh-Rep n e = channel-Rep blank blank _ _ _ n (omega arith)

run-Ran_example : Ran true (fresh 1) [] [] script
run-Ran_example = run-Ran true script (fresh 1) [] [] [] (fresh-Rep 1 refl) script-AreNew

channel-IsFifo_example : IsFifo true (fresh 1) script
channel-IsFifo_example =
    channel-IsFifo true blank blank (λ _. none) (λ _. 0) (λ _. false) 1 script (omega arith)
      script-AreNew

-- A channel for one value whose reader 7 waits.
abbrev asked : Channel ℕ
asked = record (fresh 1) {
  read_awakes = LinkQueue.push_back (fresh 1).read_awakes 7;
  read_value = store (fresh 1).read_value 7 none;
  coro = store (fresh 1).coro 7 true;
}

read_await_suspend-asked : (read_await_suspend true (fresh 1) 7).1 ≡ asked
read_await_suspend-asked =
    ap (λ r. r.1) (read-waits true [] 7 (omega arith) tt (fresh-Rep 1 refl)).0

-- A channel without a buffer whose writer 8 waits with 80.
abbrev offered : Channel ℕ
offered = record (fresh 0) {
  write_awakes = LinkQueue.push_back (fresh 0).write_awakes 8;
  write_value = store (fresh 0).write_value 8 80;
  coro = store (fresh 0).coro 8 true;
}

empty-Rep : Rep (fresh 0) [] [] []
empty-Rep = channel-Rep blank blank _ _ _ 0 (omega arith)

no_room : 0 ≡ (fresh 0).max_counter
unfolding channel
no_room = refl

write_await_suspend-offered : (write_await_suspend true (fresh 0) 8 80).1 ≡ offered
write_await_suspend-offered =
    ap (λ r. r.1) (write-waits true 80 [] [] 8 (omega arith) tt no_room empty-Rep).0

offered-Rep : Rep offered [] [] (8 ∷ [])
offered-Rep = (write-waits true 80 [] [] 8 (omega arith) tt no_room empty-Rep).1

-- The write gives the waiting reader to the scheduler.
write_wakes_example :
    let (done, c') = write_await_suspend true asked 3 30 in
    (done ≡ not (none_waits (7 ∷ []) && length {A = ℕ} [] == asked.max_counter))
    × (c'.scheduled ≡ asked.scheduled ++ (7 ∷ []))
    × (c'.coro ≡ (if done then asked.coro else store asked.coro 3 true))
write_wakes_example =
    write_wakes true [] (7 ∷ []) [] 3 30
      (read-waits true [] 7 (omega arith) tt (fresh-Rep 1 refl)).1 (refl, tt) (omega arith) tt

-- The read gives the waiting writer to the scheduler.
read_wakes_example :
    let (got, c') = read_await_suspend true offered 3 in
    ((got ≡ none) ↔ (pending offered [] (8 ∷ []) ≡ []))
    × (c'.scheduled ≡ offered.scheduled ++ (8 ∷ []))
    × (c'.coro ≡ elim got [ none ↦ store offered.coro 3 true | some v ↦ offered.coro ])
read_wakes_example = read_wakes true [] [] (8 ∷ []) 3 offered-Rep (refl, tt) (omega arith) tt
