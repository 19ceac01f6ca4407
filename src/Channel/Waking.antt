-- ===== src/Channel/Waking.antt =====
-- channel_v2.inl: who waits and who is woken.
use native.Mathlib.Decide.{ℕ_discrete}
use librf.Prelude.{
  ◌≡◌, ◌≢◌, Bool, true, false, none, some, List, [], ◌∷◌, ◌++◌, append-nil, ◌≤◌, arith, ◌==◌, ◌&&◌,
  ◌↔◌, not, length, if◌then◌else◌,
}
use librf.RingQueue.Inv.{length-le-capacity}
use librf.LinkQueue.{Ptr, null}
use librf.LinkQueue.Chain.{Fresh}
use librf.Channel.{Channel, store, read_await_suspend, write_await_suspend}
use librf.Channel.Inv.{Rep, pending}
use librf.Channel.Read.{read-buffered, read-refilled, read-direct, read-waits, read-ready}
use librf.Channel.Write.{write-buffered, write-through, write-handed, write-waits, write-ready}

abbrev pub none_waits : List Ptr → Bool
none_waits [] = true
none_waits (p ∷ ps) = false

abbrev pub first : List Ptr → List Ptr
first [] = []
first (p ∷ ps) = p ∷ []

-- Every one of the states has a coroutine to resume.
abbrev pub AllCoro : (Ptr → Bool) → List Ptr → Type 0
AllCoro coro [] = Unit
AllCoro coro (p ∷ ps) = (coro p ≡ true) × AllCoro coro ps

-- They have it still when one more has been suspended.
store-AllCoro :
    (coro : Ptr → Bool) (p : Ptr) (ps : List Ptr) → AllCoro coro ps → AllCoro (store coro p true) ps
store-AllCoro coro p [] co = tt
store-AllCoro coro p (q ∷ ps) co = (ground (arith, co.0), store-AllCoro coro p ps co.1)

-- And so does the one that joins them.
pub append-AllCoro :
    (coro : Ptr → Bool) (p : Ptr) (ps : List Ptr)
    → AllCoro coro ps
    → AllCoro (store coro p true) (ps ++ (p ∷ []))
append-AllCoro coro p [] co = (ground arith, tt)
append-AllCoro coro p (q ∷ ps) co = (ground (arith, co.0), append-AllCoro coro p ps co.1)

module _ {ℓ} {A : Type ℓ} (o : Bool) {c : Channel A} where
  -- On a channel that has its invariant and whose waiting readers have their coroutines, with a
  -- state that does not wait yet, a write suspends exactly where no reader waits and the buffer is
  -- full; it gives the oldest waiting reader to the scheduler and nobody else, and of all coroutines
  -- only that of a suspended write is stored.
  pub write_wakes :
      (xs : List A) (rs ws : List Ptr) (p : Ptr) (v : A)
      → Rep c xs rs ws
      → AllCoro c.coro rs
      → p ≢ null
      → Fresh p ws
      → let (done, c') = write_await_suspend o c p v in
        (done ≡ not (none_waits rs && length xs == c.max_counter))
        × (c'.scheduled ≡ c.scheduled ++ first rs)
        × (c'.coro ≡ (if done then c.coro else store c.coro p true))
  write_wakes xs [] ws p v r co n out = elim (ℕ_discrete (length xs) c.max_counter) [
    | yes full ↦
        let (e, _) = write-waits o v xs ws p n out full r in
        ground (arith, e, append-nil c.scheduled)
    | no room ↦
        let (e, _) = write-buffered o v xs ws room r in
        ground (arith, write-ready o c p v _ e, append-nil c.scheduled)
  ]
  write_wakes [] (q ∷ rs) [] p v r co n out = elim (ℕ_discrete 0 c.max_counter) [
    | yes full ↦
        let (e, _) = write-handed o v q rs full r in ground (arith, write-ready o c p v _ e, co.0)
    | no room ↦
        let (e, _) = write-through o v q rs room r in ground (arith, write-ready o c p v _ e, co.0)
  ]
  write_wakes (x ∷ xs) (q ∷ rs) ws p v r co n out = absurd (ground (arith, r.idle_readers))
  write_wakes [] (q ∷ rs) (w ∷ ws) p v r co n out = absurd (ground (arith, r.idle_readers))

  -- On a channel that has its invariant and whose waiting writers have their coroutines, with a
  -- state that does not wait yet, a read suspends exactly where no value is on its way; it gives the
  -- oldest waiting writer to the scheduler and nobody else, and of all coroutines only that of a
  -- suspended read is stored.
  pub read_wakes :
      (xs : List A) (rs ws : List Ptr) (p : Ptr)
      → Rep c xs rs ws
      → AllCoro c.coro ws
      → p ≢ null
      → Fresh p rs
      → let (got, c') = read_await_suspend o c p in
        ((got ≡ none) ↔ (pending c xs ws ≡ []))
        × (c'.scheduled ≡ c.scheduled ++ first ws)
        × (c'.coro ≡ elim got [ none ↦ store c.coro p true | some v ↦ c.coro ])
  read_wakes (x ∷ xs) rs [] p r co n out =
      let (e, _) = read-buffered o x xs rs r in
      ground (arith, read-ready o c p _ _ e, append-nil c.scheduled)
  read_wakes (x ∷ xs) rs (w ∷ ws) p r co n out =
      let (e, _) = read-refilled o x xs rs w ws r in ground (arith, read-ready o c p _ _ e, co.0)
  read_wakes [] rs (w ∷ ws) p r co n out =
      let (e, _) = read-direct o rs w ws r in ground (arith, read-ready o c p _ _ e, co.0)
  read_wakes [] rs [] p r co n out =
      let (e, _) = read-waits o rs p n out r in ground (arith, e, append-nil c.scheduled)

-- The buffer never holds more than the capacity.
pub length-le-max {ℓ} :
    {A : Type ℓ} {c : Channel A} {xs : List A} {rs ws : List Ptr}
    → Rep c xs rs ws
    → length xs ≤ c.max_counter
length-le-max r = omega (arith, length-le-capacity r.holds, r.sized)
