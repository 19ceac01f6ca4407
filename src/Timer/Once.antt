-- ===== src/Timer/Once.antt =====
-- timer.cpp: every timer that was added is called once.
use librf.Prelude.{
  ℕ, suc, ◌+◌, ◌≡◌, refl, Bool, true, false, List, [], ◌∷◌, ◌++◌, if◌then◌else◌, ◌==◌, ltb, arith,
}
use librf.Timer.{
  invalid, runing_state, Manager, Request, adds, stops, store, set_st, add, stop, request, insert,
  call_target,
}

-- How often a timer stands in a list.
unfoldable pub count : ℕ → List ℕ → ℕ
count p [] = 0
count p (q ∷ qs) = if q == p then suc (count p qs) else count p qs

unfoldable pub entries : ℕ → List (ℕ × ℕ) → ℕ
entries p [] = 0
entries p ((k, q) ∷ r) = if q == p then suc (entries p r) else entries p r

unfoldable pub called : ℕ → List (ℕ × Bool) → ℕ
called p [] = 0
called p ((q, b) ∷ r) = if q == p then suc (called p r) else called p r

count-snoc :
    (p q : ℕ) (qs : List ℕ) → count p (qs ++ (q ∷ [])) ≡ count p qs + (if q == p then 1 else 0)
unfolding count
count-snoc p q [] = ground arith
count-snoc p q (x ∷ qs) = ground (arith, count-snoc p q qs)

called-snoc :
    (p q : ℕ) (b : Bool) (r : List (ℕ × Bool))
    → called p (r ++ ((q, b) ∷ [])) ≡ called p r + (if q == p then 1 else 0)
unfolding called
called-snoc p q b [] = ground arith
called-snoc p q b ((x, c) ∷ r) = ground (arith, called-snoc p q b r)

entries-insert :
    (p k q : ℕ) (r : List (ℕ × ℕ))
    → entries p (insert k q r) ≡ entries p r + (if q == p then 1 else 0)
unfolding entries insert
entries-insert p k q [] = ground arith
entries-insert p k q ((j, x) ∷ r) = ground (arith, entries-insert p k q r)

-- Each timer that was made is in one place: called, just added, or among the `held` ones. One that
-- was not called has its callback.
pub record EachOnce (m : Manager) (held : ℕ → ℕ) : Type 0 where
  pub once : (p : ℕ) → called p m.calls + count p m.added + held p ≡ (if ltb p m.made then 1 else 0)
  pub callback : (p : ℕ) → called p m.calls ≡ 0 → ltb p m.made ≡ true → (m.targets p).cb ≡ true

add-EachOnce : (m : Manager) (held : ℕ → ℕ) (tp : ℕ) → EachOnce m held → EachOnce (add m tp) held
unfolding add
add-EachOnce m held tp h = record {
  once = λ p. ground (arith, h.once p, h.once m.made, count-snoc p m.made m.added);
  callback = λ p c b. ground (arith, h.callback p);
}

stop-EachOnce : (m : Manager) (held : ℕ → ℕ) (p : ℕ) → EachOnce m held → EachOnce (stop m p).1 held
unfolding stop
stop-EachOnce m held p h = record {
  once = λ q. ground (arith, h.once q);
  callback = λ q c b. ground (arith, h.callback q);
}

pub request-EachOnce :
    (rs : List Request) (m : Manager) (held : ℕ → ℕ)
    → EachOnce m held
    → EachOnce (request m rs) held
unfolding request
request-EachOnce [] m held h = h
request-EachOnce (adds tp ∷ rs) m held h =
    request-EachOnce rs (add m tp) held (add-EachOnce m held tp h)
request-EachOnce (stops p ∷ rs) m held h =
    request-EachOnce rs (stop m p).1 held (stop-EachOnce m held p h)

pub runing-request : (rs : List Request) (m : Manager) → (request m rs).runing ≡ m.runing
unfolding request add stop
runing-request [] m = refl
runing-request (adds tp ∷ rs) m = runing-request rs (add m tp)
runing-request (stops p ∷ rs) m = ground (arith, runing-request rs (stop m p).1)

EachOnce-same :
    (m n : Manager) (held kept : ℕ → ℕ)
    → n.calls ≡ m.calls
    → n.added ≡ m.added
    → n.made ≡ m.made
    → ((p : ℕ) → (n.targets p).cb ≡ (m.targets p).cb)
    → ((p : ℕ) → kept p ≡ held p)
    → EachOnce m held
    → EachOnce n kept
EachOnce-same m n held kept c a d t e h = record {
  once = λ p. ground (arith, h.once p, e p);
  callback = λ p z b. ground (arith, h.callback p, t p);
}

-- With one more of `p` taken out.
abbrev pub plus : ℕ → (ℕ → ℕ) → ℕ → ℕ
plus p held q = held q + (if p == q then 1 else 0)

-- A timer of the first loop that goes to the running ones.
pub run-EachOnce :
    (m : Manager) (p : ℕ) (ps : List ℕ)
    → EachOnce m (λ q. count q (p ∷ ps) + entries q m.runing)
    → EachOnce
        (record (set_st m p runing_state) { runing = insert (m.targets p).tp p m.runing })
        (λ q. count q ps + entries q (insert (m.targets p).tp p m.runing))
unfolding count
run-EachOnce m p ps h =
    EachOnce-same m
      (record (set_st m p runing_state) { runing = insert (m.targets p).tp p m.runing })
      (λ q. count q (p ∷ ps) + entries q m.runing)
      (λ q. count q ps + entries q (insert (m.targets p).tp p m.runing)) refl refl refl
      (λ q. ground arith) (λ q. ground (arith, entries-insert q (m.targets p).tp p m.runing)) h

module _ (body : ℕ → Bool → List Request) where
  pub call_target-EachOnce :
      (m : Manager) (held : ℕ → ℕ) (p : ℕ) (b : Bool)
      → EachOnce m (plus p held)
      → EachOnce (call_target body m p b) held
  unfolding call_target
  call_target-EachOnce m held p b h =
      let t = m.targets p in
      let here = h.once p in
      let has : t.cb ≡ true = ground (arith, h.callback p) in
      let m' = record m {
        targets = store m.targets p (record t { cb = false; st = invalid });
        calls = m.calls ++ ((p, b) ∷ []);
      } in
      let h' : EachOnce m' held = record {
        once = λ q. ground (arith, h.once q, called-snoc q p b m.calls);
        callback = λ q c d. ground (arith, h.callback q, called-snoc q p b m.calls);
      } in
      rw has (request-EachOnce (body p b) m' held h')

  pub runing-call_target :
      (m : Manager) (p : ℕ) (b : Bool) → (call_target body m p b).runing ≡ m.runing
  unfolding call_target
  runing-call_target m p b =
      let t = m.targets p in
      let m' = record m {
        targets = store m.targets p (record t { cb = false; st = invalid });
        calls = m.calls ++ ((p, b) ∷ []);
      } in
      ground (arith, runing-request (body p b) m')

  -- A timer of the first loop that is called.
  pub call-EachOnce :
      (m : Manager) (p : ℕ) (ps : List ℕ)
      → EachOnce m (λ q. count q (p ∷ ps) + entries q m.runing)
      → EachOnce
          (call_target body m p true)
          (λ q. count q ps + entries q (call_target body m p true).runing)
  unfolding count
  call-EachOnce m p ps h =
      let r = (call_target body m p true).runing in
      let e : r ≡ m.runing = runing-call_target m p true in
      call_target-EachOnce m (λ q. count q ps + entries q r) p true
        (EachOnce-same m m (λ q. count q (p ∷ ps) + entries q m.runing)
          (plus p (λ q. count q ps + entries q r)) refl refl refl (λ q. refl)
          (λ q. ground (arith, e)) h)
