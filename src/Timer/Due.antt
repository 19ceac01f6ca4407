-- ===== src/Timer/Due.antt =====
-- timer.cpp: the timers that an update calls, and those it keeps.
use librf.Prelude.{
  ℕ, ◌≡◌, refl, sym, ap, ◌∙◌, Bool, true, false, List, [], ◌∷◌, ◌++◌, append-nil, append_assoc,
  if◌then◌else◌, ltb, leb, arith, Bool-cases, inl, inr,
}
use librf.Timer.{
  runing_state, Manager, Request, adds, stops, set_st, add, stop, request, insert, call_target,
  start, fire, is_added, is_invalid,
}
use librf.Timer.Once.{entries, EachOnce, plus, call_target-EachOnce, runing-call_target}
use librf.Timer.Acts.{start-added, start-stopped}

-- The timers of the entries that are due, and the entries that are not.
unfoldable pub due : ℕ → List (ℕ × ℕ) → List ℕ
due now [] = []
due now ((k, p) ∷ r) = if leb k now then p ∷ due now r else due now r

unfoldable pub later : ℕ → List (ℕ × ℕ) → List (ℕ × ℕ)
later now [] = []
later now ((k, p) ∷ r) = if leb k now then later now r else (k, p) ∷ later now r

unfoldable pub timers : List (ℕ × Bool) → List ℕ
timers [] = []
timers ((p, b) ∷ r) = p ∷ timers r

pub timers-append : (r s : List (ℕ × Bool)) → timers (r ++ s) ≡ timers r ++ timers s
unfolding timers
timers-append [] s = refl
timers-append ((p, b) ∷ r) s = ap (λ l. p ∷ l) (timers-append r s)

-- No key of the list is below `k`.
unfoldable pub From : ℕ → List (ℕ × ℕ) → Type 0
From k [] = Unit {0}
From k ((j, q) ∷ r) = (leb k j ≡ true) × From k r

unfoldable pub Sorted : List (ℕ × ℕ) → Type 0
unfolding From
Sorted [] = Unit {0}
Sorted ((k, p) ∷ r) = From k r × Sorted r

From-le : (j k : ℕ) (r : List (ℕ × ℕ)) → leb j k ≡ true → From k r → From j r
unfolding From
From-le j k [] e h = tt
From-le j k ((i, q) ∷ r) e h = (ground (arith, h.0, e), From-le j k r e h.1)

From-insert : (j k p : ℕ) (r : List (ℕ × ℕ)) → leb j k ≡ true → From j r → From j (insert k p r)
unfolding From insert
From-insert j k p [] e h = (e, tt)
From-insert j k p ((i, q) ∷ r) e h = elim (Bool-cases (leb i k)) [
  | inl d ↦ rw d (h.0, From-insert j k p r e h.1)
  | inr d ↦ rw d (e, h)
]

insert-Sorted : (k p : ℕ) (r : List (ℕ × ℕ)) → Sorted r → Sorted (insert k p r)
unfolding Sorted From insert
insert-Sorted k p [] h = (tt, tt)
insert-Sorted k p ((i, q) ∷ r) h = elim (Bool-cases (leb i k)) [
  | inl d ↦ rw d (From-insert i k p r d h.0, insert-Sorted k p r h.1)
  | inr d ↦ let e : leb k i ≡ true = ground (arith, d) in rw d ((e, From-le k i r e h.0), h)
]

pub later-Sorted : (now k : ℕ) (r : List (ℕ × ℕ)) → ltb now k ≡ true → From k r → later now r ≡ r
unfolding From later
later-Sorted now k [] e h = refl
later-Sorted now k ((j, q) ∷ r) e h =
    let f : leb j now ≡ false = ground (arith, e, h.0) in
    rw f (ap (λ l. (j, q) ∷ l) (later-Sorted now k r e h.1))

pub due-Sorted : (now k : ℕ) (r : List (ℕ × ℕ)) → ltb now k ≡ true → From k r → due now r ≡ []
unfolding From due
due-Sorted now k [] e h = refl
due-Sorted now k ((j, q) ∷ r) e h =
    let f : leb j now ≡ false = ground (arith, e, h.0) in rw f (due-Sorted now k r e h.1)

calls-request : (rs : List Request) (m : Manager) → (request m rs).calls ≡ m.calls
unfolding request add stop
calls-request [] m = refl
calls-request (adds tp ∷ rs) m = calls-request rs (add m tp)
calls-request (stops p ∷ rs) m = ground (arith, calls-request rs (stop m p).1)

module _ (body : ℕ → Bool → List Request) where
  calls-call_target :
      (m : Manager) (held : ℕ → ℕ) (p : ℕ) (b : Bool)
      → EachOnce m (plus p held)
      → (call_target body m p b).calls ≡ m.calls ++ ((p, b) ∷ [])
  unfolding call_target
  calls-call_target m held p b h =
      let t = m.targets p in
      let here = h.once p in
      let has : t.cb ≡ true = ground (arith, h.callback p) in rw has (calls-request (body p b) _)

  pub start-Sorted : (ps : List ℕ) (m : Manager) → Sorted m.runing → Sorted (start body m ps).runing
  unfolding start
  start-Sorted [] m h = h
  start-Sorted (p ∷ ps) m h = elim (Bool-cases (is_added (m.targets p).st)) [
    | inl e ↦ rw (start-added body m p ps e) (
        start-Sorted ps
          (record (set_st m p runing_state) { runing = insert (m.targets p).tp p m.runing })
          (insert-Sorted (m.targets p).tp p m.runing h))
    | inr e ↦
        rw (start-stopped body m p ps e)
          (start-Sorted ps (call_target body m p true) (rw (runing-call_target body m p true) h))
  ]

  pub fire-due :
      (now : ℕ) (r : List (ℕ × ℕ)) (m : Manager)
      → EachOnce m (λ q. entries q r)
      → Sorted r
      → (timers (fire body now m r).calls ≡ timers m.calls ++ due now r)
        × ((fire body now m r).runing ≡ later now r)
  unfolding fire due later Sorted entries timers
  fire-due now [] m h s = (sym (append-nil (timers m.calls)), refl)
  fire-due now ((k, p) ∷ r) m h s = elim (Bool-cases (ltb now k)) [
    | inl e ↦
        let f : leb k now ≡ false = ground (arith, e) in
        let d = due-Sorted now k r e s.0 in
        let l = later-Sorted now k r e s.0 in
        rw (e, f)
          (
            sym (append-nil (timers m.calls)) ∙ ap (λ ps. timers m.calls ++ ps) (sym d),
            ap (λ es. (k, p) ∷ es) (sym l),
          )
    | inr e ↦
        let f : leb k now ≡ true = ground (arith, e) in
        let b = is_invalid (m.targets p).st in
        let h' : EachOnce m (plus p (λ q. entries q r)) = record {
          once = λ q. ground (arith, h.once q);
          callback = h.callback;
        } in
        let rest =
          fire-due now r (call_target body m p b)
            (call_target-EachOnce body m (λ q. entries q r) p b h') s.1 in
        let c = calls-call_target m (λ q. entries q r) p b h' in
        rw (e, f)
          (
            rest.0
                ∙ ap (λ cs. timers cs ++ due now r) c
                ∙ ap (λ ps. ps ++ due now r) (timers-append m.calls ((p, b) ∷ []))
                ∙ append_assoc (timers m.calls) (p ∷ []) (due now r),
            rest.1,
          )
  ]
