-- ===== src/Timer/Grows.antt =====
-- timer.cpp: the calls and the timers of a manager are only added to.
use librf.Prelude.{
  ℕ, ◌+◌, ◌≤◌, ◌≡◌, refl, sym, ap, ◌∙◌, Bool, true, false, List, [], ◌∷◌, ◌++◌, append-nil,
  append_assoc, ltb, arith, Bool-cases, inl, inr,
}
use librf.Timer.{
  invalid, runing_state, Manager, Request, adds, stops, store, set_st, add, stop, request, insert,
  call_target, start, fire, update, cancel_all, cancel_entries, clear, is_added, is_invalid,
}
use librf.Timer.Once.{called}
use librf.Timer.Acts.{Event, asks, ticks, clears, act, acts, start-added, start-stopped}

-- What follows the first list in the second.
unfoldable pub since : (before now : List (ℕ × Bool)) → List (ℕ × Bool)
since [] ys = ys
since (x ∷ xs) [] = []
since (x ∷ xs) (y ∷ ys) = since xs ys

pub since-append : (xs ys : List (ℕ × Bool)) → since xs (xs ++ ys) ≡ ys
unfolding since
since-append [] ys = refl
since-append (x ∷ xs) ys = since-append xs ys

pub called-append :
    (p : ℕ) (xs ys : List (ℕ × Bool)) → called p (xs ++ ys) ≡ called p xs + called p ys
unfolding called
called-append p [] ys = omega arith
called-append p ((q, b) ∷ xs) ys = ground (arith, called-append p xs ys)

pub record Grew (m n : Manager) : Type 0 where
  pub more : m.made ≤ n.made
  pub later_calls : List (ℕ × Bool)
  pub calls : n.calls ≡ m.calls ++ later_calls

same_calls : (m n : Manager) → m.made ≤ n.made → n.calls ≡ m.calls → Grew m n
same_calls m n le e = record { more = le; later_calls = []; calls = e ∙ sym (append-nil m.calls) }

pub Grew-trans : {m n k : Manager} → Grew m n → Grew n k → Grew m k
Grew-trans {m} {n} {k} g h = record {
  more = omega (arith, g.more, h.more);
  later_calls = g.later_calls ++ h.later_calls;
  calls =
      h.calls
      ∙ ap (λ l. l ++ h.later_calls) g.calls
      ∙ append_assoc m.calls g.later_calls h.later_calls;
}

add-Grew : (m : Manager) (tp : ℕ) → Grew m (add m tp)
unfolding add
add-Grew m tp = same_calls m (add m tp) (omega arith) refl

stop-Grew : (m : Manager) (p : ℕ) → Grew m (stop m p).1
unfolding stop
stop-Grew m p = elim (Bool-cases (is_invalid (m.targets p).st)) [
  | inl e ↦ rw e (same_calls m m (omega arith) refl)
  | inr e ↦ rw e (same_calls m (set_st m p invalid) (omega arith) refl)
]

request-Grew : (rs : List Request) (m : Manager) → Grew m (request m rs)
unfolding request
request-Grew [] m = same_calls m m (omega arith) refl
request-Grew (adds tp ∷ rs) m = Grew-trans (add-Grew m tp) (request-Grew rs (add m tp))
request-Grew (stops p ∷ rs) m = Grew-trans (stop-Grew m p) (request-Grew rs (stop m p).1)

module _ (body : ℕ → Bool → List Request) where
  call_target-Grew : (m : Manager) (p : ℕ) (b : Bool) → Grew m (call_target body m p b)
  unfolding call_target
  call_target-Grew m p b =
      let m' = record m {
        targets = store m.targets p (record (m.targets p) { cb = false; st = invalid });
      } in
      let n = record m' { calls = m.calls ++ ((p, b) ∷ []) } in
      let g : Grew m n = record { more = omega arith; later_calls = (p, b) ∷ []; calls = refl } in
      elim (Bool-cases (m.targets p).cb) [
        | inl e ↦ rw e (Grew-trans g (request-Grew (body p b) n))
        | inr e ↦ rw e (same_calls m m' (omega arith) refl)
      ]

  start-Grew : (qs : List ℕ) (m : Manager) → Grew m (start body m qs)
  unfolding start
  start-Grew [] m = same_calls m m (omega arith) refl
  start-Grew (q ∷ qs) m = elim (Bool-cases (is_added (m.targets q).st)) [
    | inl e ↦
        let n : Manager = record (set_st m q runing_state) {
          runing = insert (m.targets q).tp q m.runing;
        } in
        rw (start-added body m q qs e)
          (Grew-trans (same_calls m n (omega arith) refl) (start-Grew qs n))
    | inr e ↦
        rw (start-stopped body m q qs e)
          (Grew-trans (call_target-Grew m q true) (start-Grew qs (call_target body m q true)))
  ]

  fire-Grew : (now : ℕ) (r : List (ℕ × ℕ)) (m : Manager) → Grew m (fire body now m r)
  unfolding fire
  fire-Grew now [] m = same_calls m (record m { runing = [] }) (omega arith) refl
  fire-Grew now ((k, q) ∷ r) m = elim (Bool-cases (ltb now k)) [
    | inl e ↦ rw e (same_calls m (record m { runing = (k, q) ∷ r }) (omega arith) refl)
    | inr e ↦
        let b = is_invalid (m.targets q).st in
        rw e (Grew-trans (call_target-Grew m q b) (fire-Grew now r (call_target body m q b)))
  ]

  cancel_all-Grew : (qs : List ℕ) (m : Manager) → Grew m (cancel_all body m qs)
  unfolding cancel_all
  cancel_all-Grew [] m = same_calls m m (omega arith) refl
  cancel_all-Grew (q ∷ qs) m =
      Grew-trans (call_target-Grew m q true) (cancel_all-Grew qs (call_target body m q true))

  cancel_entries-Grew : (r : List (ℕ × ℕ)) (m : Manager) → Grew m (cancel_entries body m r)
  unfolding cancel_entries
  cancel_entries-Grew [] m = same_calls m m (omega arith) refl
  cancel_entries-Grew ((k, q) ∷ r) m =
      Grew-trans (call_target-Grew m q true) (cancel_entries-Grew r (call_target body m q true))

  act-Grew : (e : Event) (m : Manager) → Grew m (act body m e)
  unfolding act update clear
  act-Grew (asks rs) m = request-Grew rs m
  act-Grew (ticks now) m =
      let m0 : Manager = record m { added = [] } in
      let m' = start body m0 m.added in
      Grew-trans (same_calls m m0 (omega arith) refl)
        (Grew-trans (start-Grew m.added m0) (fire-Grew now m'.runing m'))
  act-Grew clears m =
      let m0 : Manager = record m { added = [] } in
      let m' = cancel_all body m0 m.added in
      let n : Manager = record m' { runing = [] } in
      Grew-trans (same_calls m m0 (omega arith) refl) (
        Grew-trans (cancel_all-Grew m.added m0)
          (Grew-trans (same_calls m' n (omega arith) refl) (cancel_entries-Grew m'.runing n)))

  pub acts-Grew : (es : List Event) (m : Manager) → Grew m (acts body m es)
  unfolding acts
  acts-Grew [] m = same_calls m m (omega arith) refl
  acts-Grew (e ∷ es) m = Grew-trans (act-Grew e m) (acts-Grew es (act body m e))

  pub acts-append :
      (xs ys : List Event) (m : Manager) → acts body m (xs ++ ys) ≡ acts body (acts body m xs) ys
  unfolding acts
  acts-append [] ys m = refl
  acts-append (x ∷ xs) ys m = acts-append xs ys (act body m x)
