-- ===== src/Channel/Meet.antt =====
-- channel_v2.inl: whatever its capacity, a channel hands values to readers as one queue of values that
-- meets one queue of readers.
use native.Mathlib.Decide.{ℕ_discrete}
use librf.Prelude.{
  ◌≡◌, ◌≢◌, refl, sym, ◌∙◌, ap, Bool, true, false, Option, none, some, List, [], ◌∷◌, ◌++◌, map,
  arith, if◌then◌else◌, ◌==◌, length, append-nil, append_assoc,
}
use librf.LinkQueue.{Ptr, null}
use librf.LinkQueue.Chain.{Fresh}
use librf.Channel.{Channel, store, read_await_suspend, write_await_suspend}
use librf.Channel.Inv.{Rep, pending}
use librf.Channel.Read.{read-buffered, read-refilled, read-direct, read-waits, read-ready}
use librf.Channel.Write.{write-buffered, write-through, write-handed, write-waits, write-ready}

-- `co_await ch.read()` and `co_await (ch << v)`, with the address of the state that is made if the
-- coroutine has to wait.
pub data Call {ℓ} (A : Type ℓ) : Type ℓ where
  read : Ptr → Call A
  write : Ptr → A → Call A

abbrev pub address {ℓ} : {A : Type ℓ} → Call A → Ptr
address (read p) = p
address (write p v) = p

pub Fresh-snoc : (q p : Ptr) (ws : List Ptr) → p ≢ q → Fresh q ws → Fresh q (ws ++ (p ∷ []))
Fresh-snoc q p [] ne f = (ne, tt)
Fresh-snoc q p (w ∷ ws) ne f = (f.0, Fresh-snoc q p ws ne f.1)

-- To which read a value was handed by a call, if by any.
abbrev pub Handed {ℓ} : Type ℓ → Type ℓ
Handed A = Option (Ptr × Option A)

module _ {ℓ} {A : Type ℓ} where
  -- A read hands itself what it returns; a write hands the oldest waiting reader what it finds in its
  -- state afterwards.
  unfoldable pub step : Bool → Channel A → Call A → Handed A × Channel A
  step o c (read p) =
      let (r, c') = read_await_suspend o c p in (elim r [ none ↦ none | some v ↦ some (p, v) ], c')
  step o c (write p v) =
      let reader = c.read_awakes.header in
      let c' = (write_await_suspend o c p v).1 in
      (if reader == null then none else some (reader, c'.read_value reader), c')

  -- The same for the two queues.
  unfoldable pub meet_read : List A → List Ptr → Ptr → Handed A × List A × List Ptr
  meet_read [] rs p = (none, [], rs ++ (p ∷ []))
  meet_read (x ∷ xs) rs p = (some (p, some x), xs, rs)

  unfoldable pub meet_write : List A → List Ptr → A → Handed A × List A × List Ptr
  meet_write xs [] v = (none, xs ++ (v ∷ []), [])
  meet_write xs (r ∷ rs) v = (some (r, some v), xs, rs)

  unfoldable pub meet : List A → List Ptr → Call A → Handed A × List A × List Ptr
  unfolding meet_read meet_write
  meet xs rs (read p) = meet_read xs rs p
  meet xs rs (write p v) = meet_write xs rs v

  -- What a step leaves: a channel that holds what the queues hold, and in which no new state waits
  -- but that of the call.
  pub record Meets (c : Channel A) (p : Ptr) (ws : List Ptr) (r : Handed A × Channel A)
      (m : Handed A × List A × List Ptr) : Type ℓ where
    pub buffered : List A
    pub waiting : List Ptr
    pub rep : Rep r.1 buffered m.2 waiting
    pub handed : r.0 ≡ m.0
    pub held : pending r.1 buffered waiting ≡ m.1
    pub no_other : (q : Ptr) → p ≢ q → Fresh q ws → Fresh q waiting

  read-Meets :
      (o : Bool) (c : Channel A) (xs : List A) (rs ws : List Ptr) (p : Ptr)
      → Rep c xs rs ws
      → p ≢ null
      → Fresh p rs
      → Meets c p ws (step o c (read p)) (meet (pending c xs ws) rs (read p))
  unfolding step meet
  read-Meets o c (x ∷ xs) rs [] p r n out =
      let (e, rep) = read-buffered o x xs rs r in
      rw (read-ready o c p _ _ e) (record {
        buffered = xs;
        waiting = [];
        rep = rep;
        handed = refl;
        held = refl;
        no_other = λ q ne f. f;
      })
  read-Meets o c (x ∷ xs) rs (w ∷ ws) p r n out =
      let (e, rep) = read-refilled o x xs rs w ws r in
      rw (read-ready o c p _ _ e) (record {
        buffered = xs ++ (c.write_value w ∷ []);
        waiting = ws;
        rep = rep;
        handed = refl;
        held = append_assoc xs (c.write_value w ∷ []) (map c.write_value ws);
        no_other = λ q ne f. f.1;
      })
  read-Meets o c [] rs (w ∷ ws) p r n out =
      let (e, rep) = read-direct o rs w ws r in
      rw (read-ready o c p _ _ e) (record {
        buffered = [];
        waiting = ws;
        rep = rep;
        handed = refl;
        held = refl;
        no_other = λ q ne f. f.1;
      })
  read-Meets o c [] rs [] p r n out =
      let (e, rep) = read-waits o rs p n out r in
      rw e (record {
        buffered = [];
        waiting = [];
        rep = rep;
        handed = refl;
        held = refl;
        no_other = λ q ne f. f;
      })

  step_write :
      (o : Bool) (c : Channel A) (p : Ptr) (v : A) (done : Bool) (c' : Channel A) (h : Ptr)
      → write_await_suspend o c p v ≡ (done, c')
      → c.read_awakes.header ≡ h
      → step o c (write p v) ≡ (if h == null then none else some (h, c'.read_value h), c')
  unfolding step
  step_write o c p v done c' h e at = ground (arith, e, at)

  -- The values of the writers, with one more.
  map-snoc :
      (f : Ptr → A) (p : Ptr) (v : A) (ws : List Ptr)
      → Fresh p ws
      → map (store f p v) (ws ++ (p ∷ [])) ≡ map f ws ++ (v ∷ [])
  map-snoc f p v [] out = ground arith
  map-snoc f p v (w ∷ ws) out = ground (arith, map-snoc f p v ws out.1)

  -- No reader waits: the value is buffered, or the writer waits.
  write-Meets-nil :
      (o : Bool) (c : Channel A) (xs : List A) (ws : List Ptr) (p : Ptr) (v : A)
      → Rep c xs [] ws
      → p ≢ null
      → Fresh p ws
      → Meets c p ws (step o c (write p v)) (none, pending c xs ws ++ (v ∷ []), [])
  write-Meets-nil o c xs ws p v r n out = elim (ℕ_discrete (length xs) c.max_counter) [
    | yes full ↦
        let (e, rep) = write-waits o v xs ws p n out full r in
        rw (step_write o c p v false _ null e r.readers.chain.0) (record {
          buffered = xs;
          waiting = ws ++ (p ∷ []);
          rep = rep;
          handed = refl;
          held =
              ap (◌++◌ xs) (map-snoc c.write_value p v ws out)
              ∙ sym (append_assoc xs (map c.write_value ws) (v ∷ []));
          no_other = λ q ne f. Fresh-snoc q p ws ne f;
        })
    | no room ↦
        let (e, rep) = write-buffered o v xs ws room r in
        let alone : ws ≡ [] = ground (arith, r.idle_writers) in
        rw (step_write o c p v true _ null (write-ready o c p v _ e) r.readers.chain.0) (record {
          buffered = xs ++ (v ∷ []);
          waiting = ws;
          rep = rep;
          handed = refl;
          held = simp (alone, append-nil);
          no_other = λ q ne f. f;
        })
  ]

  -- A reader waits: it is handed the value.
  write-Meets-cons :
      (o : Bool) (c : Channel A) (p r : Ptr) (rs : List Ptr) (v : A)
      → Rep c [] (r ∷ rs) []
      → Meets c p [] (step o c (write p v)) (some (r, some v), [], rs)
  write-Meets-cons o c p r rs v h =
      let at = h.readers.chain.0 in
      let found : (r == null) ≡ false = ground (arith, h.readers.chain.1) in
      let self : (r == r) ≡ true = ground arith in
      elim (ℕ_discrete 0 c.max_counter) [
        | yes full ↦
            let (e, rep) = write-handed o v r rs full h in
            rw (step_write o c p v true _ r (write-ready o c p v _ e) at, found, self)
              (record {
                buffered = [];
                waiting = [];
                rep = rep;
                handed = refl;
                held = refl;
                no_other = λ q ne f. f;
              })
        | no room ↦
            let (e, rep) = write-through o v r rs room h in
            rw (step_write o c p v true _ r (write-ready o c p v _ e) at, found, self)
              (record {
                buffered = [];
                waiting = [];
                rep = rep;
                handed = refl;
                held = refl;
                no_other = λ q ne f. f;
              })
      ]

  -- Every call on a channel that stands for two queues does what it does to the queues.
  pub step-Meets :
      (o : Bool) (c : Channel A) (xs : List A) (rs ws : List Ptr) (k : Call A)
      → Rep c xs rs ws
      → address k ≢ null
      → Fresh (address k) rs
      → Fresh (address k) ws
      → Meets c (address k) ws (step o c k) (meet (pending c xs ws) rs k)
  unfolding meet
  step-Meets o c xs rs ws (read p) h n out_r out_w = read-Meets o c xs rs ws p h n out_r
  step-Meets o c xs [] ws (write p v) h n out_r out_w = write-Meets-nil o c xs ws p v h n out_w
  step-Meets o c [] (r ∷ rs) [] (write p v) h n out_r out_w = write-Meets-cons o c p r rs v h
  step-Meets o c (x ∷ xs) (r ∷ rs) ws (write p v) h n out_r out_w =
      absurd (ground (arith, h.idle_readers))
  step-Meets o c [] (r ∷ rs) (w ∷ ws) (write p v) h n out_r out_w =
      absurd (ground (arith, h.idle_readers))
