-- ===== src/Channel/Fifo.antt =====
-- channel_v2.inl: what a channel hands out over any sequence of reads and writes.
use librf.Prelude.{
  ℕ, ◌≡◌, ◌≢◌, ◌<◌, ◌+◌, refl, sym, ◌∙◌, ap, subst, Bool, Option, none, some, List, [], ◌∷◌, ◌++◌,
  map, arith, ◌⊎◌, inl, inr, append-nil, append_assoc, u32_mod,
}
use mathlib.Core.List.{map-append}
use librf.LinkQueue.{Ptr, null, Links}
use librf.LinkQueue.Chain.{Fresh, Distinct}
use librf.LinkQueue.Unlink.{Apart}
use librf.Channel.{Channel, channel}
use librf.Channel.Inv.{Rep, pending, channel-Rep}
use librf.Channel.Meet.{Call, read, write, address, Handed, step, meet, step-Meets, Fresh-snoc}

module _ {ℓ} {A : Type ℓ} where
  -- What each call hands out, and the channel at the end.
  unfoldable pub run : Bool → Channel A → List (Call A) → List (Handed A)
  run o c [] = []
  run o c (k ∷ ks) = let (d, c') = step o c k in d ∷ run o c' ks

  unfoldable pub after : Bool → Channel A → List (Call A) → Channel A
  after o c [] = c
  after o c (k ∷ ks) = after o (step o c k).1 ks

  -- The same for the two queues.
  unfoldable pub run_meet : List A → List Ptr → List (Call A) → List (Handed A)
  run_meet xs rs [] = []
  run_meet xs rs (k ∷ ks) = let (d, ys, qs) = meet xs rs k in d ∷ run_meet ys qs ks

  unfoldable pub after_meet : List A → List Ptr → List (Call A) → List A × List Ptr
  after_meet xs rs [] = (xs, rs)
  after_meet xs rs (k ∷ ks) = let (d, ys, qs) = meet xs rs k in after_meet ys qs ks

  abbrev pub addresses : List (Call A) → List Ptr
  addresses [] = []
  addresses (k ∷ ks) = address k ∷ addresses ks

  -- The states of the calls are distinct objects, none of them a state that waits already.
  pub record AreNew (ks : List (Call A)) (rs ws : List Ptr) : Type 0 where
    pub not_null : Fresh null (addresses ks)
    pub distinct : Distinct (addresses ks)
    pub no_reader : Apart (addresses ks) rs
    pub no_writer : Apart (addresses ks) ws

  meet-no_other :
      (xs : List A) (rs : List Ptr) (k : Call A) (q : Ptr)
      → address k ≢ q
      → Fresh q rs
      → Fresh q (meet xs rs k).2
  unfolding meet
  meet-no_other [] rs (read p) q ne f = Fresh-snoc q p rs ne f
  meet-no_other (x ∷ xs) rs (read p) q ne f = f
  meet-no_other xs [] (write p v) q ne f = tt
  meet-no_other xs (r ∷ rs) (write p v) q ne f = f.1

Apart-change :
    (p : Ptr) (ids ws ws' : List Ptr)
    → ((q : Ptr) → p ≢ q → Fresh q ws → Fresh q ws')
    → Fresh p ids
    → Apart ids ws
    → Apart ids ws'
Apart-change p [] ws ws' keep out a = tt
Apart-change p (x ∷ ids) ws ws' keep out a =
    (keep x (λ e. out.0 (sym e)) a.0, Apart-change p ids ws ws' keep out.1 a.1)

module _ {ℓ} {A : Type ℓ} (o : Bool) where
  -- The handed values, and a channel at the end that stands for the two queues at the end.
  pub record Ran (c : Channel A) (xs : List A) (rs : List Ptr) (ks : List (Call A)) : Type ℓ where
    pub buffered : List A
    pub waiting : List Ptr
    pub same : run o c ks ≡ run_meet xs rs ks
    pub rep : Rep (after o c ks) buffered (after_meet xs rs ks).1 waiting
    pub held : pending (after o c ks) buffered waiting ≡ (after_meet xs rs ks).0

  -- However large its buffer, a channel that has its invariant hands out what one queue of values
  -- that meets one queue of readers hands out, and ends as a channel that holds the values and the
  -- readers that those queues end with, with its invariant, if each call has a state of its own.
  pub run-Ran :
      (ks : List (Call A)) (c : Channel A) (xs : List A) (rs ws : List Ptr)
      → Rep c xs rs ws
      → AreNew ks rs ws
      → Ran c (pending c xs ws) rs ks
  unfolding run after run_meet after_meet
  run-Ran [] c xs rs ws r new = record {
    buffered = xs;
    waiting = ws;
    same = refl;
    rep = r;
    held = refl;
  }
  run-Ran (k ∷ ks) c xs rs ws r new =
      let m = step-Meets o c xs rs ws k r new.not_null.0 new.no_reader.0 new.no_writer.0 in
      let rest =
        run-Ran ks (step o c k).1 m.buffered (meet (pending c xs ws) rs k).2 m.waiting m.rep
          (record {
            not_null = new.not_null.1;
            distinct = new.distinct.1;
            no_reader =
                Apart-change (address k) (addresses ks) rs _ (meet-no_other (pending c xs ws) rs k)
                  new.distinct.0 new.no_reader.1;
            no_writer =
                Apart-change (address k) (addresses ks) ws m.waiting m.no_other new.distinct.0
                  new.no_writer.1;
          }) in
      let all =
        subst (λ ys. Ran (step o c k).1 ys (meet (pending c xs ws) rs k).2 ks) m.held rest in
      record {
        buffered = all.buffered;
        waiting = all.waiting;
        same = rw (m.handed, all.same);
        rep = all.rep;
        held = all.held;
      }

module _ {ℓ} {A : Type ℓ} where
  -- The reads and the values written, in the order of the calls.
  abbrev pub reads : List (Call A) → List Ptr
  reads [] = []
  reads (read p ∷ ks) = p ∷ reads ks
  reads (write p v ∷ ks) = reads ks

  abbrev pub writes : List (Call A) → List A
  writes [] = []
  writes (read p ∷ ks) = writes ks
  writes (write p v ∷ ks) = v ∷ writes ks

  -- The reads that were served, and the values that they were given, in order.
  abbrev pub readers_of : List (Handed A) → List Ptr
  readers_of [] = []
  readers_of (none ∷ hs) = readers_of hs
  readers_of (some (p, v) ∷ hs) = p ∷ readers_of hs

  abbrev pub values_of : List (Handed A) → List (Option A)
  values_of [] = []
  values_of (none ∷ hs) = values_of hs
  values_of (some (p, v) ∷ hs) = v ∷ values_of hs

  meet-readers :
      (ks : List (Call A)) (xs : List A) (rs : List Ptr)
      → (xs ≡ []) ⊎ (rs ≡ [])
      → readers_of (run_meet xs rs ks) ++ (after_meet xs rs ks).1 ≡ rs ++ reads ks
  unfolding run_meet after_meet meet
  meet-readers [] xs rs h = sym (append-nil rs)
  meet-readers (read p ∷ ks) [] rs h =
      meet-readers ks [] (rs ++ (p ∷ [])) (inl refl) ∙ append_assoc rs (p ∷ []) (reads ks)
  meet-readers (read p ∷ ks) (x ∷ xs) rs h =
      let e : rs ≡ [] = ground arith in rw e (ap (◌∷◌ p) (meet-readers ks xs [] (inr refl)))
  meet-readers (write p v ∷ ks) xs [] h = meet-readers ks (xs ++ (v ∷ [])) [] (inr refl)
  meet-readers (write p v ∷ ks) xs (r ∷ rs) h = ap (◌∷◌ r) (meet-readers ks xs rs (ground arith))

  meet-values :
      (ks : List (Call A)) (xs : List A) (rs : List Ptr)
      → (xs ≡ []) ⊎ (rs ≡ [])
      → values_of (run_meet xs rs ks) ++ map some (after_meet xs rs ks).0
        ≡ map some xs ++ map some (writes ks)
  unfolding run_meet after_meet meet
  meet-values [] xs rs h = sym (append-nil (map some xs))
  meet-values (read p ∷ ks) [] rs h = meet-values ks [] (rs ++ (p ∷ [])) (inl refl)
  meet-values (read p ∷ ks) (x ∷ xs) rs h =
      let e : rs ≡ [] = ground arith in rw e (ap (◌∷◌ (some x)) (meet-values ks xs [] (inr refl)))
  meet-values (write p v ∷ ks) xs [] h =
      meet-values ks (xs ++ (v ∷ [])) [] (inr refl)
      ∙ rw (map-append some xs (v ∷ []))
          (append_assoc (map some xs) (some v ∷ []) (map some (writes ks)))
  meet-values (write p v ∷ ks) xs (r ∷ rs) h =
      let e : xs ≡ [] = ground arith in rw e (ap (◌∷◌ (some v)) (meet-values ks [] rs (inl refl)))

  -- What a history of calls on a channel comes to: the reads that were served, followed by the reads
  -- that wait, are all reads in order; the values that were handed out, followed by the values on
  -- their way, are all values written in order.
  pub record IsFifo (o : Bool) (c : Channel A) (ks : List (Call A)) : Type ℓ where
    pub buffered : List A
    pub readers : List Ptr
    pub writers : List Ptr
    pub rep : Rep (after o c ks) buffered readers writers
    pub all_reads : readers_of (run o c ks) ++ readers ≡ reads ks
    pub all_values :
        values_of (run o c ks) ++ map some (pending (after o c ks) buffered writers)
        ≡ map some (writes ks)

  -- The n-th read is given the n-th value that is written, over any sequence of reads and writes on a
  -- new channel of any capacity that fits the ring, if each call has a state of its own. No value is
  -- lost, doubled or passed by another, and no read by another.
  pub channel-IsFifo :
      (o : Bool) (rl wl : Links) (rv : Ptr → Option A) (wv : Ptr → A) (co : Ptr → Bool)
      (cache_size : ℕ) (ks : List (Call A))
      → cache_size + 1 < u32_mod
      → AreNew ks [] []
      → IsFifo o (channel rl wl rv wv co cache_size) ks
  channel-IsFifo o rl wl rv wv co n ks h new =
      let c = channel rl wl rv wv co n in
      let r = run-Ran o ks c [] [] [] (channel-Rep rl wl rv wv co n h) new in
      record {
        buffered = r.buffered;
        readers = (after_meet [] [] ks).1;
        writers = r.waiting;
        rep = r.rep;
        all_reads = rw r.same (meet-readers ks [] [] (inl refl));
        all_values = rw (r.same, r.held) (meet-values ks [] [] (inl refl));
      }
