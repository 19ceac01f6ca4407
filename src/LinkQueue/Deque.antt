-- ===== src/LinkQueue/Deque.antt =====
-- intrusive_link_queue.h: the queue as a double-ended queue of nodes for a client that keeps to its
-- rules, and what becomes of the count when a client takes a node out twice.
use librf.Prelude.{
  ℕ, ◌+◌, ◌-◌, ◌%◌, ◌≡◌, ◌≢◌, refl, sym, ap, subst, Bool, false, List, [], ◌∷◌, ◌++◌, arith,
  if◌then◌else◌, ◌==◌, length, size_mod, inl, inr, Bool-cases,
}
use librf.LinkQueue.{Ptr, null, LinkQueue, size, empty, push_back, push_front, erase, try_pop}
use librf.LinkQueue.Chain.{Fresh, Seg, last_ne, Seg-cleared}
use librf.LinkQueue.Refine.{
  IsQueue, empty_lem, push_back-IsQueue, push_front-IsQueue, erase-IsQueue, try_pop-nil,
  try_pop-cons, next_ne,
}

pub data Op : Type 0 where
  back : Ptr → Op
  front : Ptr → Op
  drop : Ptr → Op
  pop : Op

-- What a client sees: the node that `try_pop` gives, the size, and whether the queue is empty.
pub record Seen : Type 0 where
  pub node : Ptr
  pub count : ℕ
  pub none_left : Bool

-- One call, with the node that it gives.
unfoldable pub call : Op → LinkQueue → Ptr × LinkQueue
call (back e) q = (null, push_back q e)
call (front e) q = (null, push_front q e)
call (drop e) q = (null, erase q e)
call pop q = try_pop q

unfoldable pub run : LinkQueue → List Op → List Seen
run q [] = []
run q (o ∷ ops) =
    let (e, r) = call o q in record { node = e; count = size r; none_left = empty r } ∷ run r ops

-- The same on a list.
unfoldable pub remove : Ptr → List Ptr → List Ptr
remove e [] = []
remove e (x ∷ xs) = if x == e then xs else x ∷ remove e xs

unfoldable pub call_list : Op → List Ptr → Ptr × List Ptr
call_list (back e) xs = (null, xs ++ (e ∷ []))
call_list (front e) xs = (null, e ∷ xs)
call_list (drop e) xs = (null, remove e xs)
call_list pop [] = (null, [])
call_list pop (x ∷ xs) = (x, xs)

unfoldable pub run_list : List Ptr → List Op → List Seen
run_list xs [] = []
run_list xs (o ∷ ops) =
    let (e, ys) = call_list o xs in
    record { node = e; count = length ys % size_mod; none_left = length ys == 0 } ∷ run_list ys ops

-- A node goes in only while it is outside, and is erased only while it is inside.
abbrev pub Permits : List Ptr → Op → Type 0
Permits xs (back e) = (e ≢ null) × Fresh e xs
Permits xs (front e) = (e ≢ null) × Fresh e xs
Permits xs (drop e) = ¬ (Fresh e xs)
Permits xs pop = Unit

unfoldable pub PermitsAll : List Ptr → List Op → Type 0
PermitsAll xs [] = Unit
PermitsAll xs (o ∷ ops) = Permits xs o × PermitsAll (call_list o xs).1 ops

remove-split :
    (e : Ptr) (xs : List Ptr)
    → ¬ (Fresh e xs)
    → (ls : List Ptr) × (bs : List Ptr) × (xs ≡ ls ++ (e ∷ bs)) × (remove e xs ≡ ls ++ bs)
unfolding remove
remove-split e [] h = absurd (h tt)
remove-split e (x ∷ xs) h = elim (Bool-cases (x == e)) [
  | inl hit ↦ ([], xs, ground arith, rw hit)
  | inr miss ↦
      let (ls, bs, p, r) = remove-split e xs (λ f. h (ground arith, f)) in
      (x ∷ ls, bs, ap (◌∷◌ x) p, rw miss (ap (◌∷◌ x) r))
]

pub call-IsQueue :
    (o : Op) (q : LinkQueue) (xs : List Ptr)
    → IsQueue q xs
    → Permits xs o
    → ((call o q).0 ≡ (call_list o xs).0) × IsQueue (call o q).1 (call_list o xs).1
unfolding call call_list
call-IsQueue (back e) q xs h (n, out) = (refl, push_back-IsQueue e h n out)
call-IsQueue (front e) q xs h (n, out) = (refl, push_front-IsQueue e h n out)
call-IsQueue (drop e) q xs h mem =
    let (ls, bs, p, r) = remove-split e xs mem in
    (refl, rw r (erase-IsQueue ls e bs (subst (IsQueue q) p h)))
call-IsQueue pop q [] h ok = rw (try_pop-nil h) (refl, h)
call-IsQueue pop q (x ∷ xs) h ok = try_pop-cons h

-- As long as a node that is pushed is not null and not in the queue, and a node that is erased is in
-- it, no sequence of calls tells a queue from the list of its nodes: `try_pop` gives the first node,
-- and the kept count and the emptiness test are those of the list.
pub run-list :
    (ops : List Op) (q : LinkQueue) (xs : List Ptr)
    → IsQueue q xs
    → PermitsAll xs ops
    → run q ops ≡ run_list xs ops
unfolding run run_list PermitsAll size
run-list [] q xs h ok = refl
run-list (o ∷ ops) q xs h (ok, oks) =
    let (same, h') = call-IsQueue o q xs h ok in
    rw (same, h'.counted, empty_lem h', run-list ops (call o q).1 (call_list o xs).1 h' oks)

-- A node that was taken out before, so that its links are null, may be erased again: the list stays
-- as it is and the count loses one, below the empty queue to 2^64 - 1.
pub erase_again :
    (q : LinkQueue) (xs : List Ptr) (e : Ptr)
    → IsQueue q xs
    → e ≢ null
    → Fresh e xs
    → q.links e ≡ record { prev = null; next = null }
    → Seg (erase q e).links null (erase q e).header xs (erase q e).tailer null
      × (size (erase q e) ≡ (length xs % size_mod + size_mod - 1) % size_mod)
unfolding erase size
erase_again q xs e h n out clear =
    let header_ne = next_ne q.links null e q.header xs q.tailer n out h.chain in
    let tailer_ne = last_ne q.links null q.header xs q.tailer null e (λ z. n (sym z)) out h.chain in
    let a : (q.header == e) ≡ false = ground arith in
    let b : (q.tailer == e) ≡ false = ground arith in
    (
      rw (clear, clear, a, b) (Seg-cleared q.links null q.header xs e q.tailer null out h.chain),
      rw h.counted,
    )
