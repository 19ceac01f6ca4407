-- ===== src/LinkQueue/Refine.antt =====
-- intrusive_link_queue.h: the queue as the list of its nodes.
use librf.Prelude.{
  ℕ, suc, ◌%◌, ◌≡◌, ◌≢◌, refl, sym, ◌∙◌, ap, subst, false, List, [], ◌∷◌, ◌++◌, arith,
  if◌then◌else◌, ◌==◌, length, length-append, size_mod,
}
use librf.LinkQueue.{
  Ptr, null, Links, LinkQueue, set_prev, set_next, count_up, count_down, empty_queue, empty,
  push_back, push_front, erase, try_pop,
}
use librf.LinkQueue.Chain.{
  Fresh, Distinct, Seg, Seg-Same, Same-set_prev, Same-set_next, Same-trans, last_ne, first,
  Seg-snoc, Distinct-snoc,
}
use librf.LinkQueue.Unlink.{
  Distinct-Parts, Seg-split, Seg-not_null, last, linked_past, Seg-unlinked, Seg-linked_past,
}

-- The queue links exactly the listed nodes, in order, both ways.
pub record IsQueue (q : LinkQueue) (xs : List Ptr) : Type 0 where
  pub chain : Seg q.links null q.header xs q.tailer null
  pub distinct : Distinct xs
  pub counted : q.count ≡ length xs % size_mod

pub empty_queue-IsQueue : (l : Links) → IsQueue (empty_queue l) []
unfolding empty_queue
empty_queue-IsQueue l = record { chain = (refl, refl); distinct = tt; counted = refl }

count_up-length : (n k : ℕ) → n ≡ k % size_mod → count_up n ≡ suc k % size_mod
count_up-length n k h = omega arith

count_down-length : (n k : ℕ) → n ≡ suc k % size_mod → count_down n ≡ k % size_mod
count_down-length n k h = omega arith

length-middle :
    (xs : List Ptr) (e : Ptr) (ys : List Ptr) → length (xs ++ (e ∷ ys)) ≡ suc (length (xs ++ ys))
length-middle xs e ys = omega (arith, length-append xs (e ∷ ys), length-append xs ys)

pub empty_lem : {q : LinkQueue} {xs : List Ptr} → IsQueue q xs → empty q ≡ (length xs == 0)
unfolding empty
empty_lem {q} {xs = []} h = ground (arith, h.chain)
empty_lem {q} {xs = x ∷ xs} h = ground (arith, h.chain)

-- What the head and the tail of a segment are, by the list.
header-first :
    (l : Links) (b f : Ptr) (xs : List Ptr) (t e : Ptr)
    → Seg l b f xs t null
    → (if f == null then e else f) ≡ first xs e
header-first l b f [] t e c = ground arith
header-first l b f (x ∷ xs) t e c = ground arith

tailer-last :
    (l : Links) (f : Ptr) (xs : List Ptr) (t e : Ptr)
    → Seg l null f xs t null
    → (if t == null then e else t) ≡ last xs e t
tailer-last l f [] t e c = ground arith
tailer-last l f (x ∷ xs) t e c =
    let t_ne : t ≢ null =
      last_ne l x (l x).next xs t null null c.1 (Seg-not_null l x (l x).next xs t null c.3) c.3 in
    ground arith

header-erased :
    (l : Links) (f : Ptr) (xs : List Ptr) (m e d : Ptr)
    → Fresh e xs
    → Seg l null f xs m e
    → (if f == e then d else f) ≡ first xs d
header-erased l f [] m e d out c = ground arith
header-erased l f (x ∷ xs) m e d out c = ground arith

tailer-erased :
    (l : Links) (e g : Ptr) (ys : List Ptr) (t m : Ptr)
    → Fresh e ys
    → Seg l e g ys t null
    → (if t == e then m else t) ≡ last ys m t
tailer-erased l e g [] t m out c = ground arith
tailer-erased l e g (y ∷ ys) t m out c =
    let t_ne : t ≢ e = last_ne l y (l y).next ys t null e out.0 out.1 c.3 in ground arith

-- A node is not the head of a list that it is not in.
pub next_ne :
    (l : Links) (b e g : Ptr) (ys : List Ptr) (t : Ptr)
    → e ≢ null
    → Fresh e ys
    → Seg l b g ys t null
    → g ≢ e
next_ne l b e g [] t n out c = λ z. n (sym z ∙ c.0)
next_ne l b e g (y ∷ ys) t n out c = λ z. out.0 (sym c.0 ∙ z)

module _ {q : LinkQueue} {xs : List Ptr} (e : Ptr) (h : IsQueue q xs) (n : e ≢ null)
    (out : Fresh e xs) where
  pub push_back-IsQueue : IsQueue (push_back q e) (xs ++ (e ∷ []))
  unfolding push_back
  push_back-IsQueue = record {
    chain = rw (header-first q.links null q.header xs q.tailer e h.chain) (
        Seg-snoc q.links null q.header xs q.tailer e n (λ z. n (sym z)) out
          (Seg-not_null q.links null q.header xs q.tailer null h.chain) h.distinct h.chain);
    distinct = Distinct-snoc e xs out h.distinct;
    counted =
        count_up-length q.count (length xs) h.counted
        ∙ ap (λ k. k % size_mod) (omega (arith, length-append xs (e ∷ [])));
  }

  pub push_front-IsQueue : IsQueue (push_front q e) (e ∷ xs)
  unfolding push_front
  push_front-IsQueue =
      let l = set_next (set_prev q.links e null) e q.header in
      let same =
        Same-trans q.links (set_prev q.links e null) l xs (Same-set_prev q.links e null xs out)
          (Same-set_next (set_prev q.links e null) e q.header xs out) in
      let kept = Seg-Same q.links l null q.header xs q.tailer null same h.chain in
      let ne = next_ne q.links null e q.header xs q.tailer n out h.chain in
      let rest = Seg-linked_past l null q.header xs q.tailer e h.distinct kept in
      let self : linked_past l q.header e e ≡ record { prev = null; next = q.header } =
        ground arith in
      record {
        chain = (
          refl,
          n,
          ap (λ a. a.prev) self,
          rw (self, tailer-last l q.header xs q.tailer e kept) rest,
        );
        distinct = (out, h.distinct);
        counted = count_up-length q.count (length xs) h.counted;
      }

module _ {q : LinkQueue} (xs : List Ptr) (e : Ptr) (ys : List Ptr)
    (h : IsQueue q (xs ++ (e ∷ ys))) where
  pub erase-IsQueue : IsQueue (erase q e) (xs ++ ys)
  unfolding erase
  erase-IsQueue =
      let (m, g, left, right) = Seg-split q.links null q.header xs (e ∷ ys) q.tailer null h.chain in
      let parts = Distinct-Parts xs e ys h.distinct in
      let l = q.links in
      let before : Seg l null q.header xs (l e).prev e =
        subst (Seg l null q.header xs (l e).prev) right.0 (rw right.2 left) in
      let behind : Seg l (l e).prev e (e ∷ ys) q.tailer null = (refl, right.1, refl, right.3) in
      let ne = next_ne l e e (l e).next ys q.tailer right.1 parts.out_right right.3 in
      let self : linked_past l (l e).next (l e).prev e ≡ l e = ground arith in
      record {
        chain =
            rw
              (
                self,
                header-erased l q.header xs (l e).prev e (l e).next parts.out_left before,
                tailer-erased l e (l e).next ys q.tailer (l e).prev parts.out_right right.3,
              )
              (Seg-unlinked l null q.header xs e ys (l e).prev q.tailer refl parts before behind);
        distinct = parts.joined;
        counted =
            count_down-length q.count (length (xs ++ ys))
              (h.counted ∙ ap (λ k. k % size_mod) (length-middle xs e ys));
      }

pub try_pop-nil : {q : LinkQueue} → IsQueue q [] → try_pop q ≡ (null, q)
unfolding try_pop
try_pop-nil h = ground (arith, h.chain)

module _ {q : LinkQueue} {e : Ptr} {ys : List Ptr} (h : IsQueue q (e ∷ ys)) where
  pub try_pop-cons : ((try_pop q).0 ≡ e) × IsQueue (try_pop q).1 ys
  unfolding try_pop
  try_pop-cons =
      let l = q.links in
      let (at, ne, back, rest) = h.chain in
      let parts = Distinct-Parts [] e ys h.distinct in
      let found : (e == null) ≡ false = ground (arith, ne) in
      rw (at, found)
        (
          refl,
          record {
            chain = rw (tailer-erased l e (l e).next ys q.tailer null parts.out_right rest) (
                Seg-unlinked l null e [] e ys null q.tailer refl parts (refl, refl)
                  (refl, ne, back, rest));
            distinct = parts.joined;
            counted = count_down-length q.count (length ys) h.counted;
          },
        )
