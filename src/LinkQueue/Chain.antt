-- ===== src/LinkQueue/Chain.antt =====
-- intrusive_link_queue.h: doubly linked segments in a store of links, and what writes do to them.
use librf.Prelude.{◌≡◌, ◌≢◌, refl, sym, ◌∙◌, ap, List, [], ◌∷◌, ◌++◌, arith, if◌then◌else◌, ◌==◌}
use librf.LinkQueue.{Ptr, null, Links, set_prev, set_next}

-- `e` is none of the listed nodes.
abbrev pub Fresh : Ptr → List Ptr → Type 0
Fresh e [] = Unit
Fresh e (x ∷ xs) = (x ≢ e) × Fresh e xs

abbrev pub Distinct : List Ptr → Type 0
Distinct [] = Unit
Distinct (x ∷ xs) = Fresh x xs × Distinct xs

-- From `f` the `next` links lead through the listed nodes to `s`; the `prev` links lead back from the
-- last node `t` to `b`.
abbrev pub Seg : Links → Ptr → Ptr → List Ptr → Ptr → Ptr → Type 0
Seg l b f [] t s = (f ≡ s) × (t ≡ b)
Seg l b f (x ∷ xs) t s = (f ≡ x) × (x ≢ null) × ((l x).prev ≡ b) × Seg l x (l x).next xs t s

-- The links of the listed nodes are the same in both stores.
abbrev pub Same : Links → Links → List Ptr → Type 0
Same l k [] = Unit
Same l k (x ∷ xs) = (k x ≡ l x) × Same l k xs

pub Seg-Same :
    (l k : Links) (b f : Ptr) (xs : List Ptr) (t s : Ptr)
    → Same l k xs
    → Seg l b f xs t s
    → Seg k b f xs t s
Seg-Same l k b f [] t s same c = c
Seg-Same l k b f (x ∷ xs) t s same (c, n, p, rest) =
    (c, n, ap (λ a. a.prev) same.0 ∙ p, rw same.0 (Seg-Same l k x (l x).next xs t s same.1 rest))

pub Same-set_prev :
    (l : Links) (p v : Ptr) (xs : List Ptr) → Fresh p xs → Same l (set_prev l p v) xs
Same-set_prev l p v [] h = tt
Same-set_prev l p v (x ∷ xs) h = (ground arith, Same-set_prev l p v xs h.1)

pub Same-set_next :
    (l : Links) (p v : Ptr) (xs : List Ptr) → Fresh p xs → Same l (set_next l p v) xs
Same-set_next l p v [] h = tt
Same-set_next l p v (x ∷ xs) h = (ground arith, Same-set_next l p v xs h.1)

pub Same-trans : (l k m : Links) (xs : List Ptr) → Same l k xs → Same k m xs → Same l m xs
Same-trans l k m [] h g = tt
Same-trans l k m (x ∷ xs) h g = (g.0 ∙ h.0, Same-trans l k m xs h.1 g.1)

pub Same-refl : (l : Links) (xs : List Ptr) → Same l l xs
Same-refl l [] = tt
Same-refl l (x ∷ xs) = (refl, Same-refl l xs)

-- Clearing the links of a node outside spares a segment.
pub Seg-cleared :
    (l : Links) (b f : Ptr) (xs : List Ptr) (e t s : Ptr)
    → Fresh e xs
    → Seg l b f xs t s
    → Seg (set_next (set_prev l e null) e null) b f xs t s
Seg-cleared l b f xs e t s h = Seg-Same l _ b f xs t s (
    Same-trans l (set_prev l e null) _ xs (Same-set_prev l e null xs h)
      (Same-set_next (set_prev l e null) e null xs h))

-- The last node is one of the listed ones, or what stands before them.
pub last_ne :
    (l : Links) (b f : Ptr) (xs : List Ptr) (t s x : Ptr)
    → b ≢ x
    → Fresh x xs
    → Seg l b f xs t s
    → t ≢ x
last_ne l b f [] t s x n h c = ground arith
last_ne l b f (y ∷ xs) t s x n h c = last_ne l y (l y).next xs t s x h.0 h.1 c.3

abbrev pub first : List Ptr → Ptr → Ptr
first [] d = d
first (x ∷ xs) d = x

pub Fresh-append : (e : Ptr) (xs ys : List Ptr) → Fresh e xs → Fresh e ys → Fresh e (xs ++ ys)
Fresh-append e [] ys h g = g
Fresh-append e (x ∷ xs) ys h g = (h.0, Fresh-append e xs ys h.1 g)

pub Distinct-snoc : (e : Ptr) (xs : List Ptr) → Fresh e xs → Distinct xs → Distinct (xs ++ (e ∷ []))
Distinct-snoc e [] h d = (tt, tt)
Distinct-snoc e (x ∷ xs) h d =
    (Fresh-append x xs (e ∷ []) d.0 ((λ q. h.0 (sym q)), tt), Distinct-snoc e xs h.1 d.1)

-- What `push_back` makes of the links.
abbrev pub linked_back : Links → Ptr → Ptr → Links
linked_back l t e =
    let l2 = set_next (set_prev l e t) e null in if t == null then l2 else set_next l2 t e

pub Seg-snoc :
    (l : Links) (b f : Ptr) (xs : List Ptr) (t e : Ptr)
    → e ≢ null
    → b ≢ e
    → Fresh e xs
    → Fresh b xs
    → Distinct xs
    → Seg l b f xs t null
    → Seg (linked_back l t e) b (first xs e) (xs ++ (e ∷ [])) e null
Seg-snoc l b f [] t e n be h fb d c = ground arith
Seg-snoc l b f (x ∷ []) t e n be h fb d c = ground arith
Seg-snoc l b f (x ∷ y ∷ xs) t e n be h fb d c =
    let tail = Seg-snoc l x (l x).next (y ∷ xs) t e n h.0 h.1 d.0 d.1 c.3 in
    let t_ne : t ≢ x = last_ne l y (l y).next xs t null x d.0.0 d.0.1 c.3.3 in
    let keep : linked_back l t e x ≡ l x = ground (arith, h.0) in
    (refl, c.1, ap (λ a. a.prev) keep ∙ c.2, rw keep (rw c.3.0 tail))
