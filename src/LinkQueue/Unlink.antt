-- ===== src/LinkQueue/Unlink.antt =====
-- intrusive_link_queue.h: taking a node out of a doubly linked segment.
use librf.Prelude.{
  ◌≡◌, ◌≢◌, false, refl, subst, sym, ◌∙◌, ap, List, [], ◌∷◌, ◌++◌, arith, if◌then◌else◌, ◌==◌,
}
use librf.LinkQueue.{Ptr, null, Links, set_prev, set_next}
use librf.LinkQueue.Chain.{
  Fresh, Distinct, Seg, Same, Seg-Same, Same-set_prev, Same-set_next, last_ne, first, Fresh-append,
  Same-refl, Seg-cleared,
}

-- No node of the first list is in the second.
abbrev pub Apart : List Ptr → List Ptr → Type 0
Apart [] ys = Unit
Apart (x ∷ xs) ys = Fresh x ys × Apart xs ys

pub Fresh-split : (e : Ptr) (xs ys : List Ptr) → Fresh e (xs ++ ys) → Fresh e xs × Fresh e ys
Fresh-split e [] ys h = (tt, h)
Fresh-split e (x ∷ xs) ys h = ((h.0, (Fresh-split e xs ys h.1).0), (Fresh-split e xs ys h.1).1)

pub record Parts (xs : List Ptr) (e : Ptr) (ys : List Ptr) : Type 0 where
  pub out_left : Fresh e xs
  pub out_right : Fresh e ys
  pub left : Distinct xs
  pub right : Distinct ys
  pub apart : Apart xs ys
  pub joined : Distinct (xs ++ ys)

pub Distinct-Parts :
    (xs : List Ptr) (e : Ptr) (ys : List Ptr) → Distinct (xs ++ (e ∷ ys)) → Parts xs e ys
Distinct-Parts [] e ys (h, d) = record {
  out_left = tt;
  out_right = h;
  left = tt;
  right = d;
  apart = tt;
  joined = d;
}
Distinct-Parts (x ∷ xs) e ys (h, d) =
    let p = Distinct-Parts xs e ys d in
    let (hx, hy) = Fresh-split x xs (e ∷ ys) h in
    record {
      out_left = ((λ q. hy.0 (sym q)), p.out_left);
      out_right = p.out_right;
      left = (hx, p.left);
      right = p.right;
      apart = (hy.1, p.apart);
      joined = (Fresh-append x xs ys hx hy.1, p.joined);
    }

pub Fresh-of_Apart : (xs : List Ptr) (y : Ptr) (ys : List Ptr) → Apart xs (y ∷ ys) → Fresh y xs
Fresh-of_Apart [] y ys a = tt
Fresh-of_Apart (x ∷ xs) y ys a = ((λ q. a.0.0 (sym q)), Fresh-of_Apart xs y ys a.1)

abbrev pub last : List Ptr → Ptr → Ptr → Ptr
last [] m t = m
last (x ∷ xs) m t = t

module _ (l : Links) where
  -- A segment falls apart where its list does, and comes together again.
  pub Seg-split :
      (b f : Ptr) (xs ys : List Ptr) (t s : Ptr)
      → Seg l b f (xs ++ ys) t s
      → (m : Ptr) × (g : Ptr) × Seg l b f xs m g × Seg l m g ys t s
  Seg-split b f [] ys t s c = (b, f, (refl, refl), c)
  Seg-split b f (x ∷ xs) ys t s c =
      let (m, g, left, right) = Seg-split x (l x).next xs ys t s c.3 in
      (m, g, (c.0, c.1, c.2, left), right)

  pub Seg-join :
      (b f : Ptr) (xs ys : List Ptr) (m g t s : Ptr)
      → Seg l b f xs m g
      → Seg l m g ys t s
      → Seg l b f (xs ++ ys) t s
  Seg-join b f [] ys m g t s c d = rw (c.0) (rw (sym c.1) d)
  Seg-join b f (x ∷ xs) ys m g t s c d = (c.0, c.1, c.2, Seg-join x (l x).next xs ys m g t s c.3 d)

  pub Seg-not_null : (b f : Ptr) (xs : List Ptr) (t s : Ptr) → Seg l b f xs t s → Fresh null xs
  Seg-not_null b f [] t s c = tt
  Seg-not_null b f (x ∷ xs) t s c = (c.1, Seg-not_null x (l x).next xs t s c.3)

  -- The last node of a list that is apart from another is in none of the other.
  pub last-Fresh :
      (b f x : Ptr) (xs ys : List Ptr) (t s : Ptr)
      → Apart (x ∷ xs) ys
      → Seg l b f (x ∷ xs) t s
      → Fresh t ys
  last-Fresh b f x [] ys t s a c = rw c.3.1 a.0
  last-Fresh b f x (y ∷ xs) ys t s a c = last-Fresh x (l x).next y xs ys t s a.1 c.3

  -- The node behind the one that goes is linked back to what stood before it.
  abbrev pub linked_past : Ptr → Ptr → Links
  linked_past g m = if g == null then l else set_prev l g m

  pub Seg-linked_past :
      (e g : Ptr) (ys : List Ptr) (t m : Ptr)
      → Distinct ys
      → Seg l e g ys t null
      → Seg (linked_past g m) m g ys (last ys m t) null
  Seg-linked_past e g [] t m d c = (c.0, refl)
  Seg-linked_past e g (y ∷ ys) t m d c =
      let miss : (y == null) ≡ false = ground (arith, c.1) in
      let same = Same-set_prev l y m ys d.0 in
      let k = set_prev l y m in
      let next : (k y).next ≡ (l y).next = ground arith in
      let back : (k y).prev ≡ m = ground arith in
      let eq : linked_past g m ≡ k = rw (c.0, miss) in
      subst (λ n. Seg n m g (y ∷ ys) t null) (sym eq)
        (c.0, c.1, back, rw next (Seg-Same l k y (l y).next ys t null same c.3))

  -- The last node is linked to another end.
  pub Seg-set_next :
      (b f x : Ptr) (xs : List Ptr) (t s g : Ptr)
      → Distinct (x ∷ xs)
      → Seg l b f (x ∷ xs) t s
      → Seg (set_next l t g) b f (x ∷ xs) t g
  Seg-set_next b f x [] t s g d c = ground arith
  Seg-set_next b f x (y ∷ xs) t s g d c =
      let t_ne : t ≢ x = last_ne l y (l y).next xs t s x d.0.0 d.0.1 c.3.3 in
      let keep : set_next l t g x ≡ l x = ground arith in
      let rest = Seg-set_next x (l x).next y xs t s g d.1 c.3 in
      (c.0, c.1, ap (λ a. a.prev) keep ∙ c.2, rw keep rest)

module _ (l : Links) where
  -- What `erase` makes of the links, from those of the node that goes.
  abbrev pub unlinked : Ptr → Ptr → Ptr → Links
  unlinked e m g =
      let l1 = linked_past l g m in
      let l2 = if m == null then l1 else set_next l1 m g in set_next (set_prev l2 e null) e null

  pub unlinked_self : (e m g : Ptr) → unlinked e m g e ≡ record { prev = null; next = null }
  unlinked_self e m g = ground arith

  -- The links before `e` are not among those that `linked_past` writes.
  Same-linked_past :
      (e g : Ptr) (xs ys : List Ptr) (t m : Ptr)
      → Apart xs ys
      → Seg l e g ys t null
      → Same l (linked_past l g m) xs
  Same-linked_past e g xs [] t m a c = subst (λ k. Same l k xs) (rw c.0) (Same-refl l xs)
  Same-linked_past e g xs (y ∷ ys) t m a c =
      let miss : (y == null) ≡ false = ground (arith, c.1) in
      let eq : linked_past l g m ≡ set_prev l y m = rw (c.0, miss) in
      subst (λ k. Same l k xs) (sym eq) (Same-set_prev l y m xs (Fresh-of_Apart xs y ys a))

  relinked :
      (b f : Ptr) (xs : List Ptr) (e : Ptr) (ys : List Ptr) (m t : Ptr)
      → b ≡ null
      → Parts xs e ys
      → Seg l b f xs m e
      → Seg l m e (e ∷ ys) t null
      → let g = (l e).next in
        let l1 = linked_past l g m in
        Seg (if m == null then l1 else set_next l1 m g) b (first xs g) (xs ++ ys) (last ys m t) null
  relinked b f [] e ys m t z p c d =
      rw (c.1, z) (rw (c.1 ∙ z) at (Seg-linked_past l e (l e).next ys t m p.right d.3))
  relinked b f (x ∷ xs) e ys m t z p c d =
      let g = (l e).next in
      let l1 = linked_past l g m in
      let same = Same-linked_past e g (x ∷ xs) ys t m p.apart d.3 in
      let kept = Seg-Same l l1 b f (x ∷ xs) m e same c in
      let m_ne : m ≢ null =
        last_ne l x (l x).next xs m e null c.1 (Seg-not_null l x (l x).next xs m e c.3) c.3 in
      let hit : (m == null) ≡ false = ground arith in
      let k = set_next l1 m g in
      let eq : (if m == null then l1 else k) ≡ k = rw hit in
      let left = Seg-set_next l1 b f x xs m e g p.left kept in
      let out = last-Fresh l b f x xs ys m e p.apart c in
      let behind = Seg-linked_past l e g ys t m p.right d.3 in
      let right = Seg-Same l1 k m g ys (last ys m t) null (Same-set_next l1 m g ys out) behind in
      let whole = Seg-join k b f (x ∷ xs) ys m g (last ys m t) null left right in
      subst (λ n. Seg n b x ((x ∷ xs) ++ ys) (last ys m t) null) (sym eq) (rw c.0 at whole)

  -- Taking `e` out leaves the nodes before it followed by those behind it.
  pub Seg-unlinked :
      (b f : Ptr) (xs : List Ptr) (e : Ptr) (ys : List Ptr) (m t : Ptr)
      → b ≡ null
      → Parts xs e ys
      → Seg l b f xs m e
      → Seg l m e (e ∷ ys) t null
      → let g = (l e).next in Seg (unlinked e m g) b (first xs g) (xs ++ ys) (last ys m t) null
  Seg-unlinked b f xs e ys m t z p c d =
      Seg-cleared _ b (first xs (l e).next) (xs ++ ys) e (last ys m t) null
        (Fresh-append e xs ys p.out_left p.out_right) (relinked b f xs e ys m t z p c d)
