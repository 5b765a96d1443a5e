-- ===== src/Arena/Segment.antt =====
-- src/runtime/replacement.rs: the shape of a `KeyList` in its arena. A list of node indices, from
-- the head to the tail, is threaded both ways through the nodes.
use matrixcache.Base.{ℕ, ◌<◌, ◌≡◌, refl, sym, ◌∙◌, ◌↔◌, ◌≢◌, List, [], ◌∷◌, ◌++◌, length, arith}
use matrixcache.Arena.{KeyListNode, KeyList, key_list_nil, node_at, set_prev, set_next}
use matrixcache.Arena.Nodes.{
  prev-set_prev, next-set_next, next-set_prev, prev-set_next, length-set_prev, length-set_next,
}

abbrev pub NotIn : ℕ → List ℕ → Type 0
NotIn x [] = Unit {0}
NotIn x (n ∷ ns) = (x ≢ n) × NotIn x ns

abbrev pub Distinct : List ℕ → Type 0
Distinct [] = Unit {0}
Distinct (n ∷ ns) = NotIn n ns × Distinct ns

-- No index is in both lists.
abbrev pub Apart : List ℕ → List ℕ → Type 0
Apart [] ys = Unit {0}
Apart (a ∷ xs) ys = NotIn a ys × Apart xs ys

abbrev pub first : List ℕ → ℕ → ℕ
first [] e = e
first (n ∷ ns) e = n

abbrev pub last : ℕ → List ℕ → ℕ
last p [] = p
last p (n ∷ ns) = last n ns

-- The nodes `ns` follow one another, behind `p` and before `e`.
abbrev pub Segment : List KeyListNode → ℕ → List ℕ → ℕ → Type 0
Segment nodes p [] e = Unit {0}
Segment nodes p (n ∷ ns) e =
    (n < length nodes)
    × (n < key_list_nil)
    × ((node_at nodes n).prev ≡ p)
    × ((node_at nodes n).next ≡ first ns e)
    × Segment nodes n ns e

pub record Linked (nodes : List KeyListNode) (l : KeyList) (ns : List ℕ) : Type 0 where
  pub segment : Segment nodes key_list_nil ns key_list_nil
  pub distinct : Distinct ns
  pub head : l.head ≡ first ns key_list_nil
  pub tail : l.tail ≡ last key_list_nil ns
  pub count : l.len ≡ length ns

pub ne-last : (x n : ℕ) (ns : List ℕ) → NotIn x (n ∷ ns) → x ≢ last n ns
ne-last x n [] o = o.0
ne-last x n (m ∷ ns) o = ne-last x m ns o.1

pub NotIn-append : (x : ℕ) (xs ys : List ℕ) → NotIn x (xs ++ ys) ↔ (NotIn x xs × NotIn x ys)
NotIn-append x [] ys = (λ o. (tt, o), λ o. o.1)
NotIn-append x (a ∷ xs) ys =
    let ih = NotIn-append x xs ys in
    (λ o. ((o.0, (ih.0 o.1).0), (ih.0 o.1).1), λ o. (o.0.0, ih.1 (o.0.1, o.1)))

pub Distinct-append :
    (xs ys : List ℕ) → Distinct (xs ++ ys) ↔ (Distinct xs × Distinct ys × Apart xs ys)
Distinct-append [] ys = (λ d. (tt, d, tt), λ d. d.1)
Distinct-append (a ∷ xs) ys =
    let ih = Distinct-append xs ys in
    let apart = NotIn-append a xs ys in
    (
      λ d. (((apart.0 d.0).0, (ih.0 d.1).0), (ih.0 d.1).1, ((apart.0 d.0).1, (ih.0 d.1).2)),
      λ d. (apart.1 (d.0.0, d.2.0), ih.1 (d.0.1, d.1, d.2.1)),
    )

-- The first of the later list is not in the earlier, nor the last of the earlier in the later.
pub Apart-first : (xs : List ℕ) (y : ℕ) (ys : List ℕ) → Apart xs (y ∷ ys) → NotIn y xs × Apart xs ys
Apart-first [] y ys o = (tt, tt)
Apart-first (a ∷ xs) y ys o =
    let (fresh, rest) = Apart-first xs y ys o.1 in (((λ e. o.0.0 (sym e)), fresh), (o.0.1, rest))

pub Apart-last : (a : ℕ) (xs ys : List ℕ) → Apart (a ∷ xs) ys → NotIn (last a xs) ys
Apart-last a [] ys o = o.0
Apart-last a (b ∷ xs) ys o = Apart-last b xs ys o.1

pub first-append : (xs ys : List ℕ) (e : ℕ) → first (xs ++ ys) e ≡ first xs (first ys e)
first-append [] ys e = refl
first-append (x ∷ xs) ys e = refl

pub last-append : (p : ℕ) (xs ys : List ℕ) → last p (xs ++ ys) ≡ last (last p xs) ys
last-append p [] ys = refl
last-append p (x ∷ xs) ys = last-append x xs ys

module _ (nodes : List KeyListNode) where
  pub last_in_range :
      (p n : ℕ) (ns : List ℕ) (e : ℕ)
      → Segment nodes p (n ∷ ns) e
      → (last n ns < length nodes) × (last n ns < key_list_nil)
  last_in_range p n [] e s = (s.0, s.1)
  last_in_range p n (m ∷ ns) e s = last_in_range n m ns e s.4

  -- A write to a node outside a segment does not touch it.
  pub Segment-set_prev :
      (i v p : ℕ) (ns : List ℕ) (e : ℕ)
      → NotIn i ns
      → i < length nodes
      → Segment nodes p ns e
      → Segment (set_prev i v nodes) p ns e
  Segment-set_prev i v p [] e o h s = tt
  Segment-set_prev i v p (n ∷ ns) e o h s = ground (
    arith,
    length-set_prev nodes i v,
    prev-set_prev nodes i v n,
    next-set_prev nodes i v n,
    Segment-set_prev i v n ns e o.1 h s.4,
  )

  pub Segment-set_next :
      (i v p : ℕ) (ns : List ℕ) (e : ℕ)
      → NotIn i ns
      → i < length nodes
      → Segment nodes p ns e
      → Segment (set_next i v nodes) p ns e
  Segment-set_next i v p [] e o h s = tt
  Segment-set_next i v p (n ∷ ns) e o h s = ground (
    arith,
    length-set_next nodes i v,
    prev-set_next nodes i v n,
    next-set_next nodes i v n,
    Segment-set_next i v n ns e o.1 h s.4,
  )

  -- Give the first node another predecessor.
  pub Segment-set_prev_first :
      (v p n : ℕ) (ns : List ℕ) (e : ℕ)
      → NotIn n ns
      → Segment nodes p (n ∷ ns) e
      → Segment (set_prev n v nodes) v (n ∷ ns) e
  Segment-set_prev_first v p n ns e o s = ground (
    arith,
    length-set_prev nodes n v,
    prev-set_prev nodes n v n,
    next-set_prev nodes n v n,
    Segment-set_prev n v n ns e o s.0 s.4,
  )

  -- Give the last node another successor.
  pub Segment-set_next-last :
      (v p n : ℕ) (ns : List ℕ) (e : ℕ)
      → Distinct (n ∷ ns)
      → Segment nodes p (n ∷ ns) e
      → Segment (set_next (last n ns) v nodes) p (n ∷ ns) v
  Segment-set_next-last v p n [] e d s =
      ground
        (arith, length-set_next nodes n v, prev-set_next nodes n v n, next-set_next nodes n v n)
  Segment-set_next-last v p n (m ∷ ns) e d s = ground (
    arith,
    last_in_range n m ns e s.4,
    length-set_next nodes (last m ns) v,
    prev-set_next nodes (last m ns) v n,
    next-set_next nodes (last m ns) v n,
    ne-last n m ns d.0,
    Segment-set_next-last v n m ns e d.1 s.4,
  )

  pub Segment-append :
      (p : ℕ) (xs ys : List ℕ) (e : ℕ)
      → Segment nodes p (xs ++ ys) e
        ↔ (Segment nodes p xs (first ys e) × Segment nodes (last p xs) ys e)
  Segment-append p [] ys e = (λ s. (tt, s), λ s. s.1)
  Segment-append p (x ∷ xs) ys e =
      let ih = Segment-append x xs ys e in
      (
        λ s. ((s.0, s.1, s.2, s.3 ∙ first-append xs ys e, (ih.0 s.4).0), (ih.0 s.4).1),
        λ s. (s.0.0, s.0.1, s.0.2, s.0.3 ∙ sym (first-append xs ys e), ih.1 (s.0.4, s.1)),
      )
