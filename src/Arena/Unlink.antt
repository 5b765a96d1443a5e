-- ===== src/Arena/Unlink.antt =====
-- src/runtime/replacement.rs, `unlink`: a node leaves a list from anywhere in it.
use matrixcache.Base.{
  ℕ, ◌<◌, ◌≡◌, ◌≢◌, refl, sym, ◌∙◌, List, [], ◌∷◌, ◌++◌, length, length-append, ◌==◌, false, arith,
}
use matrixcache.Arena.{
  KeyListNode, KeyList, key_list_nil, node_at, set_prev, set_next, unlink_prev, unlink_next, unlink,
}
use matrixcache.Arena.Nodes.{length-set_prev, length-set_next, key-set_prev, key-set_next}
use matrixcache.Arena.Segment.{
  NotIn, Distinct, Apart, first, last, Segment, Linked, Distinct-append, Apart-first, Apart-last,
  first-append, last-append, last_in_range, Segment-set_prev, Segment-set_next,
  Segment-set_prev_first, Segment-set_next-last, Segment-append,
}

ne→==-false : (a b : ℕ) → a ≢ b → (a == b) ≡ false
ne→==-false a b h = ground arith

-- What closing the gap towards the head leaves of the earlier nodes `xs` and the later `ys`.
record ClosedPrev (nodes : List KeyListNode) (l : KeyList) (xs ys : List ℕ) (node next : ℕ)
    (nodes' : List KeyListNode) (l' : KeyList) : Type 0 where
  earlier : Segment nodes' key_list_nil xs next
  later : Segment nodes' node ys key_list_nil
  head : l'.head ≡ first xs next
  tail : l'.tail ≡ l.tail
  len : l'.len ≡ l.len
  size : length nodes' ≡ length nodes

unlink_prev-ClosedPrev :
    (nodes : List KeyListNode) (l : KeyList) (xs ys : List ℕ) (node next : ℕ)
    → Segment nodes key_list_nil xs node
    → Segment nodes node ys key_list_nil
    → Distinct xs
    → Apart xs ys
    → l.head ≡ first xs node
    → let r = unlink_prev (last key_list_nil xs) next nodes l in
      ClosedPrev nodes l xs ys node next r.0 r.1
unfolding unlink_prev
unlink_prev-ClosedPrev nodes l [] ys node next sx sy d o h = record {
  earlier = tt;
  later = sy;
  head = refl;
  tail = refl;
  len = refl;
  size = refl;
}
unlink_prev-ClosedPrev nodes l (x ∷ xs) ys node next sx sy d o h =
    let z = last x xs in
    let (inside, small) = last_in_range nodes key_list_nil x xs node sx in
    rw (ne→==-false z key_list_nil (omega arith)) (record {
      earlier = Segment-set_next-last nodes next key_list_nil x xs node d sx;
      later = Segment-set_next nodes z next node ys key_list_nil (Apart-last x xs ys o) inside sy;
      head = h;
      tail = refl;
      len = refl;
      size = length-set_next nodes z next;
    })

record ClosedNext (nodes : List KeyListNode) (l : KeyList) (xs ys : List ℕ) (prev : ℕ)
    (nodes' : List KeyListNode) (l' : KeyList) : Type 0 where
  earlier : Segment nodes' key_list_nil xs (first ys key_list_nil)
  later : Segment nodes' prev ys key_list_nil
  head : l'.head ≡ l.head
  tail : l'.tail ≡ last prev ys
  len : l'.len ≡ l.len
  size : length nodes' ≡ length nodes

unlink_next-ClosedNext :
    (nodes : List KeyListNode) (l : KeyList) (xs ys : List ℕ) (node prev : ℕ)
    → Segment nodes key_list_nil xs (first ys key_list_nil)
    → Segment nodes node ys key_list_nil
    → Distinct ys
    → Apart xs ys
    → l.tail ≡ last node ys
    → let r = unlink_next prev (first ys key_list_nil) nodes l in
      ClosedNext nodes l xs ys prev r.0 r.1
unfolding unlink_next
unlink_next-ClosedNext nodes l xs [] node prev sx sy d o t = record {
  earlier = sx;
  later = tt;
  head = refl;
  tail = refl;
  len = refl;
  size = refl;
}
unlink_next-ClosedNext nodes l xs (y ∷ ys) node prev sx sy d o t =
    let fresh = (Apart-first xs y ys o).0 in
    rw (ne→==-false y key_list_nil (omega arith)) (record {
      earlier = Segment-set_prev nodes y prev key_list_nil xs y fresh sy.0 sx;
      later = Segment-set_prev_first nodes prev node y ys key_list_nil d.0 sy;
      head = refl;
      tail = t;
      len = refl;
      size = length-set_prev nodes y prev;
    })

module _ (nodes : List KeyListNode) (l : KeyList) (prev next j : ℕ) where
  unlink_prev-frame :
      let nodes' = (unlink_prev prev next nodes l).0 in
      ((node_at nodes' j).key ≡ (node_at nodes j).key) × (length nodes' ≡ length nodes)
  unfolding unlink_prev
  unlink_prev-frame =
      ground (arith, key-set_next nodes prev next j, length-set_next nodes prev next)

  unlink_next-frame :
      let nodes' = (unlink_next prev next nodes l).0 in
      ((node_at nodes' j).key ≡ (node_at nodes j).key) × (length nodes' ≡ length nodes)
  unfolding unlink_next
  unlink_next-frame =
      ground (arith, key-set_prev nodes next prev j, length-set_prev nodes next prev)

-- The links of an unlinked node do not matter to the others.
blank_links :
    (nodes : List KeyListNode) (node p : ℕ) (ns : List ℕ) (e : ℕ)
    → NotIn node ns
    → node < length nodes
    → Segment nodes p ns e
    → Segment (set_next node key_list_nil (set_prev node key_list_nil nodes)) p ns e
blank_links nodes node p ns e o h s =
    Segment-set_next (set_prev node key_list_nil nodes) node key_list_nil p ns e o
      (omega (arith, length-set_prev nodes node key_list_nil))
      (Segment-set_prev nodes node key_list_nil p ns e o h s)

module _ (nodes : List KeyListNode) (l : KeyList) (node : ℕ) where
  -- Unlinking a node of a well-linked list takes it, and nothing else, out of the list, which stays
  -- well linked.
  pub unlink-Linked :
      (xs ys : List ℕ)
      → Linked nodes l (xs ++ (node ∷ ys))
      → let (nodes', l') = unlink node nodes l in Linked nodes' l' (xs ++ ys)
  unfolding unlink
  unlink-Linked xs ys k =
      let (sx, sn) = (Segment-append nodes key_list_nil xs (node ∷ ys) key_list_nil).0 k.segment in
      let (dx, dn, o) = (Distinct-append xs (node ∷ ys)).0 k.distinct in
      let (fresh, apart) = Apart-first xs node ys o in
      let prev = last key_list_nil xs in
      let next = first ys key_list_nil in
      let a = unlink_prev prev next nodes l in
      let c =
        unlink_prev-ClosedPrev nodes l xs ys node next sx sn.4 dx apart
          (k.head ∙ first-append xs (node ∷ ys) key_list_nil) in
      let b = unlink_next prev next a.0 a.1 in
      let d =
        unlink_next-ClosedNext a.0 a.1 xs ys node prev c.earlier c.later dn.1 apart
          (c.tail ∙ (k.tail ∙ last-append key_list_nil xs (node ∷ ys))) in
      let inside : node < length b.0 = omega (arith, c.size, d.size, sn.0) in
      rw (sn.2, sn.3)
        (record {
          segment = (Segment-append _ key_list_nil xs ys key_list_nil).1 (
            blank_links b.0 node key_list_nil xs next fresh inside d.earlier,
            blank_links b.0 node prev ys key_list_nil dn.0 inside d.later,
          );
          distinct = (Distinct-append xs ys).1 (dx, dn.1, apart);
          head = d.head ∙ (c.head ∙ sym (first-append xs ys key_list_nil));
          tail = d.tail ∙ sym (last-append key_list_nil xs ys);
          count =
              omega
                (arith, c.len, d.len, k.count, length-append xs (node ∷ ys), length-append xs ys);
        })

  -- An unlinked node keeps its key, and the vector its length.
  pub unlink-frame :
      (j : ℕ)
      → let nodes' = (unlink node nodes l).0 in
        ((node_at nodes' j).key ≡ (node_at nodes j).key) × (length nodes' ≡ length nodes)
  unfolding unlink
  unlink-frame j =
      let prev = (node_at nodes node).prev in
      let next = (node_at nodes node).next in
      let a = unlink_prev prev next nodes l in
      let b = unlink_next prev next a.0 a.1 in
      let c = set_prev node key_list_nil b.0 in
      let pa = unlink_prev-frame nodes l prev next j in
      let pb = unlink_next-frame a.0 a.1 prev next j in
      (
        key-set_next c node key_list_nil j ∙ (key-set_prev b.0 node key_list_nil j ∙ (pb.0 ∙ pa.0)),
        omega (
          arith,
          length-set_next c node key_list_nil,
          length-set_prev b.0 node key_list_nil,
          pa.1,
          pb.1,
        ),
      )
