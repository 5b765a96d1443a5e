-- ===== src/Fifo/Queue.antt =====
-- src/runtime/replacement.rs, `link_back`: a node joins a list behind its last.
use matrixcache.Base.{
  ℕ, ◌<◌, ◌≡◌, ◌≢◌, sym, ◌∙◌, List, [], ◌∷◌, ◌++◌, length, length-append, ◌==◌, false, arith,
}
use matrixcache.Arena.{KeyListNode, KeyList, key_list_nil, node_at, set_prev, set_next, link_back}
use matrixcache.Arena.Nodes.{
  prev-set_prev, next-set_next, next-set_prev, prev-set_next, length-set_prev, length-set_next,
  key-set_prev, key-set_next, set_prev_self, set_next_self, set_next_ne,
}
use matrixcache.Arena.Segment.{
  NotIn, Distinct, Distinct-append, Apart, last, Segment, Linked, Segment-set_prev,
  Segment-set_next, Segment-set_next-last, Segment-append, last-append, last_in_range, ne-last,
}

-- A node apart from a list is apart from it on the other side too.
Apart-one : (node : ℕ) (ns : List ℕ) → NotIn node ns → Apart ns (node ∷ [])
Apart-one node [] o = tt
Apart-one node (n ∷ ns) o = ((λ e. o.0 (sym e), tt), Apart-one node ns o.1)

-- The nodes after a node is put behind a list's last, `z`.
back_nodes : List KeyListNode → ℕ → ℕ → List KeyListNode
back_nodes nodes node z = set_next z node (set_prev node z (set_next node key_list_nil nodes))

back_nodes-Segment :
    (nodes : List KeyListNode) (node n : ℕ) (ns : List ℕ)
    → Segment nodes key_list_nil (n ∷ ns) key_list_nil
    → Distinct (n ∷ ns)
    → node < length nodes
    → node < key_list_nil
    → NotIn node (n ∷ ns)
    → Segment (back_nodes nodes node (last n ns)) key_list_nil (n ∷ ns ++ (node ∷ [])) key_list_nil
unfolding back_nodes
back_nodes-Segment nodes node n ns s d inside small o =
    let z = last n ns in
    let a = set_next node key_list_nil nodes in
    let b = set_prev node z a in
    let la : length a ≡ length nodes = length-set_next nodes node key_list_nil in
    let lb : length b ≡ length a = length-set_prev a node z in
    let sa =
      Segment-set_next nodes node key_list_nil key_list_nil (n ∷ ns) key_list_nil o inside s in
    let sb = Segment-set_prev a node z key_list_nil (n ∷ ns) key_list_nil o (omega arith) sa in
    let sc = Segment-set_next-last b node key_list_nil n ns key_list_nil d sb in
    let other : z ≢ node = λ e. ne-last node n ns o (sym e) in
    let joined =
      Segment-append (set_next z node b) key_list_nil (n ∷ ns) (node ∷ []) key_list_nil in
    joined.1 (
      sc,
      (
        omega (arith, length-set_next b z node),
        small,
        prev-set_next b z node node ∙ set_prev_self a node z (omega arith),
        set_next_ne b z node node other
            ∙ (next-set_prev a node z node ∙ set_next_self nodes node key_list_nil inside),
        tt,
      ),
    )

module _ (nodes : List KeyListNode) (l : KeyList) (node : ℕ) where
  -- A node that is not in a list, linked at its back, becomes its last node, and the list stays well
  -- linked, provided that the list is shorter than the number of indices.
  pub link_back-Linked :
      (ns : List ℕ)
      → Linked nodes l ns
      → node < length nodes
      → node < key_list_nil
      → NotIn node ns
      → length ns < key_list_nil
      → let (nodes', l') = link_back node nodes l in Linked nodes' l' (ns ++ (node ∷ []))
  unfolding link_back back_nodes
  link_back-Linked [] k inside small o room =
      let a = set_next node key_list_nil nodes in
      ground (
        arith,
        length-set_next nodes node key_list_nil,
        length-set_prev a node key_list_nil,
        next-set_prev a node key_list_nil node,
        prev-set_prev a node key_list_nil node,
        next-set_next nodes node key_list_nil node,
      )
  link_back-Linked (n ∷ ns) k inside small o room =
      let z = last n ns in
      let end = last_in_range nodes key_list_nil n ns key_list_nil k.segment in
      let inner : (z == key_list_nil) ≡ false = ground (arith, end.1) in
      rw (k.tail, inner)
        (record {
          segment = back_nodes-Segment nodes node n ns k.segment k.distinct inside small o;
          distinct =
              (Distinct-append (n ∷ ns) (node ∷ [])).1
                (k.distinct, (tt, tt), Apart-one node (n ∷ ns) o);
          head = k.head;
          tail = sym (last-append n ns (node ∷ []));
          count = omega (arith, k.count, room, length-append ns (node ∷ []));
        })

  pub link_back-frame :
      (j : ℕ)
      → let nodes' = (link_back node nodes l).0 in
        ((node_at nodes' j).key ≡ (node_at nodes j).key) × (length nodes' ≡ length nodes)
  unfolding link_back
  link_back-frame j =
      let a = set_next node key_list_nil nodes in
      let b = set_prev node l.tail a in
      ground (
        arith,
        length-set_next nodes node key_list_nil,
        length-set_prev a node l.tail,
        length-set_next b l.tail node,
        key-set_next nodes node key_list_nil j,
        key-set_prev a node l.tail j,
        key-set_next b l.tail node j,
      )
