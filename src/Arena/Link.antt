-- ===== src/Arena/Link.antt =====
-- src/runtime/replacement.rs, `link_front` and `link_back`: a node joins a list at an end.
use matrixcache.Base.{ℕ, ◌<◌, ◌≡◌, ◌≢◌, sym, ◌∙◌, List, [], ◌∷◌, length, arith}
use matrixcache.Arena.{KeyListNode, KeyList, key_list_nil, node_at, set_prev, set_next, link_front}
use matrixcache.Arena.Nodes.{
  prev-set_prev, next-set_next, next-set_prev, prev-set_next, length-set_prev, length-set_next,
  key-set_prev, key-set_next, set_prev_ne, set_prev_self, set_next_self,
}
use matrixcache.Arena.Segment.{
  NotIn, Segment, Linked, Segment-set_prev, Segment-set_next, Segment-set_prev_first,
}

-- The nodes after a node is put before a list's first.
front_nodes : List KeyListNode → ℕ → ℕ → List KeyListNode
front_nodes nodes node n = set_prev n node (set_next node n (set_prev node key_list_nil nodes))

front_nodes-ends :
    (nodes : List KeyListNode) (node n : ℕ)
    → node < length nodes
    → node ≢ n
    → ((node_at (front_nodes nodes node n) node).prev ≡ key_list_nil)
      × ((node_at (front_nodes nodes node n) node).next ≡ n)
unfolding front_nodes
front_nodes-ends nodes node n inside ne =
    let a = set_prev node key_list_nil nodes in
    let b = set_next node n a in
    let la : length a ≡ length nodes = length-set_prev nodes node key_list_nil in
    (
      set_prev_ne b n node node (λ e. ne (sym e))
          ∙ (prev-set_next a node n node ∙ set_prev_self nodes node key_list_nil inside),
      next-set_prev b n node node ∙ set_next_self a node n (omega arith),
    )

front_nodes-Segment :
    (nodes : List KeyListNode) (node n : ℕ) (ns : List ℕ)
    → Segment nodes key_list_nil (n ∷ ns) key_list_nil
    → NotIn n ns
    → node < length nodes
    → node < key_list_nil
    → NotIn node (n ∷ ns)
    → Segment (front_nodes nodes node n) key_list_nil (node ∷ n ∷ ns) key_list_nil
unfolding front_nodes
front_nodes-Segment nodes node n ns s d inside small o =
    let a = set_prev node key_list_nil nodes in
    let b = set_next node n a in
    let la : length a ≡ length nodes = length-set_prev nodes node key_list_nil in
    let lb : length b ≡ length a = length-set_next a node n in
    let sa =
      Segment-set_prev nodes node key_list_nil key_list_nil (n ∷ ns) key_list_nil o inside s in
    let sb = Segment-set_next a node n key_list_nil (n ∷ ns) key_list_nil o (omega arith) sa in
    let sc = Segment-set_prev_first b node key_list_nil n ns key_list_nil d sb in
    (
      omega (arith, length-set_prev b n node),
      small,
      (front_nodes-ends nodes node n inside o.0).0,
      (front_nodes-ends nodes node n inside o.0).1,
      sc,
    )

module _ (nodes : List KeyListNode) (l : KeyList) (node : ℕ) where
  -- A node that is not in a list, linked at its front, becomes its first node, and the list stays
  -- well linked, provided that the list is shorter than the number of indices.
  pub link_front-Linked :
      (ns : List ℕ)
      → Linked nodes l ns
      → node < length nodes
      → node < key_list_nil
      → NotIn node ns
      → length ns < key_list_nil
      → let (nodes', l') = link_front node nodes l in Linked nodes' l' (node ∷ ns)
  unfolding link_front front_nodes
  link_front-Linked [] k inside small o room =
      let a = set_prev node key_list_nil nodes in
      ground (
        arith,
        length-set_prev nodes node key_list_nil,
        length-set_next a node key_list_nil,
        prev-set_next a node key_list_nil node,
        prev-set_prev nodes node key_list_nil node,
        next-set_next a node key_list_nil node,
      )
  link_front-Linked (n ∷ ns) k inside small o room =
      ground (arith, front_nodes-Segment nodes node n ns k.segment k.distinct.0 inside small o)

  pub link_front-frame :
      (j : ℕ)
      → let nodes' = (link_front node nodes l).0 in
        ((node_at nodes' j).key ≡ (node_at nodes j).key) × (length nodes' ≡ length nodes)
  unfolding link_front
  link_front-frame j =
      let a = set_prev node key_list_nil nodes in
      let b = set_next node l.head a in
      ground (
        arith,
        length-set_prev nodes node key_list_nil,
        length-set_next a node l.head,
        length-set_prev b l.head node,
        key-set_prev nodes node key_list_nil j,
        key-set_next a node l.head j,
        key-set_prev b l.head node j,
      )
