-- ===== src/Arena/Collect.antt =====
-- src/runtime/replacement.rs, `collect_from_tail`: the keys of a list, walking from its tail.
use matrixcache.Base.{
  ℕ, zero, suc, ◌<◌, ◌≡◌, refl, ◌∙◌, ap, List, [], ◌∷◌, String, take, reverse, arith,
}
use mathlib.Core.List.{reverse_aux}
use matrixcache.Arena.{KeyListNode, KeyList, key_list_nil, node_at, collect_from, collect_from_tail}
use matrixcache.Arena.Segment.{last, Segment, Linked}

-- The keys of nodes, in order.
abbrev pub keys_of : List KeyListNode → List ℕ → List String
keys_of nodes [] = []
keys_of nodes (n ∷ ns) = (node_at nodes n).key ∷ keys_of nodes ns

-- The nodes `ns` are met in turn from `cursor` by `prev`.
abbrev Backward : List KeyListNode → ℕ → List ℕ → Type 0
Backward nodes cursor [] = cursor ≡ key_list_nil
Backward nodes cursor (n ∷ ns) =
    (cursor ≡ n) × (n < key_list_nil) × Backward nodes (node_at nodes n).prev ns

Backward-reverse :
    (nodes : List KeyListNode) (p : ℕ) (ns rs : List ℕ) (e : ℕ)
    → Segment nodes p ns e
    → Backward nodes p rs
    → Backward nodes (last p ns) (reverse_aux ns rs)
Backward-reverse nodes p [] rs e s b = b
Backward-reverse nodes p (n ∷ ns) rs e s b =
    Backward-reverse nodes n ns (n ∷ rs) e s.4 (refl, s.1, rw s.2 b)

collect_from-keys_of :
    (nodes : List KeyListNode) (size cursor : ℕ) (rs : List ℕ)
    → Backward nodes cursor rs
    → collect_from nodes size cursor ≡ take size (keys_of nodes rs)
unfolding collect_from
collect_from-keys_of nodes zero cursor rs b = refl
collect_from-keys_of nodes (suc size) cursor [] b = ground arith
collect_from-keys_of nodes (suc size) cursor (r ∷ rs) b =
    ground (arith, collect_from-keys_of nodes size (node_at nodes r).prev rs)

keys_of-reverse_aux :
    (nodes : List KeyListNode) (ns rs : List ℕ)
    → keys_of nodes (reverse_aux ns rs) ≡ reverse_aux (keys_of nodes ns) (keys_of nodes rs)
keys_of-reverse_aux nodes [] rs = refl
keys_of-reverse_aux nodes (n ∷ ns) rs = keys_of-reverse_aux nodes ns (n ∷ rs)

-- In a well-linked list the walk from the tail gives the last keys, the last first, up to the
-- number asked for.
pub collect_from_tail-reverse :
    (nodes : List KeyListNode) (l : KeyList) (ns : List ℕ) (size : ℕ)
    → Linked nodes l ns
    → collect_from_tail nodes l size ≡ take size (reverse (keys_of nodes ns))
unfolding collect_from_tail
collect_from_tail-reverse nodes l ns size k =
    collect_from-keys_of nodes size l.tail (reverse ns)
      (rw k.tail (Backward-reverse nodes key_list_nil ns [] key_list_nil k.segment refl))
    ∙ ap (take size) (keys_of-reverse_aux nodes ns [])
