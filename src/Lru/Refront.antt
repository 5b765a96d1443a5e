-- ===== src/Lru/Refront.antt =====
-- src/runtime/replacement.rs, `BaseLruList`: a node that is unlinked and linked at the front again.
use matrixcache.Base.{
  ◌≤◌, ℕ, ◌<◌, ◌≡◌, sym, ◌∙◌, ap, some, List, [], ◌∷◌, ◌++◌, String, length, length-append, eq_iff,
  arith,
}
use mathlib.Core.Path.{subst}
use matrixcache.Base.Map.{
  touch, lookup, remove, erase, IsMap, keys, keys-remove, lookup-remove, IsMap-remove,
}
use matrixcache.Arena.{KeyListNode, key_list_nil, node_at, link_front, unlink}
use matrixcache.Arena.Segment.{NotIn, NotIn-append, Distinct-append, Apart-first, Segment-append}
use matrixcache.Arena.Unlink.{unlink-Linked, unlink-frame}
use matrixcache.Arena.Link.{link_front-Linked, link_front-frame}
use matrixcache.Lru.{BaseLruList, refront, size}
use matrixcache.Lru.Holds.{entries, Free, Consistent, Holds, entries-frame, size-Holds, locate}

-- The free slots stay free when the linked nodes are permuted, or one that is no free slot is added.
pub Free-move :
    (nodes nodes' : List KeyListNode) (xs ys : List ℕ) (n : ℕ) (fs : List ℕ)
    → length nodes' ≡ length nodes
    → Free nodes (xs ++ (n ∷ ys)) fs
    → Free nodes' (n ∷ xs ++ ys) fs
Free-move nodes nodes' xs ys n [] e f = tt
Free-move nodes nodes' xs ys n (i ∷ fs) e f =
    let (ix, iy) = (NotIn-append i xs (n ∷ ys)).0 f.2 in
    (
      omega (arith, e, f.0),
      f.1,
      (iy.0, (NotIn-append i xs ys).1 (ix, iy.1)),
      f.3,
      Free-move nodes nodes' xs ys n fs e f.4,
    )

-- A moved entry is found as before.
pub lookup-move :
    (k j : String) (n : ℕ) (m : List (String × ℕ))
    → IsMap m
    → lookup k m ≡ some n
    → lookup j ((k, n) ∷ remove k m) ≡ lookup j m
unfolding lookup
lookup-move k j n m u hit = ground (arith, lookup-remove k j m u, eq_iff k j)

pub IsMap-move :
    (k : String) (n : ℕ) (m : List (String × ℕ)) → IsMap m → IsMap ((k, n) ∷ remove k m)
IsMap-move k n m u = (ground (arith, lookup-remove k k m u, eq_iff k k), IsMap-remove k m u)

pub length-move : (xs ys : List ℕ) (n : ℕ) → length (n ∷ xs ++ ys) ≡ length (xs ++ (n ∷ ys))
length-move xs ys n = omega (arith, length-append xs (n ∷ ys), length-append xs ys)

pub refront-Consistent :
    (l : BaseLruList) (k : String) (n : ℕ) (xs ys : List ℕ)
    → Consistent l (xs ++ (n ∷ ys))
    → length (xs ++ ys) < key_list_nil
    → (node_at l.arena.nodes n).key ≡ k
    → lookup k l.index ≡ some n
    → entries l.arena.nodes (xs ++ ys) ≡ remove k (entries l.arena.nodes (xs ++ (n ∷ ys)))
    → Consistent (refront n l) (n ∷ xs ++ ys)
      × (entries (refront n l).arena.nodes (n ∷ xs ++ ys)
          ≡ (k, n) ∷ remove k (entries l.arena.nodes (xs ++ (n ∷ ys))))
unfolding refront
refront-Consistent l k n xs ys c room named hit gone =
    let nodes = l.arena.nodes in
    let es = entries nodes (xs ++ (n ∷ ys)) in
    let r = unlink n nodes l.list in
    let q = link_front n r.0 r.1 in
    let (dx, dn, o) = (Distinct-append xs (n ∷ ys)).0 c.linked.distinct in
    let fresh : NotIn n (xs ++ ys) = (NotIn-append n xs ys).1 ((Apart-first xs n ys o).0, dn.0) in
    let sn = ((Segment-append nodes key_list_nil xs (n ∷ ys) key_list_nil).0 c.linked.segment).1 in
    let len_r : length r.0 ≡ length nodes = (unlink-frame nodes l.list n 0).1 in
    let len_q : length q.0 ≡ length nodes = (link_front-frame r.0 r.1 n 0).1 ∙ len_r in
    let same_key : (j : ℕ) → (node_at q.0 j).key ≡ (node_at nodes j).key =
      λ j. (link_front-frame r.0 r.1 n j).0 ∙ (unlink-frame nodes l.list n j).0 in
    let k' =
      link_front-Linked r.0 r.1 n (xs ++ ys) (unlink-Linked nodes l.list n xs ys c.linked)
        (omega (arith, sn.0, len_r)) sn.1 fresh room in
    let after : entries q.0 (n ∷ xs ++ ys) ≡ (k, n) ∷ remove k es =
      entries-frame nodes q.0 (n ∷ xs ++ ys) same_key ∙ ground (arith, gone, named) in
    let hit' : lookup k es ≡ some n = sym (c.same k) ∙ hit in
    (
      record {
        linked = k';
        unique = subst IsMap (sym after) (IsMap-move k n es c.unique);
        same =
            λ j. c.same j ∙ (sym (lookup-move k j n es c.unique hit') ∙ sym (ap (lookup j) after));
        index_map = c.index_map;
        count = omega (arith, c.count, length-move xs ys n);
        free = Free-move nodes q.0 xs ys n l.arena.free len_q c.free;
        slots = omega (arith, c.slots, len_q, length-move xs ys n);
      },
      after,
    )

pub refront-Holds :
    (l : BaseLruList) (k : String) (n : ℕ) {cap : ℕ} {ks : List String}
    → Holds l cap ks
    → length ks ≤ key_list_nil
    → lookup k l.index ≡ some n
    → Holds (refront n l) cap (touch k ks)
unfolding refront size
refront-Holds l k n {cap} {ks} h room hit =
    let w = locate l k n h hit in
    let nodes = l.arena.nodes in
    let short : length (w.before ++ w.after) < key_list_nil = omega (
      arith,
      size-Holds l h,
      w.consistent.count,
      length-append w.before w.after,
      length-append w.before (n ∷ w.after),
    ) in
    let (c, e) = refront-Consistent l k n w.before w.after w.consistent short w.key hit w.rest in
    record {
      nodes = n ∷ w.before ++ w.after;
      consistent = c;
      contents = ap keys e ∙ ap (λ t. k ∷ t) (keys-remove k _ ∙ ap (erase k) w.contents);
      capacity = h.capacity;
    }
