-- ===== src/Lru/Take.antt =====
-- src/runtime/replacement.rs, `BaseLruList::delete` and its node's release.
use matrixcache.Base.{
  is_some, ℕ, ◌<◌, ◌≡◌, refl, sym, ◌∙◌, ap, Option, none, some, List, [], ◌∷◌, ◌++◌, String, length,
  length-append, set, length-set, str_eq, if◌then◌else◌, arith,
}
use matrixcache.Base.Map.{
  contains, erase_absent, lookup, remove, erase, keys, keys-remove, lookup-remove, length-remove,
  IsMap-remove,
}
use matrixcache.Arena.{KeyListNode, key_list_nil, blank, release, unlink}
use matrixcache.Arena.Segment.{NotIn, NotIn-append, Distinct-append, Apart-first, Segment-append}
use matrixcache.Arena.Unlink.{unlink-Linked, unlink-frame}
use matrixcache.Lru.{BaseLruList, drop_node, delete_at, delete}
use matrixcache.Lru.Holds.{
  index-contains, locate, entries, Free, Consistent, Holds, entries-frame, entries-set, Segment-set,
}

-- The free slots stay free when a node leaves the list, in a vector of the same length.
Free-shrink :
    (nodes nodes' : List KeyListNode) (xs ys : List ℕ) (n : ℕ) (fs : List ℕ)
    → length nodes' ≡ length nodes
    → Free nodes (xs ++ (n ∷ ys)) fs
    → Free nodes' (xs ++ ys) fs × NotIn n fs
Free-shrink nodes nodes' xs ys n [] e f = (tt, tt)
Free-shrink nodes nodes' xs ys n (i ∷ fs) e f =
    let (rest, fresh) = Free-shrink nodes nodes' xs ys n fs e f.4 in
    let (ix, iy) = (NotIn-append i xs (n ∷ ys)).0 f.2 in
    (
      ((omega (arith, e, f.0)), f.1, (NotIn-append i xs ys).1 (ix, iy.1), f.3, rest),
      ((λ q. iy.0 (sym q)), fresh),
    )

-- The state after `drop_node`, with the list left as `xs ++ ys`.
drop_node-Consistent :
    (l : BaseLruList) (k : String) (n : ℕ) (xs ys : List ℕ)
    → Consistent l (xs ++ (n ∷ ys))
    → lookup k l.index ≡ some n
    → entries l.arena.nodes (xs ++ ys) ≡ remove k (entries l.arena.nodes (xs ++ (n ∷ ys)))
    → Consistent (drop_node n k l) (xs ++ ys)
      × (entries (drop_node n k l).arena.nodes (xs ++ ys)
          ≡ remove k (entries l.arena.nodes (xs ++ (n ∷ ys))))
unfolding drop_node release
drop_node-Consistent l k n xs ys c hit gone =
    let nodes = l.arena.nodes in
    let r = unlink n nodes l.list in
    let (dx, dn, o) = (Distinct-append xs (n ∷ ys)).0 c.linked.distinct in
    let fresh : NotIn n (xs ++ ys) = (NotIn-append n xs ys).1 ((Apart-first xs n ys o).0, dn.0) in
    let sn = ((Segment-append nodes key_list_nil xs (n ∷ ys) key_list_nil).0 c.linked.segment).1 in
    let same_length : length r.0 ≡ length nodes = (unlink-frame nodes l.list n 0).1 in
    let inside : n < length r.0 = omega (arith, sn.0, same_length) in
    let k' = unlink-Linked nodes l.list n xs ys c.linked in
    let after : entries (set r.0 n blank) (xs ++ ys) ≡ remove k (entries nodes (xs ++ (n ∷ ys))) =
      entries-set r.0 n blank (xs ++ ys) fresh inside
      ∙ (entries-frame nodes r.0 (xs ++ ys) (λ j. (unlink-frame nodes l.list n j).0) ∙ gone) in
    let shrunk =
      Free-shrink nodes (set r.0 n blank) xs ys n l.arena.free
        (length-set r.0 n blank ∙ same_length) c.free in
    (
      record {
        linked = record {
          segment =
              Segment-set r.0 n blank key_list_nil (xs ++ ys) key_list_nil fresh inside k'.segment;
          distinct = k'.distinct;
          head = k'.head;
          tail = k'.tail;
          count = k'.count;
        };
        unique = rw after (IsMap-remove k _ c.unique);
        same = λ j. rw after (
            lookup-remove k j l.index c.index_map
            ∙ (ap (λ o. if str_eq k j then none else o) (c.same j)
                ∙ sym (lookup-remove k j _ c.unique)));
        index_map = IsMap-remove k l.index c.index_map;
        count = omega (
          arith,
          length-remove k {v = n} l.index hit,
          c.count,
          length-append xs (n ∷ ys),
          length-append xs ys,
        );
        free = (omega (arith, inside, length-set r.0 n blank), sn.1, fresh, shrunk.1, shrunk.0);
        slots = omega (
          arith,
          c.slots,
          same_length,
          length-set r.0 n blank,
          length-append xs (n ∷ ys),
          length-append xs ys,
        );
      },
      after,
    )

pub drop_node-Holds :
    (l : BaseLruList) (k : String) (n : ℕ) {cap : ℕ} {ks : List String}
    → Holds l cap ks
    → lookup k l.index ≡ some n
    → Holds (drop_node n k l) cap (erase k ks)
unfolding drop_node
drop_node-Holds l k n h hit =
    let w = locate l k n h hit in
    let (c, e) = drop_node-Consistent l k n w.before w.after w.consistent hit w.rest in
    record {
      nodes = w.before ++ w.after;
      consistent = c;
      contents = ap keys e ∙ (keys-remove k _ ∙ ap (erase k) w.contents);
      capacity = h.capacity;
    }

delete_at-Holds :
    (o : Option ℕ) (l : BaseLruList) (k : String) {cap : ℕ} {ks : List String}
    → lookup k l.index ≡ o
    → Holds l cap ks
    → let (l', found) = delete_at o k l in Holds l' cap (erase k ks) × (found ≡ is_some o)
unfolding delete_at
delete_at-Holds (some n) l k e h = (drop_node-Holds l k n h e, refl)
delete_at-Holds none l k {cap} {ks} e h =
    (rw (erase_absent k ks (sym (index-contains l k h) ∙ ap is_some e)) h, refl)

-- `delete` drops the key and keeps the order of the others, and reports whether it was there.
pub delete-Holds :
    (l : BaseLruList) (k : String) {cap : ℕ} {ks : List String}
    → Holds l cap ks
    → let (l', found) = delete k l in Holds l' cap (erase k ks) × (found ≡ contains k ks)
unfolding delete
delete-Holds l k h =
    let (held, found) = delete_at-Holds (lookup k l.index) l k refl h in
    (held, found ∙ index-contains l k h)
