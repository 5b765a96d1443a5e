-- ===== src/Lru/Touch.antt =====
-- src/runtime/replacement.rs, `BaseLruList::put` and `BaseLruList::get`.
use matrixcache.Base.{
  is_some, ℕ, suc, ◌+◌, ◌<◌, ◌%◌, ◌^◌, ◌-◌, ◌≡◌, refl, sym, ◌∙◌, ap, Option, none, some, List, [],
  ◌∷◌, ◌++◌, String, length, length-append, set, length-set, str_eq, if◌then◌else◌, arith,
}
use mathlib.Core.Path.{subst}
use matrixcache.Base.Map.{
  contains, erase_absent, touch, lookup, IsMap, keys, lookup-cons, lookup-insert, length-insert,
  IsMap-insert,
}
use matrixcache.Arena.{
  KeyListNode, KeyArena, key_list_nil, node_at, fresh_node, alloc_from, alloc, link_front,
}
use matrixcache.Arena.Nodes.{node_at-set, node_at-append}
use matrixcache.Arena.Segment.{NotIn, Segment, Linked}
use matrixcache.Arena.Link.{link_front-Linked, link_front-frame}
use matrixcache.Lru.{BaseLruList, put_new, put_at, put, get_at, get, size}
use matrixcache.Lru.Holds.{
  entries, Free, Consistent, Holds, entries-frame, entries-set, Segment-set, size-Holds,
  index-contains, entries-append, Segment-new,
}
use matrixcache.Lru.Refront.{refront-Holds}

-- What `alloc` returns: an unlinked slot that holds the key, beside an unchanged list.
pub record Allocated (l : BaseLruList) (k : String) (ns : List ℕ) (a : KeyArena) (node : ℕ)
    : Type 0 where
  pub linked : Linked a.nodes l.list ns
  pub inside : node < length a.nodes
  pub small : node < key_list_nil
  pub unlinked : NotIn node ns
  pub named : (node_at a.nodes node).key ≡ k
  pub others : entries a.nodes ns ≡ entries l.arena.nodes ns
  pub free : Free a.nodes (node ∷ ns) a.free
  pub slots : length a.nodes ≡ suc (length ns) + length a.free

Free-set :
    (nodes : List KeyListNode) (i : ℕ) (v : KeyListNode) (ns fs : List ℕ)
    → NotIn i fs
    → Free nodes ns fs
    → Free (set nodes i v) (i ∷ ns) fs
Free-set nodes i v ns [] o f = tt
Free-set nodes i v ns (j ∷ fs) o f = (
  omega (arith, length-set nodes i v, f.0),
  f.1,
  ((λ e. o.0 (sym e)), f.2),
  f.3,
  Free-set nodes i v ns fs o.1 f.4,
)

-- All linked nodes lie below the end of the vector.
NotIn-end :
    (nodes : List KeyListNode) (p : ℕ) (ns : List ℕ) (e : ℕ)
    → Segment nodes p ns e
    → NotIn (length nodes) ns
NotIn-end nodes p [] e s = tt
NotIn-end nodes p (n ∷ ns) e s = (omega (arith, s.0), NotIn-end nodes n ns e s.4)

pub alloc_from-Allocated :
    (fs : List ℕ) (l : BaseLruList) (k : String) (ns : List ℕ)
    → l.arena.free ≡ fs
    → Consistent l ns
    → length ns < key_list_nil
    → let (a, node) = alloc_from fs k l.arena in Allocated l k ns a node
unfolding alloc_from
alloc_from-Allocated (i ∷ fs) l k ns e c room =
    let nodes = l.arena.nodes in
    let v = fresh_node k in
    let f = subst (Free nodes ns) e c.free in
    record {
      linked = record {
        segment = Segment-set nodes i v key_list_nil ns key_list_nil f.2 f.0 c.linked.segment;
        distinct = c.linked.distinct;
        head = c.linked.head;
        tail = c.linked.tail;
        count = c.linked.count;
      };
      inside = omega (arith, length-set nodes i v, f.0);
      small = f.1;
      unlinked = f.2;
      named = ground (arith, node_at-set nodes i i v f.0);
      others = entries-set nodes i v ns f.2 f.0;
      free = Free-set nodes i v ns fs f.3 f.4;
      slots = omega (arith, length-set nodes i v, c.slots, ap length e);
    }
alloc_from-Allocated [] l k ns e c room =
    let nodes = l.arena.nodes in
    let v = fresh_node k in
    let full : length nodes ≡ length ns = omega (arith, c.slots, ap length e) in
    let index : (length (nodes ++ (v ∷ [])) - 1) % 2 ^ 32 ≡ length nodes =
      omega (arith, length-append nodes (v ∷ []), full, room) in
    rw index (record {
      linked = record {
        segment = Segment-new nodes v key_list_nil ns key_list_nil c.linked.segment;
        distinct = c.linked.distinct;
        head = c.linked.head;
        tail = c.linked.tail;
        count = c.linked.count;
      };
      inside = omega (arith, length-append nodes (v ∷ []));
      small = omega (arith, full, room);
      unlinked = NotIn-end nodes key_list_nil ns key_list_nil c.linked.segment;
      named = ground (arith, node_at-append nodes (length nodes) v);
      others = entries-append nodes v key_list_nil ns key_list_nil c.linked.segment;
      free = subst (Free (nodes ++ (v ∷ [])) (length nodes ∷ ns)) (sym e) tt;
      slots = omega (arith, length-append nodes (v ∷ []), full, ap length e);
    })

pub Free-length :
    (nodes nodes' : List KeyListNode) (ns fs : List ℕ)
    → length nodes' ≡ length nodes
    → Free nodes ns fs
    → Free nodes' ns fs
Free-length nodes nodes' ns [] e f = tt
Free-length nodes nodes' ns (i ∷ fs) e f =
    (omega (arith, e, f.0), f.1, f.2, f.3, Free-length nodes nodes' ns fs e f.4)

-- `put` of a new key.
put_new-Holds :
    (l : BaseLruList) (k : String) {cap : ℕ} {ks : List String}
    → Holds l cap ks
    → length ks < key_list_nil
    → lookup k l.index ≡ none
    → Holds (put_new k l) cap (k ∷ ks)
unfolding put_new alloc size
put_new-Holds l k {cap} {ks} h room miss =
    let ns = h.nodes in
    let c = h.consistent in
    let few : length ns < key_list_nil = omega (arith, size-Holds l h, c.count, room) in
    let r = alloc_from l.arena.free k l.arena in
    let node = r.1 in
    let a = alloc_from-Allocated l.arena.free l k ns refl c few in
    let q = link_front node r.0.nodes l.list in
    let frame : (j : ℕ) → (node_at q.0 j).key ≡ (node_at r.0.nodes j).key =
      λ j. (link_front-frame r.0.nodes l.list node j).0 in
    let len : length q.0 ≡ length r.0.nodes = (link_front-frame r.0.nodes l.list node 0).1 in
    let es = entries l.arena.nodes ns in
    let after : entries q.0 (node ∷ ns) ≡ (k, node) ∷ es =
      entries-frame r.0.nodes q.0 (node ∷ ns) frame ∙ ground (arith, a.named, a.others) in
    let absent : lookup k es ≡ none = sym (c.same k) ∙ miss in
    record {
      nodes = node ∷ ns;
      consistent = record {
        linked =
            link_front-Linked r.0.nodes l.list node ns a.linked a.inside a.small a.unlinked few;
        unique = subst IsMap (sym after) (absent, c.unique);
        same = λ j.
            lookup-insert k j node l.index
            ∙ (ap (λ o. if str_eq k j then some node else o) (c.same j)
                ∙ (sym (lookup-cons k j node es) ∙ sym (ap (lookup j) after)));
        index_map = IsMap-insert k node l.index c.index_map;
        count = omega (arith, length-insert k node l.index miss, c.count);
        free = Free-length r.0.nodes q.0 (node ∷ ns) r.0.free len a.free;
        slots = omega (arith, a.slots, len);
      };
      contents = ap keys after ∙ ap (λ t. k ∷ t) h.contents;
      capacity = h.capacity;
    }

put_at-Holds :
    (o : Option ℕ) (l : BaseLruList) (k : String) {cap : ℕ} {ks : List String}
    → lookup k l.index ≡ o
    → Holds l cap ks
    → length ks < key_list_nil
    → Holds (put_at o k l) cap (touch k ks)
unfolding put_at
put_at-Holds (some n) l k e h room = refront-Holds l k n h (omega arith) e
put_at-Holds none l k {cap} {ks} e h room =
    rw (erase_absent k ks (sym (index-contains l k h) ∙ ap is_some e)) (put_new-Holds l k h room e)

-- `put` makes a key the most recent, and keeps the order of the others.
pub put-Holds :
    (l : BaseLruList) (k : String) {cap : ℕ} {ks : List String}
    → Holds l cap ks
    → length ks < key_list_nil
    → Holds (put k l) cap (touch k ks)
unfolding put
put-Holds l k h room = put_at-Holds (lookup k l.index) l k refl h room

-- The keys after a `get`: one that is there becomes the most recent.
unfoldable pub got : String → List String → List String
got k ks = if contains k ks then touch k ks else ks

get_at-Holds :
    (o : Option ℕ) (l : BaseLruList) (k : String) {cap : ℕ} {ks : List String}
    → lookup k l.index ≡ o
    → Holds l cap ks
    → length ks < key_list_nil
    → let (l', found) = get_at o l in Holds l' cap (got k ks) × (found ≡ is_some o)
unfolding get_at got
get_at-Holds (some n) l k e h room =
    (rw (sym (index-contains l k h) ∙ ap is_some e) (refront-Holds l k n h (omega arith) e), refl)
get_at-Holds none l k e h room = (rw (sym (index-contains l k h) ∙ ap is_some e) h, refl)

-- `get` makes a key that is there the most recent, changes nothing if it is not, and reports which.
pub get-Holds :
    (l : BaseLruList) (k : String) {cap : ℕ} {ks : List String}
    → Holds l cap ks
    → length ks < key_list_nil
    → let (l', found) = get k l in Holds l' cap (got k ks) × (found ≡ contains k ks)
unfolding get
get-Holds l k h room =
    let (held, found) = get_at-Holds (lookup k l.index) l k refl h room in
    (held, found ∙ index-contains l k h)
