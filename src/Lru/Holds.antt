-- ===== src/Lru/Holds.antt =====
-- src/runtime/replacement.rs, `BaseLruList`: what it means that the list holds given keys, the most
-- recent first.
use matrixcache.Base.{
  sym, ◌∙◌, is_some, ℕ, ◌+◌, ◌<◌, ◌≡◌, refl, ap, some, List, [], ◌∷◌, ◌++◌, String, length,
  length-append, set, length-set, str_eq, eq_iff, Bool-cases, inl, inr, arith,
}
use mathlib.Core.Path.{subst}
use matrixcache.Base.Map.{contains, lookup, remove, IsMap, keys}
use matrixcache.Arena.{empty_arena, empty_list, KeyListNode, key_list_nil, node_at}
use matrixcache.Arena.Nodes.{node_at-set, node_at-append}
use matrixcache.Arena.Segment.{NotIn, Segment, Linked}
use matrixcache.Lru.{BaseLruList, size, new, reset, set_capacity}

-- The nodes of a list with their keys, in order.
abbrev pub entries : List KeyListNode → List ℕ → List (String × ℕ)
entries nodes [] = []
entries nodes (n ∷ ns) = ((node_at nodes n).key, n) ∷ entries nodes ns

-- The slots of the free list lie in the vector, each once, and none is linked.
abbrev pub Free : List KeyListNode → List ℕ → List ℕ → Type 0
Free nodes ns [] = Unit {0}
Free nodes ns (f ∷ fs) =
    (f < length nodes) × (f < key_list_nil) × NotIn f ns × NotIn f fs × Free nodes ns fs

-- The index maps each linked key to its node, and every slot is linked or free.
pub record Consistent (l : BaseLruList) (ns : List ℕ) : Type 0 where
  pub linked : Linked l.arena.nodes l.list ns
  pub unique : IsMap (entries l.arena.nodes ns)
  pub same : (k : String) → lookup k l.index ≡ lookup k (entries l.arena.nodes ns)
  pub index_map : IsMap l.index
  pub count : length l.index ≡ length ns
  pub free : Free l.arena.nodes ns l.arena.free
  pub slots : length l.arena.nodes ≡ length ns + length l.arena.free

-- The list has the given capacity and holds exactly the keys `ks`, the most recent first.
pub record Holds (l : BaseLruList) (cap : ℕ) (ks : List String) : Type 0 where
  pub nodes : List ℕ
  pub consistent : Consistent l nodes
  pub contents : keys (entries l.arena.nodes nodes) ≡ ks
  pub capacity : l.capacity ≡ cap

-- A key in the index sits at one place in the list.
pub record Found (nodes : List KeyListNode) (k : String) (n : ℕ) (ns : List ℕ) : Type 0 where
  pub before : List ℕ
  pub after : List ℕ
  pub whole : ns ≡ before ++ (n ∷ after)
  pub key : (node_at nodes n).key ≡ k
  pub rest : entries nodes (before ++ after) ≡ remove k (entries nodes ns)

pub find :
    (nodes : List KeyListNode) (k : String) (n : ℕ) (ns : List ℕ)
    → lookup k (entries nodes ns) ≡ some n
    → Found nodes k n ns
unfolding lookup remove
find nodes k n [] h = absurd (cc)
find nodes k n (m ∷ ns) h = elim (Bool-cases (str_eq (node_at nodes m).key k)) [
  | inl e ↦ record {
    before = [];
    after = ns;
    whole = ground arith;
    key = ground (arith, eq_iff (node_at nodes m).key k);
    rest = ground arith;
  }
  | inr e ↦
      (let ih = find nodes k n ns (ground arith) in
        record {
          before = m ∷ ih.before;
          after = ih.after;
          whole = ap (λ t. m ∷ t) ih.whole;
          key = ih.key;
          rest = ground (arith, ih.rest);
        })
]

-- Entries depend on the keys of the linked nodes alone.
pub entries-frame :
    (nodes nodes' : List KeyListNode) (ns : List ℕ)
    → ((j : ℕ) → (node_at nodes' j).key ≡ (node_at nodes j).key)
    → entries nodes' ns ≡ entries nodes ns
entries-frame nodes nodes' [] h = refl
entries-frame nodes nodes' (n ∷ ns) h = ground (arith, h n, entries-frame nodes nodes' ns h)

module _ (nodes : List KeyListNode) (i : ℕ) (v : KeyListNode) where
  -- A write to an unlinked slot.
  pub entries-set :
      (ns : List ℕ) → NotIn i ns → i < length nodes → entries (set nodes i v) ns ≡ entries nodes ns
  entries-set [] o h = refl
  entries-set (n ∷ ns) o h = ground (arith, node_at-set nodes i n v h, entries-set ns o.1 h)

  pub Segment-set :
      (p : ℕ) (ns : List ℕ) (e : ℕ)
      → NotIn i ns
      → i < length nodes
      → Segment nodes p ns e
      → Segment (set nodes i v) p ns e
  Segment-set p [] e o h s = tt
  Segment-set p (n ∷ ns) e o h s =
      ground (arith, length-set nodes i v, node_at-set nodes i n v h, Segment-set n ns e o.1 h s.4)

module _ (nodes : List KeyListNode) (v : KeyListNode) where
  -- A new slot behind the others.
  pub entries-append :
      (p : ℕ) (ns : List ℕ) (e : ℕ)
      → Segment nodes p ns e
      → entries (nodes ++ (v ∷ [])) ns ≡ entries nodes ns
  entries-append p [] e s = refl
  entries-append p (n ∷ ns) e s =
      ground (arith, node_at-append nodes n v, entries-append n ns e s.4)

  pub Segment-new :
      (p : ℕ) (ns : List ℕ) (e : ℕ) → Segment nodes p ns e → Segment (nodes ++ (v ∷ [])) p ns e
  Segment-new p [] e s = tt
  Segment-new p (n ∷ ns) e s =
      ground (arith, length-append nodes (v ∷ []), node_at-append nodes n v, Segment-new n ns e s.4)

pub length-entries :
    (nodes : List KeyListNode) (ns : List ℕ) → length (entries nodes ns) ≡ length ns
length-entries nodes [] = refl
length-entries nodes (n ∷ ns) = omega (arith, length-entries nodes ns)

pub length-keys {ℓ} : {V : Type ℓ} (m : List (String × V)) → length (keys m) ≡ length m
length-keys [] = refl
length-keys ((k, n) ∷ m) = omega (arith, length-keys m)

-- The size is the number of the keys.
pub size-Holds :
    (l : BaseLruList) {cap : ℕ} {ks : List String} → Holds l cap ks → size l ≡ length ks
unfolding size
size-Holds l h = omega (
  arith,
  h.consistent.count,
  length-entries l.arena.nodes h.nodes,
  length-keys (entries l.arena.nodes h.nodes),
  ap length h.contents,
)

-- The index finds exactly the keys that the list holds.
pub lookup-contains :
    (k : String) (m : List (String × ℕ)) → contains k (keys m) ≡ is_some (lookup k m)
unfolding lookup contains
lookup-contains k [] = refl
lookup-contains k ((j, n) ∷ m) = ground (arith, lookup-contains k m)

pub index-contains :
    (l : BaseLruList) (k : String) {cap : ℕ} {ks : List String}
    → Holds l cap ks
    → is_some (lookup k l.index) ≡ contains k ks
index-contains l k h =
    ap is_some (h.consistent.same k)
    ∙ (sym (lookup-contains k (entries l.arena.nodes h.nodes)) ∙ ap (contains k) h.contents)

-- The node of a key, with the list taken apart at it.
pub record Located (l : BaseLruList) (k : String) (n : ℕ) (ks : List String) : Type 0 where
  pub before : List ℕ
  pub after : List ℕ
  pub consistent : Consistent l (before ++ (n ∷ after))
  pub key : (node_at l.arena.nodes n).key ≡ k
  pub rest :
      entries l.arena.nodes (before ++ after)
      ≡ remove k (entries l.arena.nodes (before ++ (n ∷ after)))
  pub contents : keys (entries l.arena.nodes (before ++ (n ∷ after))) ≡ ks

pub locate :
    (l : BaseLruList) (k : String) (n : ℕ) {cap : ℕ} {ks : List String}
    → Holds l cap ks
    → lookup k l.index ≡ some n
    → Located l k n ks
locate l k n {ks = ks} h hit =
    let f = find l.arena.nodes k n h.nodes (sym (h.consistent.same k) ∙ hit) in
    record {
      before = f.before;
      after = f.after;
      consistent = subst (Consistent l) f.whole h.consistent;
      key = f.key;
      rest =
          subst
            (λ ns.
              entries l.arena.nodes (f.before ++ f.after) ≡ remove k (entries l.arena.nodes ns))
            f.whole f.rest;
      contents = subst (λ ns. keys (entries l.arena.nodes ns) ≡ ks) f.whole h.contents;
    }

empty_at :
    (l : BaseLruList) → l.arena ≡ empty_arena → l.list ≡ empty_list → l.index ≡ [] → Consistent l []
empty_at l ea el ei = record {
  linked = record {
    segment = tt;
    distinct = tt;
    head = ap (λ t. t.head) el;
    tail = ap (λ t. t.tail) el;
    count = ap (λ t. t.len) el;
  };
  unique = tt;
  same = λ k. ap (lookup k) ei;
  index_map = subst IsMap (sym ei) tt;
  count = ap length ei;
  free = subst (λ a. Free a.nodes [] a.free) (sym ea) tt;
  slots = ground (arith, ea);
}

pub new-Holds : (cap : ℕ) → Holds (new cap) cap []
unfolding new
new-Holds cap = record {
  nodes = [];
  consistent = empty_at (new cap) refl refl refl;
  contents = refl;
  capacity = refl;
}

pub reset-Holds :
    (l : BaseLruList) {cap : ℕ} {ks : List String} → Holds l cap ks → Holds (reset l) cap []
unfolding reset
reset-Holds l h = record {
  nodes = [];
  consistent = empty_at (reset l) refl refl refl;
  contents = refl;
  capacity = h.capacity;
}

pub set_capacity-Holds :
    (c : ℕ) (l : BaseLruList) {cap : ℕ} {ks : List String}
    → Holds l cap ks
    → Holds (set_capacity c l) c ks
unfolding set_capacity
set_capacity-Holds c l h = record {
  nodes = h.nodes;
  consistent = record {
    linked = h.consistent.linked;
    unique = h.consistent.unique;
    same = h.consistent.same;
    index_map = h.consistent.index_map;
    count = h.consistent.count;
    free = h.consistent.free;
    slots = h.consistent.slots;
  };
  contents = h.contents;
  capacity = refl;
}
