-- ===== src/Lru/Evict.antt =====
-- src/runtime/replacement.rs, `BaseLruList::evict_one`, `evict` and `get_tail`: what leaves the list
-- is its least recent.
use matrixcache.Base.{
  ℕ, zero, suc, ◌<◌, ◌≤◌, ◌≡◌, refl, sym, ◌∙◌, ap, none, some, List, [], ◌∷◌, ◌++◌, String, false,
  length, str_eq, eq_iff, arith, ltb, take, drop, drop_last, last_one, reverse, Bool-cases, inl,
  inr, length-drop_last, is_empty, last_one-ne-nil, take_all, drop_all, take-drop_last,
  reverse-drop,
}
use mathlib.Core.Path.{subst}
use mathlib.Core.List.{append_assoc, append-nil}
use matrixcache.Base.Map.{lookup, erase, IsMap, keys}
use matrixcache.Arena.{KeyListNode, key_list_nil, KeyList, node_at, back}
use matrixcache.Arena.Segment.{last, last_in_range}
use matrixcache.Arena.Collect.{keys_of, collect_from_tail-reverse}
use matrixcache.Lru.{BaseLruList, drop_node, evict_at, evict_one, evict_from, evict, get_tail, size}
use matrixcache.Lru.Holds.{entries, Consistent, Holds, size-Holds}
use matrixcache.Lru.Take.{drop_node-Holds}

-- The last entry is found under its key, and dropping that key drops the last.
record LastEntry (nodes : List KeyListNode) (n : ℕ) (ns : List ℕ) : Type 0 where
  hit : lookup (node_at nodes (last n ns)).key (entries nodes (n ∷ ns)) ≡ some (last n ns)
  rest :
      erase (node_at nodes (last n ns)).key (keys (entries nodes (n ∷ ns)))
      ≡ drop_last (keys (entries nodes (n ∷ ns)))
  one : last_one (keys (entries nodes (n ∷ ns))) ≡ (node_at nodes (last n ns)).key ∷ []

last_entry :
    (nodes : List KeyListNode) (n : ℕ) (ns : List ℕ)
    → IsMap (entries nodes (n ∷ ns))
    → LastEntry nodes n ns
unfolding lookup erase
last_entry nodes n [] u =
    let k = (node_at nodes n).key in
    record { hit = ground (arith, eq_iff k k); rest = ground (arith, eq_iff k k); one = refl }
last_entry nodes n (m ∷ ns) u =
    let k = (node_at nodes (last m ns)).key in
    let j = (node_at nodes n).key in
    let ih = last_entry nodes m ns u.1 in
    let differs : str_eq j k ≡ false = ground (arith, eq_iff j k, ih.hit, u.0) in
    record { hit = rw differs ih.hit; rest = rw differs (ap (λ t. j ∷ t) ih.rest); one = ih.one }

back-nil : (l : KeyList) → l.tail ≡ key_list_nil → back l ≡ none
back-nil l h = ground arith

back-tail : (l : KeyList) (n : ℕ) → l.tail ≡ n → n < key_list_nil → back l ≡ some n
back-tail l n h small = ground arith

-- `evict_one` drops the least recent key, and returns it.
evict_nodes-Holds :
    (ns : List ℕ) (l : BaseLruList) {cap : ℕ} {ks : List String}
    → Consistent l ns
    → keys (entries l.arena.nodes ns) ≡ ks
    → l.capacity ≡ cap
    → let (l', popped) = evict_one l in Holds l' cap (drop_last ks) × (popped ≡ last_one ks)
unfolding evict_at evict_one
evict_nodes-Holds [] l {ks = ks} c e q = rw (back-nil l.list c.linked.tail) (
  record {
    nodes = [];
    consistent = c;
    contents = subst (λ t. [] ≡ drop_last t) e refl;
    capacity = q;
  },
  subst (λ t. [] ≡ last_one t) e refl,
)
evict_nodes-Holds (n ∷ ns) l {cap = cap} {ks = ks} c e q =
    let nodes = l.arena.nodes in
    let z = last n ns in
    let k = (node_at nodes z).key in
    let w = last_entry nodes n ns c.unique in
    let small = (last_in_range nodes key_list_nil n ns key_list_nil c.linked.segment).1 in
    let h : Holds l cap ks = record {
      nodes = n ∷ ns;
      consistent = c;
      contents = e;
      capacity = q;
    } in
    rw (back-tail l.list z c.linked.tail small) (
      subst (Holds (drop_node z k l) cap) (ap (erase k) (sym e) ∙ (w.rest ∙ ap drop_last e))
          (drop_node-Holds l k z h (c.same k ∙ w.hit)),
      sym w.one ∙ ap last_one e,
    )

pub evict_one-Holds :
    (l : BaseLruList) {cap : ℕ} {ks : List String}
    → Holds l cap ks
    → let (l', popped) = evict_one l in Holds l' cap (drop_last ks) × (popped ≡ last_one ks)
evict_one-Holds l h = evict_nodes-Holds h.nodes l h.consistent h.contents h.capacity

-- The loop, with a round of fuel for each key.
evict_from-Holds :
    (fuel : ℕ) (out : List String) (l : BaseLruList) {cap : ℕ} {ks : List String}
    → Holds l cap ks
    → length ks ≤ fuel
    → let (l', evicted) = evict_from fuel out l in
      Holds l' cap (take cap ks) × (evicted ≡ out ++ reverse (drop cap ks))
unfolding evict_from
evict_from-Holds zero out l {cap} {ks} h enough = (
  subst (Holds l cap) (sym (take_all cap ks (omega arith))) h,
  sym (append-nil out) ∙ ap (λ t. out ++ reverse t) (sym (drop_all cap ks (omega arith))),
)
evict_from-Holds (suc fuel) out l {cap} {ks} h enough =
    elim (Bool-cases (ltb l.capacity (size l))) [
      | inl more ↦
          (let over : cap < length ks = ground (arith, size-Holds l h, h.capacity) in
            let (held, popped) = evict_one-Holds l h in
            let ih =
              evict_from-Holds fuel (out ++ (evict_one l).1) (evict_one l).0 held
                (omega (arith, length-drop_last ks)) in
            let some_popped : is_empty (evict_one l).1 ≡ false =
              ap is_empty popped ∙ last_one-ne-nil ks (omega arith) in
            rw (more, some_popped)
              (
                subst (Holds _ cap) (take-drop_last cap ks over) ih.0,
                ih.1
                    ∙ (append_assoc out (evict_one l).1 (reverse (drop cap (drop_last ks)))
                        ∙ ap (λ t. out ++ t)
                            (ap (λ t. t ++ reverse (drop cap (drop_last ks))) popped
                              ∙ sym (reverse-drop cap ks over))),
              ))
      | inr done ↦
          (let under : length ks ≤ cap = ground (arith, size-Holds l h, h.capacity) in
            rw done (
              subst (Holds l cap) (sym (take_all cap ks under)) h,
              sym (append-nil out) ∙ ap (λ t. out ++ reverse t) (sym (drop_all cap ks under)),
            ))
    ]

-- For a list in good order, `evict` ends with the most recent keys that fit, in order, and returns
-- all others, the least recent first; its fuel does not run out.
pub evict-Holds :
    (l : BaseLruList) {cap : ℕ} {ks : List String}
    → Holds l cap ks
    → let (l', evicted) = evict l in Holds l' cap (take cap ks) × (evicted ≡ reverse (drop cap ks))
unfolding evict
evict-Holds l h = evict_from-Holds (size l) [] l h (omega (arith, size-Holds l h))

keys-entries : (nodes : List KeyListNode) (ns : List ℕ) → keys (entries nodes ns) ≡ keys_of nodes ns
keys-entries nodes [] = refl
keys-entries nodes (n ∷ ns) = ap (λ t. (node_at nodes n).key ∷ t) (keys-entries nodes ns)

-- `get_tail` shows the least recent keys, the least recent first, up to the number asked for.
pub get_tail-reverse :
    (l : BaseLruList) (n : ℕ) {cap : ℕ} {ks : List String}
    → Holds l cap ks
    → get_tail n l ≡ take n (reverse ks)
unfolding get_tail
get_tail-reverse l n h =
    collect_from_tail-reverse l.arena.nodes l.list h.nodes n h.consistent.linked
    ∙ ap (λ t. take n (reverse t)) (sym (keys-entries l.arena.nodes h.nodes) ∙ h.contents)
