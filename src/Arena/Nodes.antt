-- ===== src/Arena/Nodes.antt =====
-- src/runtime/replacement.rs, `KeyListNode`: what a write to one node leaves at every node.
use matrixcache.Base.{
  ℕ, zero, suc, ◌+◌, ◌<◌, ◌≡◌, ◌≢◌, refl, List, [], ◌∷◌, ◌++◌, length, set, length-set, ◌==◌,
  if◌then◌else◌, arith,
}
use matrixcache.Arena.{KeyListNode, node_at, set_prev, set_next}

pub node_at-set :
    (ns : List KeyListNode) (i j : ℕ) (v : KeyListNode)
    → i < length ns
    → node_at (set ns i v) j ≡ (if i == j then v else node_at ns j)
node_at-set [] i j v h = absurd (omega arith)
node_at-set (x ∷ ns) zero zero v h = refl
node_at-set (x ∷ ns) zero (suc j) v h = ground arith
node_at-set (x ∷ ns) (suc i) zero v h = ground arith
node_at-set (x ∷ ns) (suc i) (suc j) v h = ground (arith, node_at-set ns i j v (omega arith))

-- A slot past the end is blank, and a new slot is appended behind the others.
pub node_at-append :
    (ns : List KeyListNode) (j : ℕ) (v : KeyListNode)
    → node_at (ns ++ (v ∷ [])) j ≡ (if length ns == j then v else node_at ns j)
node_at-append [] zero v = refl
node_at-append [] (suc j) v = ground arith
node_at-append (x ∷ ns) zero v = ground arith
node_at-append (x ∷ ns) (suc j) v = ground (arith, node_at-append ns j v)

set-past_end :
    (ns : List KeyListNode) (i : ℕ) (v : KeyListNode) → length ns < i + 1 → set ns i v ≡ ns
set-past_end [] i v h = refl
set-past_end (x ∷ ns) zero v h = absurd (omega arith)
set-past_end (x ∷ ns) (suc i) v h = ground (arith, set-past_end ns i v (omega arith))

module _ (ns : List KeyListNode) (i v j : ℕ) where
  pub prev-set_prev :
      i < length ns
      → (node_at (set_prev i v ns) j).prev ≡ (if i == j then v else (node_at ns j).prev)
  unfolding set_prev
  prev-set_prev h = ground (arith, node_at-set ns i j (record (node_at ns i) { prev = v }) h)

  pub next-set_next :
      i < length ns
      → (node_at (set_next i v ns) j).next ≡ (if i == j then v else (node_at ns j).next)
  unfolding set_next
  next-set_next h = ground (arith, node_at-set ns i j (record (node_at ns i) { next = v }) h)

  pub next-set_prev : (node_at (set_prev i v ns) j).next ≡ (node_at ns j).next
  unfolding set_prev
  next-set_prev = ground (
    arith,
    node_at-set ns i j (record (node_at ns i) { prev = v }),
    set-past_end ns i (record (node_at ns i) { prev = v }),
  )

  pub prev-set_next : (node_at (set_next i v ns) j).prev ≡ (node_at ns j).prev
  unfolding set_next
  prev-set_next = ground (
    arith,
    node_at-set ns i j (record (node_at ns i) { next = v }),
    set-past_end ns i (record (node_at ns i) { next = v }),
  )

  pub key-set_prev : (node_at (set_prev i v ns) j).key ≡ (node_at ns j).key
  unfolding set_prev
  key-set_prev = ground (
    arith,
    node_at-set ns i j (record (node_at ns i) { prev = v }),
    set-past_end ns i (record (node_at ns i) { prev = v }),
  )

  pub key-set_next : (node_at (set_next i v ns) j).key ≡ (node_at ns j).key
  unfolding set_next
  key-set_next = ground (
    arith,
    node_at-set ns i j (record (node_at ns i) { next = v }),
    set-past_end ns i (record (node_at ns i) { next = v }),
  )

pub length-set_prev : (ns : List KeyListNode) (i v : ℕ) → length (set_prev i v ns) ≡ length ns
unfolding set_prev
length-set_prev ns i v = length-set ns i _

pub length-set_next : (ns : List KeyListNode) (i v : ℕ) → length (set_next i v ns) ≡ length ns
unfolding set_next
length-set_next ns i v = length-set ns i _

pub set_prev_self :
    (ns : List KeyListNode) (i v : ℕ) → i < length ns → (node_at (set_prev i v ns) i).prev ≡ v
set_prev_self ns i v h = ground (arith, prev-set_prev ns i v i)

pub set_next_self :
    (ns : List KeyListNode) (i v : ℕ) → i < length ns → (node_at (set_next i v ns) i).next ≡ v
set_next_self ns i v h = ground (arith, next-set_next ns i v i)

pub set_prev_ne :
    (ns : List KeyListNode) (i v j : ℕ)
    → i ≢ j
    → (node_at (set_prev i v ns) j).prev ≡ (node_at ns j).prev
unfolding set_prev
set_prev_ne ns i v j h =
    let w = record (node_at ns i) { prev = v } in
    ground (arith, node_at-set ns i j w, set-past_end ns i w)

pub set_next_ne :
    (ns : List KeyListNode) (i v j : ℕ)
    → i ≢ j
    → (node_at (set_next i v ns) j).next ≡ (node_at ns j).next
unfolding set_next
set_next_ne ns i v j h =
    let w = record (node_at ns i) { next = v } in
    ground (arith, node_at-set ns i j w, set-past_end ns i w)
