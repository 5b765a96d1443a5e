-- ===== src/Arc/Counts.antt =====
-- src/runtime/replacement.rs, `ArcList`: how often a key stands in the four lists of the model, and what a
-- request does to that.
use matrixcache.Base.{
  ℕ, ◌+◌, ◌-◌, max, ◌≤◌, ◌≡◌, refl, List, [], ◌∷◌, String, Bool, true, false, drop_last, last_one,
  str_eq, eq_iff, if◌then◌else◌, arith, Bool-cases, inl, inr,
}
use matrixcache.Base.Map.{contains, erase, touch}
use matrixcache.Ghost.Holds.{touch_all}
use matrixcache.Arc.Model.{
  Lists, demote1, demote2, replace, make_room, raise, lower, put1, put2, access,
}

unfoldable pub count : String → List String → ℕ
count k [] = 0
count k (j ∷ js) = (if str_eq j k then 1 else 0) + count k js

pub count_of_contains :
    (k : String) (ks : List String) → (if contains k ks then 1 else 0) ≤ count k ks
unfolding count contains
count_of_contains k [] = omega arith
count_of_contains k (j ∷ js) = ground (arith, count_of_contains k js)

pub count-erase :
    (j k : String) (ks : List String)
    → count j (erase k ks) ≡ (if str_eq k j then count j ks - 1 else count j ks)
unfolding count erase
count-erase j k [] = ground arith
count-erase j k (i ∷ ks) = ground (arith, eq_iff k j, eq_iff i k, eq_iff i j, count-erase j k ks)

pub count-touch :
    (j k : String) (ks : List String)
    → count j (touch k ks) ≡ (if str_eq k j then count j ks - 1 + 1 else count j ks)
unfolding count
count-touch j k ks = ground (arith, count-erase j k ks)

pub count-drop_last :
    (j : String) (ks : List String) → count j (drop_last ks) + count j (last_one ks) ≡ count j ks
unfolding count
count-drop_last j [] = omega arith
count-drop_last j (k ∷ []) = ground arith
count-drop_last j (k ∷ i ∷ ks) = ground (arith, count-drop_last j (i ∷ ks))

pub count-touch_all :
    (j : String) (ks bs : List String)
    → count j (touch_all (last_one ks) bs) ≤ count j (last_one ks) + count j bs
unfolding touch_all count
count-touch_all j [] bs = omega arith
count-touch_all j (k ∷ []) bs = ground (arith, count-touch j k bs)
count-touch_all j (k ∷ i ∷ ks) bs = count-touch_all j (i ∷ ks) bs

-- How often a key stands in the four lists.
unfoldable pub occurrences : String → Lists → ℕ
occurrences k s = count k s.t1 + count k s.b1 + count k s.t2 + count k s.b2

pub occurrences-replace :
    (j : String) (flag : Bool) (s : Lists) → occurrences j (replace flag s) ≤ occurrences j s
unfolding occurrences replace demote1 demote2
occurrences-replace j flag s = ground (
  arith,
  count-drop_last j s.t1,
  count-drop_last j s.t2,
  count-touch_all j s.t1 s.b1,
  count-touch_all j s.t2 s.b2,
)

pub occurrences-drop_t1 :
    (j : String) (s : Lists) → occurrences j (record s { t1 = drop_last s.t1 }) ≤ occurrences j s
unfolding occurrences
occurrences-drop_t1 j s = omega (arith, count-drop_last j s.t1)

pub occurrences-drop_b1 :
    (j : String) (s : Lists) → occurrences j (record s { b1 = drop_last s.b1 }) ≤ occurrences j s
unfolding occurrences
occurrences-drop_b1 j s = omega (arith, count-drop_last j s.b1)

pub occurrences-drop_b2 :
    (j : String) (s : Lists) → occurrences j (record s { b2 = drop_last s.b2 }) ≤ occurrences j s
unfolding occurrences
occurrences-drop_b2 j s = omega (arith, count-drop_last j s.b2)

pub occurrences-make_room : (j : String) (s : Lists) → occurrences j (make_room s) ≤ occurrences j s
unfolding make_room
occurrences-make_room j s = ground (
  arith,
  occurrences-drop_t1 j s,
  occurrences-drop_b1 j s,
  occurrences-drop_b2 j s,
  occurrences-replace j false (record s { b1 = drop_last s.b1 }),
  occurrences-replace j false (record s { b2 = drop_last s.b2 }),
  occurrences-replace j false s,
)

-- One for the key itself.
abbrev pub one_if : String → String → ℕ
one_if k j = if str_eq k j then 1 else 0

pub occurrences-put2 :
    (j k : String) (s : Lists) → occurrences j (put2 k s) ≤ occurrences j s + one_if k j
unfolding occurrences put2
occurrences-put2 j k s = ground (arith, count-touch j k s.t2)

pub occurrences-put1 :
    (j k : String) (s : Lists) → occurrences j (put1 k s) ≤ occurrences j s + one_if k j
unfolding occurrences put1
occurrences-put1 j k s = ground (arith, count-touch j k s.t1)

-- A key that is in a list is taken out of it.
pub count-taken :
    (j k : String) (ks : List String)
    → contains k ks ≡ true
    → count j (erase k ks) + one_if k j ≡ count j ks
count-taken j k ks h = ground (arith, count-erase j k ks, count_of_contains k ks, eq_iff k j)

pub count_missing : (k : String) (ks : List String) → contains k ks ≡ false → count k ks ≡ 0
unfolding count contains
count_missing k [] h = refl
count_missing k (j ∷ js) h = ground (arith, count_missing k js)

pub occurrences-raise : (j : String) (s : Lists) → occurrences j (raise s) ≡ occurrences j s
unfolding occurrences raise
occurrences-raise j s = refl

pub occurrences-lower : (j : String) (s : Lists) → occurrences j (lower s) ≡ occurrences j s
unfolding occurrences lower
occurrences-lower j s = refl

module _ (j k : String) (s : Lists) where
  pub take_t1 :
      contains k s.t1 ≡ true
      → occurrences j (record s { t1 = erase k s.t1 }) + one_if k j ≡ occurrences j s
  unfolding occurrences
  take_t1 h = omega (arith, count-taken j k s.t1 h)

  pub take_b1 :
      contains k s.b1 ≡ true
      → occurrences j (record s { b1 = erase k s.b1 }) + one_if k j ≡ occurrences j s
  unfolding occurrences
  take_b1 h = omega (arith, count-taken j k s.b1 h)

  pub take_t2 :
      contains k s.t2 ≡ true
      → occurrences j (record s { t2 = erase k s.t2 }) + one_if k j ≡ occurrences j s
  unfolding occurrences
  take_t2 h = omega (arith, count-taken j k s.t2 h)

  pub take_b2 :
      contains k s.b2 ≡ true
      → occurrences j (record s { b2 = erase k s.b2 }) + one_if k j ≡ occurrences j s
  unfolding occurrences
  take_b2 h = omega (arith, count-taken j k s.b2 h)

  pub absent :
      contains k s.t1 ≡ false
      → contains k s.b1 ≡ false
      → contains k s.t2 ≡ false
      → contains k s.b2 ≡ false
      → occurrences k s ≡ 0
  unfolding occurrences
  absent t1 b1 t2 b2 = omega (
    arith,
    count_missing k s.t1 t1,
    count_missing k s.b1 b1,
    count_missing k s.t2 t2,
    count_missing k s.b2 b2,
  )

  pub occurrences-access : occurrences j (access k s).0 ≤ max 1 (occurrences j s)
  unfolding access
  occurrences-access = elim (Bool-cases (contains k s.t1)) [
    | inl t1 ↦
        rw t1 (omega (arith, occurrences-put2 j k (record s { t1 = erase k s.t1 }), take_t1 t1))
    | inr t1 ↦ rw t1 (elim (Bool-cases (contains k s.b1)) [
      | inl b1 ↦
          (let s1 = record s { b1 = erase k s.b1 } in
            rw b1 (
              omega (
                arith,
                occurrences-put2 j k (replace false (raise s1)),
                occurrences-replace j false (raise s1),
                occurrences-raise j s1,
                take_b1 b1,
              )))
      | inr b1 ↦ rw b1 (elim (Bool-cases (contains k s.t2)) [
        | inl t2 ↦
            rw t2 (omega (arith, occurrences-put2 j k (record s { t2 = erase k s.t2 }), take_t2 t2))
        | inr t2 ↦ rw t2 (elim (Bool-cases (contains k s.b2)) [
          | inl b2 ↦
              (let s1 = record s { b2 = erase k s.b2 } in
                rw b2 (
                  omega (
                    arith,
                    occurrences-put2 j k (replace true (lower s1)),
                    occurrences-replace j true (lower s1),
                    occurrences-lower j s1,
                    take_b2 b2,
                  )))
          | inr b2 ↦ rw b2 (
              ground (
                arith,
                occurrences-put1 j k (make_room s),
                occurrences-make_room j s,
                absent t1 b1 t2 b2,
                eq_iff k j,
              ))
        ])
      ])
    ])
  ]
