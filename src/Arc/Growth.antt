-- ===== src/Arc/Growth.antt =====
-- The sizes of the four lists of the adaptive replacement cache, whatever its capacity has been.
use matrixcache.Base.{
  ℕ, suc, ◌+◌, ◌<◌, ◌≤◌, ◌≡◌, String, Bool, true, false, length, max, drop_last, arith,
  length-drop_last, Bool-cases, inl, inr,
}
use matrixcache.Base.Map.{contains, erase, length-erase-le}
use matrixcache.Arena.{key_list_nil}
use matrixcache.Arc.Model.{Lists, replace, make_room, raise, lower, put1, put2, access}
use matrixcache.Arc.Bounds.{length-touch, replace-Replaced}

abbrev total : Lists → ℕ
total s = length s.t1 + length s.t2 + length s.b1 + length s.b2

-- Lists with room for so many more keys in what an index can name.
pub record Fits (n : ℕ) (s : Lists) : Type 0 where
  pub all : length s.t1 + length s.t2 + length s.b1 + length s.b2 + n < key_list_nil
  pub c : s.c < key_list_nil
  pub p : s.p < key_list_nil

-- No more keys than before.
record Kept (s s' : Lists) : Type 0 where
  all : total s' ≤ total s
  c : s'.c ≡ s.c
  p : s'.p ≤ max s.p s.c

Kept-replace : (flag : Bool) (s s' : Lists) → Kept s s' → Kept s (replace flag s')
Kept-replace flag s s' h = let r = replace-Replaced flag s' in omega (arith, r, h)

Kept-raise : (s s' : Lists) → Kept s s' → Kept s (raise s')
unfolding raise
Kept-raise s s' h = omega (arith, h)

Kept-lower : (s s' : Lists) → Kept s s' → Kept s (lower s')
unfolding lower
Kept-lower s s' h = omega (arith, h)

Kept-make_room : (s : Lists) → Kept s (make_room s)
unfolding make_room
Kept-make_room s = ground (
  arith,
  replace-Replaced false (record s { b1 = drop_last s.b1 }),
  replace-Replaced false (record s { b2 = drop_last s.b2 }),
  replace-Replaced false s,
  length-drop_last s.t1,
  length-drop_last s.b1,
  length-drop_last s.b2,
)

Fits-put1 : (n : ℕ) (k : String) (s s' : Lists) → Fits (suc n) s → Kept s s' → Fits n (put1 k s')
unfolding put1
Fits-put1 n k s s' v h = omega (arith, v, h, length-touch k s'.t1)

Fits-put2 : (n : ℕ) (k : String) (s s' : Lists) → Fits (suc n) s → Kept s s' → Fits n (put2 k s')
unfolding put2
Fits-put2 n k s s' v h = omega (arith, v, h, length-touch k s'.t2)

-- One request brings one key at most.
pub access-Fits : (n : ℕ) (k : String) (s : Lists) → Fits (suc n) s → Fits n (access k s).0
unfolding access
access-Fits n k s v = elim (Bool-cases (contains k s.t1)) [
  | inl t1 ↦ rw t1 (Fits-put2 n k s _ v (omega (arith, length-erase-le k s.t1)))
  | inr t1 ↦ rw t1 (elim (Bool-cases (contains k s.b1)) [
    | inl b1 ↦ rw b1 (
        Fits-put2 n k s _ v (
          Kept-replace false s _ (
            Kept-raise s (record s { b1 = erase k s.b1 }) (omega (arith, length-erase-le k s.b1)))))
    | inr b1 ↦ rw b1 (elim (Bool-cases (contains k s.t2)) [
      | inl t2 ↦ rw t2 (Fits-put2 n k s _ v (omega (arith, length-erase-le k s.t2)))
      | inr t2 ↦ rw t2 (elim (Bool-cases (contains k s.b2)) [
        | inl b2 ↦ rw b2 (
            Fits-put2 n k s _ v (
              Kept-replace true s _ (
                Kept-lower s (record s { b2 = erase k s.b2 })
                  (omega (arith, length-erase-le k s.b2)))))
        | inr b2 ↦ rw b2 (Fits-put1 n k s _ v (Kept-make_room s))
      ])
    ])
  ])
]
