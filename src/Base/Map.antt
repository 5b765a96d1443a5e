-- ===== src/Base/Map.antt =====
-- A `HashMap` with string keys as an association list: a key stands in it once (`IsMap`), and the
-- order of the entries is not observed.
use Prim.Native.Nat.{◌+◌, ◌-◌, ◌<◌, ◌≤◌}
use Prim.Native.String.{String}
use mathlib.Core.Path.{◌≡◌, refl, ◌∙◌, ap}
use mathlib.Core.List.{List, [], ◌∷◌, ◌++◌}
use mathlib.Core.Bool.{Bool, true, false}
use mathlib.Core.Option.{Option, none, some}
use native.Mathlib.Omega.{arith}
use text.Mathlib.Text.{◌==◌}
use text.Mathlib.TextEquality.{eq_iff}
use text.Mathlib.TextPositions.{eq_refl}
use matrixcache.Base.Tests.{if◌then◌else◌}
use matrixcache.Base.Lists.{length}

-- Drops the first occurrence of a key from a list of keys.
unfoldable pub erase : String → List String → List String
erase k [] = []
erase k (j ∷ js) = if j == k then js else j ∷ erase k js

unfoldable pub contains : String → List String → Bool
contains k [] = false
contains k (j ∷ js) = if j == k then true else contains k js

-- Moves a key to the front, or puts it there.
abbrev pub touch : String → List String → List String
touch k ks = k ∷ erase k ks

pub erase_absent : (k : String) (ks : List String) → contains k ks ≡ false → erase k ks ≡ ks
unfolding erase contains
erase_absent k [] h = refl
erase_absent k (j ∷ js) h = ground (arith, erase_absent k js)

pub contains_pos : (k : String) (ks : List String) → contains k ks ≡ true → 0 < length ks
unfolding contains
contains_pos k [] h = cc
contains_pos k (j ∷ js) h = omega arith

pub length-erase :
    (k : String) (ks : List String)
    → length (erase k ks) ≡ (if contains k ks then length ks - 1 else length ks)
unfolding erase contains
length-erase k [] = refl
length-erase k (j ∷ js) = ground (arith, length-erase k js, contains_pos k js)

pub length-erase-le : (k : String) (ks : List String) → length (erase k ks) ≤ length ks
length-erase-le k ks = ground (arith, length-erase k ks)

module _ {ℓ} {V : Type ℓ} where
  unfoldable pub remove : String → List (String × V) → List (String × V)
  remove k [] = []
  remove k ((j, v) ∷ m) = if j == k then m else (j, v) ∷ remove k m

  -- A new value takes the place of the old one.
  unfoldable pub insert : String → V → List (String × V) → List (String × V)
  unfolding remove
  insert k v m = (k, v) ∷ remove k m

  unfoldable pub lookup : String → List (String × V) → Option V
  lookup key [] = none
  lookup key ((other, value) ∷ rest) = if other == key then some value else lookup key rest

  abbrev pub IsMap : List (String × V) → Type ℓ
  IsMap [] = Unit
  IsMap ((k, v) ∷ m) = (lookup k m ≡ none) × IsMap m

  abbrev pub keys : List (String × V) → List String
  keys [] = []
  keys ((k, v) ∷ m) = k ∷ keys m

  pub lookup-cons :
      (k j : String) (v : V) (m : List (String × V))
      → lookup j ((k, v) ∷ m) ≡ (if k == j then some v else lookup j m)
  unfolding lookup
  lookup-cons k j v m = refl

  -- Another key is still found after a removal.
  lookup-remove_other :
      (k j : String) (m : List (String × V)) → (k == j) ≡ false → lookup j (remove k m) ≡ lookup j m
  unfolding lookup remove
  lookup-remove_other k j [] ne = refl
  lookup-remove_other k j ((i, w) ∷ m) ne =
      ground (arith, eq_iff k j, eq_iff i k, eq_iff i j, lookup-remove_other k j m ne)

  pub lookup-insert :
      (new any : String) (v : V) (table : List (String × V))
      → lookup any (insert new v table) ≡ (if new == any then some v else lookup any table)
  unfolding insert lookup
  lookup-insert new any v table = ground (arith, lookup-remove_other new any table)

  pub lookup-remove :
      (k j : String) (m : List (String × V))
      → IsMap m
      → lookup j (remove k m) ≡ (if k == j then none else lookup j m)
  unfolding lookup remove
  lookup-remove k j [] u = ground arith
  lookup-remove k j ((i, w) ∷ m) u =
      ground (arith, eq_iff k j, eq_iff i k, eq_iff i j, lookup-remove k j m u.1)

  pub remove_absent : (k : String) (m : List (String × V)) → lookup k m ≡ none → remove k m ≡ m
  unfolding lookup remove
  remove_absent k [] h = refl
  remove_absent k ((i, w) ∷ m) h = ground (arith, remove_absent k m)

  pub length-insert :
      (k : String) (v : V) (m : List (String × V))
      → lookup k m ≡ none
      → length (insert k v m) ≡ length m + 1
  unfolding insert
  length-insert k v m h = omega (arith, ap length (remove_absent k m h))

  pub length-remove :
      (k : String) {v : V} (m : List (String × V))
      → lookup k m ≡ some v
      → length (remove k m) + 1 ≡ length m
  unfolding lookup remove
  length-remove k [] h = cc
  length-remove k {v} ((i, w) ∷ m) h = ground (arith, length-remove k {v = v} m)

  pub IsMap-remove : (k : String) (m : List (String × V)) → IsMap m → IsMap (remove k m)
  unfolding lookup remove
  IsMap-remove k [] u = tt
  IsMap-remove k ((i, w) ∷ m) u =
      ground (arith, eq_iff i k, eq_iff k i, lookup-remove k i m u.1, IsMap-remove k m u.1)

  pub IsMap-insert : (k : String) (v : V) (m : List (String × V)) → IsMap m → IsMap (insert k v m)
  unfolding insert
  IsMap-insert k v m u = (lookup-remove k k m u ∙ rw (eq_refl k), IsMap-remove k m u)

  pub keys-remove : (k : String) (m : List (String × V)) → keys (remove k m) ≡ erase k (keys m)
  unfolding remove erase
  keys-remove k [] = refl
  keys-remove k ((i, w) ∷ m) = ground (arith, keys-remove k m)

  -- A new entry behind the others.
  pub lookup-append_one :
      (k j : String) (v : V) (m : List (String × V))
      → lookup k m ≡ none
      → lookup j (m ++ ((k, v) ∷ [])) ≡ (if k == j then some v else lookup j m)
  unfolding lookup
  lookup-append_one k j v [] h = refl
  lookup-append_one k j v ((i, w) ∷ m) h =
      ground (arith, eq_iff i k, eq_iff k j, eq_iff i j, lookup-append_one k j v m)

  pub IsMap-append_one :
      (k : String) (v : V) (m : List (String × V))
      → lookup k m ≡ none
      → IsMap m
      → IsMap (m ++ ((k, v) ∷ []))
  unfolding lookup
  IsMap-append_one k v [] h u = (refl, tt)
  IsMap-append_one k v ((i, w) ∷ m) h u =
      ground (arith, eq_iff i k, eq_iff k i, lookup-append_one k i v m, IsMap-append_one k v m)

  pub keys-append_one :
      (k : String) (v : V) (m : List (String × V)) → keys (m ++ ((k, v) ∷ [])) ≡ keys m ++ (k ∷ [])
  keys-append_one k v [] = refl
  keys-append_one k v ((i, w) ∷ m) = ap (λ t. i ∷ t) (keys-append_one k v m)

  pub length-insert_present :
      (k : String) (v : V) {w : V} (m : List (String × V))
      → lookup k m ≡ some w
      → length (insert k v m) ≡ length m
  unfolding insert
  length-insert_present k v {w} m h = omega (arith, length-remove k {v = w} m h)
