-- ===== src/Base/Lists.antt =====
-- Lists measured and indexed by native numbers, under the library's names.
use Prim.Native.Nat.{◌-◌, ℕ, zero, suc, ◌+◌, ◌≤◌, ◌<◌}
use mathlib.Core.Path.{◌≡◌, refl, sym, ◌∙◌, ap}
use mathlib.Core.Bool.{Bool, true, false}
use mathlib.Core.List.{List, [], ◌∷◌, ◌++◌, reverse, reverse-cons, append_assoc}
use native.Mathlib.Omega.{arith}

module _ {ℓ} {A : Type ℓ} where
  abbrev pub length : List A → ℕ
  length [] = 0
  length (x ∷ xs) = suc (length xs)

  abbrev pub get_or : List A → ℕ → A → A
  get_or [] i d = d
  get_or (x ∷ xs) zero d = x
  get_or (x ∷ xs) (suc i) d = get_or xs i d

  -- A write out of bounds changes nothing.
  abbrev pub set : List A → ℕ → A → List A
  set [] i v = []
  set (x ∷ xs) zero v = v ∷ xs
  set (x ∷ xs) (suc i) v = x ∷ set xs i v

  abbrev pub take : ℕ → List A → List A
  take zero xs = []
  take (suc n) [] = []
  take (suc n) (x ∷ xs) = x ∷ take n xs

  abbrev pub drop : ℕ → List A → List A
  drop zero xs = xs
  drop (suc n) [] = []
  drop (suc n) (x ∷ xs) = drop n xs

  -- A list without its last element, and the last element as a list of at most one.
  abbrev pub drop_last : List A → List A
  drop_last [] = []
  drop_last (x ∷ []) = []
  drop_last (x ∷ y ∷ xs) = x ∷ drop_last (y ∷ xs)

  abbrev pub last_one : List A → List A
  last_one [] = []
  last_one (x ∷ []) = x ∷ []
  last_one (x ∷ y ∷ xs) = last_one (y ∷ xs)

  abbrev pub is_empty : List A → Bool
  is_empty [] = true
  is_empty (x ∷ xs) = false

module _ {ℓ} {A : Type ℓ} where
  pub last_one-ne-nil : (xs : List A) → 0 < length xs → is_empty (last_one xs) ≡ false
  last_one-ne-nil [] h = absurd (omega arith)
  last_one-ne-nil (x ∷ []) h = refl
  last_one-ne-nil (x ∷ y ∷ xs) h = last_one-ne-nil (y ∷ xs) (omega arith)

  pub length-drop_last : (xs : List A) → length (drop_last xs) ≡ length xs - 1
  length-drop_last [] = omega arith
  length-drop_last (x ∷ []) = omega arith
  length-drop_last (x ∷ y ∷ xs) = omega (arith, length-drop_last (y ∷ xs))

  pub length-take-le : (n : ℕ) (xs : List A) → length (take n xs) ≤ length xs
  length-take-le zero xs = omega arith
  length-take-le (suc n) [] = omega arith
  length-take-le (suc n) (x ∷ xs) = omega (arith, length-take-le n xs)

  pub take_all : (n : ℕ) (xs : List A) → length xs ≤ n → take n xs ≡ xs
  take_all zero [] h = refl
  take_all zero (x ∷ xs) h = absurd (omega arith)
  take_all (suc n) [] h = refl
  take_all (suc n) (x ∷ xs) h = ap (λ t. x ∷ t) (take_all n xs (omega arith))

  pub drop_all : (n : ℕ) (xs : List A) → length xs ≤ n → drop n xs ≡ []
  drop_all zero [] h = refl
  drop_all zero (x ∷ xs) h = absurd (omega arith)
  drop_all (suc n) [] h = refl
  drop_all (suc n) (x ∷ xs) h = drop_all n xs (omega arith)

  -- Past the first `n`, a list is as its own last and the rest before it.
  pub take-drop_last : (n : ℕ) (xs : List A) → n < length xs → take n (drop_last xs) ≡ take n xs
  take-drop_last zero xs h = refl
  take-drop_last (suc n) [] h = refl
  take-drop_last (suc n) (x ∷ []) h = absurd (omega arith)
  take-drop_last (suc n) (x ∷ y ∷ xs) h = ap (λ t. x ∷ t) (take-drop_last n (y ∷ xs) (omega arith))

  reverse-last :
      (x : A) (xs : List A) → reverse (x ∷ xs) ≡ last_one (x ∷ xs) ++ reverse (drop_last (x ∷ xs))
  reverse-last x [] = refl
  reverse-last x (y ∷ xs) =
      reverse-cons x (y ∷ xs)
      ∙ (ap (λ t. t ++ (x ∷ [])) (reverse-last y xs)
          ∙ (append_assoc (last_one (y ∷ xs)) (reverse (drop_last (y ∷ xs))) (x ∷ [])
              ∙ ap (λ t. last_one (y ∷ xs) ++ t) (sym (reverse-cons x (drop_last (y ∷ xs))))))

  pub reverse-drop :
      (n : ℕ) (xs : List A)
      → n < length xs
      → reverse (drop n xs) ≡ last_one xs ++ reverse (drop n (drop_last xs))
  reverse-drop zero [] h = absurd (omega arith)
  reverse-drop zero (x ∷ xs) h = reverse-last x xs
  reverse-drop (suc n) [] h = absurd (omega arith)
  reverse-drop (suc n) (x ∷ []) h = absurd (omega arith)
  reverse-drop (suc n) (x ∷ y ∷ xs) h = reverse-drop n (y ∷ xs) (omega arith)

  pub length-append : (xs ys : List A) → length (xs ++ ys) ≡ length xs + length ys
  length-append [] ys = omega arith
  length-append (x ∷ xs) ys = omega (arith, length-append xs ys)

  pub length-set : (xs : List A) (i : ℕ) (v : A) → length (set xs i v) ≡ length xs
  length-set [] i v = refl
  length-set (x ∷ xs) zero v = refl
  length-set (x ∷ xs) (suc i) v = ap suc (length-set xs i v)

  pub get_or-set : (xs : List A) (i : ℕ) (v d : A) → i < length xs → get_or (set xs i v) i d ≡ v
  get_or-set [] i v d h = absurd (omega arith)
  get_or-set (x ∷ xs) zero v d h = refl
  get_or-set (x ∷ xs) (suc i) v d h = get_or-set xs i v d (omega arith)
