-- ===== src/Prelude/Slices.antt =====
-- Prefixes, suffixes and single elements of a list that is extended at its end.
use Prim.Native.Nat.{ℕ, zero, suc, ◌+◌, ◌≤◌, ◌<◌}
use mathlib.Core.Path.{◌≡◌, refl, ap}
use mathlib.Core.List.{List, [], ◌∷◌, ◌++◌}
use mathlib.Core.Option.{some}
use native.Mathlib.Omega.{arith}
use native.Mathlib.Numerals.{add-one}
use native.Mathlib.Nat.{zero-add, add-zero, suc-add}
use client_rust.Prelude.Lists.{length, get_elem?, take, drop}

module _ {ℓ} {A : Type ℓ} where
  pub take_all : (xs : List A) → take (length xs) xs ≡ xs
  take_all [] = refl
  take_all (x ∷ xs) = ap (λ r. x ∷ r) (take_all xs)

  pub drop_all : (xs : List A) → drop (length xs) xs ≡ []
  drop_all [] = refl
  drop_all (x ∷ xs) = drop_all xs

  pub drop-append : (n : ℕ) (xs ys : List A) → n ≤ length xs → drop n (xs ++ ys) ≡ drop n xs ++ ys
  drop-append zero xs ys h = refl
  drop-append (suc n) [] ys h = absurd (omega arith)
  drop-append (suc n) (x ∷ xs) ys h = drop-append n xs ys (omega arith)

  pub take-append : (n : ℕ) (xs ys : List A) → n ≤ length xs → take n (xs ++ ys) ≡ take n xs
  take-append zero xs ys h = refl
  take-append (suc n) [] ys h = absurd (omega arith)
  take-append (suc n) (x ∷ xs) ys h = ap (λ r. x ∷ r) (take-append n xs ys (omega arith))

  pub get_elem?-append :
      (n : ℕ) (xs ys : List A) → n < length xs → get_elem? (xs ++ ys) n ≡ get_elem? xs n
  get_elem?-append n [] ys h = absurd (omega arith)
  get_elem?-append zero (x ∷ xs) ys h = refl
  get_elem?-append (suc n) (x ∷ xs) ys h = get_elem?-append n xs ys (omega arith)

  pub get_elem?_total : (n : ℕ) (xs : List A) → n < length xs → (x : A) × (get_elem? xs n ≡ some x)
  get_elem?_total n [] h = absurd (omega arith)
  get_elem?_total zero (x ∷ xs) h = (x, refl)
  get_elem?_total (suc n) (x ∷ xs) h = get_elem?_total n xs (omega arith)

  -- The element at the head of a suffix, and the suffix behind it.
  pub get_elem?-drop :
      (n : ℕ) (xs : List A) {x : A} {r : List A} → drop n xs ≡ x ∷ r → get_elem? xs n ≡ some x
  get_elem?-drop zero [] h = cc
  get_elem?-drop zero (x ∷ xs) h = ground arith
  get_elem?-drop (suc n) [] h = cc
  get_elem?-drop (suc n) (x ∷ xs) h = get_elem?-drop n xs h

  drop-suc : (n : ℕ) (xs : List A) {x : A} {r : List A} → drop n xs ≡ x ∷ r → drop (suc n) xs ≡ r
  drop-suc zero [] h = cc
  drop-suc zero (x ∷ xs) h = ground arith
  drop-suc (suc n) [] h = cc
  drop-suc (suc n) (x ∷ xs) h = drop-suc n xs h

  pub drop-next :
      (n : ℕ) (xs : List A) {x : A} {r : List A} → drop n xs ≡ x ∷ r → drop (n + 1) xs ≡ r
  drop-next n xs h = rw add-one (drop-suc n xs h)

  take_prefix : (s r : List A) → take (length s) (s ++ r) ≡ s
  take_prefix [] r = refl
  take_prefix (x ∷ s) r = ap (λ t. x ∷ t) (take_prefix s r)

  -- A suffix that begins with `s`: the slice that holds `s`, and the suffix behind it.
  pub drop-take-prefix :
      (n : ℕ) (xs s r : List A) → drop n xs ≡ s ++ r → drop n (take (n + length s) xs) ≡ s
  drop-take-prefix zero xs s r h = rw (zero-add, h) (take_prefix s r)
  drop-take-prefix (suc n) [] [] r h = rw suc-add
  drop-take-prefix (suc n) [] (y ∷ s) r h = cc
  drop-take-prefix (suc n) (x ∷ xs) s r h = rw suc-add (drop-take-prefix n xs s r h)

  pub drop-prefix : (n : ℕ) (xs s r : List A) → drop n xs ≡ s ++ r → drop (n + length s) xs ≡ r
  drop-prefix n xs [] r h = rw (add-zero n) h
  drop-prefix n xs (x ∷ s) r h =
      let next : n + suc (length s) ≡ n + 1 + length s = omega arith in
      rw next (drop-prefix (n + 1) xs s r (drop-next n xs h))

  pub length-take_le : (n : ℕ) (xs : List A) → n ≤ length xs → length (take n xs) ≡ n
  length-take_le zero xs h = refl
  length-take_le (suc n) [] h = absurd (omega arith)
  length-take_le (suc n) (x ∷ xs) h = ap suc (length-take_le n xs (omega arith))
