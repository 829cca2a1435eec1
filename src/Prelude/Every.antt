-- ===== src/Prelude/Every.antt =====
-- A condition on all elements of a list.
use Prim.Native.Nat.{ℕ, zero, suc, ◌<◌}
use mathlib.Core.Path.{◌≡◌, refl}
use mathlib.Core.List.{List, [], ◌∷◌, ◌++◌}
use native.Mathlib.Omega.{arith}
use client_rust.Prelude.Lists.{length, drop}

module _ {ℓ κ} {A : Type ℓ} (P : A → Type κ) where
  abbrev pub All : List A → Type κ
  All [] = Unit
  All (x ∷ xs) = P x × All xs

  pub All-append : (xs ys : List A) → All xs → All ys → All (xs ++ ys)
  All-append [] ys v w = w
  All-append (x ∷ xs) ys (p, v) w = (p, All-append xs ys v w)

  pub All-prefix : (xs ys : List A) → All (xs ++ ys) → All xs
  All-prefix [] ys v = tt
  All-prefix (x ∷ xs) ys (p, v) = (p, All-prefix xs ys v)

  -- The element at a position, and what follows it.
  pub All-drop :
      (n : ℕ) (xs : List A)
      → All xs
      → n < length xs
      → (x : A) × (r : List A) × (drop n xs ≡ x ∷ r) × P x
  All-drop n [] v h = absurd (omega arith)
  All-drop zero (x ∷ xs) (p, v) h = (x, xs, refl, p)
  All-drop (suc n) (x ∷ xs) (p, v) h = All-drop n xs v (omega arith)
