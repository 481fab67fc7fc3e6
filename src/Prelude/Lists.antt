-- ===== src/Prelude/Lists.antt =====
-- Lists measured and cut by native numbers, under the library's names.
use Prim.Native.Nat.{ℕ, zero, suc, ◌+◌, ◌-◌}
use mathlib.Core.Path.{◌≡◌, refl, ap, ◌∙◌}
use mathlib.Core.List.{List, [], ◌∷◌, ◌++◌}
use native.Mathlib.Omega.{arith}

module _ {ℓ} {A : Type ℓ} where
  abbrev pub length : List A → ℕ
  length [] = 0
  length (x ∷ xs) = suc (length xs)

  abbrev pub take : ℕ → List A → List A
  take zero xs = []
  take (suc n) [] = []
  take (suc n) (x ∷ xs) = x ∷ take n xs

  abbrev pub drop : ℕ → List A → List A
  drop zero xs = xs
  drop (suc n) [] = []
  drop (suc n) (x ∷ xs) = drop n xs

  pub length-append : (xs ys : List A) → length (xs ++ ys) ≡ length xs + length ys
  length-append [] ys = omega arith
  length-append (x ∷ xs) ys = omega (arith, length-append xs ys)

  pub take-append-drop : (n : ℕ) (xs : List A) → take n xs ++ drop n xs ≡ xs
  take-append-drop zero xs = refl
  take-append-drop (suc n) [] = refl
  take-append-drop (suc n) (x ∷ xs) = rw (take-append-drop n xs)

  pub length-drop : (n : ℕ) (xs : List A) → length (drop n xs) ≡ length xs - n
  length-drop zero xs = omega arith
  length-drop (suc n) [] = omega arith
  length-drop (suc n) (x ∷ xs) = omega (arith, length-drop n xs)

  pub take-length_append : (xs ys : List A) → take (length xs) (xs ++ ys) ≡ xs
  take-length_append [] ys = refl
  take-length_append (x ∷ xs) ys = rw (take-length_append xs ys)

  pub drop-length_append : (xs ys : List A) → drop (length xs) (xs ++ ys) ≡ ys
  drop-length_append [] ys = refl
  drop-length_append (x ∷ xs) ys = drop-length_append xs ys

  -- Every element meets the predicate.
  abbrev pub All {κ} : (A → Type κ) → List A → Type κ
  All P [] = Unit
  All P (x ∷ xs) = P x × All P xs

  pub All-append {κ} : (P : A → Type κ) (xs ys : List A) → All P xs → All P ys → All P (xs ++ ys)
  All-append P [] ys hx hy = hy
  All-append P (x ∷ xs) ys hx hy = (hx.0, All-append P xs ys hx.1 hy)

  drop_past :
      (n : ℕ) (xs : List A) (y : A) (ys : List A) → n ≡ suc (length xs) → drop n (xs ++ y ∷ ys) ≡ ys
  drop_past zero xs y ys h = absurd (omega arith)
  drop_past (suc zero) [] y ys h = refl
  drop_past (suc (suc n)) [] y ys h = absurd (omega arith)
  drop_past (suc n) (x ∷ xs) y ys h = drop_past n xs y ys (omega arith)

  pub drop-length_add :
      (xs : List A) (y : A) (ys : List A) → drop (length xs + 1) (xs ++ y ∷ ys) ≡ ys
  drop-length_add xs y ys = drop_past (length xs + 1) xs y ys (omega arith)

  pub drop-add : (p n : ℕ) (s : List A) → drop (p + n) s ≡ drop n (drop p s)
  drop-add zero n s = let e : 0 + n ≡ n = omega arith in ap (λ k. drop k s) e
  drop-add (suc p) zero [] = let e : suc p + 0 ≡ suc p = omega arith in ap (λ k. drop k []) e
  drop-add (suc p) (suc n) [] =
      let e : suc p + suc n ≡ suc (p + suc n) = omega arith in ap (λ k. drop k []) e
  drop-add (suc p) n (c ∷ s) =
      let e : suc p + n ≡ suc (p + n) = omega arith in ap (λ k. drop k (c ∷ s)) e ∙ drop-add p n s
