-- ===== src/Prelude/Drop.antt =====
-- Positions in a list, by what is left there.
use Prim.Native.Nat.{ℕ, zero, suc, ◌+◌}
use mathlib.Core.Path.{◌≡◌, refl, ap, sym, ◌∙◌}
use mathlib.Core.List.{List, [], ◌∷◌, ◌++◌}
use mathlib.Core.Option.{none, some}
use native.Mathlib.Omega.{arith}
use gnatsd.Prelude.Lists.{length, get_elem?, take, drop}

module _ {ℓ} {A : Type ℓ} where
  pub get_elem?-drop :
      (i : ℕ) (xs : List A) {b : A} {rest : List A} → drop i xs ≡ b ∷ rest → get_elem? xs i ≡ some b
  get_elem?-drop zero [] h = cc
  get_elem?-drop zero (x ∷ xs) h = cc
  get_elem?-drop (suc i) [] h = cc
  get_elem?-drop (suc i) (x ∷ xs) h = get_elem?-drop i xs h

  pub get_elem?-drop_end : (i : ℕ) (xs : List A) → drop i xs ≡ [] → get_elem? xs i ≡ none
  get_elem?-drop_end zero [] h = refl
  get_elem?-drop_end zero (x ∷ xs) h = cc
  get_elem?-drop_end (suc i) [] h = refl
  get_elem?-drop_end (suc i) (x ∷ xs) h = get_elem?-drop_end i xs h

  drop-suc :
      (i : ℕ) (xs : List A) {b : A} {rest : List A} → drop i xs ≡ b ∷ rest → drop (suc i) xs ≡ rest
  drop-suc zero [] h = cc
  drop-suc zero (x ∷ xs) h = cc
  drop-suc (suc i) [] h = cc
  drop-suc (suc i) (x ∷ xs) h = drop-suc i xs h

  pub drop-next :
      (i : ℕ) (xs : List A) {b : A} {rest : List A} → drop i xs ≡ b ∷ rest → drop (i + 1) xs ≡ rest
  drop-next i xs h = let e : i + 1 ≡ suc i = omega arith in ap (λ k. drop k xs) e ∙ drop-suc i xs h

  pub drop-past :
      (ys : List A) (i : ℕ) (xs rest : List A)
      → drop i xs ≡ ys ++ rest
      → drop (i + length ys) xs ≡ rest
  drop-past [] i xs rest h = let e : i + 0 ≡ i = omega arith in ap (λ k. drop k xs) e ∙ h
  drop-past (y ∷ ys) i xs rest h =
      let e : i + suc (length ys) ≡ i + 1 + length ys = omega arith in
      ap (λ k. drop k xs) e ∙ drop-past ys (i + 1) xs rest (drop-next i xs h)

  pub take-append : (ys rest : List A) → take (length ys) (ys ++ rest) ≡ ys
  take-append [] rest = refl
  take-append (y ∷ ys) rest = ap (λ t. y ∷ t) (take-append ys rest)

  drop-nil : (k : ℕ) → drop {A = A} k [] ≡ []
  drop-nil zero = refl
  drop-nil (suc k) = refl

  pub drop-add : (i k : ℕ) (xs : List A) → drop (i + k) xs ≡ drop k (drop i xs)
  drop-add zero k xs = let e : 0 + k ≡ k = omega arith in ap (λ n. drop n xs) e
  drop-add (suc i) k [] =
      let e : suc i + k ≡ suc (i + k) = omega arith in
      ap (λ n. drop {A = A} n []) e ∙ sym (drop-nil k)
  drop-add (suc i) k (x ∷ xs) =
      let e : suc i + k ≡ suc (i + k) = omega arith in ap (λ n. drop n (x ∷ xs)) e ∙ drop-add i k xs

  -- What is left at the last of the elements before `rest`.
  pub drop-last :
      (x : A) (ys rest : List A) → (b : A) × (drop (length ys) (x ∷ (ys ++ rest)) ≡ b ∷ rest)
  drop-last x [] rest = (x, refl)
  drop-last x (y ∷ ys) rest = drop-last y ys rest

  pub drop-length :
      (i : ℕ) (xs ys : List A) (y : A) → drop i xs ≡ y ∷ ys → i + length (y ∷ ys) ≡ length xs
  drop-length zero xs ys y h = let e : length xs ≡ length (y ∷ ys) = ap length h in omega (arith, e)
  drop-length (suc i) [] ys y h = cc
  drop-length (suc i) (x ∷ xs) ys y h = omega (arith, drop-length i xs ys y h)
