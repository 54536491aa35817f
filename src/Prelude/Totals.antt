-- ===== src/Prelude/Totals.antt =====
-- Sums over lists, and a slice's element taken out by moving the last one to its place.
use Prim.Native.Nat.{ℕ, zero, suc, ◌+◌, ◌-◌, ◌<◌}
use mathlib.Core.Path.{◌≡◌}
use mathlib.Core.List.{List, [], ◌∷◌}
use native.Mathlib.Omega.{arith}
use native.Mathlib.Decide.{ℕ_discrete}
use gnatsd.Prelude.Lists.{length, get_or, set, take, get_or-set_self, get_or-set_ne, length-set}

module _ {ℓ} {A : Type ℓ} where
  abbrev pub total : (A → ℕ) → List A → ℕ
  total f [] = 0
  total f (x ∷ xs) = f x + total f xs

  -- `last := len(xs) - 1; xs[i] = xs[last]; xs = xs[:last]`
  unfoldable pub swap_remove : List A → ℕ → A → List A
  swap_remove xs i d = take (length xs - 1) (set xs i (get_or xs (length xs - 1) d))

module _ {ℓ} {A : Type ℓ} (f : A → ℕ) where
  pub total-set :
      (xs : List A) (i : ℕ) (v d : A)
      → i < length xs
      → total f (set xs i v) + f (get_or xs i d) ≡ total f xs + f v
  total-set [] i v d h = absurd (omega arith)
  total-set (x ∷ xs) zero v d h = omega arith
  total-set (x ∷ xs) (suc i) v d h = omega (arith, total-set xs i v d (omega arith))

  total-take_last :
      (n : ℕ) (xs : List A) (d : A)
      → length xs ≡ suc n
      → total f (take n xs) + f (get_or xs n d) ≡ total f xs
  total-take_last n [] d h = absurd (omega arith)
  total-take_last zero (x ∷ []) d h = omega arith
  total-take_last zero (x ∷ y ∷ xs) d h = absurd (omega arith)
  total-take_last (suc n) (x ∷ xs) d h = omega (arith, total-take_last n xs d (omega arith))

  pub total-swap_remove :
      (xs : List A) (i : ℕ) (d : A)
      → i < length xs
      → total f (swap_remove xs i d) + f (get_or xs i d) ≡ total f xs
  unfolding swap_remove
  total-swap_remove xs i d h = omega (
    arith,
    total-set xs i last d h,
    total-take_last (length xs - 1) (set xs i last) d (omega (arith, length-set xs i last)),
    same,
  )
    where
      last : A
      last = get_or xs (length xs - 1) d

      same_value : get_or (set xs i last) (length xs - 1) d ≡ last
      same_value = elim (ℕ_discrete i (length xs - 1)) [
        | yes e ↦ rw (← e) (get_or-set_self xs i _ d h)
        | no ne ↦ get_or-set_ne xs last d ne
      ]

      same : f (get_or (set xs i last) (length xs - 1) d) ≡ f last
      same = rw same_value
