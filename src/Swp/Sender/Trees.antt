-- ===== src/Swp/Sender/Trees.antt =====
-- What the loops of swp/retree.go and swp/sender.go that delete from trees leave.
use gnatsd.Prelude.{
  ℕ, ◌+◌, ◌≤◌, Bool, ltb, ◌||◌, ◌&&◌, List, [], ◌∷◌, ◌++◌, if◌then◌else◌, ◌==◌, drop, ◌≡◌, sym, ◌∙◌,
  ap, ap₂, subst, arith, inl, inr, Bool-cases, length,
}
use gnatsd.Swp.Retree.{Key, Rbtree, IsRbtree, IsSorted, Least, cut, delete_through}
use gnatsd.Swp.Retree.Sorted.{count, count-cut, cut-IsSorted}
use gnatsd.Swp.Sender.{delete_all}

pub count-append : (z : ℕ) (xs ys : List ℕ) → count z (xs ++ ys) ≡ count z xs + count z ys
unfolding count
count-append z [] ys = omega arith
count-append z (x ∷ xs) ys = omega (arith, count-append z xs ys)

-- Sortedness reads the key only at what is in the list.
pub IsSorted-same :
    (k j : Key) (xs : List ℕ)
    → ((y : ℕ) → 1 ≤ count y xs → k y ≡ j y)
    → IsSorted k xs
    → IsSorted j xs
unfolding count
IsSorted-same k j [] e h = tt
IsSorted-same k j (x ∷ xs) e (l, h) = (
  Least-same xs (λ y c. e y (ground (arith, c))) (e x (ground arith)) l,
  IsSorted-same k j xs (λ y c. e y (ground (arith, c))) h,
)
  where
    Least-same :
        (ys : List ℕ)
        → ((y : ℕ) → 1 ≤ count y ys → k y ≡ j y)
        → k x ≡ j x
        → Least k x ys
        → Least j x ys
    Least-same [] e p h = tt
    Least-same (y ∷ ys) e p (b, h) = (
      ap₂ (λ a b. ltb a.0 b.0 || (a.0 == b.0 && ltb a.1 b.1)) (sym p) (sym (e y (ground arith)))
          ∙ b,
      Least-same ys (λ z c. e z (ground (arith, c))) p h,
    )

-- The end of a sorted list is sorted.
pub IsSorted-append : (k : Key) (xs ys : List ℕ) → IsSorted k (xs ++ ys) → IsSorted k ys
IsSorted-append k [] ys h = h
IsSorted-append k (x ∷ xs) ys (l, h) = IsSorted-append k xs ys h

module _ (t : Rbtree) (laws : IsRbtree t) where
  -- The loops over a whole tree split what it lists.
  pub delete_through_lem :
      (goes : ℕ → Bool) (xs : List ℕ) (a : t.Tree)
      → t.items a ≡ xs
      → (delete_through t goes xs a).0 ++ t.items (delete_through t goes xs a).1 ≡ xs
  unfolding delete_through
  delete_through_lem goes [] a e = e
  delete_through_lem goes (x ∷ xs) a e = elim (Bool-cases (goes x)) [
    | inl g ↦ rw g (
        ap (λ l. x ∷ l)
          (delete_through_lem goes xs (t.delete_min a) (laws.items-delete_min a ∙ ap (drop 1) e)))
    | inr g ↦ rw g e
  ]

  -- What is deleted slot by slot is gone, and the rest is left.
  pub delete_all_lem :
      (k : Key) (xs : List ℕ) (a : t.Tree)
      → IsSorted k (t.items a)
      → ((z : ℕ) → count z xs ≤ count z (t.items a))
      → IsSorted k (t.items (delete_all t k xs a))
        × ((z : ℕ) → count z (t.items (delete_all t k xs a)) + count z xs ≡ count z (t.items a))
        × (length (t.items (delete_all t k xs a)) + length xs ≡ length (t.items a))
  unfolding delete_all count
  delete_all_lem k [] a s c = (s, λ z. omega arith, omega arith)
  delete_all_lem k (x ∷ xs) a s c =
      let e = laws.items-delete k x a s in
      let there : 1 ≤ count x (t.items a) = ground (arith, c x) in
      let gone : (z : ℕ)
          → count z (cut k x (t.items a)) + (if z == x then 1 else 0) ≡ count z (t.items a) =
        λ z. (count-cut k x z (t.items a) s there).0 in
      let shorter = (count-cut k x x (t.items a) s there).1 in
      let (s', c', l') =
        delete_all_lem k xs (t.delete k x a)
          (subst (IsSorted k) (sym e) (cut-IsSorted k x (t.items a) s))
          (λ z. omega (arith, ap (count z) e, gone z, c z)) in
      (
        s',
        λ z. omega (arith, ap (count z) e, gone z, c' z),
        omega (arith, ap length e, shorter, l'),
      )
