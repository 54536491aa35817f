-- ===== src/Swp/Retree/Sorted.antt =====
-- Sorted lists of slots, as trees of swp/retree.go list them.
use gnatsd.Prelude.{
  ℕ, ◌+◌, ◌≤◌, true, false, List, [], ◌∷◌, ◌==◌, if◌then◌else◌, ◌≡◌, refl, sym, ◌∙◌, ap, ap₂, arith,
  inl, inr, Bool-cases, length, ◌≢◌,
}
use gnatsd.Swp.Retree.{Key, before, put, cut, Least, IsSorted}

-- How often a slot stands in a list.
unfoldable pub count : ℕ → List ℕ → ℕ
count z [] = 0
count z (x ∷ xs) = (if z == x then 1 else 0) + count z xs

pub before_trans :
    (k : Key) (x y z : ℕ) → before k x y ≡ true → before k y z ≡ true → before k x z ≡ true
before_trans k x y z p q = ground arith

before_irrefl : (k : Key) (x : ℕ) → before k x x ≡ false
before_irrefl k x = ground arith

-- What is in the list comes after its least.
pub count-Least :
    (k : Key) (x z : ℕ) (xs : List ℕ) → Least k x xs → 1 ≤ count z xs → before k x z ≡ true
unfolding count
count-Least k x z [] h c = absurd (omega arith)
count-Least k x z (y ∷ ys) (b, h) c = elim (Bool-cases (z == y)) [
  | inl e ↦ ground (arith, b, e)
  | inr e ↦ count-Least k x z ys h (ground (arith, c, e))
]

pub Least-before :
    (k : Key) (x y : ℕ) (ys : List ℕ) → before k x y ≡ true → Least k y ys → Least k x ys
Least-before k x y [] b h = tt
Least-before k x y (z ∷ ys) b (c, h) = (before_trans k x y z b c, Least-before k x y ys b h)

put-Least :
    (k : Key) (x y : ℕ) (ys : List ℕ) → before k x y ≡ true → Least k x ys → Least k x (put k y ys)
unfolding put
put-Least k x y [] b h = (b, tt)
put-Least k x y (z ∷ ys) b (c, h) = elim (Bool-cases (before k y z)) [
  | inl e ↦ rw e (b, (c, h))
  | inr e ↦ elim (Bool-cases (before k z y)) [
    | inl f ↦ rw (e, f) (c, put-Least k x y ys b h)
    | inr f ↦ rw (e, f) (c, h)
  ]
]

pub put-IsSorted : (k : Key) (x : ℕ) (xs : List ℕ) → IsSorted k xs → IsSorted k (put k x xs)
unfolding put
put-IsSorted k x [] h = (tt, tt)
put-IsSorted k x (y ∷ ys) (l, h) = elim (Bool-cases (before k x y)) [
  | inl e ↦ rw e ((e, Least-before k x y ys e l), (l, h))
  | inr e ↦ elim (Bool-cases (before k y x)) [
    | inl f ↦ rw (e, f) (put-Least k y x ys f l, put-IsSorted k x ys h)
    | inr f ↦ rw (e, f) (l, h)
  ]
]

cut-Least : (k : Key) (x y : ℕ) (ys : List ℕ) → Least k x ys → Least k x (cut k y ys)
unfolding cut
cut-Least k x y [] h = tt
cut-Least k x y (z ∷ ys) (c, h) = elim (Bool-cases (before k y z)) [
  | inl e ↦ rw e (c, h)
  | inr e ↦ elim (Bool-cases (before k z y)) [
    | inl f ↦ rw (e, f) (c, cut-Least k x y ys h)
    | inr f ↦ rw (e, f) h
  ]
]

pub cut-IsSorted : (k : Key) (x : ℕ) (xs : List ℕ) → IsSorted k xs → IsSorted k (cut k x xs)
unfolding cut
cut-IsSorted k x [] h = tt
cut-IsSorted k x (y ∷ ys) (l, h) = elim (Bool-cases (before k x y)) [
  | inl e ↦ rw e (l, h)
  | inr e ↦ elim (Bool-cases (before k y x)) [
    | inl f ↦ rw (e, f) (cut-Least k y x ys l, cut-IsSorted k x ys h)
    | inr f ↦ rw (e, f) h
  ]
]

-- No slot of the list has the order of `x`.
abbrev pub IsFresh : Key → ℕ → List ℕ → Type 0
IsFresh k x xs = (y : ℕ) → 1 ≤ count y xs → k x ≢ k y

-- One that is put in where none has its order is in once more.
pub count-put :
    (k : Key) (x z : ℕ) (xs : List ℕ)
    → IsFresh k x xs
    → (count z (put k x xs) ≡ (if z == x then 1 else 0) + count z xs)
      × (length (put k x xs) ≡ length xs + 1)
unfolding put count
count-put k x z [] h = (omega arith, omega arith)
count-put k x z (y ∷ ys) h =
    let (c, l) = count-put k x z ys (λ w n. h w (ground (arith, n))) in
    elim (Bool-cases (before k x y)) [
      | inl e ↦ rw e (omega arith, omega arith)
      | inr e ↦ elim (Bool-cases (before k y x)) [
        | inl f ↦ rw (e, f) (omega (arith, c), omega (arith, l))
        | inr f ↦ absurd (h y (ground arith) (same_key k x y e f))
      ]
    ]
  where
    same_key : (k : Key) (x y : ℕ) → before k x y ≡ false → before k y x ≡ false → k x ≡ k y
    same_key k x y e f = ap₂ (λ a b. (a, b)) (ground (arith, e, f)) (ground (arith, e, f))

-- One that is in a sorted list, and alone of its order, is cut out.
pub count-cut :
    (k : Key) (x z : ℕ) (xs : List ℕ)
    → IsSorted k xs
    → 1 ≤ count x xs
    → (count z (cut k x xs) + (if z == x then 1 else 0) ≡ count z xs)
      × (length (cut k x xs) + 1 ≡ length xs)
unfolding cut count
count-cut k x z [] h c = absurd (omega arith)
count-cut k x z (y ∷ ys) (l, h) c = elim (Bool-cases (x == y)) [
  | inl e ↦
      let p : x ≡ y = ground (arith, e) in
      let f : before k x y ≡ false = ap (before k x) (sym p) ∙ before_irrefl k x in
      let g : before k y x ≡ false = ap (before k y) p ∙ before_irrefl k y in
      rw (f, g) (ground (arith, p), omega arith)
  | inr e ↦
      let below : before k y x ≡ true = count-Least k y x ys l (ground (arith, c, e)) in
      let above : before k x y ≡ false = ground (arith, below) in
      let (d, m) = count-cut k x z ys h (ground (arith, c, e)) in
      rw (above, below) (omega (arith, d), omega (arith, m))
]

-- Sorted lists with the same slots are equal.
pub same-IsSorted :
    (k : Key) (xs ys : List ℕ)
    → IsSorted k xs
    → IsSorted k ys
    → ((z : ℕ) → count z xs ≡ count z ys)
    → xs ≡ ys
unfolding count
same-IsSorted k [] [] h g c = refl
same-IsSorted k [] (y ∷ ys) h g c = absurd (ground (arith, c y))
same-IsSorted k (x ∷ xs) [] h g c = absurd (ground (arith, c x))
same-IsSorted k (x ∷ xs) (y ∷ ys) (l, h) (m, g) c = elim (Bool-cases (x == y)) [
  | inl e ↦
      let p : x ≡ y = ground arith in
      ap₂ ◌∷◌ p (same-IsSorted k xs ys h g (λ z. ground (arith, c z, p)))
  | inr e ↦
      let up : before k y x ≡ true = count-Least k y x ys m (ground (arith, c x, e)) in
      let down : before k x y ≡ true = count-Least k x y xs l (ground (arith, c y, e)) in
      absurd (ground (arith, up, down))
]
