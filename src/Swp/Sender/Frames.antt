-- ===== src/Swp/Sender/Frames.antt =====
-- The frames of the window of swp/sender.go, by their slots in order.
use gnatsd.Prelude.{
  ℕ, zero, suc, ◌+◌, ◌-◌, ◌%◌, ◌≤◌, ◌<◌, true, List, [], ◌∷◌, ◌++◌, ◌==◌, if◌then◌else◌, ltb, ◌||◌,
  ◌&&◌, ◌≡◌, refl, ◌∙◌, ap, ap₂, arith, inl, inr, Bool-cases, length,
}
use gnatsd.Prelude.Mods.{mod-inj}
use gnatsd.Swp.Retree.{Key, before, Least, IsSorted}
use gnatsd.Swp.Retree.Sorted.{count}

-- The slots of the `n` frames from `base` on.
unfoldable pub slots_of : ℕ → ℕ → ℕ → List ℕ
slots_of w base zero = []
slots_of w base (suc n) = base % w ∷ slots_of w (base + 1) n

pub length-slots_of : (w base n : ℕ) → length (slots_of w base n) ≡ n
unfolding slots_of
length-slots_of w base zero = refl
length-slots_of w base (suc n) = ap suc (length-slots_of w (base + 1) n)

-- A slot of these is the slot of one of its frames.
pub count-slots_of :
    (w base n y : ℕ)
    → 1 ≤ count y (slots_of w base n)
    → (i : ℕ) × (i % w ≡ y) × (base ≤ i) × (i < base + n)
unfolding slots_of count
count-slots_of w base zero y h = absurd (omega arith)
count-slots_of w base (suc n) y h = elim (Bool-cases (y == base % w)) [
  | inl e ↦ (base, ground arith, omega arith, omega arith)
  | inr e ↦
      let (i, m, low, high) = count-slots_of w (base + 1) n y (ground (arith, h, e)) in
      (i, m, omega arith, omega arith)
]

-- No slot stands twice among the slots of one window.
pub count-slots_of_one : (w base n y : ℕ) → n ≤ w → count y (slots_of w base n) ≤ 1
unfolding slots_of count
count-slots_of_one w base zero y h = omega arith
count-slots_of_one w base (suc n) y h = elim (Bool-cases (y == base % w)) [
  | inl e ↦ elim (Bool-cases (ltb 0 (count y (slots_of w (base + 1) n)))) [
    | inl c ↦
        let (i, m, low, high) = count-slots_of w (base + 1) n y (ground (arith, c)) in
        let p : base ≡ i = mod-inj w base i (ground (arith, e, m)) (omega arith) (omega arith) in
        absurd (omega arith)
    | inr c ↦ ground (arith, e, c)
  ]
  | inr e ↦ ground (arith, e, count-slots_of_one w (base + 1) n y (omega arith))
]

-- The slot of each of the frames is there.
pub slots_of-count :
    (w base n f : ℕ) → base ≤ f → f < base + n → 1 ≤ count (f % w) (slots_of w base n)
unfolding slots_of count
slots_of-count w base zero f low high = absurd (omega arith)
slots_of-count w base (suc n) f low high = elim (Bool-cases (f == base)) [
  | inl e ↦ let p : f % w ≡ base % w = ap (λ k. k % w) (ground arith) in ground (arith, p)
  | inr e ↦ ground (arith, slots_of-count w (base + 1) n f (ground (arith, e, low)) (omega arith))
]

-- One more frame.
pub count-slots_of_next :
    (w base n y : ℕ)
    → count y (slots_of w base (suc n))
      ≡ (if y == (base + n) % w then 1 else 0) + count y (slots_of w base n)
unfolding slots_of count
count-slots_of_next w base zero y = ap (λ b. (if y == b % w then 1 else 0) + 0) (omega arith)
count-slots_of_next w base (suc n) y =
    let p : base + 1 + n ≡ base + suc n = omega arith in
    let rest =
      count-slots_of_next w (base + 1) n y
      ∙ ap (λ b. (if y == b % w then 1 else 0) + count y (slots_of w (base + 1) n)) p in
    omega (arith, rest)

-- What is left behind an initial piece of such slots is such slots.
pub slots_of-split :
    (w base n : ℕ) (xs ys : List ℕ)
    → xs ++ ys ≡ slots_of w base n
    → (m : ℕ) × (m ≤ n) × (ys ≡ slots_of w (base + (n - m)) m)
unfolding slots_of
slots_of-split w base n [] ys e = (n, omega arith, e ∙ ap (λ b. slots_of w b n) (omega arith))
slots_of-split w base zero (x ∷ xs) ys e = absurd (ground (arith, e))
slots_of-split w base (suc n) (x ∷ xs) ys e =
    let (m, le, p) = slots_of-split w (base + 1) n xs ys (ground (arith, e)) in
    (m, omega arith, p ∙ ap (λ b. slots_of w b m) (omega arith))

Least-slots_of :
    (k : Key) (w x base n : ℕ)
    → ((i : ℕ) → base ≤ i → i < base + n → before k x (i % w) ≡ true)
    → Least k x (slots_of w base n)
unfolding slots_of
Least-slots_of k w x base zero h = tt
Least-slots_of k w x base (suc n) h = (
  h base (omega arith) (omega arith),
  Least-slots_of k w x (base + 1) n (λ i low high. h i (omega arith) (omega arith)),
)

-- By frame numbers, they are sorted.
pub slots_of-IsSorted :
    (k : Key) (w base n : ℕ)
    → ((i : ℕ) → base ≤ i → i < base + n → k (i % w) ≡ (0, i))
    → IsSorted k (slots_of w base n)
unfolding slots_of
slots_of-IsSorted k w base zero h = tt
slots_of-IsSorted k w base (suc n) h = (
  Least-slots_of k w (base % w) (base + 1) n (λ i low high.
      later base i (h base (omega arith) (omega arith)) (h i (omega arith) (omega arith)) low),
  slots_of-IsSorted k w (base + 1) n (λ i low high. h i (omega arith) (omega arith)),
)
  where
    later :
        (a b : ℕ)
        → k (a % w) ≡ (0, a)
        → k (b % w) ≡ (0, b)
        → a + 1 ≤ b
        → before k (a % w) (b % w) ≡ true
    later a b e f l =
        ap₂ (λ x y. ltb x.0 y.0 || (x.0 == y.0 && ltb x.1 y.1)) e f ∙ ground (arith, l)
