-- ===== src/Health/RingBuf/Contents.antt =====
-- What a ring holds: the readable elements in order, round the end of the array.
use native.Mathlib.Nat.{mod-lt, mod-add-mod}
use gnatsd.Prelude.{
  ℕ, zero, suc, ◌+◌, ◌-◌, ◌%◌, ◌≤◌, ◌<◌, List, [], ◌∷◌, ◌++◌, Option, none, ◌≡◌, refl, ap, ap₂,
  arith, length, get_or, set, drop, get_or-set_self, get_or-set_ne, ◌∙◌,
}
use gnatsd.Prelude.Mods.{mod-ne}
use gnatsd.Health.RingBuf.{RingBuf}

pub record IsValid {A : Type 0} (b : RingBuf A) : Type 0 where
  pub nonempty : 0 < b.n
  pub storage : length b.a ≡ b.n
  pub beg_in : b.beg < b.n
  pub readable_in : b.readable ≤ b.n

module _ {A : Type 0} (a : List (Option A)) (n : ℕ) where
  -- The `k` elements from position `i` on, positions counted past the end.
  abbrev pub view : ℕ → ℕ → List (Option A)
  view i zero = []
  view i (suc k) = get_or a (i % n) none ∷ view (suc i) k

  pub length-view : (i k : ℕ) → length (view i k) ≡ k
  length-view i zero = refl
  length-view i (suc k) = ap suc (length-view (suc i) k)

  pub drop-view : (i m k : ℕ) → m ≤ k → drop m (view i k) ≡ view (i + m) (k - m)
  drop-view i zero k h = ap₂ view (omega arith) (omega arith)
  drop-view i (suc m) zero h = absurd (omega arith)
  drop-view i (suc m) (suc k) h =
      drop-view (suc i) m k (omega arith) ∙ ap₂ view (omega arith) (omega arith)

  pub view-mod : (i j k : ℕ) → view (i % n + j) k ≡ view (i + j) k
  view-mod i j zero = refl
  view-mod i j (suc k) =
      ap₂ ◌∷◌ (ap (λ x. get_or a x none) (mod-add-mod i n j))
        (ap (λ x. view x k) (omega arith) ∙ view-mod i (suc j) k ∙ ap (λ x. view x k) (omega arith))

  pub get_or-view : (i k j : ℕ) → j < k → get_or (view i k) j none ≡ get_or a ((i + j) % n) none
  get_or-view i zero j h = absurd (omega arith)
  get_or-view i (suc k) zero h = ap (λ x. get_or a (x % n) none) (omega arith)
  get_or-view i (suc k) (suc j) h =
      get_or-view (suc i) k j (omega arith) ∙ ap (λ x. get_or a (x % n) none) (omega arith)

view-set_at :
    {A : Type 0} (a : List (Option A)) (n i k j : ℕ) (x : Option A)
    → length a ≡ n
    → k < n
    → j ≡ (i + k) % n
    → view (set a j x) n i (suc k) ≡ view a n i k ++ x ∷ []
view-set_at a n i zero j x len h e =
    ap (λ y. y ∷ [])
      (rw (e, ap (λ y. y % n) (plus_zero i))
        (get_or-set_self a (i % n) x none (omega (arith, mod-lt i {m = n} (omega arith)))))
  where
    plus_zero : (i : ℕ) → i + 0 ≡ i
    plus_zero i = omega arith
view-set_at a n i (suc k) j x len h e =
    ap₂ ◌∷◌ (get_or-set_ne a x none (rw e (mod-ne n i (suc k) (omega arith) h)))
      (view-set_at a n (suc i) k j x len (omega arith) (e ∙ ap (λ y. y % n) (omega arith)))

-- Writing just past a view extends it.
pub view-set :
    {A : Type 0} (a : List (Option A)) (n i k : ℕ) (x : Option A)
    → length a ≡ n
    → k < n
    → view (set a ((i + k) % n) x) n i (suc k) ≡ view a n i k ++ x ∷ []
view-set a n i k x len h = view-set_at a n i k ((i + k) % n) x len h refl

abbrev pub contents : {A : Type 0} → RingBuf A → List (Option A)
contents b = view b.a b.n b.beg b.readable
