-- ===== src/Health/RingBuf/Refine.antt =====
-- A valid ring behaves as a bounded queue of what it holds.
use gnatsd.Prelude.{
  ℕ, zero, suc, ◌+◌, ◌-◌, ◌%◌, ◌≤◌, ◌<◌, List, [], ◌∷◌, ◌++◌, Option, none, some, ◌≡◌, refl, ap,
  arith, length, get_or, drop, length-set, length-replicate, if◌then◌else◌, ltb, Bool-cases, inl,
  inr, append-nil, append_assoc, ◌∙◌, sym,
}
use gnatsd.Prelude.Int.{ℤ, pos, negsuc}
use gnatsd.Health.RingBuf.{
  RingBuf, new_ring_buf, clone, copied, reset, advance, first, last, kth, append,
}
use gnatsd.Health.RingBuf.Contents.{
  IsValid, view, length-view, drop-view, view-mod, get_or-view, view-set, contents,
}
use native.Mathlib.Nat.{mod-lt, mod-eq_of_lt}

module _ {A : Type 0} where
  pub new_ring_buf-IsValid :
      (n : ℕ) → 0 < n → IsValid (new_ring_buf {A = A} n) × (contents (new_ring_buf {A = A} n) ≡ [])
  unfolding new_ring_buf
  new_ring_buf-IsValid n h = (
    record {
      nonempty = h;
      storage = length-replicate n none;
      beg_in = h;
      readable_in = omega arith;
    },
    refl,
  )

  -- `Append` fails exactly on a full ring, which it leaves alone, and else adds its value at the end
  -- of what the ring holds; the ring stays valid.
  pub append_refines :
      (x : Option A) (b : RingBuf A)
      → IsValid b
      → IsValid (append x b).0
        × ((append x b).1 ≡ ltb (length (contents b)) b.n)
        × (contents (append x b).0
            ≡ (if ltb (length (contents b)) b.n then contents b ++ x ∷ [] else contents b))
  unfolding append
  append_refines x b v = ground (
    arith,
    length-view b.a b.n b.beg b.readable,
    length-set b.a ((b.beg + b.readable) % b.n) x,
    view-set b.a b.n b.beg b.readable x v.storage,
    suc_eq b.readable,
  )
    where
      suc_eq : (n : ℕ) → n + 1 ≡ suc n
      suc_eq n = omega arith

  abbrev pub drop_int : ℤ → List (Option A) → List (Option A)
  drop_int (negsuc _) xs = xs
  drop_int (pos k) xs = drop k xs

  drop_all : (k : ℕ) (xs : List (Option A)) → length xs ≤ k → drop k xs ≡ []
  drop_all zero [] h = refl
  drop_all zero (x ∷ xs) h = absurd (omega arith)
  drop_all (suc k) [] h = refl
  drop_all (suc k) (x ∷ xs) h = drop_all k xs (omega arith)

  advanced : (m : ℕ) (b : RingBuf A) → RingBuf A
  advanced m b = record b { readable = b.readable - m; beg = (b.beg + m) % b.n }

  advanced-contents :
      (m : ℕ) (b : RingBuf A) → m ≤ b.readable → contents (advanced m b) ≡ drop m (contents b)
  unfolding advanced
  advanced-contents m b h =
      ap (λ i. view b.a b.n i (b.readable - m)) (plus_zero ((b.beg + m) % b.n))
      ∙ view-mod b.a b.n (b.beg + m) 0 (b.readable - m)
      ∙ ap (λ i. view b.a b.n i (b.readable - m)) (sym (plus_zero (b.beg + m)))
      ∙ sym (drop-view b.a b.n b.beg m b.readable h)
    where
      plus_zero : (i : ℕ) → i ≡ i + 0
      plus_zero i = omega arith

  advanced-IsValid : (m : ℕ) (b : RingBuf A) → IsValid b → m ≤ b.readable → IsValid (advanced m b)
  unfolding advanced
  advanced-IsValid m b v h = record {
    nonempty = v.nonempty;
    storage = v.storage;
    beg_in = mod-lt (b.beg + m) v.nonempty;
    readable_in = omega arith;
  }

  -- `Advance` by any number, on a valid ring, does not divide by zero, keeps the ring valid, and
  -- drops as many elements from the front as it is told and as there are; a negative number
  -- drops none.
  pub advance_refines :
      (k : ℤ) (b : RingBuf A)
      → IsValid b
      → (b' : RingBuf A) × (advance k b ≡ some b')
        × IsValid b'
        × (contents b' ≡ drop_int k (contents b))
  unfolding advance advanced
  advance_refines (negsuc k) b v = (b, refl, v, refl)
  advance_refines (pos zero) b v = (b, refl, v, refl)
  advance_refines (pos (suc k)) b v = elim (Bool-cases (ltb b.readable (suc k))) [
    | inl e ↦ (
      advanced b.readable b,
      ground arith,
      advanced-IsValid b.readable b v (omega arith),
      advanced-contents b.readable b (omega arith)
          ∙ drop_all b.readable (contents b) (omega (arith, length-view b.a b.n b.beg b.readable))
          ∙ sym (
              drop_all (suc k) (contents b) (ground (arith, length-view b.a b.n b.beg b.readable))),
    )
    | inr e ↦ (
      advanced (suc k) b,
      ground arith,
      advanced-IsValid (suc k) b v (ground arith),
      advanced-contents (suc k) b (ground arith),
    )
  ]

  -- `Kth` gives the place of the k-th element of what the ring holds, and -1 past the end.
  pub kth_refines :
      (k : ℕ) (b : RingBuf A)
      → IsValid b
      → (b.readable ≤ k → kth (pos k) b ≡ none)
        × (k < b.readable
            → (i : ℕ) × (kth (pos k) b ≡ some i)
              × (i < b.n)
              × (get_or b.a i none ≡ get_or (contents b) k none))
  unfolding kth
  kth_refines k b v = (
    λ h. ground arith,
    λ h. (
      (b.beg + k) % b.n,
      ground arith,
      mod-lt (b.beg + k) v.nonempty,
      sym (get_or-view b.a b.n b.beg b.readable k h),
    ),
  )

  -- `First` and `Last` are the places of the first and of the last element that `Kth` knows.
  pub first-last-kth :
      (b : RingBuf A)
      → IsValid b
      → (first b ≡ kth (pos 0) b) × (last b ≡ kth (pos (b.readable - 1)) b)
  unfolding first last kth
  first-last-kth b v = (ground (arith, at_start), ground (arith, fits, shift))
    where
      at_start : (b.beg + 0) % b.n ≡ b.beg
      at_start = mod-eq_of_lt {n = b.beg + 0} (omega arith) ∙ omega arith

      fits : b.beg + b.readable - 1 < b.n → (b.beg + b.readable - 1) % b.n ≡ b.beg + b.readable - 1
      fits h = mod-eq_of_lt h

      shift : 0 < b.readable → b.beg + b.readable - 1 ≡ b.beg + (b.readable - 1)
      shift h = omega arith

  copied_lem : (out xs : List (Option A)) → copied out xs ≡ out ++ xs
  unfolding copied
  copied_lem out [] = rw append-nil
  copied_lem out (x ∷ xs) = rw (copied_lem (out ++ x ∷ []) xs, append_assoc)

  -- `clone` is a ring equal to the first, and `Reset` one that is valid and holds nothing.
  pub clone-reset :
      (b : RingBuf A) → IsValid b → (clone b ≡ b) × IsValid (reset b) × (contents (reset b) ≡ [])
  unfolding clone reset
  clone-reset b v = (
    rw copied_lem,
    record {
      nonempty = v.nonempty;
      storage = v.storage;
      beg_in = v.nonempty;
      readable_in = omega arith;
    },
    refl,
  )
