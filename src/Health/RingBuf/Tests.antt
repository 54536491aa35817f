-- ===== src/Health/RingBuf/Tests.antt =====
-- Runs of health/rbuf.go, and its theorems at concrete inputs.
use gnatsd.Prelude.{ℕ, ◌≤◌, ◌<◌, true, [], ◌∷◌, none, some, ◌≡◌, refl, arith, get_or}
use gnatsd.Prelude.Int.{pos}
use gnatsd.Health.RingBuf.{RingBuf, new_ring_buf, advance, first, last, kth, append}
use gnatsd.Health.RingBuf.Contents.{IsValid, contents}
use gnatsd.Health.RingBuf.Refine.{append_refines, advance_refines, kth_refines, first-last-kth}

-- 8, then 9, round the end of the array
abbrev wrapped : RingBuf ℕ
wrapped = record { a = some 9 ∷ none ∷ some 8 ∷ []; n = 3; beg = 2; readable = 2 }

wrapped-IsValid : IsValid wrapped
wrapped-IsValid = omega arith

contents-wrapped : contents wrapped ≡ some 8 ∷ some 9 ∷ []
contents-wrapped = refl

append_refines_example :
    IsValid (append (some 7) wrapped).0
    × ((append (some 7) wrapped).1 ≡ true)
    × (contents (append (some 7) wrapped).0 ≡ some 8 ∷ some 9 ∷ some 7 ∷ [])
append_refines_example = append_refines (some 7) wrapped wrapped-IsValid

advance_refines_example :
    (b : RingBuf ℕ) × (advance (pos 1) wrapped ≡ some b) × IsValid b × (contents b ≡ some 9 ∷ [])
advance_refines_example = advance_refines (pos 1) wrapped wrapped-IsValid

kth_refines_example :
    (2 ≤ 1 → kth (pos 1) wrapped ≡ none)
    × (1 < 2
        → (i : ℕ) × (kth (pos 1) wrapped ≡ some i) × (i < 3) × (get_or wrapped.a i none ≡ some 9))
kth_refines_example = kth_refines 1 wrapped wrapped-IsValid

ends_of_wrapped : (first wrapped ≡ kth (pos 0) wrapped) × (last wrapped ≡ kth (pos 1) wrapped)
ends_of_wrapped = first-last-kth wrapped wrapped-IsValid

-- At size 0 `Advance` divides by zero.
advance_empty_ring : advance (pos 1) (new_ring_buf {A = ℕ} 0) ≡ none
unfolding advance new_ring_buf
advance_empty_ring = refl
