-- ===== src/Prelude/Mods.antt =====
-- Remainders of numbers that are less than the modulus apart.
use native.Mathlib.Nat.{mod-lt, mod-add-mod, mod-eq_of_lt, mod-eq-sub-mod}
use native.Mathlib.Decide.{dec_lt}
use Prim.Native.Nat.{ℕ, ◌+◌, ◌-◌, ◌%◌, ◌≤◌, ◌<◌}
use mathlib.Core.Path.{◌≡◌, ap, sym, ◌∙◌}
use mathlib.Core.Logic.{◌≢◌}
use native.Mathlib.Omega.{arith}

-- Two positions less than `n` apart have different places in the array.
pub mod-ne : (n i d : ℕ) → 0 < d → d < n → (i + d) % n ≢ i % n
mod-ne n i d h k e =
    let r = i % n in
    let shift = mod-add-mod i n d in
    elim (dec_lt (r + d) n) [
      | yes p ↦ omega (arith, e, shift, mod-eq_of_lt p)
      | no p ↦ omega (
        arith,
        e,
        shift,
        mod-eq-sub-mod {n = r + d} {m = n} (omega arith),
        mod-eq_of_lt {n = r + d - n} {m = n} (omega (arith, mod-lt i {m = n} (omega arith))),
        mod-lt i {m = n} (omega arith),
      )
    ]

pub mod-inj : (w a b : ℕ) → a % w ≡ b % w → a ≤ b → b < a + w → a ≡ b
mod-inj w a b e h k = elim (dec_lt a b) [
  | yes p ↦
      let sum : a + (b - a) ≡ b = omega arith in
      absurd (mod-ne w a (b - a) (omega arith) (omega arith) (ap (λ x. x % w) sum ∙ sym e))
  | no p ↦ omega arith
]
