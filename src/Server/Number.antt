-- ===== src/Server/Number.antt =====
-- server/util.go: decimal numbers of the protocol. A Go `int` is its 64-bit pattern below 2 ^ 64,
-- and `signed64` is the integer that the pattern stands for.
pub mod Value
mod Tests
use gnatsd.Prelude.{
  ℕ, ◌+◌, ◌-◌, ◌*◌, ◌%◌, ◌^◌, List, [], ◌∷◌, Bytes, Option, none, some, ltb, ◌||◌, if◌then◌else◌,
}
use gnatsd.Prelude.Int.{ℤ, pos, negsuc}

abbrev pub ascii_zero : ℕ
ascii_zero = 48

abbrev pub ascii_nine : ℕ
ascii_nine = 57

abbrev pub signed64 : ℕ → ℤ
signed64 w = if ltb w (2 ^ 63) then pos w else negsuc (2 ^ 64 - w - 1)

-- The loop at `n`; `none` is the return of -1.
unfoldable pub parse_digits : ℕ → Bytes → Option ℕ
parse_digits n [] = some n
parse_digits n (dec ∷ d) =
    let rest = parse_digits ((n * 10 + (dec - ascii_zero)) % 2 ^ 64) d in
    if ltb dec ascii_zero || ltb ascii_nine dec then none else rest

unfoldable pub parse_size : Bytes → ℤ
unfolding parse_digits
parse_size [] = negsuc 0
parse_size (c ∷ d) = elim (parse_digits 0 (c ∷ d)) [ none ↦ negsuc 0 | some n ↦ signed64 n ]

-- The same code at type int64.
unfoldable pub parse_int64 : Bytes → ℤ
unfolding parse_digits
parse_int64 [] = negsuc 0
parse_int64 (c ∷ d) = elim (parse_digits 0 (c ∷ d)) [ none ↦ negsuc 0 | some n ↦ signed64 n ]
