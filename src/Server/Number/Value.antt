-- ===== src/Server/Number/Value.antt =====
-- The value that `parseSize` and `parseInt64` of server/util.go give to a word.
use gnatsd.Prelude.{
  ℕ, ◌+◌, ◌-◌, ◌*◌, ◌%◌, ◌^◌, ◌≤◌, ◌<◌, [], ◌∷◌, Bytes, none, some, ltb, Bool, true, false, ◌||◌,
  ◌&&◌, not, ◌≡◌, refl, arith, Bool-cases, inl, inr, length, ◌≢◌,
}
use gnatsd.Prelude.Int.{pos, negsuc}
use gnatsd.Server.Number.{parse_digits, parse_size, parse_int64, signed64}

abbrev pub is_digit : ℕ → Bool
is_digit b = not (ltb b 48 || ltb 57 b)

abbrev pub all_digits : Bytes → Bool
all_digits [] = true
all_digits (b ∷ d) = is_digit b && all_digits d

-- The decimal number after the digits read so far.
abbrev pub decimal : ℕ → Bytes → ℕ
decimal n [] = n
decimal n (b ∷ d) = decimal (n * 10 + (b - 48)) d

le-decimal : (d : Bytes) (n : ℕ) → n ≤ decimal n d
le-decimal [] n = omega arith
le-decimal (b ∷ d) n = omega (arith, le-decimal d (n * 10 + (b - 48)))

parse_digits-decimal :
    (d : Bytes) (n : ℕ)
    → all_digits d ≡ true
    → decimal n d < 2 ^ 64
    → parse_digits n d ≡ some (decimal n d)
unfolding parse_digits
parse_digits-decimal [] n h l = refl
parse_digits-decimal (b ∷ d) n h l =
    let m = n * 10 + (b - 48) in
    let fits : m % 2 ^ 64 ≡ m = omega (arith, le-decimal d m) in
    let digit : (ltb b 48 || ltb 57 b) ≡ false = ground (arith, h) in
    rw (digit, fits, parse_digits-decimal d m (ground (arith, h)) l) refl

parse_digits-none : (d : Bytes) (n : ℕ) → all_digits d ≡ false → parse_digits n d ≡ none
unfolding parse_digits
parse_digits-none [] n h = cc
parse_digits-none (b ∷ d) n h = elim (Bool-cases (ltb b 48 || ltb 57 b)) [
  | inl t ↦ rw t refl
  | inr t ↦ rw t (parse_digits-none d ((n * 10 + (b - 48)) % 2 ^ 64) (ground (arith, h, t)))
]

signed64-small : (n : ℕ) → n < 2 ^ 63 → signed64 n ≡ pos n
signed64-small n h = ground arith

-- A word is the decimal number that its digits say, if that is below 2 ^ 63, and -1 if it is empty
-- or has a byte that is no digit; the code for int64 gives the same.
pub parse_size-decimal :
    (d : Bytes)
    → (all_digits d ≡ true
        → length d ≢ 0
        → decimal 0 d < 2 ^ 63
        → (parse_size d ≡ pos (decimal 0 d)) × (parse_int64 d ≡ pos (decimal 0 d)))
      × (all_digits d ≡ false → (parse_size d ≡ negsuc 0) × (parse_int64 d ≡ negsuc 0))
      × (parse_size [] ≡ negsuc 0)
      × (parse_int64 [] ≡ negsuc 0)
unfolding parse_size parse_int64
parse_size-decimal [] = (λ h n l. absurd (n refl), λ h. cc, refl, refl)
parse_size-decimal (b ∷ d) = (
  λ h n l.
      let e = parse_digits-decimal (b ∷ d) 0 h (omega arith) in
      let small = signed64-small (decimal 0 (b ∷ d)) l in
      (rw (e, parse_size, small) refl, rw (e, parse_int64, small) refl),
  λ h. let e = parse_digits-none (b ∷ d) 0 h in (rw (e, parse_size) refl, rw (e, parse_int64) refl),
  refl,
  refl,
)
