-- ===== src/Server/Number/Tests.antt =====
-- Numbers of server/util.go, and the theorem at a concrete input.
use gnatsd.Prelude.{◌≡◌, ◌≢◌, ◌<◌, ◌^◌, refl, [], true, false, length, codes}
use gnatsd.Prelude.Int.{pos, negsuc}
use gnatsd.Server.Number.{parse_size, parse_int64}
use gnatsd.Server.Number.Value.{all_digits, decimal, parse_size-decimal}

-- 2 ^ 64 + 5 wraps round.
size_wraps : parse_size (codes "18446744073709551621") ≡ pos 5
unfolding parse_size
size_wraps = refl

-- 2 ^ 63 is taken for a negative number.
size_negative : parse_size (codes "9223372036854775808") ≡ negsuc 9223372036854775807
unfolding parse_size
size_negative = refl

parse_size-decimal_example :
    (all_digits (codes "42") ≡ true
      → length (codes "42") ≢ 0
      → decimal 0 (codes "42") < 2 ^ 63
      → (parse_size (codes "42") ≡ pos 42) × (parse_int64 (codes "42") ≡ pos 42))
    × (all_digits (codes "42") ≡ false
        → (parse_size (codes "42") ≡ negsuc 0) × (parse_int64 (codes "42") ≡ negsuc 0))
    × (parse_size [] ≡ negsuc 0)
    × (parse_int64 [] ≡ negsuc 0)
parse_size-decimal_example = parse_size-decimal (codes "42")
