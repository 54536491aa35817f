-- ===== src/Health/RingBuf.antt =====
-- health/rbuf.go: a ring of fixed size. `none` is Go's nil, which fills the fresh array; an index
-- of -1 is `none` too.
pub mod Contents
pub mod Refine
mod Tests
use gnatsd.Prelude.{
  ℕ, zero, ◌+◌, ◌-◌, ◌%◌, Bool, true, false, List, Option, none, some, ltb, leb, ◌==◌, ◌||◌,
  if◌then◌else◌, set, replicate, ◌++◌, [], ◌∷◌,
}
use gnatsd.Prelude.Int.{ℤ, pos, negsuc}

pub record RingBuf (A : Type 0) : Type 0 where
  pub a : List (Option A)
  pub n : ℕ
  pub beg : ℕ
  pub readable : ℕ

module _ {A : Type 0} where
  unfoldable pub new_ring_buf : ℕ → RingBuf A
  new_ring_buf max_view = record {
    a = replicate max_view none;
    n = max_view;
    beg = 0;
    readable = 0;
  }

  -- `a.A = append(a.A, b.A[i])` for each index
  unfoldable pub copied : List (Option A) → List (Option A) → List (Option A)
  copied out [] = out
  copied out (x ∷ xs) = copied (out ++ x ∷ []) xs

  unfoldable pub clone : RingBuf A → RingBuf A
  unfolding copied
  clone b = record { a = copied [] b.a; n = b.n; beg = b.beg; readable = b.readable }

  unfoldable pub reset : RingBuf A → RingBuf A
  reset b = record b { beg = 0; readable = 0 }

  -- `none` is the panic of `% b.N` at a ring of size 0.
  unfoldable pub advance : ℤ → RingBuf A → Option (RingBuf A)
  advance (negsuc _) b = some b
  advance (pos n) b =
      let m = if ltb b.readable n then b.readable else n in
      if n == 0
      then some b
      else if b.n == 0
      then none
      else some (record b { readable = b.readable - m; beg = (b.beg + m) % b.n })

  unfoldable pub avail : RingBuf A → ℕ
  avail b = b.readable

  unfoldable pub first : RingBuf A → Option ℕ
  first b = if b.readable == 0 then none else some b.beg

  unfoldable pub last : RingBuf A → Option ℕ
  last b =
      let i = b.beg + b.readable - 1 in
      if b.readable == 0 then none else if ltb i b.n then some i else some (i % b.n)

  unfoldable pub kth : ℤ → RingBuf A → Option ℕ
  kth (negsuc _) b = none
  kth (pos k) b = if b.readable == 0 || leb b.readable k then none else some ((b.beg + k) % b.n)

  -- `true` is nil, `false` is io.ErrShortWrite.
  unfoldable pub append : Option A → RingBuf A → RingBuf A × Bool
  append p b = if leb b.n b.readable then (b, false) else (
    record b { a = set b.a ((b.beg + b.readable) % b.n) p; readable = b.readable + 1 },
    true,
  )
