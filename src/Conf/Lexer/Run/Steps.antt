-- ===== src/Conf/Lexer/Run/Steps.antt =====
-- One turn of the lexer of conf/lex.go at a valid state, function by function.
use gnatsd.Prelude.{ℕ, ◌≤◌, ◌<◌, true, ◌≡◌, arith}
use gnatsd.Conf.Lexer.{
  Unicode, IsUnicode, Lexer, State, skip, Outcome, goes, ends, panics, rune, next, peek, backup,
  pop, eof, ItemType, emitted, ignore, push, item_eof, item_key, item_string, item_include,
}
use gnatsd.Conf.Lexer
use gnatsd.Conf.Lexer.Moves.{
  well_stacked, value_end, returns, needs, hangs, rank_in, rank_end, value_ends, IsValid, Good,
  next-Moved, rune_at_end, backup_fields, peek_fields, pop-Good,
}
use gnatsd.Conf.Lexer.Keys.{
  lex_top, lex_top_value_end, lex_key_start, quoted_key_body, lex_include_start, quoted_body,
  lex_include_string, lex_include, lex_key, lex_key_end, key_check_keyword,
}

module _ (u : Unicode) (v : IsUnicode u) where
  pub lex_top-Good : (lx : Lexer) → IsValid Lexer.top lx → Good Lexer.top lx (lex_top u lx)
  unfolding lex_top well_stacked value_end returns needs hangs rank_in rank_end
  lex_top-Good lx h =
      let l = next u lx in
      ground (
        arith,
        next-Moved u v lx,
        rune_at_end u v lx,
        v.nul_no_space,
        backup_fields l,
        next-Moved u v l,
        backup_fields (next u l),
      )

  pub lex_top_value_end-Good :
      (lx : Lexer)
      → IsValid Lexer.top_value_end lx
      → Good Lexer.top_value_end lx (lex_top_value_end u lx)
  unfolding lex_top_value_end well_stacked value_end returns needs hangs rank_in rank_end
  lex_top_value_end-Good lx h =
      let l = next u lx in
      ground
        (arith, next-Moved u v lx, rune_at_end u v lx, next-Moved u v l, backup_fields (next u l))

  pub lex_key_start-Good :
      (lx : Lexer) → IsValid Lexer.key_start lx → Good Lexer.key_start lx (lex_key_start u lx)
  unfolding lex_key_start well_stacked value_end returns needs hangs rank_in rank_end
  lex_key_start-Good lx h =
      let l = peek u lx in
      ground (
        arith,
        peek_fields u lx v,
        rune_at_end u v lx,
        v.nul_no_space,
        next-Moved u v l,
        next-Moved u v (ignore l),
      )

  -- `itself` and `behind` are states of quoted keys and what follows them.
  pub quoted_key_body-Good :
      (quote : ℕ) (itself behind : State) (lx : Lexer)
      → 0 < quote
      → IsValid itself lx
      → hangs itself ≡ true
      → rank_in itself ≡ 0
      → rank_end itself ≡ 0
      → needs itself ≡ 0
      → well_stacked itself lx.stack ≡ value_ends lx.stack
      → rank_in behind ≤ 5
      → rank_end behind ≤ 5
      → needs behind ≡ 0
      → well_stacked behind lx.stack ≡ value_ends lx.stack
      → Good itself lx (quoted_key_body u quote itself behind lx)
  unfolding quoted_key_body well_stacked needs rank_in rank_end
  quoted_key_body-Good quote itself behind lx q h a1 a2 a3 a4 a5 b1 b2 b3 b4 =
      let l = peek u lx in
      ground (
        arith,
        peek_fields u lx v,
        rune_at_end u v lx,
        next-Moved u v l,
        next-Moved u v (emitted item_key l),
      )

  pub lex_include_start-Good :
      (lx : Lexer)
      → IsValid Lexer.include_start lx
      → Good Lexer.include_start lx (lex_include_start u lx)
  unfolding lex_include_start well_stacked value_end returns needs hangs rank_in rank_end
  lex_include_start-Good lx h =
      let l = next u lx in ground (arith, next-Moved u v lx, rune_at_end u v lx, backup_fields l)

  pub quoted_body-Good :
      (quote : ℕ) (typ : ItemType) (itself : State) (lx : Lexer)
      → 0 < quote
      → IsValid itself lx
      → hangs itself ≡ true
      → rank_in itself ≡ 0
      → rank_end itself ≡ 0
      → needs itself ≡ 0
      → well_stacked itself lx.stack ≡ value_ends lx.stack
      → Good itself lx (quoted_body u quote typ itself lx)
  unfolding quoted_body
  quoted_body-Good quote typ itself lx q h a1 a2 a3 a4 a5 =
      let l = next u lx in
      let e = emitted typ (backup l) in
      ground (
        arith,
        next-Moved u v lx,
        rune_at_end u v lx,
        backup_fields l,
        next-Moved u v e,
        pop-Good itself lx (ignore (next u e)),
      )

  pub lex_include_string-Good :
      (lx : Lexer)
      → IsValid Lexer.include_string lx
      → Good Lexer.include_string lx (lex_include_string u lx)
  unfolding lex_include_string well_stacked value_end returns needs hangs rank_in rank_end
  lex_include_string-Good lx h =
      let l = next u lx in
      let e = emitted item_include (backup l) in
      ground (
        arith,
        next-Moved u v lx,
        rune_at_end u v lx,
        backup_fields l,
        next-Moved u v e,
        pop-Good Lexer.include_string lx e,
        pop-Good Lexer.include_string lx (ignore (next u e)),
      )

  pub lex_include-Good :
      (lx : Lexer) → IsValid Lexer.include_value lx → Good Lexer.include_value lx (lex_include u lx)
  unfolding lex_include well_stacked value_end returns needs hangs rank_in rank_end
  lex_include-Good lx h =
      let l = next u lx in ground (arith, next-Moved u v lx, rune_at_end u v lx, backup_fields l)

  pub lex_key-Good : (lx : Lexer) → IsValid Lexer.key lx → Good Lexer.key lx (lex_key u lx)
  unfolding lex_key key_check_keyword well_stacked value_end returns needs hangs rank_in rank_end
  lex_key-Good lx h =
      let l = peek u lx in
      ground (arith, peek_fields u lx v, rune_at_end u v lx, v.nul_no_space, next-Moved u v l)

  pub lex_key_end-Good :
      (lx : Lexer) → IsValid Lexer.key_end lx → Good Lexer.key_end lx (lex_key_end u lx)
  unfolding lex_key_end well_stacked value_end returns needs hangs rank_in rank_end
  lex_key_end-Good lx h =
      let l = next u lx in
      ground (arith, next-Moved u v lx, rune_at_end u v lx, v.nul_no_space, backup_fields l)
