-- ===== src/Conf/Lexer/Run/ValueSteps.antt =====
-- One turn of the lexer of conf/lex.go at a valid state, for values, arrays and maps.
use gnatsd.Prelude.{arith}
use gnatsd.Conf.Lexer.{
  Unicode, IsUnicode, Lexer, State, skip, Outcome, goes, ends, panics, rune, next, peek, backup,
  pop, eof, ItemType, emitted, ignore, push, item_text, item_bool, item_integer, item_float,
  item_datetime, item_comment_start, item_variable, item_eof, item_key, item_string, item_include,
  item_array_start, item_array_end, item_map_start, item_map_end, sliced, emit, pending,
}
use gnatsd.Conf.Lexer
use gnatsd.Conf.Lexer.Moves.{
  well_stacked, value_end, returns, needs, hangs, rank_in, rank_end, IsValid, Good, next-Moved,
  rune_at_end, backup_fields, peek_fields, pop-Good,
}
use gnatsd.Conf.Lexer.Keys.{key_check_keyword}
use gnatsd.Conf.Lexer.Values.{
  lex_value, lex_array_value, lex_array_value_end, lex_array_end, lex_map_key_start, lex_map_key,
  lex_map_key_end, lex_map_value, lex_map_value_end, lex_map_end,
}

module _ (u : Unicode) (v : IsUnicode u) where
  pub lex_value-Good : (lx : Lexer) → IsValid Lexer.value lx → Good Lexer.value lx (lex_value u lx)
  unfolding lex_value well_stacked value_end returns needs hangs rank_in rank_end
  lex_value-Good lx h =
      let l = next u lx in
      ground (arith, next-Moved u v lx, rune_at_end u v lx, backup_fields l, v.nul_no_digit)

  pub lex_array_value-Good :
      (lx : Lexer) → IsValid Lexer.array_value lx → Good Lexer.array_value lx (lex_array_value u lx)
  unfolding lex_array_value well_stacked value_end returns needs hangs rank_in rank_end
  lex_array_value-Good lx h =
      let l = next u lx in
      ground (
        arith,
        next-Moved u v lx,
        rune_at_end u v lx,
        backup_fields l,
        v.nul_no_space,
        next-Moved u v l,
        backup_fields (next u l),
      )

  pub lex_array_value_end-Good :
      (lx : Lexer)
      → IsValid Lexer.array_value_end lx
      → Good Lexer.array_value_end lx (lex_array_value_end u lx)
  unfolding lex_array_value_end well_stacked value_end returns needs hangs rank_in rank_end
  lex_array_value_end-Good lx h =
      let l = next u lx in
      ground
        (arith, next-Moved u v lx, rune_at_end u v lx, next-Moved u v l, backup_fields (next u l))

  pub lex_array_end-Good :
      (lx : Lexer) → IsValid Lexer.array_end lx → Good Lexer.array_end lx (lex_array_end u lx)
  unfolding lex_array_end well_stacked value_end returns needs hangs rank_in rank_end
  lex_array_end-Good lx h =
      let l = next u lx in
      ground (arith, pop-Good Lexer.array_end lx (emitted item_array_end (ignore lx)))

  pub lex_map_key_start-Good :
      (lx : Lexer)
      → IsValid Lexer.map_key_start lx
      → Good Lexer.map_key_start lx (lex_map_key_start u lx)
  unfolding lex_map_key_start well_stacked value_end returns needs hangs rank_in rank_end
  lex_map_key_start-Good lx h =
      let l = peek u lx in
      let n = next u l in
      let m = ignore (backup (next u n)) in
      ground (
        arith,
        peek_fields u lx v,
        rune_at_end u v lx,
        next-Moved u v l,
        next-Moved u v n,
        backup_fields (next u n),
        next-Moved u v m,
        next-Moved u v (ignore l),
        v.nul_no_space,
      )

  pub lex_map_key-Good :
      (lx : Lexer) → IsValid Lexer.map_key lx → Good Lexer.map_key lx (lex_map_key u lx)
  unfolding lex_map_key key_check_keyword well_stacked value_end returns needs hangs rank_in
      rank_end
  lex_map_key-Good lx h =
      let l = peek u lx in
      ground (arith, peek_fields u lx v, rune_at_end u v lx, next-Moved u v l, v.nul_no_space)

  pub lex_map_key_end-Good :
      (lx : Lexer) → IsValid Lexer.map_key_end lx → Good Lexer.map_key_end lx (lex_map_key_end u lx)
  unfolding lex_map_key_end well_stacked value_end returns needs hangs rank_in rank_end
  lex_map_key_end-Good lx h =
      let l = next u lx in
      ground (arith, next-Moved u v lx, rune_at_end u v lx, backup_fields l, v.nul_no_space)

  pub lex_map_value-Good :
      (lx : Lexer) → IsValid Lexer.map_value lx → Good Lexer.map_value lx (lex_map_value u lx)
  unfolding lex_map_value well_stacked value_end returns needs hangs rank_in rank_end
  lex_map_value-Good lx h =
      let l = next u lx in
      ground (arith, next-Moved u v lx, rune_at_end u v lx, backup_fields l, v.nul_no_space)

  pub lex_map_value_end-Good :
      (lx : Lexer)
      → IsValid Lexer.map_value_end lx
      → Good Lexer.map_value_end lx (lex_map_value_end u lx)
  unfolding lex_map_value_end well_stacked value_end returns needs hangs rank_in rank_end
  lex_map_value_end-Good lx h =
      let l = next u lx in
      ground
        (arith, next-Moved u v lx, rune_at_end u v lx, next-Moved u v l, backup_fields (next u l))

  pub lex_map_end-Good :
      (lx : Lexer) → IsValid Lexer.map_end lx → Good Lexer.map_end lx (lex_map_end u lx)
  unfolding lex_map_end well_stacked value_end returns needs hangs rank_in rank_end
  lex_map_end-Good lx h =
      let l = next u lx in
      ground (arith, pop-Good Lexer.map_end lx (emitted item_map_end (ignore lx)))
