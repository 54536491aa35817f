-- ===== src/Conf/Lexer/Run/ScalarSteps.antt =====
-- One turn of the lexer of conf/lex.go at a valid state, for strings, numbers and comments.
use gnatsd.Prelude.{◌+◌, arith, inl, inr, get_elem?, Option-cases, ◌≢◌}
use gnatsd.Conf.Lexer.{
  Unicode, IsUnicode, Lexer, State, skip, Outcome, goes, ends, panics, rune, next, peek, backup,
  pop, eof, ItemType, emitted, ignore, push, item_text, item_bool, item_integer, item_float,
  item_datetime, item_comment_start, item_variable, item_eof, item_key, item_string, item_include,
  item_array_start, item_array_end, item_map_start, item_map_end, sliced, emit, pending,
}
use gnatsd.Conf.Lexer
use gnatsd.Conf.Lexer.Moves.{
  well_stacked, value_end, returns, needs, hangs, rank_in, rank_end, IsValid, Good, next-Moved,
  rune_at_end, backup_fields, peek_fields, pop-Good, comment_pop-Good, get_elem?-length,
  rune_of_byte,
}
use gnatsd.Conf.Lexer.Scalars.{
  lex_string, string_end, lex_string_escape, lex_string_binary, lex_number_start, lex_number,
  lex_convenient_number, lex_neg_number_start, lex_neg_number, lex_float_start, lex_float,
  lex_ip_addr, lex_comment_start, lex_comment,
}

module _ (u : Unicode) (v : IsUnicode u) where
  pub lex_string_escape-Good :
      (lx : Lexer)
      → IsValid Lexer.string_escape lx
      → Good Lexer.string_escape lx (lex_string_escape u lx)
  unfolding lex_string_escape well_stacked value_end returns needs hangs rank_in rank_end
  lex_string_escape-Good lx h =
      let l = next u lx in ground (arith, next-Moved u v lx, rune_at_end u v lx)

  pub lex_string_binary-Good :
      (lx : Lexer)
      → IsValid Lexer.string_binary lx
      → Good Lexer.string_binary lx (lex_string_binary u lx)
  unfolding lex_string_binary well_stacked value_end returns needs hangs rank_in rank_end
  lex_string_binary-Good lx h =
      let l = next u lx in
      ground (arith, next-Moved u v lx, rune_at_end u v lx, next-Moved u v l, rune_at_end u v l)

  pub lex_number_start-Good :
      (lx : Lexer)
      → IsValid Lexer.number_start lx
      → Good Lexer.number_start lx (lex_number_start u lx)
  unfolding lex_number_start well_stacked value_end returns needs hangs rank_in rank_end
  lex_number_start-Good lx h =
      let l = next u lx in ground (arith, next-Moved u v lx, rune_at_end u v lx, v.nul_no_digit)

  pub lex_number-Good :
      (lx : Lexer) → IsValid Lexer.number lx → Good Lexer.number lx (lex_number u lx)
  unfolding lex_number well_stacked value_end returns needs hangs rank_in rank_end
  lex_number-Good lx h =
      let l = next u lx in
      ground (
        arith,
        next-Moved u v lx,
        rune_at_end u v lx,
        backup_fields l,
        v.nul_no_digit,
        pop-Good Lexer.number lx (emitted item_integer (backup l)),
      )

  pub lex_convenient_number-Good :
      (lx : Lexer)
      → IsValid Lexer.convenient_number lx
      → Good Lexer.convenient_number lx (lex_convenient_number u lx)
  unfolding lex_convenient_number well_stacked value_end returns needs hangs rank_in rank_end
  lex_convenient_number-Good lx h =
      let l = next u lx in
      ground (
        arith,
        next-Moved u v lx,
        rune_at_end u v lx,
        backup_fields l,
        pop-Good Lexer.convenient_number lx (emitted item_integer (backup l)),
      )

  pub lex_neg_number_start-Good :
      (lx : Lexer)
      → IsValid Lexer.neg_number_start lx
      → Good Lexer.neg_number_start lx (lex_neg_number_start u lx)
  unfolding lex_neg_number_start well_stacked value_end returns needs hangs rank_in rank_end
  lex_neg_number_start-Good lx h =
      let l = next u lx in ground (arith, next-Moved u v lx, rune_at_end u v lx, v.nul_no_digit)

  pub lex_neg_number-Good :
      (lx : Lexer) → IsValid Lexer.neg_number lx → Good Lexer.neg_number lx (lex_neg_number u lx)
  unfolding lex_neg_number well_stacked value_end returns needs hangs rank_in rank_end
  lex_neg_number-Good lx h =
      let l = next u lx in
      ground (
        arith,
        next-Moved u v lx,
        rune_at_end u v lx,
        backup_fields l,
        v.nul_no_digit,
        pop-Good Lexer.neg_number lx (emitted item_integer (backup l)),
      )

  pub lex_float_start-Good :
      (lx : Lexer) → IsValid Lexer.float_start lx → Good Lexer.float_start lx (lex_float_start u lx)
  unfolding lex_float_start well_stacked value_end returns needs hangs rank_in rank_end
  lex_float_start-Good lx h =
      let l = next u lx in ground (arith, next-Moved u v lx, rune_at_end u v lx, v.nul_no_digit)

  pub lex_float-Good : (lx : Lexer) → IsValid Lexer.float lx → Good Lexer.float lx (lex_float u lx)
  unfolding lex_float well_stacked value_end returns needs hangs rank_in rank_end
  lex_float-Good lx h =
      let l = next u lx in
      ground (
        arith,
        next-Moved u v lx,
        rune_at_end u v lx,
        backup_fields l,
        v.nul_no_digit,
        pop-Good Lexer.float lx (emitted item_float (backup l)),
      )

  pub lex_ip_addr-Good :
      (lx : Lexer) → IsValid Lexer.ip_addr lx → Good Lexer.ip_addr lx (lex_ip_addr u lx)
  unfolding lex_ip_addr well_stacked value_end returns needs hangs rank_in rank_end
  lex_ip_addr-Good lx h =
      let l = next u lx in
      ground (
        arith,
        next-Moved u v lx,
        rune_at_end u v lx,
        backup_fields l,
        v.nul_no_digit,
        pop-Good Lexer.ip_addr lx (emitted item_string (backup l)),
      )

  pub lex_comment_start-Good :
      (lx : Lexer)
      → IsValid Lexer.comment_start lx
      → Good Lexer.comment_start lx (lex_comment_start u lx)
  unfolding lex_comment_start well_stacked value_end returns needs hangs rank_in rank_end
  lex_comment_start-Good lx h = let l = next u lx in ground arith

  pub lex_comment-Good :
      (lx : Lexer) → IsValid Lexer.comment lx → Good Lexer.comment lx (lex_comment u lx)
  unfolding lex_comment well_stacked value_end returns needs hangs rank_in rank_end
  lex_comment-Good lx h =
      let l = peek u lx in
      ground (
        arith,
        peek_fields u lx v,
        rune_at_end u v lx,
        next-Moved u v l,
        comment_pop-Good lx (emitted item_text l),
      )

  string_end-Good :
      (lx : Lexer)
      → IsValid Lexer.string lx
      → rune u lx ≢ b'$'
      → Good Lexer.string lx (string_end u (backup (next u lx)))
  unfolding string_end well_stacked value_end returns needs hangs rank_in rank_end
  string_end-Good lx h n =
      let l = next u lx in
      let b = backup l in
      elim (Option-cases (get_elem? b.input b.start)) [
        | inl e ↦ ground (
          arith,
          get_elem?-length b.start b.input e,
          next-Moved u v lx,
          backup_fields l,
          pop-Good Lexer.string lx (emitted item_bool b),
          e,
        )
        | inr (c, e) ↦ ground (
          arith,
          next-Moved u v lx,
          rune_at_end u v lx,
          backup_fields l,
          rune_of_byte u lx c v,
          pop-Good Lexer.string lx (emitted item_bool b),
          pop-Good Lexer.string lx (emitted item_string b),
          pop-Good Lexer.string lx (emitted item_variable (record b { start = b.start + 1 })),
          e,
        )
      ]

  pub lex_string-Good :
      (lx : Lexer) → IsValid Lexer.string lx → Good Lexer.string lx (lex_string u lx)
  unfolding lex_string well_stacked value_end returns needs hangs rank_in rank_end
  lex_string-Good lx h =
      let l = next u lx in
      let b = backup l in
      let q = emitted item_string b in
      ground (
        arith,
        next-Moved u v lx,
        rune_at_end u v lx,
        backup_fields l,
        string_end-Good lx h,
        next-Moved u v q,
        pop-Good Lexer.string lx (ignore (next u q)),
      )
