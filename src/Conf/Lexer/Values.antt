-- ===== src/Conf/Lexer/Values.antt =====
-- The states of conf/lex.go for values, arrays and maps.
use gnatsd.Prelude.{◌==◌, ◌||◌, if◌then◌else◌, some}
use gnatsd.Conf.Lexer.{
  Unicode, Lexer, Outcome, goes, ItemType, item_key, item_array_start, item_array_end,
  item_map_start, item_map_end, State, skip, comment_start, value, array_value, array_value_end,
  map_key_start, map_key, map_value, map_value_end, rune, next, backup, peek, push, pop, errorf,
  ignore, emit, is_whitespace, is_nl, is_key_separator,
}
use gnatsd.Conf.Lexer
use gnatsd.Conf.Lexer.Keys.{key_check_keyword}

module _ (u : Unicode) where
  unfoldable pub lex_value : Lexer → Outcome
  lex_value lx =
      let r = rune u lx in
      let l = next u lx in
      if is_whitespace r
      then goes (skip value) l
      else if r == b'['
      then emit item_array_start (ignore l) (goes array_value)
      else if r == b'{'
      then emit item_map_start (ignore l) (goes map_key_start)
      else if r == b'\''
      then goes Lexer.quoted_string (ignore l)
      else if r == b'"'
      then goes Lexer.dub_quoted_string (ignore l)
      else if r == b'-'
      then goes Lexer.neg_number_start l
      else if r == b'('
      then goes Lexer.block (ignore l)
      else if u.is_digit r
      then goes Lexer.number_start (backup l)
      else if r == b'.' || is_nl r
      then errorf l
      else goes Lexer.string (backup l)

  unfoldable pub lex_array_value : Lexer → Outcome
  lex_array_value lx =
      let r = rune u lx in
      let l = next u lx in
      if u.is_space r
      then goes (skip array_value) l
      else if r == b'#'
      then goes comment_start (push array_value l)
      else if r == b'/'
      then (if rune u l == b'/'
          then goes comment_start (push array_value (next u l))
          else errorf (backup (next u l)))
      else if r == b','
      then errorf l
      else if r == b']'
      then goes Lexer.array_end l
      else goes value (push array_value_end (backup l))

  unfoldable pub lex_array_value_end : Lexer → Outcome
  lex_array_value_end lx =
      let r = rune u lx in
      let l = next u lx in
      if is_whitespace r
      then goes (skip array_value_end) l
      else if r == b'#'
      then goes comment_start (push array_value_end l)
      else if r == b'/'
      then (if rune u l == b'/'
          then goes comment_start (push array_value_end (next u l))
          else goes (skip array_value) (backup (next u l)))
      else if r == b',' || is_nl r
      then goes (skip array_value) l
      else if r == b']'
      then goes Lexer.array_end l
      else errorf l

  unfoldable pub lex_array_end : Lexer → Outcome
  lex_array_end lx = emit item_array_end (ignore lx) pop

  unfoldable pub lex_map_key_start : Lexer → Outcome
  lex_map_key_start lx =
      let r = rune u lx in
      let l = peek u lx in
      let n = next u l in
      if is_key_separator r
      then errorf l
      else if u.is_space r
      then goes (skip map_key_start) n
      else if r == b'}'
      then goes (skip Lexer.map_end) n
      else if r == b'#'
      then goes comment_start (push map_key_start n)
      else if r == b'/'
      then (if rune u n == b'/'
          then goes comment_start (push map_key_start (next u n))
          else goes map_key (next u (ignore (backup (next u n)))))
      else if r == b'\''
      then goes (skip Lexer.map_quoted_key) n
      else if r == b'"'
      then goes (skip Lexer.map_dub_quoted_key) n
      else goes map_key (next u (ignore l))

  unfoldable pub lex_map_key : Lexer → Outcome
  unfolding key_check_keyword
  lex_map_key lx =
      let r = rune u lx in
      let l = peek u lx in
      if u.is_space r
      then key_check_keyword u Lexer.map_key_end (some map_value_end) l
      else if is_key_separator r
      then emit item_key l (goes Lexer.map_key_end)
      else goes map_key (next u l)

  unfoldable pub lex_map_key_end : Lexer → Outcome
  lex_map_key_end lx =
      let r = rune u lx in
      let l = next u lx in
      if u.is_space r
      then goes (skip Lexer.map_key_end) l
      else if is_key_separator r
      then goes (skip map_value) l
      else goes map_value (backup l)

  unfoldable pub lex_map_value : Lexer → Outcome
  lex_map_value lx =
      let r = rune u lx in
      let l = next u lx in
      if u.is_space r
      then goes (skip map_value) l
      else if r == b','
      then errorf l
      else if r == b'}'
      then goes (skip Lexer.map_end) l
      else goes value (push map_value_end (backup l))

  unfoldable pub lex_map_value_end : Lexer → Outcome
  lex_map_value_end lx =
      let r = rune u lx in
      let l = next u lx in
      if is_whitespace r
      then goes (skip map_value_end) l
      else if r == b'#'
      then goes comment_start (push map_value_end l)
      else if r == b'/'
      then (if rune u l == b'/'
          then goes comment_start (push map_value_end (next u l))
          else goes (skip map_key_start) (backup (next u l)))
      else if r == b';' || (r == b',' || is_nl r)
      then goes (skip map_key_start) l
      else if r == b'}'
      then goes (skip Lexer.map_end) l
      else errorf l

  unfoldable pub lex_map_end : Lexer → Outcome
  lex_map_end lx = emit item_map_end (ignore lx) pop
