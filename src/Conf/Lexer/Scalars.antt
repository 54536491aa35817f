-- ===== src/Conf/Lexer/Scalars.antt =====
-- The states of conf/lex.go for strings, blocks, numbers, dates and comments.
use gnatsd.Prelude.{
  ℕ, ◌+◌, ◌-◌, ◌*◌, Bool, List, [], ◌∷◌, ltb, ◌==◌, ◌||◌, not, if◌then◌else◌, none, some, codes,
  bytes_eq, get_elem?,
}
use gnatsd.Conf.Lexer.{
  Unicode, Lexer, Outcome, goes, panics, ItemType, item_text, item_string, item_bool, item_integer,
  item_float, item_datetime, item_comment_start, item_variable, State, string, number,
  convenient_number, float_start, ip_addr, comment, rune, next, backup, peek, pop, errorf, pending,
  ignore, sliced, emit, eof, is_whitespace, is_nl, is_number_suffix, is_hexadecimal,
}
use gnatsd.Conf.Lexer
use gnatsd.Conf.Lexer.Keys.{close_quote}

module _ (u : Unicode) where
  -- `isBool`
  unfoldable pub is_bool : Lexer → Bool
  is_bool lx =
      let str = u.to_lower (pending lx) in
      bytes_eq str (codes "true")
      || (bytes_eq str (codes "false")
          || (bytes_eq str (codes "on")
              || (bytes_eq str (codes "off")
                  || (bytes_eq str (codes "yes") || bytes_eq str (codes "no")))))

  -- `isVariable`, at a string that is no boolean: it reads the first byte, which panics at the end of
  -- the input.
  abbrev pub variable_or_string : Lexer → Outcome
  variable_or_string lx = elim (get_elem? lx.input lx.start) [
    | none ↦ panics
    | some b ↦
        if b == b'$'
        then emit item_variable (record lx { start = lx.start + 1 }) pop
        else emit item_string lx pop
  ]

  -- `lexString` at a terminator, backed up before it.
  unfoldable pub string_end : Lexer → Outcome
  string_end b = sliced b (if is_bool b then emit item_bool b pop else variable_or_string b)

  unfoldable pub lex_string : Lexer → Outcome
  unfolding string_end
  lex_string lx =
      let r = rune u lx in
      let l = next u lx in
      let b = backup l in
      if r == b'\\'
      then goes Lexer.string_escape l
      else if is_nl r
          || (r == eof
              || (r == b';' || (r == b',' || (r == b']' || (r == b'}' || is_whitespace r)))))
      then string_end b
      else if r == b'\''
      then close_quote u item_string l
      else goes string l

  -- A position below 0 makes the next read panic.
  unfoldable pub lex_block : Lexer → Outcome
  lex_block lx =
      let l = next u lx in
      let b = backup (backup l) in
      let l2 = next u b in
      let l3 = next u l2 in
      let r4 = rune u l3 in
      let l4 = next u l3 in
      if not (rune u lx == b')')
      then goes Lexer.block l
      else if ltb l.pos (2 * l.width)
      then panics
      else if not (rune u b == 10)
      then goes Lexer.block l3
      else if r4 == 10 || r4 == eof
      then emit item_string (backup (backup l4)) (λ e. pop (ignore (next u e)))
      else goes Lexer.block (backup l4)

  unfoldable pub lex_string_escape : Lexer → Outcome
  lex_string_escape lx =
      let r = rune u lx in
      let l = next u lx in
      if r == b'x'
      then goes Lexer.string_binary l
      else if r == b't' || (r == b'n' || (r == b'r' || (r == b'"' || r == b'\\')))
      then goes string l
      else errorf l

  unfoldable pub lex_string_binary : Lexer → Outcome
  lex_string_binary lx =
      let l = next u lx in
      if not (is_hexadecimal (rune u lx))
      then errorf l
      else if not (is_hexadecimal (rune u l))
      then errorf (next u l)
      else goes string (next u l)

  unfoldable pub lex_number_start : Lexer → Outcome
  lex_number_start lx =
      let l = next u lx in if u.is_digit (rune u lx) then goes number l else errorf l

  unfoldable pub lex_number : Lexer → Outcome
  lex_number lx =
      let r = rune u lx in
      let l = next u lx in
      if r == b'-'
      then (if not (l.pos - l.start == 5) then errorf l else goes Lexer.date_after_year l)
      else if u.is_digit r
      then goes number l
      else if r == b'.'
      then goes float_start l
      else if is_number_suffix r
      then goes convenient_number l
      else emit item_integer (backup l) pop

  unfoldable pub lex_convenient_number : Lexer → Outcome
  lex_convenient_number lx =
      let r = rune u lx in
      let l = next u lx in
      if r == b'b' || r == b'B' then goes convenient_number l else emit item_integer (backup l) pop

  -- The loop of `lexDateAfterYear` over its formats.
  unfoldable pub date_formats : List ℕ → Lexer → Outcome
  date_formats [] lx = emit item_datetime lx pop
  date_formats (f ∷ formats) lx =
      let r = rune u lx in
      let l = next u lx in
      let rest = date_formats formats l in
      if f == b'0'
      then (if u.is_digit r then rest else errorf l)
      else if f == r
      then rest
      else errorf l

  unfoldable pub lex_date_after_year : Lexer → Outcome
  unfolding date_formats
  lex_date_after_year lx = date_formats (codes "00-00T00:00:00Z") lx

  unfoldable pub lex_neg_number_start : Lexer → Outcome
  lex_neg_number_start lx =
      let l = next u lx in if u.is_digit (rune u lx) then goes Lexer.neg_number l else errorf l

  unfoldable pub lex_neg_number : Lexer → Outcome
  lex_neg_number lx =
      let r = rune u lx in
      let l = next u lx in
      if u.is_digit r
      then goes Lexer.neg_number l
      else if r == b'.'
      then goes float_start l
      else if is_number_suffix r
      then goes convenient_number l
      else emit item_integer (backup l) pop

  unfoldable pub lex_float_start : Lexer → Outcome
  lex_float_start lx =
      let l = next u lx in if u.is_digit (rune u lx) then goes Lexer.float l else errorf l

  unfoldable pub lex_float : Lexer → Outcome
  lex_float lx =
      let r = rune u lx in
      let l = next u lx in
      if u.is_digit r
      then goes Lexer.float l
      else if r == b'.'
      then goes ip_addr l
      else emit item_float (backup l) pop

  unfoldable pub lex_ip_addr : Lexer → Outcome
  lex_ip_addr lx =
      let r = rune u lx in
      let l = next u lx in
      if u.is_digit r || (r == b'.' || r == b':')
      then goes ip_addr l
      else emit item_string (backup l) pop

  unfoldable pub lex_comment_start : Lexer → Outcome
  lex_comment_start lx = emit item_comment_start (ignore lx) (goes comment)

  unfoldable pub lex_comment : Lexer → Outcome
  lex_comment lx =
      let r = rune u lx in
      let l = peek u lx in
      if is_nl r || r == eof then emit item_text l pop else goes comment (next u l)
