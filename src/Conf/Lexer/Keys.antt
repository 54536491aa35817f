-- ===== src/Conf/Lexer/Keys.antt =====
-- The states of conf/lex.go at the top level, and those for keys and includes.
use gnatsd.Prelude.{ℕ, ltb, ◌==◌, ◌||◌, if◌then◌else◌, Option, none, some, codes, bytes_eq}
use gnatsd.Conf.Lexer.{
  Unicode, Lexer, Outcome, goes, ends, ItemType, item_eof, item_key, item_include, State, skip,
  comment_start, key_start, top_value_end, rune, next, backup, peek, push, pop, errorf, pending,
  ignore, sliced, emit, eof, is_whitespace, is_nl, is_key_separator,
}
use gnatsd.Conf.Lexer

module _ (u : Unicode) where
  -- `lexTop` at the end of the input, or behind a single slash
  abbrev pub top_eof : Lexer → Outcome
  top_eof lx = if ltb lx.start lx.pos then errorf lx else emit item_eof lx ends

  unfoldable pub lex_top : Lexer → Outcome
  lex_top lx =
      let r = rune u lx in
      let l = next u lx in
      if u.is_space r
      then goes (skip Lexer.top) l
      else if r == b'#'
      then goes comment_start (push Lexer.top l)
      else if r == b'/'
      then (if rune u l == b'/'
          then goes comment_start (push Lexer.top (next u l))
          else top_eof (backup (next u l)))
      else if r == eof
      then top_eof l
      else goes key_start (push top_value_end (backup l))

  unfoldable pub lex_top_value_end : Lexer → Outcome
  lex_top_value_end lx =
      let r = rune u lx in
      let l = next u lx in
      if r == b'#'
      then goes comment_start (push Lexer.top l)
      else if r == b'/'
      then (if rune u l == b'/'
          then goes comment_start (push Lexer.top (next u l))
          else goes top_value_end (backup (next u l)))
      else if is_whitespace r
      then goes top_value_end l
      else if is_nl r || (r == eof || r == b';')
      then goes Lexer.top (ignore l)
      else errorf l

  unfoldable pub lex_key_start : Lexer → Outcome
  lex_key_start lx =
      let r = rune u lx in
      let l = peek u lx in
      if is_key_separator r
      then errorf l
      else if u.is_space r
      then goes (skip key_start) (next u l)
      else if r == b'"'
      then goes (skip Lexer.dub_quoted_key) (next u l)
      else if r == b'\''
      then goes (skip Lexer.quoted_key) (next u l)
      else goes Lexer.key (next u (ignore l))

  -- The body that `lexDubQuotedKey`, `lexQuotedKey` and those for maps share: the quote, the state
  -- itself, and the one behind the key.
  unfoldable pub quoted_key_body : ℕ → State → State → Lexer → Outcome
  quoted_key_body quote itself behind lx =
      let l = peek u lx in
      if rune u lx == quote
      then emit item_key l (λ e. goes (skip behind) (next u e))
      else goes itself (next u l)

  -- `keyCheckKeyword`
  unfoldable pub key_check_keyword : State → Option State → Lexer → Outcome
  key_check_keyword fall_through pushed lx = sliced lx (
      if bytes_eq (u.to_lower (pending lx)) (codes "include")
      then goes Lexer.include_start (elim pushed [ none ↦ ignore lx | some s ↦ push s (ignore lx) ])
      else emit item_key lx (goes fall_through))

  unfoldable pub lex_include_start : Lexer → Outcome
  lex_include_start lx =
      let l = next u lx in
      if is_whitespace (rune u lx)
      then goes (skip Lexer.include_start) l
      else goes Lexer.include_value (backup l)

  -- The end of a quoted text: `backup`, `emit`, `next`, `ignore`, `pop`.
  abbrev pub close_quote : ItemType → Lexer → Outcome
  close_quote typ l = emit typ (backup l) (λ e. pop (ignore (next u e)))

  -- The body that the quoted strings share: the quote, the type of item, the state itself.
  unfoldable pub quoted_body : ℕ → ItemType → State → Lexer → Outcome
  quoted_body quote typ itself lx =
      let l = next u lx in if rune u lx == quote then close_quote typ l else goes itself l

  unfoldable pub lex_include_string : Lexer → Outcome
  lex_include_string lx =
      let r = rune u lx in
      let l = next u lx in
      if is_nl r || (r == eof || (r == b';' || (r == b'}' || is_whitespace r)))
      then emit item_include (backup l) pop
      else if r == b'\''
      then close_quote item_include l
      else goes Lexer.include_string l

  unfoldable pub lex_include : Lexer → Outcome
  lex_include lx =
      let r = rune u lx in
      let l = next u lx in
      if r == b'\''
      then goes Lexer.include_quoted_string (ignore l)
      else if r == b'"'
      then goes Lexer.include_dub_quoted_string (ignore l)
      else if r == b'['
          || (r == b'{' || (r == b'(' || (u.is_digit r || (r == b'-' || (r == b'\\' || is_nl r)))))
      then errorf l
      else goes Lexer.include_string (backup l)

  unfoldable pub lex_key : Lexer → Outcome
  unfolding key_check_keyword
  lex_key lx =
      let r = rune u lx in
      let l = peek u lx in
      if u.is_space r
      then key_check_keyword Lexer.key_end none l
      else if is_key_separator r || r == eof
      then emit item_key l (goes Lexer.key_end)
      else goes Lexer.key (next u l)

  unfoldable pub lex_key_end : Lexer → Outcome
  lex_key_end lx =
      let r = rune u lx in
      let l = next u lx in
      if u.is_space r
      then goes (skip Lexer.key_end) l
      else if is_key_separator r
      then goes (skip Lexer.value) l
      else if r == eof
      then emit item_eof l ends
      else goes Lexer.value (backup l)
