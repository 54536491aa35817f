-- ===== src/Conf/Lexer.antt =====
-- conf/lex.go: the lexer of configuration files, its state and the operations of its states.
pub mod Keys
pub mod Values
pub mod Scalars
pub mod Run
pub mod Moves
pub mod Ascii
use gnatsd.Prelude.{
  ℕ, zero, suc, ◌+◌, ◌-◌, ◌*◌, ◌≤◌, ◌<◌, Bool, true, false, List, [], ◌∷◌, ◌++◌, Bytes, Option,
  none, some, ltb, leb, ◌==◌, ◌||◌, ◌&&◌, if◌then◌else◌, length, take, drop, get_elem?, ◌≡◌,
}

-- The libraries that the lexer calls: `utf8.DecodeRuneInString` on what is not empty (the rune and
-- its width), `unicode.IsSpace`, `unicode.IsDigit`, `strings.ToLower`.
pub record Unicode : Type 0 where
  pub rune_of : Bytes → ℕ
  pub width_of : Bytes → ℕ
  pub is_space : ℕ → Bool
  pub is_digit : ℕ → Bool
  pub to_lower : Bytes → Bytes

-- What their documentation says: a rune takes at least one byte and is there, an ASCII byte is a
-- rune, an ASCII rune is its byte, no rune has an ASCII byte behind its first, and U+0000 is
-- neither a space nor a digit.
pub record IsUnicode (u : Unicode) : Type 0 where
  pub some_width : (b : ℕ) (bs : Bytes) → 1 ≤ u.width_of (b ∷ bs)
  pub width_inside : (b : ℕ) (bs : Bytes) → u.width_of (b ∷ bs) ≤ length (b ∷ bs)
  pub ascii_rune : (b : ℕ) (bs : Bytes) → b < 128 → u.rune_of (b ∷ bs) ≡ b
  pub ascii_width : (b : ℕ) (bs : Bytes) → b < 128 → u.width_of (b ∷ bs) ≡ 1
  pub ascii_byte : (b : ℕ) (bs : Bytes) → u.rune_of (b ∷ bs) < 128 → u.rune_of (b ∷ bs) ≡ b
  pub short : (b c : ℕ) (bs : Bytes) → c < 128 → u.width_of (b ∷ c ∷ bs) ≡ 1
  pub nul_no_space : u.is_space 0 ≡ false
  pub nul_no_digit : u.is_digit 0 ≡ false

pub data ItemType : Type 0 where
  item_error item_eof item_key item_text item_string item_bool item_integer item_float : ItemType
  item_datetime item_array_start item_array_end item_map_start item_map_end : ItemType
  item_comment_start item_variable item_include : ItemType

-- The text of an error is not modelled: it is empty.
pub record Item : Type 0 where
  pub typ : ItemType
  pub val : Bytes
  pub line : ℕ

-- `stateFn`: a constructor for each function, and `skip` for the closure of `lexSkip`.
pub data State : Type 0 where
  top top_value_end key_start dub_quoted_key quoted_key include_start : State
  include_quoted_string include_dub_quoted_string include_string include_value key key_end : State
  value array_value array_value_end array_end map_key_start map_quoted_key : State
  map_dub_quoted_key map_key map_key_end map_value map_value_end map_end quoted_string : State
  dub_quoted_string string block string_escape string_binary number_start number : State
  convenient_number date_after_year neg_number_start neg_number float_start float ip_addr : State
  comment_start comment : State
  skip : State → State

-- `lexer`. The top of `stack` is its head; `items` has what was sent on the channel.
pub record Lexer : Type 0 where
  pub input : Bytes
  pub start : ℕ
  pub pos : ℕ
  pub width : ℕ
  pub line : ℕ
  pub stack : List State
  pub items : List Item

-- What a state function does: it returns a state, it returns nil, or it panics.
pub data Outcome : Type 0 where
  goes : State → Lexer → Outcome
  ends : Lexer → Outcome
  panics : Outcome

abbrev pub eof : ℕ
eof = 0

-- `lex`, whose state is `top`.
unfoldable pub lex : Bytes → Lexer
lex input = record {
  input = input;
  start = 0;
  pos = 0;
  width = 0;
  line = 1;
  stack = [];
  items = [];
}

abbrev pub push : State → Lexer → Lexer
push s lx = record lx { stack = s ∷ lx.stack }

-- `lx.errorf(...)`
abbrev pub errorf : Lexer → Outcome
errorf lx =
    ends
      (record lx { items = lx.items ++ record { typ = item_error; val = []; line = lx.line } ∷ [] })

unfoldable pub pop_from : List State → Lexer → Outcome
pop_from [] lx = errorf lx
pop_from (s ∷ stack) lx = goes s (record lx { stack = stack })

unfoldable pub pop : Lexer → Outcome
unfolding pop_from
pop lx = pop_from lx.stack lx

-- `lx.input[lx.start:lx.pos]`
abbrev pub pending : Lexer → Bytes
pending lx = take (lx.pos - lx.start) (drop lx.start lx.input)

abbrev pub ignore : Lexer → Lexer
ignore lx = record lx { start = lx.pos }

abbrev pub emitted : ItemType → Lexer → Lexer
emitted typ lx =
    ignore (record lx {
      items = lx.items ++ record { typ = typ; val = pending lx; line = lx.line } ∷ [];
    })

-- A use of `lx.input[lx.start:lx.pos]`, which panics if it is out of range.
abbrev pub sliced : Lexer → Outcome → Outcome
sliced lx o = if leb lx.start lx.pos && leb lx.pos (length lx.input) then o else panics

-- `lx.emit(typ)` and what follows.
abbrev pub emit : ItemType → Lexer → (Lexer → Outcome) → Outcome
emit typ lx after = sliced lx (after (emitted typ lx))

-- The byte at an index is a newline.
unfoldable pub newline_at : ℕ → Bytes → Bool
newline_at i input = elim (get_elem? input i) [ none ↦ false | some b ↦ b == 10 ]

-- `lx.backup()`
unfoldable pub backup : Lexer → Lexer
unfolding newline_at
backup lx =
    let pos = lx.pos - lx.width in
    record lx { pos = pos; line = if newline_at pos lx.input then lx.line - 1 else lx.line }

module _ (u : Unicode) where
  -- What `lx.next()` returns.
  unfoldable pub rune : Lexer → ℕ
  rune lx = if leb (length lx.input) lx.pos then eof else u.rune_of (drop lx.pos lx.input)

  -- The lexer after `lx.next()`.
  unfoldable pub next : Lexer → Lexer
  unfolding newline_at
  next lx = if leb (length lx.input) lx.pos then record lx { width = 0 } else record lx {
    line = if newline_at lx.pos lx.input then lx.line + 1 else lx.line;
    width = u.width_of (drop lx.pos lx.input);
    pos = lx.pos + u.width_of (drop lx.pos lx.input);
  }

  -- The lexer after `lx.peek()`, which returns `rune`.
  unfoldable pub peek : Lexer → Lexer
  unfolding next backup
  peek lx = backup (next lx)

abbrev pub is_number_suffix : ℕ → Bool
is_number_suffix r =
    r == b'k' || (r == b'K' || (r == b'm' || (r == b'M' || (r == b'g' || r == b'G'))))

abbrev pub is_key_separator : ℕ → Bool
is_key_separator r = r == b'=' || r == b':'

abbrev pub is_whitespace : ℕ → Bool
is_whitespace r = r == 9 || r == 32

abbrev pub is_nl : ℕ → Bool
is_nl r = r == 10 || r == 13

abbrev pub is_hexadecimal : ℕ → Bool
is_hexadecimal r =
    (leb b'0' r && leb r b'9') || ((leb b'a' r && leb r b'f') || (leb b'A' r && leb r b'F'))
