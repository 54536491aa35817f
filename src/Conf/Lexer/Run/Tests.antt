-- ===== src/Conf/Lexer/Run/Tests.antt =====
-- Runs of the lexer of conf/lex.go on small files.
use gnatsd.Prelude.{
  ℕ, List, [], ◌∷◌, Bytes, codes, bytes_eq, ◌≡◌, refl, map, leb, ◌&&◌, ◌||◌, ◌==◌, if◌then◌else◌,
  length, ◌≤◌, arith, ◌+◌,
}
use gnatsd.Conf.Lexer.{
  Unicode, IsUnicode, Lexer, Item, lex, item_key, item_string, item_eof, item_integer, item_bool,
  ItemType, rune, next, peek, backup, pop, newline_at,
}
use gnatsd.Conf.Lexer
use gnatsd.Conf.Lexer.Keys.{
  lex_top, lex_top_value_end, lex_key_start, quoted_body, lex_key, lex_key_end,
}
use gnatsd.Conf.Lexer.Values.{lex_value}
use gnatsd.Conf.Lexer.Scalars.{lex_string, lex_block, is_bool, lex_number_start, lex_number}
use gnatsd.Conf.Lexer.Moves.{IsValid, Good, well_stacked, needs, hangs}
use gnatsd.Conf.Lexer.Run.{run, step, Run, finished, crashed, unfinished}
use gnatsd.Conf.Lexer.Run.Falls.{step-Good}
use gnatsd.Conf.Lexer.Run.Ends.{Ended, lex-Ended, run-hangs}

-- Text of ASCII bytes only: every byte is a rune.
abbrev lower_byte : ℕ → ℕ
lower_byte b = if leb b'A' b && leb b b'Z' then b + 32 else b

abbrev ascii_rune_of : Bytes → ℕ
ascii_rune_of [] = 0
ascii_rune_of (b ∷ bs) = b

abbrev pub ascii : Unicode
ascii = record {
  rune_of = ascii_rune_of;
  width_of = λ bs. 1;
  is_space = λ r. (leb 9 r && leb r 13) || r == 32;
  is_digit = λ r. leb b'0' r && leb r b'9';
  to_lower = map lower_byte;
}

pub ascii-IsUnicode : IsUnicode ascii
ascii-IsUnicode = record {
  some_width = λ b bs. omega arith;
  width_inside = λ b bs. omega arith;
  ascii_rune = λ b bs h. refl;
  ascii_width = λ b bs h. refl;
  ascii_byte = λ b bs h. refl;
  short = λ b c bs h. refl;
  nul_no_space = refl;
  nul_no_digit = refl;
}

abbrev texts : List Item → List (ItemType × Bytes)
texts = map (λ i. (i.typ, i.val))

abbrev items_of : Run → List (ItemType × Bytes)
items_of (finished lx) = texts lx.items
items_of _ = []

two_values :
    items_of (run 60 ascii Lexer.top (lex (codes "port = 4222\nhost: \"a b\"\n")))
    ≡ (item_key, codes "port")
      ∷ (item_integer, codes "4222")
      ∷ (item_key, codes "host")
      ∷ (item_string, codes "a b")
      ∷ (item_eof, [])
      ∷ []
unfolding run lex_top lex_top_value_end lex_key_start lex_key lex_key_end lex_value lex_number_start
    lex_number quoted_body rune next peek backup lex pop bytes_eq
two_values = refl

-- A value that is missing at the end of the file makes the lexer panic.
no_value : (l : Lexer) × (run 60 ascii Lexer.top (lex (codes "port =")) ≡ crashed l)
unfolding run lex_top lex_top_value_end lex_key_start lex_key lex_key_end lex_value lex_string
    is_bool rune next peek backup lex pop bytes_eq
no_value = (_, refl)

-- A block that ends with the file keeps its parenthesis.
block_at_end :
    items_of (run 60 ascii Lexer.top (lex (codes "a (\nb\n)")))
    ≡ (item_key, codes "a") ∷ (item_string, codes "\nb\n)") ∷ (item_eof, []) ∷ []
unfolding run lex_top lex_top_value_end lex_key_start lex_key lex_key_end lex_value lex_block rune
    next peek backup lex pop bytes_eq
block_at_end = refl

start-IsValid : IsValid Lexer.top (lex (codes "a"))
unfolding lex well_stacked needs
start-IsValid = record {
  ordered = omega arith;
  inside = omega arith;
  stacked = refl;
  enough = omega arith;
}

step-Good_example : Good Lexer.top (lex (codes "a")) (step ascii Lexer.top (lex (codes "a")))
step-Good_example = step-Good ascii ascii-IsUnicode Lexer.top (lex (codes "a")) start-IsValid

lex-Ended_example : Ended (run 52 ascii Lexer.top (lex (codes "a = 1")))
lex-Ended_example = lex-Ended ascii ascii-IsUnicode (codes "a = 1")

-- Behind the opening quote of a string that is never closed.
abbrev open_quote : Lexer
open_quote = record {
  input = codes "a = \"b";
  start = 5;
  pos = 6;
  width = 1;
  line = 1;
  stack = Lexer.top_value_end ∷ [];
  items = [];
}

run-hangs_example :
    (l : Lexer) × (run 1000 ascii Lexer.dub_quoted_string open_quote
      ≡ unfinished Lexer.dub_quoted_string l)
    × ((length l.input ≤ l.pos) × (l.items ≡ []))
unfolding hangs
run-hangs_example =
    run-hangs ascii ascii-IsUnicode 1000 Lexer.dub_quoted_string open_quote refl (omega arith)
