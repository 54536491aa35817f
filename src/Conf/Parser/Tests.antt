-- ===== src/Conf/Parser/Tests.antt =====
-- Parsing of small configuration files.
use gnatsd.Prelude.{true, [], ◌∷◌, none, codes, ◌≡◌, refl, length, bytes_eq}
use gnatsd.Conf.Lexer.{rune, next, peek, backup, pop}
use gnatsd.Conf.Lexer.Keys.{
  lex_top, lex_top_value_end, lex_key_start, lex_key, lex_key_end, quoted_body,
}
use gnatsd.Conf.Lexer.Values.{lex_value}
use gnatsd.Conf.Lexer.Scalars.{lex_number_start, lex_number}
use gnatsd.Conf.Lexer.Run.Tests.{ascii}
use gnatsd.Conf.Parser.{
  str, bool, int, array, mapping, nil, cons, Fields, set_value, get_field, end, field, ok, err,
  panic,
}
use gnatsd.Conf.Parser.Items.{Libs, number, process, done}
use gnatsd.Conf.Parser.Files.{initial, parsed, parse, bottom}
use gnatsd.Conf.Parser.RoundTrip.{at, item, fields_items, has_plain, process-fields_items}
use gnatsd.Conf.Lexer.{item_eof}

-- Libraries that know no number and no time but these.
abbrev simple_libs : Libs
simple_libs = record {
  parse_int = λ s. number (length s);
  parse_float = λ s. number 0;
  parse_time = λ s. none;
  trim_space = λ s. s;
  to_lower = λ s. s;
  digits = length;
}

-- tls { verify: true }, urls = ["a", "b"]
abbrev some_fields : Fields
some_fields =
    field (codes "tls") (mapping (field (codes "verify") (bool true) end))
      (field (codes "urls") (array (cons (str (codes "a")) (cons (str (codes "b")) nil))) end)

some_fields_plain : has_plain some_fields ≡ true
unfolding has_plain get_field bytes_eq
some_fields_plain = refl

process-fields_items_example :
    (process simple_libs
        (λ name. ok none)
        (λ name. err)
        (fields_items some_fields (item item_eof [] ∷ []))
        (initial (codes "/etc"))
      ≡ done (at (mapping some_fields ∷ []) [] (codes "/etc")))
    × (parsed panic (
          process simple_libs
            (λ name. ok none)
            (λ name. err)
            (fields_items some_fields (item item_eof [] ∷ []))
            (initial (codes "/etc")))
        ≡ ok some_fields)
process-fields_items_example =
    process-fields_items simple_libs (λ name. ok none) (λ name. err) refl refl some_fields
      (codes "/etc") some_fields_plain

-- A file with a number and a string.
parse_two :
    parse 1 ascii simple_libs
      record { lookup_env = λ v. none; read_file = λ f. none; dir = λ f. f; join = λ d f. f }
      (codes "port = 4222\nhost: \"a b\"\n")
      []
    ≡ ok (field (codes "port") (int 4) (field (codes "host") (str (codes "a b")) end))
unfolding parse lex_top rune lex_key_start backup next lex_key peek bytes_eq lex_key_end lex_value
    lex_number_start lex_number pop lex_top_value_end quoted_body set_value bottom
parse_two = refl
