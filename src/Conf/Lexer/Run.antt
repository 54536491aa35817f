-- ===== src/Conf/Lexer/Run.antt =====
-- Runs of the lexer of conf/lex.go: one turn of the loop of `nextItem`, and its turns until a state
-- function returns nil.
pub mod Steps
pub mod ValueSteps
pub mod ScalarSteps
pub mod BlockSteps
pub mod Falls
pub mod Ends
pub mod Tests
use gnatsd.Prelude.{ℕ, zero, suc, Bytes, codes}
use gnatsd.Conf.Lexer.{
  Unicode, Lexer, State, Outcome, goes, ends, panics, ItemType, item_string, item_include, ignore,
  lex,
}
use gnatsd.Conf.Lexer
use gnatsd.Conf.Lexer.Keys.{
  lex_top, lex_top_value_end, lex_key_start, quoted_key_body, lex_include_start, quoted_body,
  lex_include_string, lex_include, lex_key, lex_key_end,
}
use gnatsd.Conf.Lexer.Values.{
  lex_value, lex_array_value, lex_array_value_end, lex_array_end, lex_map_key_start, lex_map_key,
  lex_map_key_end, lex_map_value, lex_map_value_end, lex_map_end,
}
use gnatsd.Conf.Lexer.Scalars.{
  lex_string, lex_block, lex_string_escape, lex_string_binary, lex_number_start, lex_number,
  lex_convenient_number, lex_date_after_year, lex_neg_number_start, lex_neg_number, lex_float_start,
  lex_float, lex_ip_addr, lex_comment_start, lex_comment,
}

-- `lx.state(lx)`
unfoldable pub step : Unicode → State → Lexer → Outcome
step u Lexer.top lx = lex_top u lx
step u Lexer.top_value_end lx = lex_top_value_end u lx
step u Lexer.key_start lx = lex_key_start u lx
step u Lexer.dub_quoted_key lx = quoted_key_body u b'"' Lexer.dub_quoted_key Lexer.key_end lx
step u Lexer.quoted_key lx = quoted_key_body u b'\'' Lexer.quoted_key Lexer.key_end lx
step u Lexer.include_start lx = lex_include_start u lx
step u Lexer.include_quoted_string lx =
    quoted_body u b'\'' item_include Lexer.include_quoted_string lx
step u Lexer.include_dub_quoted_string lx =
    quoted_body u b'"' item_include Lexer.include_dub_quoted_string lx
step u Lexer.include_string lx = lex_include_string u lx
step u Lexer.include_value lx = lex_include u lx
step u Lexer.key lx = lex_key u lx
step u Lexer.key_end lx = lex_key_end u lx
step u Lexer.value lx = lex_value u lx
step u Lexer.array_value lx = lex_array_value u lx
step u Lexer.array_value_end lx = lex_array_value_end u lx
step u Lexer.array_end lx = lex_array_end u lx
step u Lexer.map_key_start lx = lex_map_key_start u lx
step u Lexer.map_quoted_key lx = quoted_key_body u b'\'' Lexer.map_quoted_key Lexer.map_key_end lx
step u Lexer.map_dub_quoted_key lx =
    quoted_key_body u b'"' Lexer.map_dub_quoted_key Lexer.map_key_end lx
step u Lexer.map_key lx = lex_map_key u lx
step u Lexer.map_key_end lx = lex_map_key_end u lx
step u Lexer.map_value lx = lex_map_value u lx
step u Lexer.map_value_end lx = lex_map_value_end u lx
step u Lexer.map_end lx = lex_map_end u lx
step u Lexer.quoted_string lx = quoted_body u b'\'' item_string Lexer.quoted_string lx
step u Lexer.dub_quoted_string lx = quoted_body u b'"' item_string Lexer.dub_quoted_string lx
step u Lexer.string lx = lex_string u lx
step u Lexer.block lx = lex_block u lx
step u Lexer.string_escape lx = lex_string_escape u lx
step u Lexer.string_binary lx = lex_string_binary u lx
step u Lexer.number_start lx = lex_number_start u lx
step u Lexer.number lx = lex_number u lx
step u Lexer.convenient_number lx = lex_convenient_number u lx
step u Lexer.date_after_year lx = lex_date_after_year u lx
step u Lexer.neg_number_start lx = lex_neg_number_start u lx
step u Lexer.neg_number lx = lex_neg_number u lx
step u Lexer.float_start lx = lex_float_start u lx
step u Lexer.float lx = lex_float u lx
step u Lexer.ip_addr lx = lex_ip_addr u lx
step u Lexer.comment_start lx = lex_comment_start u lx
step u Lexer.comment lx = lex_comment u lx
step u (Lexer.skip s) lx = goes s (ignore lx)

-- How a run ends: in nil, in a panic of the turn from a lexer, or out of the model's fuel.
pub data Run : Type 0 where
  finished : Lexer → Run
  crashed : Lexer → Run
  unfinished : State → Lexer → Run

abbrev pub run_on : (State → Lexer → Run) → Lexer → Outcome → Run
run_on continued lx (goes s l) = continued s l
run_on continued lx (ends l) = finished l
run_on continued lx panics = crashed lx

unfoldable pub run : ℕ → Unicode → State → Lexer → Run
unfolding step
run zero u s lx = unfinished s lx
run (suc fuel) u s lx = run_on (run fuel u) lx (step u s lx)
