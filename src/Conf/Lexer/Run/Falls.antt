-- ===== src/Conf/Lexer/Run/Falls.antt =====
-- Every turn of the lexer of conf/lex.go, state by state.
use gnatsd.Prelude.{refl, arith}
use gnatsd.Conf.Lexer.{
  Unicode, IsUnicode, Lexer, Item, State, skip, ItemType, Outcome, goes, ends, panics, rune, next,
  peek, backup, lex, ignore, item_string, item_include,
}
use gnatsd.Conf.Lexer
use gnatsd.Conf.Lexer.Moves.{well_stacked, needs, hangs, rank_in, rank_end, IsValid, Good}
use gnatsd.Conf.Lexer.Run.{step}
use gnatsd.Conf.Lexer.Run.Steps
use gnatsd.Conf.Lexer.Run.ValueSteps
use gnatsd.Conf.Lexer.Run.ScalarSteps
use gnatsd.Conf.Lexer.Run.BlockSteps

module _ (u : Unicode) (v : IsUnicode u) where
  -- One turn at a valid state: it goes on in a valid state, with less left to do or hanging at the end
  -- of the input; or it ends; and it panics only for an unquoted string at the end of the input.
  pub step-Good : (s : State) (lx : Lexer) → IsValid s lx → Good s lx (step u s lx)
  unfolding step needs hangs rank_in rank_end well_stacked
  step-Good Lexer.top lx h = Steps.lex_top-Good u v lx h
  step-Good Lexer.top_value_end lx h = Steps.lex_top_value_end-Good u v lx h
  step-Good Lexer.key_start lx h = Steps.lex_key_start-Good u v lx h
  step-Good Lexer.dub_quoted_key lx h =
      Steps.quoted_key_body-Good u v b'"' Lexer.dub_quoted_key Lexer.key_end lx (omega arith) h refl
        refl refl refl refl (omega arith) (omega arith) refl refl
  step-Good Lexer.quoted_key lx h =
      Steps.quoted_key_body-Good u v b'\'' Lexer.quoted_key Lexer.key_end lx (omega arith) h refl
        refl refl refl refl (omega arith) (omega arith) refl refl
  step-Good Lexer.include_start lx h = Steps.lex_include_start-Good u v lx h
  step-Good Lexer.include_quoted_string lx h =
      Steps.quoted_body-Good u v b'\'' item_include Lexer.include_quoted_string lx (omega arith) h
        refl refl refl refl refl
  step-Good Lexer.include_dub_quoted_string lx h =
      Steps.quoted_body-Good u v b'"' item_include Lexer.include_dub_quoted_string lx (omega arith)
        h refl refl refl refl refl
  step-Good Lexer.include_string lx h = Steps.lex_include_string-Good u v lx h
  step-Good Lexer.include_value lx h = Steps.lex_include-Good u v lx h
  step-Good Lexer.key lx h = Steps.lex_key-Good u v lx h
  step-Good Lexer.key_end lx h = Steps.lex_key_end-Good u v lx h
  step-Good Lexer.value lx h = ValueSteps.lex_value-Good u v lx h
  step-Good Lexer.array_value lx h = ValueSteps.lex_array_value-Good u v lx h
  step-Good Lexer.array_value_end lx h = ValueSteps.lex_array_value_end-Good u v lx h
  step-Good Lexer.array_end lx h = ValueSteps.lex_array_end-Good u v lx h
  step-Good Lexer.map_key_start lx h = ValueSteps.lex_map_key_start-Good u v lx h
  step-Good Lexer.map_quoted_key lx h =
      Steps.quoted_key_body-Good u v b'\'' Lexer.map_quoted_key Lexer.map_key_end lx (omega arith) h
        refl refl refl refl refl (omega arith) (omega arith) refl refl
  step-Good Lexer.map_dub_quoted_key lx h =
      Steps.quoted_key_body-Good u v b'"' Lexer.map_dub_quoted_key Lexer.map_key_end lx
        (omega arith) h refl refl refl refl refl (omega arith) (omega arith) refl refl
  step-Good Lexer.map_key lx h = ValueSteps.lex_map_key-Good u v lx h
  step-Good Lexer.map_key_end lx h = ValueSteps.lex_map_key_end-Good u v lx h
  step-Good Lexer.map_value lx h = ValueSteps.lex_map_value-Good u v lx h
  step-Good Lexer.map_value_end lx h = ValueSteps.lex_map_value_end-Good u v lx h
  step-Good Lexer.map_end lx h = ValueSteps.lex_map_end-Good u v lx h
  step-Good Lexer.quoted_string lx h =
      Steps.quoted_body-Good u v b'\'' item_string Lexer.quoted_string lx (omega arith) h refl refl
        refl refl refl
  step-Good Lexer.dub_quoted_string lx h =
      Steps.quoted_body-Good u v b'"' item_string Lexer.dub_quoted_string lx (omega arith) h refl
        refl refl refl refl
  step-Good Lexer.string lx h = ScalarSteps.lex_string-Good u v lx h
  step-Good Lexer.block lx h = BlockSteps.lex_block-Good u v lx h
  step-Good Lexer.string_escape lx h = ScalarSteps.lex_string_escape-Good u v lx h
  step-Good Lexer.string_binary lx h = ScalarSteps.lex_string_binary-Good u v lx h
  step-Good Lexer.number_start lx h = ScalarSteps.lex_number_start-Good u v lx h
  step-Good Lexer.number lx h = ScalarSteps.lex_number-Good u v lx h
  step-Good Lexer.convenient_number lx h = ScalarSteps.lex_convenient_number-Good u v lx h
  step-Good Lexer.date_after_year lx h = BlockSteps.lex_date_after_year-Good u v lx h
  step-Good Lexer.neg_number_start lx h = ScalarSteps.lex_neg_number_start-Good u v lx h
  step-Good Lexer.neg_number lx h = ScalarSteps.lex_neg_number-Good u v lx h
  step-Good Lexer.float_start lx h = ScalarSteps.lex_float_start-Good u v lx h
  step-Good Lexer.float lx h = ScalarSteps.lex_float-Good u v lx h
  step-Good Lexer.ip_addr lx h = ScalarSteps.lex_ip_addr-Good u v lx h
  step-Good Lexer.comment_start lx h = ScalarSteps.lex_comment_start-Good u v lx h
  step-Good Lexer.comment lx h = ScalarSteps.lex_comment-Good u v lx h
  step-Good (skip s) lx h = ground arith
