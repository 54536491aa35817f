-- ===== src/Server/Parser/Step/Verbs.antt =====
-- The states of server/parser.go that read the letters of a verb and the blanks behind it.
use gnatsd.Prelude.{ℕ, Bool, ◌==◌, ◌||◌, ◌&&◌, not, if◌then◌else◌}
use gnatsd.Server.Parser.State.{
  Op, op_plus, op_minus, op_c, op_p, op_pu, op_pi, op_po, op_s, op_u, op_m, op_i, Parse, parse_err,
  auth_err, Turn, next, stop, Config, emit, unknown_operation, auth_violation,
}

-- `goto parseErr`
abbrev pub parse_error_at : Parse → Turn
parse_error_at p = stop parse_err (emit unknown_operation p)

abbrev pub goes : Op → Parse → Turn
goes s p = next (record p { state = s })

-- `case 'U', 'u'`
abbrev pub either : ℕ → ℕ → ℕ → Bool
either b upper lower = b == upper || b == lower

-- A state with one letter to read.
unfoldable pub letter : ℕ → ℕ → Op → ℕ → Parse → Turn
letter upper lower s b p = if either b upper lower then goes s p else parse_error_at p

-- A state with a blank to read.
unfoldable pub blank : Op → ℕ → Parse → Turn
blank s b p = if either b 32 9 then goes s p else parse_error_at p

-- A state that passes over blanks to the argument.
unfoldable pub skip_blanks : Op → ℕ → ℕ → Parse → Turn
skip_blanks s i b p = if either b 32 9 then next p else next (record p { state = s; arg_start = i })

-- OP_START
unfoldable pub start : Config → ℕ → Parse → Turn
start cfg b p =
    if not (either b b'C' b'c') && p.auth_set
    then stop auth_err (emit auth_violation p)
    else if either b b'P' b'p'
    then goes op_p p
    else if either b b'S' b's'
    then goes op_s p
    else if either b b'U' b'u'
    then goes op_u p
    else if either b b'M' b'm'
    then (if cfg.is_client then parse_error_at p else goes op_m p)
    else if either b b'C' b'c'
    then goes op_c p
    else if either b b'I' b'i'
    then goes op_i p
    else if b == b'+'
    then goes op_plus p
    else if b == b'-'
    then goes op_minus p
    else parse_error_at p

-- OP_P
unfoldable pub after_p : ℕ → Parse → Turn
after_p b p =
    if either b b'U' b'u'
    then goes op_pu p
    else if either b b'I' b'i'
    then goes op_pi p
    else if either b b'O' b'o'
    then goes op_po p
    else parse_error_at p

-- OP_PING, OP_PONG and OP_PLUS_OK: all but the newline is passed over.
unfoldable pub at_newline : ℕ → Parse → Parse → Turn
at_newline b done p = if b == 10 then next done else next p
