-- ===== src/Server/Parser/Loop.antt =====
-- `parse` in server/parser.go: the loop over the buffer, and what follows it.
use gnatsd.Prelude.{
  ℕ, zero, suc, ◌+◌, ◌-◌, ◌*◌, Bool, true, false, [], ◌++◌, Bytes, Option, none, some, ltb, ◌&&◌,
  if◌then◌else◌, length, drop, get_elem?,
}
use gnatsd.Server.Parser.State.{
  Op, Parse, Failure, max_control_line, out_of_fuel, Turn, next, jump, stop, Config, emit,
  control_line_size, len_cr_lf,
}
use gnatsd.Server.Parser.State
use gnatsd.Server.Parser.Step.{
  letter, blank, skip_blanks, start, after_p, at_newline, read_arg, sub_complete, unsub_complete,
  err_complete, info_complete, connect_complete, pub_complete, msg_complete, payload, message_end,
  slice, size_of,
}

-- `switch c.state`
unfoldable pub turn : Config → Bytes → ℕ → ℕ → Parse → Op → Turn
turn cfg buf i b p State.op_start = start cfg b p
turn cfg buf i b p State.op_p = after_p b p
turn cfg buf i b p State.op_pu = letter b'B' b'b' State.op_pub b p
turn cfg buf i b p State.op_pub = blank State.op_pub_spc b p
turn cfg buf i b p State.op_pub_spc = skip_blanks State.pub_arg i b p
turn cfg buf i b p State.pub_arg = read_arg buf i b p (pub_complete cfg i p)
turn cfg buf i b p State.msg_payload = payload buf i b p
turn cfg buf i b p State.msg_end = message_end buf i b p
turn cfg buf i b p State.op_s = letter b'U' b'u' State.op_su b p
turn cfg buf i b p State.op_su = letter b'B' b'b' State.op_sub b p
turn cfg buf i b p State.op_sub = blank State.op_sub_spc b p
turn cfg buf i b p State.op_sub_spc = skip_blanks State.sub_arg i b p
turn cfg buf i b p State.sub_arg = read_arg buf i b p (sub_complete i p)
turn cfg buf i b p State.op_u = letter b'N' b'n' State.op_un b p
turn cfg buf i b p State.op_un = letter b'S' b's' State.op_uns b p
turn cfg buf i b p State.op_uns = letter b'U' b'u' State.op_unsu b p
turn cfg buf i b p State.op_unsu = letter b'B' b'b' State.op_unsub b p
turn cfg buf i b p State.op_unsub = blank State.op_unsub_spc b p
turn cfg buf i b p State.op_unsub_spc = skip_blanks State.unsub_arg i b p
turn cfg buf i b p State.unsub_arg = read_arg buf i b p (unsub_complete i p)
turn cfg buf i b p State.op_pi = letter b'N' b'n' State.op_pin b p
turn cfg buf i b p State.op_pin = letter b'G' b'g' State.op_ping b p
turn cfg buf i b p State.op_ping =
    at_newline b (record (emit State.ping p) { drop = 0; state = State.op_start }) p
turn cfg buf i b p State.op_po = letter b'N' b'n' State.op_pon b p
turn cfg buf i b p State.op_pon = letter b'G' b'g' State.op_pong b p
turn cfg buf i b p State.op_pong =
    at_newline b (record (emit State.pong p) { drop = 0; state = State.op_start }) p
turn cfg buf i b p State.op_c = letter b'O' b'o' State.op_co b p
turn cfg buf i b p State.op_co = letter b'N' b'n' State.op_con b p
turn cfg buf i b p State.op_con = letter b'N' b'n' State.op_conn b p
turn cfg buf i b p State.op_conn = letter b'E' b'e' State.op_conne b p
turn cfg buf i b p State.op_conne = letter b'C' b'c' State.op_connec b p
turn cfg buf i b p State.op_connec = letter b'T' b't' State.op_connect b p
turn cfg buf i b p State.op_connect = skip_blanks State.connect_arg i b p
turn cfg buf i b p State.connect_arg = read_arg buf i b p (connect_complete cfg p)
turn cfg buf i b p State.op_m = letter b'S' b's' State.op_ms b p
turn cfg buf i b p State.op_ms = letter b'G' b'g' State.op_msg b p
turn cfg buf i b p State.op_msg = blank State.op_msg_spc b p
turn cfg buf i b p State.op_msg_spc = skip_blanks State.msg_arg i b p
turn cfg buf i b p State.msg_arg = read_arg buf i b p (msg_complete i p)
turn cfg buf i b p State.op_i = letter b'N' b'n' State.op_in b p
turn cfg buf i b p State.op_in = letter b'F' b'f' State.op_inf b p
turn cfg buf i b p State.op_inf = letter b'O' b'o' State.op_info b p
turn cfg buf i b p State.op_info = skip_blanks State.info_arg i b p
turn cfg buf i b p State.info_arg = read_arg buf i b p (info_complete cfg i p)
turn cfg buf i b p State.op_plus = letter b'O' b'o' State.op_plus_o b p
turn cfg buf i b p State.op_plus_o = letter b'K' b'k' State.op_plus_ok b p
turn cfg buf i b p State.op_plus_ok = at_newline b (record p { drop = 0; state = State.op_start }) p
turn cfg buf i b p State.op_minus = letter b'E' b'e' State.op_minus_e b p
turn cfg buf i b p State.op_minus_e = letter b'R' b'r' State.op_minus_er b p
turn cfg buf i b p State.op_minus_er = letter b'R' b'r' State.op_minus_err b p
turn cfg buf i b p State.op_minus_err = blank State.op_minus_err_spc b p
turn cfg buf i b p State.op_minus_err_spc = skip_blanks State.minus_err_arg i b p
turn cfg buf i b p State.minus_err_arg = read_arg buf i b p (err_complete i p)

-- How `parse` returns: `none` is nil.
abbrev pub Return : Type 0
Return = Parse × Option Failure

abbrev pub fails : Failure → Parse → Return
fails e p = (p, some e)

unfoldable pub is_arg : Op → Bool
is_arg State.sub_arg = true
is_arg State.unsub_arg = true
is_arg State.pub_arg = true
is_arg State.msg_arg = true
is_arg State.minus_err_arg = true
is_arg State.connect_arg = true
is_arg State.info_arg = true
is_arg _ = false

unfoldable pub is_message : Op → Bool
is_message State.msg_payload = true
is_message State.msg_end = true
is_message _ = false

abbrev pub or_empty : Option Bytes → Bytes
or_empty none = []
or_empty (some b) = b

-- `clonePubArg`: the slices of `c.pa` move to the scratch buffer, with the same bytes.
unfoldable pub clone_pub_arg : Parse → Parse
clone_pub_arg p = record p {
  arg_buf = some (p.pa.subject ++ (or_empty p.pa.reply ++ (or_empty p.pa.sid ++ p.pa.szb)));
}

-- The end of `parse` for a message that is split.
unfoldable pub save_message : Bytes → Parse → Return
unfolding clone_pub_arg
save_message buf p =
    let q : Parse = elim p.arg_buf [ none ↦ clone_pub_arg p | some _ ↦ p ] in
    let rest = drop p.arg_start buf in
    let size = size_of p.pa in
    if ltb control_line_size (size + length (or_empty q.arg_buf))
      && ltb (size + len_cr_lf) (length rest)
    then fails State.parse_err (emit State.unknown_operation q)
    else (record q { msg_buf = some rest }, none)

unfoldable pub split_message : Bytes → Parse → Return
unfolding is_message save_message
split_message buf p =
    if is_message p.state
    then elim p.msg_buf [ none ↦ save_message buf p | some _ ↦ (p, none) ]
    else (p, none)

-- The end of `parse` for an argument that is split.
unfoldable pub save_arg : Bytes → Parse → Parse
save_arg buf p = elim p.arg_buf [
  | none ↦ record p { arg_buf = some (slice p.arg_start (length buf - p.drop) buf) }
  | some _ ↦ p
]

unfoldable pub finish : Config → Bytes → Parse → Return
unfolding is_arg save_arg split_message
finish cfg buf p =
    let q = save_arg buf p in
    if is_arg p.state
    then (if ltb cfg.max_control_line (length (or_empty q.arg_buf))
        then fails max_control_line (emit State.max_line q)
        else split_message buf q)
    else split_message buf p

-- What follows one turn at index `i`; `continued` is the rest of the loop from an index.
abbrev pub proceed : (ℕ → Parse → Return) → ℕ → Turn → Return
proceed continued i (next q) = continued (i + 1) q
proceed continued i (jump q j) = continued j q
proceed continued i (stop e q) = fails e q

-- `for i = 0; i < len(buf); i++`
unfoldable pub loop : ℕ → Config → Bytes → ℕ → Parse → Return
unfolding turn finish
loop zero cfg buf i p = fails out_of_fuel p
loop (suc fuel) cfg buf i p = elim (get_elem? buf i) [
  | none ↦ finish cfg buf p
  | some b ↦ proceed (loop fuel cfg buf) i (turn cfg buf i b p p.state)
]

-- `parse`, at the snapshot `auth_set` of `c.isAuthTimerSet()`.
unfoldable pub parse : Config → Bool → Bytes → Parse → Return
unfolding loop
parse cfg auth_set buf p = loop (2 * length buf + 2) cfg buf 0 (record p { auth_set = auth_set })
