-- ===== src/Server/Parser/Step.antt =====
-- One turn of the loop of `parse` in server/parser.go, state by state.
mod Verbs
pub use Verbs.{goes, parse_error_at}
unfoldable pub use Verbs.{letter, blank, skip_blanks, start, after_p, at_newline}
use gnatsd.Prelude.{
  ℕ, ◌+◌, ◌-◌, ◌≤◌, Bool, true, false, List, [], ◌∷◌, ◌++◌, Bytes, Option, none, some, ltb, leb,
  ◌==◌, ◌||◌, ◌&&◌, not, if◌then◌else◌, length, take, drop,
}
use gnatsd.Prelude.Int.{ℤ, pos, negsuc}
use gnatsd.Server.Args.{
  PubArg, ArgStatus, accepted, parse_error, bad_size, max_payload, process_pub, process_msg_args,
  reports_subject, split_arg, sub_args, unsub_args,
}
use gnatsd.Server.Parser.State.{
  Op, op_start, msg_payload, msg_end, pub_arg, Event, Parse, Failure, parse_err, handler_err,
  auth_err, panic, Turn, next, jump, stop, Config, emit, jump_to, len_cr_lf,
}
use gnatsd.Server.Parser.State

-- `buf[a:b]`
abbrev pub slice : ℕ → ℕ → Bytes → Bytes
slice a b buf = take (b - a) (drop a buf)

-- The cases of a state that reads an argument; `complete` is what follows the newline, given the
-- argument.
unfoldable pub read_arg : Bytes → ℕ → ℕ → Parse → (Bytes → Turn) → Turn
read_arg buf i b p complete =
    if b == 13
    then next (record p { drop = 1 })
    else if b == 10
    then complete (elim p.arg_buf [ none ↦ slice p.arg_start (i - p.drop) buf | some arg ↦ arg ])
    else next (elim p.arg_buf [ none ↦ p | some arg ↦ record p { arg_buf = some (arg ++ b ∷ []) } ])

-- `c.argBuf = nil` where it held the argument, before the handler is called.
abbrev pub taken : Parse → Parse
taken p = record p { arg_buf = none }

-- `c.drop, c.as, c.state = 0, i+1, OP_START`
abbrev pub restart : ℕ → Parse → Parse
restart i p = record p { drop = 0; arg_start = i + 1; state = op_start }

-- SUB_ARG and UNSUB_ARG. `processSub` and `processUnsub` fail on a wrong number of words.
unfoldable pub sub_complete : ℕ → Parse → Bytes → Turn
sub_complete i p arg =
    let p' = emit (State.sub arg) (taken p) in
    elim (sub_args (split_arg arg)) [ none ↦ stop handler_err p' | some _ ↦ next (restart i p') ]

unfoldable pub unsub_complete : ℕ → Parse → Bytes → Turn
unsub_complete i p arg =
    let p' = emit (State.unsub arg) (taken p) in
    elim (unsub_args (split_arg arg)) [ none ↦ stop handler_err p' | some _ ↦ next (restart i p') ]

-- MINUS_ERR_ARG, INFO_ARG and CONNECT_ARG, which leaves `c.as` alone.
unfoldable pub err_complete : ℕ → Parse → Bytes → Turn
err_complete i p arg = next (restart i (emit (State.err arg) (taken p)))

unfoldable pub info_complete : Config → ℕ → Parse → Bytes → Turn
info_complete cfg i p arg =
    let p' = emit (State.info arg) (taken p) in
    if cfg.info_fails arg then stop handler_err p' else next (restart i p')

unfoldable pub connect_complete : Config → Parse → Bytes → Turn
connect_complete cfg p arg =
    let p' = emit (State.connect arg) (taken p) in
    if cfg.connect_fails arg
    then stop handler_err p'
    else next (record p' { drop = 0; state = op_start; auth_set = cfg.auth_after arg })

-- The accepted size.
abbrev pub size_of : PubArg → ℕ
size_of pa = elim pa.size [ pos n ↦ n | negsuc _ ↦ 0 ]

-- PUB_ARG after `processPub`: on to the payload; without a saved message the index jumps over it.
abbrev pub pub_after : Config → ℕ → Parse → PubArg × ArgStatus → Turn
pub_after cfg i p r =
    let p' = record p { pa = r.0 } in
    let said = if reports_subject cfg.pedantic r.0 r.1 then emit State.invalid_subject p' else p' in
    let q = record said { drop = 0; arg_start = i + 1; state = msg_payload } in
    elim r.1 [
      | accepted ↦ elim q.msg_buf [ none ↦ jump_to q (i + size_of r.0) | some _ ↦ next q ]
      | parse_error ↦ stop handler_err p'
      | bad_size ↦ stop handler_err p'
      | max_payload ↦ stop handler_err (emit (State.max_payload r.0.size) p')
    ]

-- PUB_ARG
unfoldable pub pub_complete : Config → ℕ → Parse → Bytes → Turn
pub_complete cfg i p arg = pub_after cfg i p (process_pub cfg.mpay arg p.pa)

-- MSG_ARG: the same for a message of a route.
unfoldable pub msg_complete : ℕ → Parse → Bytes → Turn
msg_complete i p arg =
    let r = process_msg_args arg p.pa in
    let p' = record p { pa = r.0 } in
    elim r.1 [
      | accepted ↦
          jump_to (record p' { drop = 0; arg_start = i + 1; state = msg_payload })
            (i + 1 + size_of r.0)
      | other ↦ stop handler_err p'
    ]

-- MSG_PAYLOAD
abbrev pub payload_done : ℕ → Bytes → Parse → Parse
payload_done size m p = record p {
  msg_buf = some m;
  state = if leb size (length m) then msg_end else msg_payload;
}

unfoldable pub payload : Bytes → ℕ → ℕ → Parse → Turn
payload buf i b p =
    let size = size_of p.pa in
    elim p.msg_buf [
      | none ↦ next (if leb (p.arg_start + size) i then record p { state = msg_end } else p)
      | some m ↦
          let want = size - length m in
          let avail = length buf - i in
          let to_copy = if ltb avail want then avail else want in
          if ltb 0 to_copy
          then jump (payload_done size (m ++ slice i (i + to_copy) buf) p) (i + to_copy)
          else next (payload_done size (m ++ b ∷ []) p)
    ]

-- MSG_END
unfoldable pub message_end : Bytes → ℕ → ℕ → Parse → Turn
message_end buf i b p =
    let m : Bytes = elim p.msg_buf [
      | none ↦ slice p.arg_start (i + 1) buf
      | some m ↦ m ++ b ∷ []
    ] in
    if b == 10
    then (if length m == size_of p.pa + len_cr_lf
        then next
            (restart i (record (emit (State.msg p.pa m) p) { arg_buf = none; msg_buf = none }))
        else stop parse_err (emit State.unknown_operation (record p { msg_buf = some m })))
    else next (elim p.msg_buf [ none ↦ p | some m ↦ record p { msg_buf = some (m ++ b ∷ []) } ])
