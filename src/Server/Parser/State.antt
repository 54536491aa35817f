-- ===== src/Server/Parser/State.antt =====
-- The state of the parser of server/parser.go, what it hands to the client's handlers, and the
-- outcome of one byte.
use gnatsd.Prelude.{ℕ, ◌^◌, Bool, List, [], ◌∷◌, ◌++◌, Bytes, Option, ltb, if◌then◌else◌}
use gnatsd.Prelude.Int.{ℤ}
use gnatsd.Server.Args.{PubArg}

pub data Op : Type 0 where
  op_start op_plus op_plus_o op_plus_ok op_minus op_minus_e op_minus_er op_minus_err : Op
  op_minus_err_spc minus_err_arg op_c op_co op_con op_conn op_conne op_connec op_connect : Op
  connect_arg op_p op_pu op_pub op_pub_spc pub_arg op_pi op_pin op_ping op_po op_pon op_pong : Op
  msg_payload msg_end op_s op_su op_sub op_sub_spc sub_arg op_u op_un op_uns op_unsu : Op
  op_unsub op_unsub_spc unsub_arg op_m op_ms op_msg op_msg_spc msg_arg op_i op_in op_inf : Op
  op_info info_arg : Op

-- A call of a handler, or an error line sent to the client.
pub data Event : Type 0 where
  sub unsub connect info err : Bytes → Event
  ping pong invalid_subject auth_violation unknown_operation max_line : Event
  max_payload : ℤ → Event
  msg : PubArg → Bytes → Event

-- `parseState`, with the local `authSet` and the events so far. `arg_start` is `c.as`; a nil buffer
-- is `none`.
pub record Parse : Type 0 where
  pub state : Op
  pub arg_start : ℕ
  pub drop : ℕ
  pub pa : PubArg
  pub arg_buf : Option Bytes
  pub msg_buf : Option Bytes
  pub auth_set : Bool
  pub events : List Event

-- `out_of_fuel` belongs to the model only; `panic` is an index out of range.
pub data Failure : Type 0 where
  parse_err auth_err handler_err max_control_line panic out_of_fuel : Failure

-- What one turn of the loop does: on to the next byte, on to the byte at an index, or a return.
pub data Turn : Type 0 where
  next : Parse → Turn
  jump : Parse → ℕ → Turn
  stop : Failure → Parse → Turn

-- The client and the server around the parser. `processConnect` and `processInfo` decode JSON:
-- whether they fail, and whether the timer of authorization runs afterwards, are parameters.
pub record Config : Type 0 where
  pub max_control_line : ℕ
  pub is_client : Bool
  pub mpay : ℕ
  pub pedantic : Bool
  pub connect_fails : Bytes → Bool
  pub info_fails : Bytes → Bool
  pub auth_after : Bytes → Bool

abbrev pub control_line_size : ℕ
control_line_size = 1024

abbrev pub len_cr_lf : ℕ
len_cr_lf = 2

abbrev pub emit : Event → Parse → Parse
emit e p = record p { events = p.events ++ e ∷ [] }

-- The index is a Go `int`: past 2 ^ 63 - 1 it wraps to a negative one, and reading there panics.
abbrev pub jump_to : Parse → ℕ → Turn
jump_to p i = if ltb i (2 ^ 63) then jump p i else stop panic p
