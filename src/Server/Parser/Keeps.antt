-- ===== src/Server/Parser/Keeps.antt =====
-- What single turns of server/parser.go keep for a client: no state of a route, and only messages of
-- the announced size, within the maximum of the server.
use gnatsd.Prelude.{
  ℕ, ◌+◌, ◌-◌, Bytes, none, some, ◌≡◌, refl, arith, length, Bool, true, false, List, [], ◌∷◌, ◌++◌,
  ◌&&◌, ◌||◌, ◌==◌, leb,
}
use gnatsd.Server.Args
use gnatsd.Server.Args.{PubArg, process_pub, pub_args, pub_size, reports_subject, split_arg}
use gnatsd.Server.Parser.State.{
  Op, Parse, Event, msg, Failure, Turn, next, jump, stop, Config, emit, len_cr_lf,
}
use gnatsd.Server.Parser.State
use gnatsd.Server.Parser.Step.{
  letter, blank, skip_blanks, start, after_p, at_newline, read_arg, sub_complete, unsub_complete,
  err_complete, info_complete, connect_complete, pub_complete, payload, message_end, slice, size_of,
}
use gnatsd.Server.Parser.Loop.{turn, is_message}

-- The states that read a message of a route.
unfoldable pub is_route : Op → Bool
is_route State.op_m = true
is_route State.op_ms = true
is_route State.op_msg = true
is_route State.op_msg_spc = true
is_route State.msg_arg = true
is_route _ = false

-- A size within the maximum of the server, where 0 is no maximum.
abbrev pub fits : ℕ → ℕ → Bool
fits mpay n = mpay == 0 || leb n mpay

-- A message has the bytes of its size and CRLF, and its size fits.
abbrev pub sized : ℕ → Event → Bool
sized mpay (msg pa m) = length m == size_of pa + len_cr_lf && fits mpay (size_of pa)
sized mpay _ = true

abbrev pub all_sized : ℕ → List Event → Bool
all_sized mpay [] = true
all_sized mpay (e ∷ events) = sized mpay e && all_sized mpay events

pub record IsSafe (cfg : Config) (p : Parse) : Type 0 where
  pub no_route : is_route p.state ≡ false
  pub payload_fits : is_message p.state ≡ true → fits cfg.mpay (size_of p.pa) ≡ true
  pub events_sized : all_sized cfg.mpay p.events ≡ true

pub all_sized-emit :
    (mpay : ℕ) (events : List Event) (e : Event)
    → all_sized mpay (events ++ e ∷ []) ≡ all_sized mpay events && sized mpay e
all_sized-emit mpay [] e = ground arith
all_sized-emit mpay (f ∷ events) e = ground (arith, all_sized-emit mpay events e)

abbrev pub after : Turn → Parse
after (next q) = q
after (jump q j) = q
after (stop e q) = q

process_pub-fits :
    (mpay : ℕ) (arg : Bytes) (pa : PubArg)
    → (process_pub mpay arg pa).1 ≡ Args.accepted
    → fits mpay (size_of (process_pub mpay arg pa).0) ≡ true
unfolding process_pub pub_args pub_size
process_pub-fits mpay arg pa h = ground arith

abbrev pub Keeps : Config → Parse → Type 0
Keeps cfg q =
    (is_route q.state ≡ false)
    × (is_message q.state ≡ true → fits cfg.mpay (size_of q.pa) ≡ true)
    × (all_sized cfg.mpay q.events ≡ true)

pub_complete-Keeps :
    (cfg : Config) (i : ℕ) (p : Parse) (arg : Bytes)
    → p.state ≡ State.pub_arg
    → all_sized cfg.mpay p.events ≡ true
    → Keeps cfg (after (pub_complete cfg i p arg))
unfolding pub_complete is_message is_route
pub_complete-Keeps cfg i p arg h k = ground (
  arith,
  process_pub-fits cfg.mpay arg p.pa,
  all_sized-emit cfg.mpay p.events State.invalid_subject,
  all_sized-emit cfg.mpay p.events (State.max_payload (process_pub cfg.mpay arg p.pa).0.size),
)

payload-Keeps :
    (cfg : Config) (buf : Bytes) (i b : ℕ) (p : Parse)
    → p.state ≡ State.msg_payload
    → fits cfg.mpay (size_of p.pa) ≡ true
    → all_sized cfg.mpay p.events ≡ true
    → Keeps cfg (after (payload buf i b p))
unfolding payload is_message is_route
payload-Keeps cfg buf i b p h f k = ground arith

message_end-Keeps :
    (cfg : Config) (buf : Bytes) (i b : ℕ) (p : Parse)
    → p.state ≡ State.msg_end
    → fits cfg.mpay (size_of p.pa) ≡ true
    → all_sized cfg.mpay p.events ≡ true
    → Keeps cfg (after (message_end buf i b p))
unfolding message_end is_message is_route
message_end-Keeps cfg buf i b p h f k =
    let m : Bytes = elim p.msg_buf [
      | none ↦ slice p.arg_start (i + 1) buf
      | some m ↦ m ++ b ∷ []
    ] in
    ground (
      arith,
      all_sized-emit cfg.mpay p.events (msg p.pa m),
      all_sized-emit cfg.mpay p.events State.unknown_operation,
    )

pub turn-Keeps :
    (cfg : Config) (buf : Bytes) (i b : ℕ) (p : Parse) (s : Op)
    → cfg.is_client ≡ true
    → p.state ≡ s
    → is_route s ≡ false
    → (is_message s ≡ true → fits cfg.mpay (size_of p.pa) ≡ true)
    → all_sized cfg.mpay p.events ≡ true
    → Keeps cfg (after (turn cfg buf i b p s))
unfolding turn letter blank skip_blanks start after_p at_newline read_arg sub_complete
    unsub_complete err_complete info_complete connect_complete is_message is_route
turn-Keeps cfg buf i b p State.op_start c e r f k = ground (
  arith,
  all_sized-emit cfg.mpay p.events State.unknown_operation,
  all_sized-emit cfg.mpay p.events State.auth_violation,
)
turn-Keeps cfg buf i b p State.msg_payload c e r f k = payload-Keeps cfg buf i b p e (f refl) k
turn-Keeps cfg buf i b p State.msg_end c e r f k = message_end-Keeps cfg buf i b p e (f refl) k
turn-Keeps cfg buf i b p State.pub_arg c e r f k =
    let arg : Bytes = elim p.arg_buf [
      | none ↦ slice p.arg_start (i - p.drop) buf
      | some arg ↦ arg
    ] in
    ground (arith, pub_complete-Keeps cfg i p arg)
turn-Keeps cfg buf i b p _ c e r f k =
    let arg : Bytes = elim p.arg_buf [
      | none ↦ slice p.arg_start (i - p.drop) buf
      | some arg ↦ arg
    ] in
    ground (
      arith,
      all_sized-emit cfg.mpay p.events State.unknown_operation,
      all_sized-emit cfg.mpay p.events State.ping,
      all_sized-emit cfg.mpay p.events State.pong,
      all_sized-emit cfg.mpay p.events (State.sub arg),
      all_sized-emit cfg.mpay p.events (State.unsub arg),
      all_sized-emit cfg.mpay p.events (State.connect arg),
      all_sized-emit cfg.mpay p.events (State.info arg),
      all_sized-emit cfg.mpay p.events (State.err arg),
    )
