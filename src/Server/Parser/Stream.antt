-- ===== src/Server/Parser/Stream.antt =====
-- A run of server/parser.go over a sequence of PUB operations.
use gnatsd.Prelude.{
  ℕ, ◌+◌, ◌-◌, ◌*◌, ◌≤◌, ◌<◌, ◌^◌, Bytes, none, ◌≡◌, refl, sym, ◌∙◌, ap, arith, length, drop, List,
  [], ◌∷◌, ◌++◌, append-nil, append_assoc, length-append, false,
}
use gnatsd.Server.Args.{PubArg, process_pub}
use gnatsd.Server.Parser.State.{Op, Parse, Event, Config}
use gnatsd.Server.Parser.State
use gnatsd.Server.Parser.Loop.{loop, finish, parse, split_message, is_arg, is_message}
use gnatsd.Server.Parser.Run.{loop-end}
use gnatsd.Server.Parser.Turns.{at, cr_lf}
use gnatsd.Server.Parser.Message.{PubMessage, argument, wire, IsAccepted, end_of, message-run}

-- The bytes of a sequence of operations.
abbrev pub wires : List PubMessage → Bytes
wires [] = []
wires (m ∷ ms) = wire m (wires ms)

-- The arguments after an operation.
abbrev pub args_after : Config → PubArg → PubMessage → PubArg
args_after cfg pa m = (process_pub cfg.mpay (argument m) pa).0

abbrev pub AllAccepted : Config → PubArg → List PubMessage → Type 0
AllAccepted cfg pa [] = Unit
AllAccepted cfg pa (m ∷ ms) =
    IsAccepted cfg pa (args_after cfg pa m) m × AllAccepted cfg (args_after cfg pa m) ms

-- One call of `processMsg` for each operation.
abbrev pub published : Config → PubArg → List PubMessage → List Event
published cfg pa [] = []
published cfg pa (m ∷ ms) =
    let pa' = args_after cfg pa m in State.msg pa' (m.body ++ cr_lf) ∷ published cfg pa' ms

abbrev pub last_args : Config → PubArg → List PubMessage → PubArg
last_args cfg pa [] = pa
last_args cfg pa (m ∷ ms) = last_args cfg (args_after cfg pa m) ms

finish-at :
    (cfg : Config) (buf : Bytes) (a : ℕ) (pa : PubArg) (events : List Event)
    → finish cfg buf (at State.op_start a 0 pa events) ≡ (at State.op_start a 0 pa events, none)
unfolding finish split_message is_arg is_message
finish-at cfg buf a pa events = refl

loop-wires :
    (ms : List PubMessage) (f : ℕ) (cfg : Config) (buf : Bytes) (i a : ℕ) (pa : PubArg)
    (events : List Event)
    → AllAccepted cfg pa ms
    → drop i buf ≡ wires ms
    → length buf < 2 ^ 63
    → 2 * length (wires ms) + 1 ≤ f
    → (a' : ℕ) × (loop f cfg buf i (at State.op_start a 0 pa events)
        ≡ (at State.op_start a' 0 (last_args cfg pa ms) (events ++ published cfg pa ms), none))
loop-wires [] f cfg buf i a pa events v h l k = (
  a,
  loop-end cfg buf f (f - 1) i (at State.op_start a 0 pa events) (omega arith) h
      ∙ finish-at cfg buf a pa events
      ∙ ap (λ x. (at State.op_start a 0 pa x, none)) (sym (append-nil events)),
)
loop-wires (m ∷ ms) f cfg buf i a pa events (v, vs) h l k =
    let pa' = args_after cfg pa m in
    let f' = f - (10 + length m.others) in
    let size = length-append m.others (13 ∷ 10 ∷ (m.body ++ 13 ∷ 10 ∷ wires ms)) in
    let size' = length-append m.body (13 ∷ 10 ∷ wires ms) in
    let fuel : f ≡ 10 + length m.others + f' = omega (arith, size, size') in
    let (a1, e1, h1) = message-run cfg buf f' i a 0 pa pa' events m (wires ms) v h l in
    let (a2, e2) =
      loop-wires ms f' cfg buf (end_of cfg buf i m) a1 pa'
        (events ++ State.msg pa' (m.body ++ cr_lf) ∷ []) vs h1 l (omega (arith, size, size')) in
    (
      a2,
      ap (λ x. loop x cfg buf i (at State.op_start a 0 pa events)) fuel
          ∙ e1
          ∙ e2
          ∙ ap (λ x. (at State.op_start a2 0 (last_args cfg pa (m ∷ ms)) x, none))
              (append_assoc events (State.msg pa' (m.body ++ cr_lf) ∷ []) (published cfg pa' ms)),
    )

-- A buffer that holds a sequence of PUB operations, each of them acceptable after those before it,
-- is parsed to one message for each, in their order, with exactly its payload and CRLF, and the
-- parser is back at its start without a failure.
pub parse-wires :
    (ms : List PubMessage) (cfg : Config) (a : ℕ) (pa : PubArg) (events : List Event)
    → AllAccepted cfg pa ms
    → length (wires ms) < 2 ^ 63
    → (a' : ℕ) × (parse cfg false (wires ms) (at State.op_start a 0 pa events)
        ≡ (at State.op_start a' 0 (last_args cfg pa ms) (events ++ published cfg pa ms), none))
unfolding parse
parse-wires ms cfg a pa events v l =
    loop-wires ms (2 * length (wires ms) + 2) cfg (wires ms) 0 a pa events v refl l (omega arith)
