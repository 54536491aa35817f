-- ===== src/Server/Parser/Tests.antt =====
-- Runs of server/parser.go, and its theorems at concrete inputs.
use gnatsd.Prelude.{
  ℕ, ◌≤◌, true, false, List, [], ◌∷◌, ◌++◌, Bytes, none, some, ◌≡◌, ◌≢◌, refl, arith, codes, length,
}
use gnatsd.Prelude.Int.{pos}
use gnatsd.Server.Number.{parse_size}
use gnatsd.Server.Args.{PubArg, process_pub, reports_subject}
use gnatsd.Server.Parser.State.{Op, Parse, Config, out_of_fuel, Event}
use gnatsd.Server.Parser.State
use gnatsd.Server.Parser.Step.{
  start, after_p, letter, blank, skip_blanks, read_arg, pub_complete, payload, message_end,
}
use gnatsd.Server.Parser.Loop.{parse, is_arg, is_message, or_empty}
use gnatsd.Server.Parser.Keeps.{IsSafe, is_route}
use gnatsd.Server.Parser.Total.{parse_total}
use gnatsd.Server.Parser.Safety.{parse-IsSafe}
use gnatsd.Server.Parser.Limits.{parse-ArgBounded}
use gnatsd.Server.Parser.Turns.{at}
use gnatsd.Server.Parser.Message.{PubMessage}
use gnatsd.Server.Parser.Stream.{wires, AllAccepted, published, last_args, parse-wires}

abbrev server : Config
server = record {
  max_control_line = 1024;
  is_client = true;
  mpay = 100;
  pedantic = false;
  connect_fails = λ arg. false;
  info_fails = λ arg. false;
  auth_after = λ arg. false;
}

abbrev no_args : PubArg
no_args = record { subject = []; reply = none; sid = none; szb = []; size = pos 0 }

abbrev fresh : Parse
fresh = at State.op_start 0 0 no_args []

fresh-IsSafe : IsSafe server fresh
unfolding is_route is_message
fresh-IsSafe = record { no_route = refl; payload_fits = λ h. refl; events_sized = refl }

-- `SUB foo`, cut off before the sid
abbrev cut_sub : Bytes
cut_sub = codes "SUB foo"

cut_sub-saved : (parse server false cut_sub fresh).0.arg_buf ≡ some (codes "foo")
unfolding parse start letter blank skip_blanks read_arg
cut_sub-saved = refl

-- A PUB in two pieces
split_pub :
    (parse server false
      (codes "lo\r\n")
      (parse server false (codes "PUB a 5\r\nhel") fresh).0).0.events
    ≡ State.msg
        record { subject = codes "a"; reply = none; sid = none; szb = codes "5"; size = pos 5 }
        (codes "hello\r\n")
      ∷ []
unfolding parse start after_p letter blank skip_blanks read_arg pub_complete process_pub parse_size
    reports_subject payload message_end
split_pub = refl

-- `foo 2` with payload `hi`, and `a b 0` without one
abbrev two_messages : List PubMessage
two_messages =
    record { first = 102; others = codes "oo 2"; body = codes "hi" }
    ∷ record { first = 97; others = codes " b 0"; body = [] }
    ∷ []

two_messages-accepted : AllAccepted server no_args two_messages
unfolding process_pub reports_subject parse_size
two_messages-accepted = (
  record {
    one_line = refl;
    no_blank = refl;
    accepts = refl;
    subject_fine = refl;
    size_right = refl;
  },
  (
    record {
      one_line = refl;
      no_blank = refl;
      accepts = refl;
      subject_fine = refl;
      size_right = refl;
    },
    tt,
  ),
)

parse-wires_example :
    (a' : ℕ) × (parse server false (wires two_messages) (at State.op_start 0 0 no_args []) ≡ (
      at State.op_start a' 0
          (last_args server no_args two_messages)
          ([] ++ published server no_args two_messages),
      none,
    ))
parse-wires_example =
    parse-wires two_messages server 0 no_args [] two_messages-accepted (omega arith)

parse_total_example : (parse server true cut_sub fresh).1 ≢ some out_of_fuel
parse_total_example = parse_total server true cut_sub fresh

parse-IsSafe_example : IsSafe server (parse server false (wires two_messages) fresh).0
parse-IsSafe_example = parse-IsSafe server false (wires two_messages) fresh refl fresh-IsSafe

parse-ArgBounded_example : length (or_empty (parse server false cut_sub fresh).0.arg_buf) ≤ 1024
unfolding parse is_arg start letter blank skip_blanks read_arg
parse-ArgBounded_example = parse-ArgBounded server false cut_sub fresh refl refl
