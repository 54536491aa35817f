-- ===== src/Server/Client/Tests.antt =====
-- Clients of a small server, and the theorems about them at concrete inputs.
use gnatsd.Prelude.{
  ◌==◌, ◌+◌, true, false, [], ◌∷◌, ◌++◌, Bytes, none, some, ◌≡◌, refl, codes, arith, bytes_eq,
  subst, sym,
}
use gnatsd.Prelude.Int.{pos}
use gnatsd.Sublist.Split.{well_formed_from, no_empty_token}
use gnatsd.Sublist.Subject.{is_valid_literal_subject}
use gnatsd.Sublist.Trie.{Subscription}
use gnatsd.Sublist.Store.{new_sublist, insert, match}
use gnatsd.Sublist.SpecMatch.{Answers, Coherent, new_sublist-Coherent, insert-Coherent}
use gnatsd.Server.Args.{PubArg, accepted, process_msg_args, split_arg, sub_args}
use gnatsd.Server.Number.{parse_size}
use gnatsd.Server.Client.{
  Env, Sub, Client, World, taken, cr_lf, broadcast_subscribe, route_sid, msg,
}
use gnatsd.Server.Client.Subs.{subscribe, limit}
use gnatsd.Server.Client.Deliver.{msg_header}
use gnatsd.Server.Client.Publish.{process_msg, route_msg, find_result, is_system}
use gnatsd.Server.Client.Limits.{sent}
use gnatsd.Server.Client.Limits.Bounded.{Bounded, process_msg-Bounded}
use gnatsd.Server.Client.Exact.{Steady, NonEmpty, InRange}
use gnatsd.Server.Client.Reach.{Informed, find_result-Answers}
use gnatsd.Server.Client.Publication.{
  Delivers, Publishes, ready, route_msg-Delivers, process_msg-Publishes,
}
use gnatsd.Server.Client.Registration.{Registered, registers, new_sub, subscribe-Registered}
use gnatsd.Server.Client.Withdrawal.{Withdrawn, waits, limit-Withdrawn}
use gnatsd.Server.Client.Header.{
  Line, read_back, no_blank, copies, msg_header-process_msg_args, broadcast_subscribe-sub_args,
}

abbrev simple_env : Env
simple_env = record {
  decimal = λ n. (48 + n) ∷ [];
  quote = λ s. s;
  find_submatch = λ s. none;
  first = λ cache. 0;
  order = λ keys. keys;
  intn = λ turn n. 0;
}

in_range : InRange simple_env
in_range turn n h = h

abbrev quiet_client : Client
quiet_client = record {
  router = false;
  connected = true;
  verbose = false;
  pedantic = true;
  subs = [];
  perms = none;
  remote_id = [];
  genid = 0;
  results = none;
  in_msgs = 0;
  in_bytes = 0;
  in_subs = 0;
  out_msgs = 0;
  out_bytes = 0;
  pcd = [];
  write = taken;
}

abbrev foo_sub : Subscription
foo_sub = record { id = 0; subject = codes "foo.*"; queue = none }

abbrev foo : Sub
foo = record { it = foo_sub; client = 2; sid = codes "7"; nm = 0; max = 0 }

-- Client 2 has subscribed to `foo.*`.
abbrev small : World
small = record {
  sl = (insert foo_sub new_sublist).0;
  heap = λ i. foo;
  fresh = 1;
  clients = λ d. quiet_client;
  listed = λ d. true;
  routes = [];
  out_msgs = 0;
  out_bytes = 0;
  slow_consumers = 0;
  out = [];
}

small-Steady : Steady small
small-Steady = record {
  client = λ d. refl;
  connected = λ d. refl;
  takes = λ d. refl;
  no_max = λ i. refl;
}

small-Coherent : Coherent small.sl (foo_sub ∷ [])
unfolding insert well_formed_from
small-Coherent = insert-Coherent foo_sub new_sublist [] new_sublist-Coherent refl refl

small-Informed : Informed 1 (foo_sub ∷ []) small
unfolding insert new_sublist
small-Informed = record { coherent = small-Coherent; cached = tt }

abbrev hello : PubArg
hello = record {
  subject = codes "foo.bar";
  reply = some (codes "inbox");
  sid = none;
  szb = codes "5";
  size = pos 5;
}

abbrev body : Bytes
body = codes "hello" ++ cr_lf

no_groups : (find_result simple_env 1 (codes "foo.bar") (ready 1 body small)).1.qsubs ≡ []
unfolding find_result match insert new_sublist bytes_eq
no_groups = refl

process_msg-Publishes_example :
    Publishes (foo_sub ∷ []) (codes "foo.bar") small (process_msg simple_env 1 hello body small)
unfolding is_system bytes_eq no_empty_token is_valid_literal_subject
process_msg-Publishes_example =
    process_msg-Publishes simple_env 1 hello body (foo_sub ∷ []) small in_range no_groups
      small-Steady small-Informed refl refl refl refl refl

no_groups_here : (find_result simple_env 1 (codes "foo.bar") small).1.qsubs ≡ []
unfolding find_result match insert new_sublist bytes_eq
no_groups_here = refl

route_msg-Delivers_example :
    Delivers
      (find_result simple_env 1 (codes "foo.bar") small).1
      (find_result simple_env 1 (codes "foo.bar") small).0
      (route_msg simple_env 1 hello body small)
unfolding is_valid_literal_subject
route_msg-Delivers_example =
    route_msg-Delivers simple_env 1 hello body small in_range
      (subst NonEmpty (sym no_groups_here) tt) small-Steady refl

find_result-Answers_example :
    Answers (find_result simple_env 1 (codes "foo.bar") small).1 (foo_sub ∷ []) (codes "foo.bar")
    × Informed 1 (foo_sub ∷ []) (find_result simple_env 1 (codes "foo.bar") small).0
unfolding no_empty_token
find_result-Answers_example =
    find_result-Answers simple_env 1 (codes "foo.bar") (foo_sub ∷ []) small small-Informed refl

subscribe-Registered_example :
    Registered
      (registers 3 (codes "bar") (codes "1") small)
      3
      (new_sub 3 (codes "bar") none (codes "1") small)
      (foo_sub ∷ [])
      small
      (subscribe simple_env 3 (codes "bar", none, codes "1") small)
subscribe-Registered_example =
    subscribe-Registered simple_env 3 (codes "bar") none (codes "1") (foo_sub ∷ []) small
      small-Coherent.represents refl

limit-Withdrawn_example :
    Withdrawn
      (waits 0 0)
      2
      foo_sub
      (codes "7")
      (foo_sub ∷ [])
      small.sl
      []
      (limit simple_env 2 0 0 small)
limit-Withdrawn_example =
    limit-Withdrawn simple_env 2 0 0 (foo_sub ∷ []) small small-Coherent.represents (λ e. refl, tt)

msg_header-process_msg_args_example :
    (arg : Bytes) × Line (codes "MSG ") arg (msg_header hello foo)
    × (process_msg_args arg hello ≡ (read_back hello (codes "7"), accepted))
unfolding no_blank parse_size
msg_header-process_msg_args_example =
    msg_header-process_msg_args hello hello foo refl refl refl refl refl

-- Two routes, of which one is not connected.
abbrev routed : World
routed = record small {
  routes = 5 ∷ 6 ∷ [];
  clients = λ d. record (small.clients d) { connected = d == 6 };
}

broadcast_subscribe-sub_args_example :
    (arg : Bytes) × ((broadcast_subscribe simple_env foo routed).out
      ≡ copies (codes "SUB " ++ arg ++ cr_lf) (6 ∷ []))
    × (sub_args (split_arg arg) ≡ some (codes "foo.*", none, route_sid simple_env foo))
unfolding no_blank
broadcast_subscribe-sub_args_example =
    broadcast_subscribe-sub_args simple_env foo routed refl refl refl

-- The subscription has a maximum of one message.
abbrev limited : World
limited = record small { heap = λ i. record foo { max = 1 } }

abbrev after_one : World
after_one = elim (process_msg simple_env 1 hello body limited) [ none ↦ limited | some w ↦ w ]

-- Its first message reaches it, and takes it out of the sublist.
one_message :
    (after_one.out ≡ msg 0 (codes "MSG foo.bar 7 inbox 5" ++ cr_lf) body ∷ [])
    × (after_one.sl.count ≡ 0)
unfolding process_msg bytes_eq insert new_sublist
one_message = (refl, refl)

process_msg-Bounded_example : Bounded after_one
unfolding sent process_msg bytes_eq insert new_sublist
process_msg-Bounded_example =
    process_msg-Bounded simple_env 1 hello body limited (λ i. (omega arith, λ h. omega arith)) refl
