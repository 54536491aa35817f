-- ===== src/Server/Parser/Safety.antt =====
-- What the parser of a client lets through: no message of a route, and only messages of the
-- announced size, within the maximum of the server.
use gnatsd.Prelude.{
  ℕ, zero, suc, ◌+◌, ◌*◌, Bytes, ◌≡◌, inl, inr, refl, sym, ap, ◌∙◌, arith, length, get_elem?, Bool,
  true, Option-cases,
}
use gnatsd.Server.Parser.State.{
  Op, Parse, Event, msg, Failure, Turn, next, jump, stop, Config, emit, len_cr_lf,
}
use gnatsd.Server.Parser.State
use gnatsd.Server.Parser.Loop.{
  proceed, turn, loop, parse, finish, save_arg, save_message, split_message, Return, is_message,
  clone_pub_arg,
}
use gnatsd.Server.Parser.Keeps.{all_sized, IsSafe, all_sized-emit, after, Keeps, turn-Keeps}

-- `q` differs from `p` in its buffers, and by error lines.
abbrev Framed : Config → Parse → Parse → Type 0
Framed cfg p q =
    (q.state ≡ p.state)
    × (q.pa ≡ p.pa)
    × (all_sized cfg.mpay q.events ≡ all_sized cfg.mpay p.events)

save_arg-Framed : (cfg : Config) (buf : Bytes) (p : Parse) → Framed cfg p (save_arg buf p)
unfolding save_arg
save_arg-Framed cfg buf p = ground arith

save_message-Framed : (cfg : Config) (buf : Bytes) (p : Parse) → Framed cfg p (save_message buf p).0
unfolding save_message clone_pub_arg
save_message-Framed cfg buf p =
    ground (arith, all_sized-emit cfg.mpay p.events State.unknown_operation)

split_message-Framed :
    (cfg : Config) (buf : Bytes) (p : Parse) → Framed cfg p (split_message buf p).0
unfolding split_message
split_message-Framed cfg buf p = ground (arith, save_message-Framed cfg buf p)

finish-Framed : (cfg : Config) (buf : Bytes) (p : Parse) → Framed cfg p (finish cfg buf p).0
unfolding finish
finish-Framed cfg buf p = ground (
  arith,
  save_arg-Framed cfg buf p,
  all_sized-emit cfg.mpay (save_arg buf p).events State.max_line,
  split_message-Framed cfg buf (save_arg buf p),
  split_message-Framed cfg buf p,
)

finish-IsSafe :
    (cfg : Config) (buf : Bytes) (p : Parse) → IsSafe cfg p → IsSafe cfg (finish cfg buf p).0
finish-IsSafe cfg buf p v =
    let (s, a, e) = finish-Framed cfg buf p in
    record {
      no_route = rw (s, v.no_route) refl;
      payload_fits = λ h. rw a (v.payload_fits (ap is_message (sym s) ∙ h));
      events_sized = e ∙ v.events_sized;
    }

Keeps-IsSafe : (cfg : Config) (q : Parse) → Keeps cfg q → IsSafe cfg q
Keeps-IsSafe cfg q (r, f, k) = record { no_route = r; payload_fits = f; events_sized = k }

proceed-IsSafe :
    (cfg : Config) (continued : ℕ → Parse → Return) (i : ℕ) (t : Turn)
    → ((j : ℕ) (q : Parse) → IsSafe cfg q → IsSafe cfg (continued j q).0)
    → Keeps cfg (after t)
    → IsSafe cfg (proceed continued i t).0
proceed-IsSafe cfg continued i (next q) c k = c (i + 1) q (Keeps-IsSafe cfg q k)
proceed-IsSafe cfg continued i (jump q j) c k = c j q (Keeps-IsSafe cfg q k)
proceed-IsSafe cfg continued i (stop e q) c k = Keeps-IsSafe cfg q k

loop-IsSafe :
    (fuel : ℕ) (cfg : Config) (buf : Bytes) (i : ℕ) (p : Parse)
    → cfg.is_client ≡ true
    → IsSafe cfg p
    → IsSafe cfg (loop fuel cfg buf i p).0
unfolding loop
loop-IsSafe zero cfg buf i p c v = v
loop-IsSafe (suc fuel) cfg buf i p c v = elim (Option-cases (get_elem? buf i)) [
  | inl e ↦ rw (e, loop) (finish-IsSafe cfg buf p v)
  | inr (b, e) ↦
      rw (e, loop)
        (proceed-IsSafe cfg (loop fuel cfg buf) i (turn cfg buf i b p p.state)
          (λ j q. loop-IsSafe fuel cfg buf j q c)
          (turn-Keeps cfg buf i b p p.state c refl v.no_route v.payload_fits v.events_sized))
]

-- Whatever bytes a client sends, in whatever pieces: the parser never enters a state that reads a
-- message of a route, and each message it hands on has exactly the bytes of its announced size
-- and CRLF, with a size within the maximum of the server.
pub parse-IsSafe :
    (cfg : Config) (auth_set : Bool) (buf : Bytes) (p : Parse)
    → cfg.is_client ≡ true
    → IsSafe cfg p
    → IsSafe cfg (parse cfg auth_set buf p).0
unfolding parse
parse-IsSafe cfg auth_set buf p c v =
    loop-IsSafe (2 * length buf + 2) cfg buf 0 (record p { auth_set = auth_set }) c
      record { no_route = v.no_route; payload_fits = v.payload_fits; events_sized = v.events_sized }
