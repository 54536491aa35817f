-- ===== src/Server/Parser/Limits.antt =====
-- What server/parser.go keeps from one buffer to the next is bounded.
use gnatsd.Prelude.{
  ℕ, zero, suc, ◌+◌, ◌*◌, ◌≤◌, Bytes, none, ◌≡◌, inl, inr, refl, arith, length, get_elem?, Bool,
  true, false, Option-cases, Bool-cases, ap, ◌∙◌,
}
use gnatsd.Server.Parser.State.{Op, Parse, Turn, next, jump, stop, Config}
use gnatsd.Server.Parser.Loop.{
  proceed, turn, loop, parse, finish, save_arg, save_message, split_message, clone_pub_arg, Return,
  is_arg, is_message, or_empty,
}

-- A return of nil within an argument has saved no more of it than the maximum.
abbrev pub ArgBounded : Config → Return → Type 0
ArgBounded cfg r =
    r.1 ≡ none → is_arg r.0.state ≡ true → length (or_empty r.0.arg_buf) ≤ cfg.max_control_line

save_message-state : (buf : Bytes) (p : Parse) → (save_message buf p).0.state ≡ p.state
unfolding save_message clone_pub_arg
save_message-state buf p = ground arith

arg-or-message : (s : Op) → is_arg s ≡ true → is_message s ≡ false
unfolding is_arg is_message
arg-or-message s h = ground arith

split_message-state : (buf : Bytes) (p : Parse) → (split_message buf p).0.state ≡ p.state
unfolding split_message
split_message-state buf p = ground (arith, save_message-state buf p)

split_message-arg :
    (buf : Bytes) (p : Parse) → is_arg p.state ≡ true → split_message buf p ≡ (p, none)
unfolding split_message
split_message-arg buf p h = rw (arg-or-message p.state h) refl

save_arg-state : (buf : Bytes) (p : Parse) → (save_arg buf p).state ≡ p.state
unfolding save_arg
save_arg-state buf p = ground arith

finish-ArgBounded : (cfg : Config) (buf : Bytes) (p : Parse) → ArgBounded cfg (finish cfg buf p)
unfolding finish
finish-ArgBounded cfg buf p e h =
    let q = save_arg buf p in
    elim (Bool-cases (is_arg p.state)) [
      | inl t ↦
          ground (arith, t, e, h, split_message-arg buf q (ap is_arg (save_arg-state buf p) ∙ t))
      | inr t ↦ ground (arith, t, e, h, ap is_arg (split_message-state buf p))
    ]

proceed-ArgBounded :
    (cfg : Config) (continued : ℕ → Parse → Return) (i : ℕ) (t : Turn)
    → ((j : ℕ) (q : Parse) → ArgBounded cfg (continued j q))
    → ArgBounded cfg (proceed continued i t)
proceed-ArgBounded cfg continued i (next q) c = c (i + 1) q
proceed-ArgBounded cfg continued i (jump q j) c = c j q
proceed-ArgBounded cfg continued i (stop e q) c = λ n h. cc

loop-ArgBounded :
    (fuel : ℕ) (cfg : Config) (buf : Bytes) (i : ℕ) (p : Parse)
    → ArgBounded cfg (loop fuel cfg buf i p)
unfolding loop
loop-ArgBounded zero cfg buf i p = λ e h. cc
loop-ArgBounded (suc fuel) cfg buf i p = elim (Option-cases (get_elem? buf i)) [
  | inl e ↦ rw (e, loop) (finish-ArgBounded cfg buf p)
  | inr (b, e) ↦
      rw (e, loop)
        (proceed-ArgBounded cfg (loop fuel cfg buf) i (turn cfg buf i b p p.state)
          (λ j q. loop-ArgBounded fuel cfg buf j q))
]

-- Where `parse` returns nil within an argument, what it has saved of the argument is no longer than
-- the maximum of a control line.
pub parse-ArgBounded :
    (cfg : Config) (auth_set : Bool) (buf : Bytes) (p : Parse)
    → (parse cfg auth_set buf p).1 ≡ none
    → is_arg (parse cfg auth_set buf p).0.state ≡ true
    → length (or_empty (parse cfg auth_set buf p).0.arg_buf) ≤ cfg.max_control_line
unfolding parse
parse-ArgBounded cfg auth_set buf p =
    loop-ArgBounded (2 * length buf + 2) cfg buf 0 (record p { auth_set = auth_set })
