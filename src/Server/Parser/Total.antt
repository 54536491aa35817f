-- ===== src/Server/Parser/Total.antt =====
-- The loop of `parse` ends: each turn moves the index on, or leaves PUB_ARG for an empty payload.
use gnatsd.Prelude.{
  ℕ, zero, suc, ◌+◌, ◌-◌, ◌*◌, ◌≤◌, ◌<◌, Bytes, none, some, ◌≡◌, ◌≢◌, inl, inr, refl, arith, length,
  get_elem?, Bool, Option-cases, [], ◌∷◌,
}
use gnatsd.Server.Parser.State.{Op, Parse, Failure, out_of_fuel, Turn, next, jump, stop, Config}
use gnatsd.Server.Parser.State
use gnatsd.Server.Parser.Step.{
  letter, blank, skip_blanks, start, after_p, at_newline, read_arg, sub_complete, unsub_complete,
  err_complete, info_complete, connect_complete, pub_complete, msg_complete, payload, message_end,
  slice,
}
use gnatsd.Server.Parser.Loop.{
  proceed, turn, loop, parse, finish, save_message, split_message, Return,
}

-- 1 in the payload, where the loop can come again at the same index.
abbrev entered : Op → ℕ
entered State.msg_payload = 1
entered _ = 0

entered-le-one : (s : Op) → entered s ≤ 1
entered-le-one State.msg_payload = omega arith
entered-le-one _ = omega arith

-- How far the loop has come.
abbrev key : ℕ → Op → ℕ
key i s = 2 * i + entered s

pub_complete-jump :
    (cfg : Config) (i : ℕ) (p q : Parse) (arg : Bytes) (j : ℕ)
    → pub_complete cfg i p arg ≡ jump q j
    → (i ≤ j) × (q.state ≡ State.msg_payload)
unfolding pub_complete
pub_complete-jump cfg i p q arg j h = ground arith

msg_complete-jump :
    (i : ℕ) (p q : Parse) (arg : Bytes) (j : ℕ) → msg_complete i p arg ≡ jump q j → i < j
unfolding msg_complete
msg_complete-jump i p q arg j h = ground arith

payload-jump : (buf : Bytes) (i b : ℕ) (p q : Parse) (j : ℕ) → payload buf i b p ≡ jump q j → i < j
unfolding payload
payload-jump buf i b p q j h = ground arith

message_end-jump : (buf : Bytes) (i b : ℕ) (p q : Parse) (j : ℕ) → message_end buf i b p ≢ jump q j
unfolding message_end
message_end-jump buf i b p q j h = ground arith

turn-jump :
    (cfg : Config) (buf : Bytes) (i b : ℕ) (p q : Parse) (j : ℕ) (s : Op)
    → turn cfg buf i b p s ≡ jump q j
    → key i s < key j q.state
unfolding turn letter blank skip_blanks start after_p at_newline read_arg sub_complete
    unsub_complete err_complete info_complete connect_complete
turn-jump cfg buf i b p q j State.op_start h = ground arith
turn-jump cfg buf i b p q j State.pub_arg h =
    let arg : Bytes = elim p.arg_buf [
      | none ↦ slice p.arg_start (i - p.drop) buf
      | some arg ↦ arg
    ] in
    ground (arith, pub_complete-jump cfg i p q arg j)
turn-jump cfg buf i b p q j State.msg_arg h =
    let arg : Bytes = elim p.arg_buf [
      | none ↦ slice p.arg_start (i - p.drop) buf
      | some arg ↦ arg
    ] in
    ground (arith, msg_complete-jump i p q arg j)
turn-jump cfg buf i b p q j State.msg_payload h =
    omega (arith, payload-jump buf i b p q j h, entered-le-one q.state)
turn-jump cfg buf i b p q j State.msg_end h = absurd (message_end-jump buf i b p q j h)
turn-jump cfg buf i b p q j _ h = ground arith

turn-stop :
    (cfg : Config) (buf : Bytes) (i b : ℕ) (p q : Parse) (e : Failure) (s : Op)
    → turn cfg buf i b p s ≡ stop e q
    → e ≢ out_of_fuel
unfolding turn letter blank skip_blanks start after_p at_newline read_arg sub_complete
    unsub_complete err_complete info_complete connect_complete pub_complete msg_complete payload
    message_end
turn-stop cfg buf i b p q e State.op_start h f = ground arith
turn-stop cfg buf i b p q e _ h f = ground arith

finish-fuel : (cfg : Config) (buf : Bytes) (p : Parse) → (finish cfg buf p).1 ≢ some out_of_fuel
unfolding finish split_message save_message
finish-fuel cfg buf p h = ground arith

get_elem?-lt : (xs : Bytes) (i : ℕ) {b : ℕ} → get_elem? xs i ≡ some b → i < length xs
get_elem?-lt [] i h = cc
get_elem?-lt (x ∷ xs) zero h = omega arith
get_elem?-lt (x ∷ xs) (suc i) h = omega (arith, get_elem?-lt xs i h)

proceed-fuel :
    (continued : ℕ → Parse → Return) (i : ℕ) (s : Op) (t : Turn)
    → ((q : Parse) → (continued (i + 1) q).1 ≢ some out_of_fuel)
    → ((q : Parse) (j : ℕ) → t ≡ jump q j → (continued j q).1 ≢ some out_of_fuel)
    → ((q : Parse) (e : Failure) → t ≡ stop e q → e ≢ out_of_fuel)
    → (proceed continued i t).1 ≢ some out_of_fuel
proceed-fuel continued i s (next q) onward jumped stopped = onward q
proceed-fuel continued i s (jump q j) onward jumped stopped = jumped q j refl
proceed-fuel continued i s (stop e q) onward jumped stopped = λ h. stopped q e refl (cc)

loop_total :
    (fuel : ℕ) (cfg : Config) (buf : Bytes) (i : ℕ) (p : Parse)
    → 2 * length buf + 2 ≤ fuel + key i p.state
    → 0 < fuel
    → (loop fuel cfg buf i p).1 ≢ some out_of_fuel
unfolding loop
loop_total zero cfg buf i p h k = absurd (omega arith)
loop_total (suc fuel) cfg buf i p h k = elim (Option-cases (get_elem? buf i)) [
  | inl e ↦ rw (e, loop) (finish-fuel cfg buf p)
  | inr (b, e) ↦
      let inside = get_elem?-lt buf i e in
      let small = entered-le-one p.state in
      rw (e, loop)
        (proceed-fuel (loop fuel cfg buf) i p.state (turn cfg buf i b p p.state)
          (λ q. loop_total fuel cfg buf (i + 1) q (omega arith) (omega arith))
          (λ q j t.
            loop_total fuel cfg buf j q (omega (arith, turn-jump cfg buf i b p q j p.state t))
              (omega arith))
          (λ q e t. turn-stop cfg buf i b p q e p.state t))
]

-- The fuel of `parse` is enough for every buffer, from every state.
pub parse_total :
    (cfg : Config) (auth_set : Bool) (buf : Bytes) (p : Parse)
    → (parse cfg auth_set buf p).1 ≢ some out_of_fuel
unfolding parse
parse_total cfg auth_set buf p =
    loop_total (2 * length buf + 2) cfg buf 0 (record p { auth_set = auth_set }) (omega arith)
      (omega arith)
