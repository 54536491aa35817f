-- ===== src/Server/Parser/Message.antt =====
-- A PUB message that is whole in the buffer, parsed by server/parser.go.
use gnatsd.Prelude.{
  ℕ, ◌+◌, ◌-◌, ◌<◌, ◌^◌, Bytes, ◌≡◌, refl, ◌∙◌, ap, arith, length, drop, true, false, List, [], ◌∷◌,
  ◌++◌, ◌==◌, ◌||◌, length-append,
}
use gnatsd.Prelude.Int.{ℤ, pos, negsuc}
use gnatsd.Prelude.Drop.{drop-length, take-append}
use gnatsd.Server.Args
use gnatsd.Server.Args.{PubArg, process_pub, reports_subject}
use gnatsd.Server.Parser.State.{Op, Parse, Event, Turn, next, jump, stop, Config}
use gnatsd.Server.Parser.State
use gnatsd.Server.Parser.Step.{read_arg, slice, skip_blanks}
use gnatsd.Server.Parser.Loop.{turn, loop}
use gnatsd.Server.Parser.Run.{loop-jump}
use gnatsd.Server.Parser.Turns.{at, cr_lf, plain, step, verb-run, arg-run, line-turn, tail-run}

-- A PUB operation: the first byte and the others of its argument, and its payload.
pub record PubMessage : Type 0 where
  pub first : ℕ
  pub others : Bytes
  pub body : Bytes

abbrev pub argument : PubMessage → Bytes
argument m = m.first ∷ m.others

-- `PUB <argument>\r\n<body>\r\n`, before `rest`
abbrev pub wire : PubMessage → Bytes → Bytes
wire m rest = 80 ∷ 85 ∷ 66 ∷ 32 ∷ m.first ∷ (m.others ++ 13 ∷ 10 ∷ (m.body ++ 13 ∷ 10 ∷ rest))

-- An operation that the parser takes without an error line, from the arguments `pa` of the one
-- before: its argument is one line that does not begin with a blank, and `processPub` accepts it
-- with the size of the payload.
pub record IsAccepted (cfg : Config) (pa pa' : PubArg) (m : PubMessage) : Type 0 where
  pub one_line : plain (argument m) ≡ true
  pub no_blank : (m.first == 32 || m.first == 9) ≡ false
  pub accepts : process_pub cfg.mpay (argument m) pa ≡ (pa', Args.accepted)
  pub subject_fine : reports_subject cfg.pedantic pa' Args.accepted ≡ false
  pub size_right : pa'.size ≡ pos (length m.body)

module _ (cfg : Config) (buf : Bytes) where
  first-turn :
      (i a d : ℕ) (pa : PubArg) (events : List Event) (c : ℕ)
      → (c == 32 || c == 9) ≡ false
      → turn cfg buf i c (at State.op_pub_spc a d pa events) State.op_pub_spc
        ≡ next (at State.pub_arg i d pa events)
  unfolding turn skip_blanks
  first-turn i a d pa events c h = rw h refl

  cr-turn :
      (i a d : ℕ) (pa : PubArg) (events : List Event)
      → turn cfg buf i 13 (at State.pub_arg a d pa events) State.pub_arg
        ≡ next (at State.pub_arg a 1 pa events)
  unfolding turn read_arg
  cr-turn i a d pa events = refl

  slice-line :
      (i : ℕ) (m : PubMessage) (rest : Bytes)
      → drop (i + 4) buf ≡ m.first ∷ (m.others ++ rest)
      → slice (i + 4) (i + 4 + 1 + length m.others + 1 - 1) buf ≡ argument m
  slice-line i m rest h =
      let size : i + 4 + 1 + length m.others + 1 - 1 - (i + 4) ≡ length (argument m) =
        omega arith in
      rw (size, h) (take-append (argument m) rest)

  abbrev int_of : ℤ → ℕ
  int_of z = elim z [ pos n ↦ n | negsuc _ ↦ 0 ]

  -- Where the operation ends that begins at an index.
  abbrev pub end_of : ℕ → PubMessage → ℕ
  end_of i m = i + 4 + 1 + length m.others + 1 + length m.body + 3

  pub message-run :
      (f i a d : ℕ) (pa pa' : PubArg) (events : List Event) (m : PubMessage) (rest : Bytes)
      → IsAccepted cfg pa pa' m
      → drop i buf ≡ wire m rest
      → length buf < 2 ^ 63
      → (a' : ℕ) × (loop (10 + length m.others + f) cfg buf i (at State.op_start a d pa events)
          ≡ loop f cfg buf
              (end_of i m)
              (at State.op_start a' 0 pa' (events ++ State.msg pa' (m.body ++ cr_lf) ∷ [])))
        × (drop (end_of i m) buf ≡ rest)
  message-run f i a d pa pa' events m rest v h l =
      let body = m.body ++ 13 ∷ 10 ∷ rest in
      let k = length m.others in
      let i1 = i + 4 + 1 in
      let i2 = i1 + k in
      let n = length m.body in
      let (e1, h1) = verb-run cfg buf (6 + k + f) i a d pa events _ h in
      let (e2, h2) =
        step cfg buf (6 + k + f) (k + (5 + f)) (i + 4) i1 m.first (m.others ++ 13 ∷ 10 ∷ body)
          (at State.op_pub_spc a d pa events) (at State.pub_arg (i + 4) d pa events) (omega arith)
          refl h1 (first-turn (i + 4) a d pa events m.first v.no_blank) in
      let (e3, h3) =
        arg-run cfg buf m.others (5 + f) i1 (i + 4) d pa events (13 ∷ 10 ∷ body)
          (ground (arith, v.one_line)) h2 in
      let (e4, h4) =
        step cfg buf (5 + f) (4 + f) i2 (i2 + 1) 13 (10 ∷ body)
          (at State.pub_arg (i + 4) d pa events) (at State.pub_arg (i + 4) 1 pa events)
          (omega arith) refl h3 (cr-turn i2 (i + 4) d pa events) in
      let inside : i2 + 1 + n < 2 ^ 63 =
        omega (arith, drop-length (i2 + 1) buf body 10 h4, length-append m.body (13 ∷ 10 ∷ rest)) in
      let e5 =
        loop-jump cfg buf (4 + f) (3 + f) (i2 + 1) 10 (i2 + 1 + n) body
          (at State.pub_arg (i + 4) 1 pa events) (at State.msg_payload (i2 + 1 + 1) 0 pa' events)
          (omega arith) h4
          (line-turn cfg buf (i2 + 1) (i + 4) pa pa' events (argument m) n
            (slice-line i m (13 ∷ 10 ∷ body) h1) v.accepts v.subject_fine v.size_right inside) in
      let (e6, h6) =
        tail-run cfg buf f (i2 + 1) n pa' events m.body rest refl (ap int_of v.size_right) h4 in
      let fuel : 10 + k + f ≡ 4 + (6 + k + f) = omega arith in
      (
        i2 + 1 + n + 2 + 1,
        ap (λ x. loop x cfg buf i (at State.op_start a d pa events)) fuel
            ∙ e1
            ∙ e2
            ∙ e3
            ∙ e4
            ∙ e5
            ∙ e6,
        h6,
      )
