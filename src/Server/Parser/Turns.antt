-- ===== src/Server/Parser/Turns.antt =====
-- Turns of server/parser.go over the parts of a PUB operation that is whole in the buffer.
use gnatsd.Prelude.{
  ℕ, suc, ◌+◌, ◌-◌, ◌<◌, ◌^◌, Bytes, none, ◌≡◌, refl, sym, ◌∙◌, ap, arith, length, drop, take, Bool,
  true, false, List, [], ◌∷◌, ◌++◌, ◌==◌, ◌&&◌, not, append_assoc, length-append, ltb, leb,
}
use gnatsd.Prelude.Int.{pos}
use gnatsd.Prelude.Drop.{drop-next, drop-add, drop-last, take-append}
use gnatsd.Server.Args
use gnatsd.Server.Args.{PubArg, process_pub, reports_subject}
use gnatsd.Server.Parser.State.{Op, Parse, Event, Turn, next, jump, stop, Config}
use gnatsd.Server.Parser.State
use gnatsd.Server.Parser.Step.{
  read_arg, slice, letter, blank, start, after_p, pub_complete, pub_after, payload, message_end,
  size_of,
}
use gnatsd.Server.Parser.Loop.{turn, loop}
use gnatsd.Server.Parser.Run.{loop-next}

-- A state of the parser with nothing saved, of a client that need not authorize.
abbrev pub at : Op → ℕ → ℕ → PubArg → List Event → Parse
at s as_ d pa events = record {
  state = s;
  arg_start = as_;
  drop = d;
  pa = pa;
  arg_buf = none;
  msg_buf = none;
  auth_set = false;
  events = events;
}

abbrev pub cr_lf : Bytes
cr_lf = 13 ∷ 10 ∷ []

-- Whether a byte of an argument is neither CR nor LF.
abbrev pub plain_byte : ℕ → Bool
plain_byte b = not (b == 13) && not (b == 10)

abbrev pub plain : Bytes → Bool
plain [] = true
plain (b ∷ bs) = plain_byte b && plain bs

module _ (cfg : Config) (buf : Bytes) where
  pub step :
      (f f' i j b : ℕ) (rest : Bytes) (p q : Parse)
      → f ≡ suc f'
      → j ≡ i + 1
      → drop i buf ≡ b ∷ rest
      → turn cfg buf i b p p.state ≡ next q
      → (loop f cfg buf i p ≡ loop f' cfg buf j q) × (drop j buf ≡ rest)
  step f f' i j b rest p q e k d t = (
    loop-next cfg buf f f' i b rest p q e d t ∙ ap (λ x. loop f' cfg buf x q) (sym k),
    ap (λ x. drop x buf) k ∙ drop-next i buf d,
  )

  pub verb-run :
      (f i a d : ℕ) (pa : PubArg) (events : List Event) (rest : Bytes)
      → drop i buf ≡ 80 ∷ 85 ∷ 66 ∷ 32 ∷ rest
      → (loop (4 + f) cfg buf i (at State.op_start a d pa events)
          ≡ loop f cfg buf (i + 4) (at State.op_pub_spc a d pa events))
        × (drop (i + 4) buf ≡ rest)
  unfolding turn start after_p letter blank
  verb-run f i a d pa events rest h =
      let (e1, h1) =
        step (4 + f) (3 + f) i (i + 1) 80 _ (at State.op_start a d pa events)
          (at State.op_p a d pa events) (omega arith) refl h refl in
      let (e2, h2) =
        step (3 + f) (2 + f) (i + 1) (i + 2) 85 _ (at State.op_p a d pa events)
          (at State.op_pu a d pa events) (omega arith) (omega arith) h1 refl in
      let (e3, h3) =
        step (2 + f) (1 + f) (i + 2) (i + 3) 66 _ (at State.op_pu a d pa events)
          (at State.op_pub a d pa events) (omega arith) (omega arith) h2 refl in
      let (e4, h4) =
        step (1 + f) f (i + 3) (i + 4) 32 _ (at State.op_pub a d pa events)
          (at State.op_pub_spc a d pa events) (omega arith) (omega arith) h3 refl in
      (e1 ∙ e2 ∙ e3 ∙ e4, h4)

  pub arg-run :
      (cs : Bytes) (f i a d : ℕ) (pa : PubArg) (events : List Event) (rest : Bytes)
      → plain cs ≡ true
      → drop i buf ≡ cs ++ rest
      → (loop (length cs + f) cfg buf i (at State.pub_arg a d pa events)
          ≡ loop f cfg buf (i + length cs) (at State.pub_arg a d pa events))
        × (drop (i + length cs) buf ≡ rest)
  unfolding turn read_arg
  arg-run [] f i a d pa events rest n h =
      let z : i + 0 ≡ i = omega arith in
      let y : 0 + f ≡ f = omega arith in
      (
        ap (λ x. loop x cfg buf i (at State.pub_arg a d pa events)) y
            ∙ ap (λ x. loop f cfg buf x (at State.pub_arg a d pa events)) (sym z),
        ap (λ x. drop x buf) z ∙ h,
      )
  arg-run (c ∷ cs) f i a d pa events rest n h =
      let (e1, h1) =
        step (length (c ∷ cs) + f) (length cs + f) i (i + 1) c (cs ++ rest)
          (at State.pub_arg a d pa events) (at State.pub_arg a d pa events) (omega arith) refl h
          (ground (arith, n)) in
      let (e2, h2) = arg-run cs f (i + 1) a d pa events rest (ground (arith, n)) h1 in
      let z : i + 1 + length cs ≡ i + length (c ∷ cs) = omega arith in
      (
        e1 ∙ e2 ∙ ap (λ x. loop f cfg buf x (at State.pub_arg a d pa events)) z,
        ap (λ x. drop x buf) (sym z) ∙ h2,
      )

  pub line-turn :
      (i a : ℕ) (pa pa' : PubArg) (events : List Event) (line : Bytes) (n : ℕ)
      → slice a (i - 1) buf ≡ line
      → process_pub cfg.mpay line pa ≡ (pa', Args.accepted)
      → reports_subject cfg.pedantic pa' Args.accepted ≡ false
      → pa'.size ≡ pos n
      → i + n < 2 ^ 63
      → turn cfg buf i 10 (at State.pub_arg a 1 pa events) State.pub_arg
        ≡ jump (at State.msg_payload (i + 1) 0 pa' events) (i + n)
  unfolding turn read_arg pub_complete
  line-turn i a pa pa' events line n s h r z l =
      let small : ltb (i + n) (2 ^ 63) ≡ true = ground (arith, l) in
      let p = at State.pub_arg a 1 pa events in
      ap (λ arg. pub_complete cfg i p arg) s
      ∙ ap (λ t. pub_after cfg i p t) h
      ∙ ground (arith, r, z, small)

  slice-body :
      (i n : ℕ) (body rest : Bytes)
      → length body ≡ n
      → drop (i + 1) buf ≡ body ++ 13 ∷ 10 ∷ rest
      → slice (i + 1) (i + n + 2 + 1) buf ≡ body ++ cr_lf
  slice-body i n body rest l h =
      let size : i + n + 2 + 1 - (i + 1) ≡ length (body ++ cr_lf) =
        omega (arith, length-append body cr_lf) in
      rw (size, h)
        (ap (take (length (body ++ cr_lf))) (sym (append_assoc body cr_lf rest))
          ∙ take-append (body ++ cr_lf) rest)

  -- The turns after the jump: the byte before the CR, CR, LF.
  pub tail-run :
      (f i n : ℕ) (pa : PubArg) (events : List Event) (body rest : Bytes)
      → length body ≡ n
      → size_of pa ≡ n
      → drop i buf ≡ 10 ∷ (body ++ 13 ∷ 10 ∷ rest)
      → (loop (3 + f) cfg buf (i + n) (at State.msg_payload (i + 1) 0 pa events)
          ≡ loop f cfg buf (i + n + 3) (
              at State.op_start (i + n + 2 + 1) 0 pa (events ++ State.msg pa (body ++ cr_lf) ∷ [])))
        × (drop (i + n + 3) buf ≡ rest)
  unfolding turn payload message_end
  tail-run f i n pa events body rest l z h =
      let p = at State.msg_payload (i + 1) 0 pa events in
      let (b, last) = drop-last 10 body (13 ∷ 10 ∷ rest) in
      let here : drop (i + n) buf ≡ b ∷ 13 ∷ 10 ∷ rest =
        drop-add i n buf
        ∙ ap (drop n) h
        ∙ ap (λ k. drop k (10 ∷ (body ++ 13 ∷ 10 ∷ rest))) (sym l)
        ∙ last in
      let early : leb (i + 1 + size_of pa) (i + n) ≡ false = ground (arith, z) in
      let late : leb (i + 1 + size_of pa) (i + n + 1) ≡ true = ground (arith, z) in
      let whole : slice (i + 1) (i + n + 2 + 1) buf ≡ body ++ cr_lf =
        slice-body i n body rest l (drop-next i buf h) in
      let right : (length (body ++ cr_lf) == size_of pa + 2) ≡ true =
        ground (arith, z, length-append body cr_lf) in
      let (e1, h1) =
        step (3 + f) (2 + f) (i + n) (i + n + 1) b (13 ∷ 10 ∷ rest) p p (omega arith) refl here
          (rw early refl) in
      let (e2, h2) =
        step (2 + f) (1 + f) (i + n + 1) (i + n + 2) 13 (10 ∷ rest) p
          (at State.msg_end (i + 1) 0 pa events) (omega arith) (omega arith) h1 (rw late refl) in
      let (e3, h3) =
        step (1 + f) f (i + n + 2) (i + n + 3) 10 rest (at State.msg_end (i + 1) 0 pa events)
          (at State.op_start (i + n + 2 + 1) 0 pa (events ++ State.msg pa (body ++ cr_lf) ∷ []))
          (omega arith) (omega arith) h2 (rw (whole, right) refl) in
      (e1 ∙ e2 ∙ e3, h3)
