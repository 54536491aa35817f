-- ===== src/Server/Args.antt =====
-- server/client.go: the arguments of the protocol's operations.
use gnatsd.Prelude.{
  ℕ, Bool, false, List, [], ◌∷◌, ◌++◌, Bytes, Option, none, some, ltb, ◌==◌, ◌||◌, ◌&&◌, not,
  if◌then◌else◌,
}
use gnatsd.Prelude.Int.{ℤ, pos, negsuc}
use gnatsd.Server.Number.{parse_size}
use gnatsd.Sublist.Subject.{is_valid_literal_subject}

abbrev pub is_blank : ℕ → Bool
is_blank b = b == 32 || b == 9 || b == 13 || b == 10

-- The loop of `splitArg`; the word is `arg[start:i]`, `none` where `start` is -1.
unfoldable pub split_words : Option Bytes → Bytes → List Bytes
split_words none [] = []
split_words (some w) [] = w ∷ []
split_words none (b ∷ arg) =
    let skip = split_words none arg in
    let begin = split_words (some (b ∷ [])) arg in if is_blank b then skip else begin
split_words (some w) (b ∷ arg) =
    let close = split_words none arg in
    let more = split_words (some (w ++ b ∷ [])) arg in if is_blank b then w ∷ close else more

unfoldable pub split_arg : Bytes → List Bytes
unfolding split_words
split_arg arg = split_words none arg

-- `pubArg`; `reply` and `sid` can be nil.
pub record PubArg : Type 0 where
  pub subject : Bytes
  pub reply : Option Bytes
  pub sid : Option Bytes
  pub szb : Bytes
  pub size : ℤ

-- How a handler of arguments ends: nil, a parse error, a bad size, ErrMaxPayload.
pub data ArgStatus : Type 0 where
  accepted parse_error bad_size max_payload : ArgStatus

abbrev pub size_status : ℤ → ArgStatus
size_status (pos _) = accepted
size_status (negsuc _) = bad_size

-- `processMsgArgs`, by the words of its argument.
unfoldable pub msg_args : List Bytes → PubArg → PubArg × ArgStatus
msg_args (s ∷ i ∷ z ∷ []) pa =
    let size = parse_size z in
    let sized = record pa { reply = none; szb = z; size = size } in
    elim (size_status size) [
      | accepted ↦ (record sized { subject = s; sid = some i }, accepted)
      | other ↦ (sized, other)
    ]
msg_args (s ∷ i ∷ r ∷ z ∷ []) pa =
    let size = parse_size z in
    let sized = record pa { reply = some r; szb = z; size = size } in
    elim (size_status size) [
      | accepted ↦ (record sized { subject = s; sid = some i }, accepted)
      | other ↦ (sized, other)
    ]
msg_args _ pa = (pa, parse_error)

unfoldable pub process_msg_args : Bytes → PubArg → PubArg × ArgStatus
unfolding msg_args split_arg
process_msg_args arg pa = msg_args (split_arg arg) pa

-- The tests of `processPub` after its switch, for `c.mpay`.
unfoldable pub pub_size : ℕ → ℤ → ArgStatus
pub_size mpay (negsuc _) = bad_size
pub_size mpay (pos n) = if ltb 0 mpay && ltb mpay n then max_payload else accepted

-- `processPub`, by the words of its argument.
unfoldable pub pub_args : ℕ → List Bytes → PubArg → PubArg × ArgStatus
unfolding pub_size
pub_args mpay (s ∷ z ∷ []) pa =
    let size = parse_size z in
    (record pa { subject = s; reply = none; szb = z; size = size }, pub_size mpay size)
pub_args mpay (s ∷ r ∷ z ∷ []) pa =
    let size = parse_size z in
    (record pa { subject = s; reply = some r; szb = z; size = size }, pub_size mpay size)
pub_args mpay _ pa = (pa, parse_error)

unfoldable pub process_pub : ℕ → Bytes → PubArg → PubArg × ArgStatus
unfolding pub_args split_arg
process_pub mpay arg pa = pub_args mpay (split_arg arg) pa

-- Whether `processPub`, having accepted its argument, reports an invalid subject.
unfoldable pub reports_subject : Bool → PubArg → ArgStatus → Bool
reports_subject pedantic pa accepted = pedantic && not (is_valid_literal_subject pa.subject)
reports_subject pedantic pa _ = false

-- The subscription that `processSub` reads: subject, queue, sid.
unfoldable pub sub_args : List Bytes → Option (Bytes × Option Bytes × Bytes)
sub_args (s ∷ i ∷ []) = some (s, none, i)
sub_args (s ∷ q ∷ i ∷ []) = some (s, some q, i)
sub_args _ = none

-- The sid and the maximum that `processUnsub` reads.
unfoldable pub unsub_args : List Bytes → Option (Bytes × ℤ)
unsub_args (i ∷ []) = some (i, negsuc 0)
unsub_args (i ∷ n ∷ []) = some (i, parse_size n)
unsub_args _ = none
