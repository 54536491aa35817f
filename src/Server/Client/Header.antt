-- ===== src/Server/Client/Header.antt =====
-- The lines that server/client.go and server/route.go write for a message and for a subscription, and
-- what the other side's parser of arguments reads in them.
use gnatsd.Prelude.{
  ℕ, Bool, true, false, ◌&&◌, List, [], ◌∷◌, ◌++◌, Bytes, Option, none, some, ◌≡◌, refl, sym, ◌∙◌,
  ap, inl, inr, Bool-cases, codes, append_assoc, append-nil, arith, if◌then◌else◌,
}
use gnatsd.Server.Number.{parse_size}
use gnatsd.Server.Args.{
  PubArg, accepted, size_status, is_blank, split_words, split_arg, msg_args, process_msg_args,
  sub_args,
}
use gnatsd.Server.Client.{
  Env, Sub, World, Out, proto, is_taken, cr_lf, queue_of, route_sid, broadcast_interest,
  broadcast_subscribe,
}
use gnatsd.Server.Client.Deliver.{msg_header}

unfoldable pub no_blank : Bytes → Bool
no_blank [] = true
no_blank (b ∷ w) = let rest = no_blank w in if is_blank b then false else rest

-- A word that `splitArg` leaves whole.
abbrev pub is_word : Bytes → Bool
is_word [] = false
is_word (b ∷ w) = no_blank (b ∷ w)

split_words-some :
    (v w rest : Bytes)
    → no_blank w ≡ true
    → split_words (some v) (w ++ 32 ∷ rest) ≡ (v ++ w) ∷ split_words none rest
unfolding split_words no_blank
split_words-some v [] rest h = ap (λ x. x ∷ split_words none rest) (sym (append-nil v))
split_words-some v (b ∷ w) rest h = elim (Bool-cases (is_blank b)) [
  | inl e ↦ absurd (ground (arith, e, h))
  | inr e ↦ rw e (
      split_words-some (v ++ b ∷ []) w rest (rw e at h)
      ∙ ap (λ x. x ∷ split_words none rest) (append_assoc v (b ∷ []) w))
]

split_words-last : (v w : Bytes) → no_blank w ≡ true → split_words (some v) w ≡ (v ++ w) ∷ []
unfolding split_words no_blank
split_words-last v [] h = ap (λ x. x ∷ []) (sym (append-nil v))
split_words-last v (b ∷ w) h = elim (Bool-cases (is_blank b)) [
  | inl e ↦ absurd (ground (arith, e, h))
  | inr e ↦
      rw e (
        split_words-last (v ++ b ∷ []) w (rw e at h) ∙ ap (λ x. x ∷ []) (append_assoc v (b ∷ []) w))
]

-- A word and a blank before an argument.
split_arg-word :
    (w rest : Bytes) → is_word w ≡ true → split_arg (w ++ 32 ∷ rest) ≡ w ∷ split_arg rest
unfolding split_arg split_words no_blank
split_arg-word [] rest h = cc
split_arg-word (b ∷ w) rest h = elim (Bool-cases (is_blank b)) [
  | inl e ↦ absurd (ground (arith, e, h))
  | inr e ↦ rw e (split_words-some (b ∷ []) w rest (rw e at h))
]

split_arg-last : (w : Bytes) → is_word w ≡ true → split_arg w ≡ w ∷ []
unfolding split_arg split_words no_blank
split_arg-last [] h = cc
split_arg-last (b ∷ w) h = elim (Bool-cases (is_blank b)) [
  | inl e ↦ absurd (ground (arith, e, h))
  | inr e ↦ rw e (split_words-last (b ∷ []) w (rw e at h))
]

split_arg-blank : (rest : Bytes) → split_arg (32 ∷ rest) ≡ split_arg rest
unfolding split_arg split_words
split_arg-blank rest = refl

-- A line is its name, an argument, and CRLF.
abbrev pub Line : Bytes → Bytes → Bytes → Type 0
Line name arg line = line ≡ name ++ arg ++ cr_lf

-- The argument of a message's header.
header_arg : Bytes → Bytes → Option Bytes → Bytes → Bytes
header_arg subject sid none szb = subject ++ 32 ∷ (sid ++ 32 ∷ szb)
header_arg subject sid (some r) szb = subject ++ 32 ∷ (sid ++ 32 ∷ (r ++ 32 ∷ szb))

header-Line :
    (subject sid szb : Bytes) (reply : Option Bytes)
    → Line (codes "MSG ") (header_arg subject sid reply szb) (
        codes "MSG "
        ++ subject
        ++ codes " "
        ++ sid
        ++ codes " "
        ++ elim reply [ none ↦ [] | some r ↦ r ++ codes " " ]
        ++ szb
        ++ cr_lf)
unfolding header_arg
header-Line subject sid szb none = simp append_assoc refl
header-Line subject sid szb (some r) = simp append_assoc refl

abbrev pub is_word_or_none : Option Bytes → Bool
is_word_or_none none = true
is_word_or_none (some r) = is_word r

abbrev header_words : Bytes → Bytes → Option Bytes → Bytes → List Bytes
header_words subject sid none szb = subject ∷ sid ∷ szb ∷ []
header_words subject sid (some r) szb = subject ∷ sid ∷ r ∷ szb ∷ []

split_arg-header_arg :
    (subject sid szb : Bytes) (reply : Option Bytes)
    → is_word subject ≡ true
    → is_word sid ≡ true
    → is_word szb ≡ true
    → is_word_or_none reply ≡ true
    → split_arg (header_arg subject sid reply szb) ≡ header_words subject sid reply szb
unfolding header_arg
split_arg-header_arg subject sid szb none a b c d =
    split_arg-word subject (sid ++ 32 ∷ szb) a
    ∙ ap (λ x. subject ∷ x) (split_arg-word sid szb b ∙ ap (λ x. sid ∷ x) (split_arg-last szb c))
split_arg-header_arg subject sid szb (some r) a b c d =
    split_arg-word subject (sid ++ 32 ∷ (r ++ 32 ∷ szb)) a
    ∙ ap (λ x. subject ∷ x)
        (split_arg-word sid (r ++ 32 ∷ szb) b
          ∙ ap (λ x. sid ∷ x) (split_arg-word r szb d ∙ ap (λ x. r ∷ x) (split_arg-last szb c)))

-- What a header says, for a subscription's sid.
abbrev pub read_back : PubArg → Bytes → PubArg
read_back pa sid = record {
  subject = pa.subject;
  reply = pa.reply;
  sid = some sid;
  szb = pa.szb;
  size = parse_size pa.szb;
}

msg_args-header_words :
    (subject sid szb : Bytes) (reply : Option Bytes) (old : PubArg)
    → size_status (parse_size szb) ≡ accepted
    → msg_args (header_words subject sid reply szb) old ≡ (
      record { subject = subject; reply = reply; sid = some sid; szb = szb; size = parse_size szb },
      accepted,
    )
unfolding msg_args
msg_args-header_words subject sid szb none old k = rw (k, msg_args) refl
msg_args-header_words subject sid szb (some r) old k = rw (k, msg_args) refl

-- The header of a message is a MSG line, and `processMsgArgs`, on the other side of a route, reads in
-- its argument the subject, the sid, the reply and the size that went into it, where these are words
-- and the size is one.
pub msg_header-process_msg_args :
    (pa old : PubArg) (s : Sub)
    → is_word pa.subject ≡ true
    → is_word s.sid ≡ true
    → is_word pa.szb ≡ true
    → is_word_or_none pa.reply ≡ true
    → size_status (parse_size pa.szb) ≡ accepted
    → (arg : Bytes) × Line (codes "MSG ") arg (msg_header pa s)
      × (process_msg_args arg old ≡ (read_back pa s.sid, accepted))
unfolding msg_header process_msg_args
msg_header-process_msg_args pa old s a b c d k = (
  header_arg pa.subject s.sid pa.reply pa.szb,
  header-Line pa.subject s.sid pa.szb pa.reply,
  ap (λ ws. msg_args ws old) (split_arg-header_arg pa.subject s.sid pa.szb pa.reply a b c d)
      ∙ msg_args-header_words pa.subject s.sid pa.szb pa.reply old k,
)

abbrev pub sub_queue : Bytes → Option Bytes
sub_queue [] = none
sub_queue (b ∷ w) = some (b ∷ w)

abbrev pub is_word_or_empty : Bytes → Bool
is_word_or_empty [] = true
is_word_or_empty (b ∷ w) = is_word (b ∷ w)

sub_arg_words :
    (subject queue rsid : Bytes)
    → is_word subject ≡ true
    → is_word_or_empty queue ≡ true
    → is_word rsid ≡ true
    → sub_args (split_arg (subject ++ 32 ∷ (queue ++ 32 ∷ rsid)))
      ≡ some (subject, sub_queue queue, rsid)
unfolding sub_args
sub_arg_words subject [] rsid a b c = ap sub_args (
    split_arg-word subject (32 ∷ rsid) a
    ∙ ap (λ x. subject ∷ x) (split_arg-blank rsid ∙ split_arg-last rsid c))
sub_arg_words subject (q ∷ queue) rsid a b c = ap sub_args (
    split_arg-word subject ((q ∷ queue) ++ 32 ∷ rsid) a
    ∙ ap (λ x. subject ∷ x)
        (split_arg-word (q ∷ queue) rsid b ∙ ap (λ x. (q ∷ queue) ∷ x) (split_arg-last rsid c)))

sub-Line :
    (subject queue rsid : Bytes)
    → Line
        (codes "SUB ")
        (subject ++ 32 ∷ (queue ++ 32 ∷ rsid))
        (codes "SUB " ++ subject ++ codes " " ++ queue ++ codes " " ++ rsid ++ cr_lf)
sub-Line subject queue rsid = simp append_assoc refl

-- The connections that take what is written to them.
abbrev pub takers : World → List ℕ → List ℕ
takers w [] = []
takers w (r ∷ rs) =
    let rest = takers w rs in
    if (w.clients r).connected && is_taken (w.clients r).write then r ∷ rest else rest

-- One copy of the text for each.
abbrev pub copies : Bytes → List ℕ → List Out
copies text [] = []
copies text (r ∷ rs) = proto r text ∷ copies text rs

broadcast_interest-copies :
    (text : Bytes) (rs : List ℕ) (w : World)
    → (broadcast_interest text rs w).out ≡ w.out ++ copies text (takers w rs)
unfolding broadcast_interest
broadcast_interest-copies text [] w = sym (append-nil w.out)
broadcast_interest-copies text (r ∷ rs) w =
    elim (Bool-cases ((w.clients r).connected && is_taken (w.clients r).write)) [
      | inl e ↦
          rw (e, broadcast_interest)
            (broadcast_interest-copies text rs (record w { out = w.out ++ proto r text ∷ [] })
              ∙ append_assoc w.out (proto r text ∷ []) (copies text (takers w rs)))
      | inr e ↦ rw (e, broadcast_interest) (broadcast_interest-copies text rs w)
    ]

-- A subscription is forwarded, behind what was written before, as one SUB line to each route that
-- is connected and takes what is written, in their order, and to nobody else; and processSub, on
-- the other side, reads in its argument the subject, the queue and the route's sid that went into
-- it, where these are words, or the queue is empty.
pub broadcast_subscribe-sub_args :
    (env : Env) (s : Sub) (w : World)
    → is_word s.it.subject ≡ true
    → is_word_or_empty (queue_of s) ≡ true
    → is_word (route_sid env s) ≡ true
    → (arg : Bytes) × ((broadcast_subscribe env s w).out
        ≡ w.out ++ copies (codes "SUB " ++ arg ++ cr_lf) (takers w w.routes))
      × (sub_args (split_arg arg) ≡ some (s.it.subject, sub_queue (queue_of s), route_sid env s))
unfolding broadcast_subscribe
broadcast_subscribe-sub_args env s w a b c = (
  s.it.subject ++ 32 ∷ (queue_of s ++ 32 ∷ route_sid env s),
  broadcast_interest-copies _ w.routes w
      ∙ ap (λ x. w.out ++ copies x (takers w w.routes))
          (sub-Line s.it.subject (queue_of s) (route_sid env s)),
  sub_arg_words s.it.subject (queue_of s) (route_sid env s) a b c,
)
