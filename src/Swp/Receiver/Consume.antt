-- ===== src/Swp/Receiver/Consume.antt =====
-- The client of swp/recv.go takes all that is ready.
use gnatsd.Prelude.{
  ℕ, zero, suc, ◌+◌, ◌≤◌, List, [], ◌∷◌, ◌++◌, Option, none, some, ◌≡◌, refl, sym, ◌∙◌, ap, subst,
  arith, map, Bytes, append-nil,
}
use gnatsd.Swp.Receiver.{
  Packet, RecvState, map_delete, consume_all, last_pack, consume, send_ack, update_control,
}
use gnatsd.Swp.Receiver.Slots.{prefix, contents, IsValid}
use gnatsd.Swp.Receiver.Bounds.{AllBelow, IsBounded, SameArrivals, send_ack-IsBounded}

abbrev Present : Option Packet → Type 0
Present none = ⊥
Present (some pack) = Unit

abbrev AllPresent : List (Option Packet) → Type 0
AllPresent [] = Unit
AllPresent (p ∷ ps) = Present p × AllPresent ps

-- The receiver with the fields of the client's progress replaced.
abbrev progressed : RecvState → List (ℕ × Packet) → ℕ → ℕ → ℕ → RecvState
progressed r held msgs bytes last = record r {
  rcvd_but_not_consumed = held;
  msgs_consumed = msgs;
  bytes_consumed = bytes;
  last_frame_client_consumed = last;
}

consume_all_lem :
    (b : ℕ) (ps : List (Option Packet)) (r : RecvState)
    → AllPresent ps
    → AllBelow b ps
    → r.msgs_consumed ≤ b
    → (held : List (ℕ × Packet)) × (msgs : ℕ) × (bytes : ℕ) × (last : ℕ) × (consume_all ps r
        ≡ some (progressed r held msgs bytes last))
      × (msgs ≤ b)
unfolding consume_all
consume_all_lem b [] r h l m = (
  r.rcvd_but_not_consumed, r.msgs_consumed, r.bytes_consumed, r.last_frame_client_consumed, refl, m,
)
consume_all_lem b (none ∷ ps) r (h, hs) l m = absurd h
consume_all_lem b (some p ∷ ps) r (h, hs) (l, ls) m =
    consume_all_lem b ps
      (progressed r (map_delete p.seq_num r.rcvd_but_not_consumed) (p.seq_num + 1) (p.cumul + 1)
        p.seq_num)
      hs ls (omega (arith, l))

last_pack-Present :
    (p : Option Packet) (ps : List (Option Packet))
    → AllPresent (p ∷ ps)
    → (pack : Packet) × (last_pack (p ∷ ps) ≡ some pack)
unfolding last_pack
last_pack-Present none [] (h, hs) = absurd h
last_pack-Present (some pack) [] (h, hs) = (pack, refl)
last_pack-Present p (q ∷ ps) (h, hs) = last_pack-Present q ps hs

abbrev AllData : List (Option Bytes) → Type 0
AllData [] = Unit
AllData (none ∷ ds) = ⊥
AllData (some d ∷ ds) = AllData ds

prefix-Present :
    (sent : ℕ → Bytes) (n : ℕ) (ps qs : List (Option Packet))
    → map contents (ps ++ qs) ≡ prefix n sent
    → AllPresent qs
prefix-Present sent n ps qs e =
    behind ps (present (ps ++ qs) (subst AllData (sym e) (prefix-AllData n)))
  where
    snoc-AllData : (ds : List (Option Bytes)) (d : Bytes) → AllData ds → AllData (ds ++ some d ∷ [])
    snoc-AllData [] d h = tt
    snoc-AllData (none ∷ ds) d h = absurd h
    snoc-AllData (some c ∷ ds) d h = snoc-AllData ds d h

    prefix-AllData : (n : ℕ) → AllData (prefix n sent)
    prefix-AllData zero = tt
    prefix-AllData (suc n) = snoc-AllData (prefix n sent) (sent n) (prefix-AllData n)

    present : (ps : List (Option Packet)) → AllData (map contents ps) → AllPresent ps
    present [] h = tt
    present (none ∷ ps) h = absurd h
    present (some p ∷ ps) h = (tt, present ps h)

    behind : (ps : List (Option Packet)) → AllPresent (ps ++ qs) → AllPresent qs
    behind [] h = h
    behind (p ∷ ps) (h, hs) = behind ps hs

-- What a delivery to the client does: it does not panic, and all that was ready is gone to the client.
pub consume-IsValid :
    (w : ℕ) (gone : List (Option Packet)) (p : Option Packet) (ps : List (Option Packet))
    (r : RecvState) (sent : ℕ → Bytes)
    → r.ready_for_delivery ≡ p ∷ ps
    → IsValid sent gone r
    → IsBounded w r
    → (d : RecvState) × (consume r ≡ some d)
      × ((other : ℕ → Bytes)
          → IsValid other gone r
          → IsValid other (gone ++ r.ready_for_delivery) d)
      × IsBounded w d
      × SameArrivals r d
      × (d.recv_history ≡ r.recv_history)
unfolding consume send_ack update_control
consume-IsValid w gone p ps r sent e v b =
    let all : AllPresent r.ready_for_delivery =
      prefix-Present sent r.next_frame_expected gone r.ready_for_delivery
        (ap (map contents) (sym v.ready) ∙ v.history) in
    let (pack, last) = last_pack-Present p ps (subst AllPresent e all) in
    let (held, msgs, bytes, lf, run, le) =
      consume_all_lem r.seqnos_rcvd r.ready_for_delivery r all b.ready b.consumed in
    let c = record (progressed r held msgs bytes lf) { ready_for_delivery = [] } in
    let last' : last_pack r.ready_for_delivery ≡ some pack = ap last_pack e ∙ last in
    (
      send_ack pack c,
      rw (consume, last', run) refl,
      λ other u. record {
        window = u.window;
        storage = u.storage;
        history = u.history;
        ready = u.ready ∙ sym (append-nil (gone ++ r.ready_for_delivery));
        slots = u.slots;
      },
      send_ack-IsBounded w pack c
          record { size = b.size; consumed = le; slots = b.slots; ready = tt; acks = b.acks },
      (refl, refl),
      refl,
    )
