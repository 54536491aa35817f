-- ===== src/Swp/Receiver/Bounds.antt =====
-- What the receiver of swp/recv.go holds and advertises stays within what has arrived.
use gnatsd.Prelude.{
  ℕ, zero, suc, ◌+◌, ◌-◌, ◌%◌, ◌≤◌, ◌<◌, true, List, [], ◌∷◌, ◌++◌, Option, none, some, leb, ◌==◌,
  ◌≡◌, refl, subst, arith, inl, inr, Bool-cases, get_or, set, length, replicate,
}
use gnatsd.Swp.Receiver.{
  Packet, RxqSlot, RecvState, Ack, empty_slot, new_recv_state, in_window, slot_at, deliver_one,
  deliver, capacity, update_control, send_ack, remember, store, receive,
}

-- A packet held is below a sequence number.
abbrev pub Below : ℕ → Option Packet → Type 0
Below b none = Unit
Below b (some pack) = pack.seq_num < b

abbrev pub AllBelow : ℕ → List (Option Packet) → Type 0
AllBelow b [] = Unit
AllBelow b (p ∷ ps) = Below b p × AllBelow b ps

abbrev pub Within : ℕ → Option ℕ → Type 0
Within w none = Unit
Within w (some c) = c ≤ w

abbrev pub AllWithin : ℕ → List Ack → Type 0
AllWithin w [] = Unit
AllWithin w (a ∷ acks) = Within w a.msg_cap × AllWithin w acks

-- Held packets are among those that arrived, those that were consumed too, and no ack advertises more
-- messages than the window.
pub record IsBounded (w : ℕ) (r : RecvState) : Type 0 where
  pub size : r.recv_window_size ≡ w
  pub consumed : r.msgs_consumed ≤ r.seqnos_rcvd
  pub slots : (k : ℕ) → Below r.seqnos_rcvd (get_or r.rxq k empty_slot).pack
  pub ready : AllBelow r.seqnos_rcvd r.ready_for_delivery
  pub acks : AllWithin w r.acks

-- The same packets have arrived and been consumed.
abbrev pub SameArrivals : RecvState → RecvState → Type 0
SameArrivals r d =
    (d.seqnos_rcvd ≡ r.seqnos_rcvd) × (d.max_cumul_bytes_trans ≡ r.max_cumul_bytes_trans)

abbrev pub Bounded? : ℕ → RecvState → Option RecvState → Type 0
Bounded? w r none = Unit
Bounded? w r (some d) = IsBounded w d × SameArrivals r d

AllBelow-snoc :
    (b : ℕ) (ps : List (Option Packet)) (p : Option Packet)
    → AllBelow b ps
    → Below b p
    → AllBelow b (ps ++ p ∷ [])
AllBelow-snoc b [] p h k = (k, tt)
AllBelow-snoc b (q ∷ ps) p (l, h) k = (l, AllBelow-snoc b ps p h k)

AllWithin-snoc :
    (w : ℕ) (acks : List Ack) (a : Ack)
    → AllWithin w acks
    → Within w a.msg_cap
    → AllWithin w (acks ++ a ∷ [])
AllWithin-snoc w [] a h k = (k, tt)
AllWithin-snoc w (b ∷ acks) a (l, h) k = (l, AllWithin-snoc w acks a h k)

Below-set :
    (b : ℕ) (rxq : List RxqSlot) (x k : ℕ) (slot : RxqSlot)
    → Below b slot.pack
    → Below b (get_or rxq k empty_slot).pack
    → Below b (get_or (set rxq x slot) k empty_slot).pack
Below-set b [] x k slot f g = g
Below-set b (s ∷ rxq) zero zero slot f g = f
Below-set b (s ∷ rxq) zero (suc k) slot f g = g
Below-set b (s ∷ rxq) (suc x) zero slot f g = g
Below-set b (s ∷ rxq) (suc x) (suc k) slot f g = Below-set b rxq x k slot f g

pub Below-mono : (a b : ℕ) (p : Option Packet) → a ≤ b → Below a p → Below b p
Below-mono a b none le h = tt
Below-mono a b (some p) le h = omega (arith, h)

pub AllBelow-mono : (a b : ℕ) (ps : List (Option Packet)) → a ≤ b → AllBelow a ps → AllBelow b ps
AllBelow-mono a b [] le h = tt
AllBelow-mono a b (p ∷ ps) le (l, h) = (Below-mono a b p le l, AllBelow-mono a b ps le h)

capacity-Within : (size used back : ℕ) → back ≤ used → Within size (capacity size used back)
capacity-Within size used back le = elim (Bool-cases (leb used (size + back))) [
  | inl e ↦ rw e (ground (arith, e))
  | inr e ↦ rw e tt
]

pub send_ack-IsBounded :
    (w : ℕ) (pack : Packet) (r : RecvState) → IsBounded w r → IsBounded w (send_ack pack r)
unfolding send_ack update_control
send_ack-IsBounded w pack r v = record {
  size = v.size;
  consumed = v.consumed;
  slots = v.slots;
  ready = v.ready;
  acks = AllWithin-snoc w r.acks _ v.acks (
      subst (λ n. Within n (capacity r.recv_window_size r.seqnos_rcvd r.msgs_consumed)) v.size
        (capacity-Within r.recv_window_size r.seqnos_rcvd r.msgs_consumed v.consumed));
}

deliver_one-IsBounded :
    (w : ℕ) (r : RecvState)
    → IsBounded w r
    → IsBounded w (deliver_one r (slot_at r r.next_frame_expected))
unfolding deliver_one slot_at
deliver_one-IsBounded w r v = record {
  size = v.size;
  consumed = v.consumed;
  slots = λ k.
      Below-set r.seqnos_rcvd r.rxq (r.next_frame_expected % r.recv_window_size) k empty_slot tt
        (v.slots k);
  ready =
      AllBelow-snoc r.seqnos_rcvd r.ready_for_delivery (slot_at r r.next_frame_expected).pack
        v.ready (v.slots (r.next_frame_expected % r.recv_window_size));
  acks = v.acks;
}

deliver-Bounded : (w fuel : ℕ) (r : RecvState) → IsBounded w r → Bounded? w r (deliver fuel r)
unfolding deliver deliver_one
deliver-Bounded w zero r v = elim (Bool-cases (slot_at r r.next_frame_expected).received) [
  | inl e ↦ rw e tt
  | inr e ↦ rw e (v, (refl, refl))
]
deliver-Bounded w (suc fuel) r v = elim (Bool-cases (slot_at r r.next_frame_expected).received) [
  | inl e ↦ rw e (
      deliver-Bounded w fuel (deliver_one r (slot_at r r.next_frame_expected))
        (deliver_one-IsBounded w r v))
  | inr e ↦ rw e (v, (refl, refl))
]

told-Bounded :
    (w : ℕ) (r : RecvState) (o : Option RecvState)
    → Bounded? w r o
    → Bounded? w r (elim o [
      | none ↦ none
      | some d ↦ some (record d { snd_consumed = d.last_frame_client_consumed })
    ])
told-Bounded w r none h = tt
told-Bounded w r (some d) (v, e) = (
  record { size = v.size; consumed = v.consumed; slots = v.slots; ready = v.ready; acks = v.acks },
  e,
)

-- A data packet among those that arrived keeps the bounds.
pub receive-Bounded :
    (w : ℕ) (pack : Packet) (r : RecvState)
    → pack.seq_num < r.seqnos_rcvd
    → IsBounded w r
    → Bounded? w r (receive pack r)
unfolding receive remember store send_ack update_control
receive-Bounded w pack r l v =
    let r1 = remember pack r in
    let v1 : IsBounded w (record r1 { discard_count = r1.discard_count + 1 }) = record {
      size = v.size;
      consumed = v.consumed;
      slots = v.slots;
      ready = v.ready;
      acks = v.acks;
    } in
    let v2 : IsBounded w (store pack r1) = record {
      size = v.size;
      consumed = v.consumed;
      slots = λ k.
          Below-set r.seqnos_rcvd r.rxq (pack.seq_num % r.recv_window_size) k
            record { received = true; pack = some pack } l (v.slots k);
      ready = v.ready;
      acks = v.acks;
    } in
    elim (Bool-cases (
      in_window pack.seq_num r.next_frame_expected
        (r.next_frame_expected + r.recv_window_size - 1))) [
          | inl e ↦ elim (Bool-cases (pack.seq_num == r.next_frame_expected)) [
            | inl f ↦
                rw (e, f)
                  (told-Bounded w r (deliver (length (store pack r1).rxq) (store pack r1))
                    (deliver-Bounded w (length (store pack r1).rxq) (store pack r1) v2))
            | inr f ↦ rw (e, f) (v2, (refl, refl))
          ]
          | inr e ↦ rw e (
            send_ack-IsBounded w pack (record r1 { discard_count = r1.discard_count + 1 }) v1,
            (refl, refl),
          )
        ]

pub new_recv_state-IsBounded : (w b : ℕ) → IsBounded w (new_recv_state w b)
unfolding new_recv_state
new_recv_state-IsBounded w b = record {
  size = refl;
  consumed = omega arith;
  slots = empty w;
  ready = tt;
  acks = tt;
}
  where
    empty : (w k : ℕ) → Below 0 (get_or (replicate w empty_slot) k empty_slot).pack
    empty zero k = tt
    empty (suc w) zero = tt
    empty (suc w) (suc k) = empty w k
