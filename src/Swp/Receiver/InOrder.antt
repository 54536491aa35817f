-- ===== src/Swp/Receiver/InOrder.antt =====
-- The receiver of swp/recv.go delivers what was sent, in order and without a gap.
use gnatsd.Prelude.{
  ℕ, ◌+◌, ◌-◌, ◌%◌, ◌≤◌, ◌<◌, Bool, true, false, List, some, ◌≡◌, ◌≢◌, refl, sym, ◌∙◌, ap, arith,
  inl, inr, ◌==◌, Bool-cases, get_or, set, length, length-set, get_or-set_self, Bytes, Option,
}
use gnatsd.Swp.Receiver.{
  Packet, RxqSlot, RecvState, empty_slot, in_window, slot_at, send_ack, remember, store, receive,
}
use native.Mathlib.Nat.{mod-lt}
use gnatsd.Swp.Receiver.Slots.{IsSent, IsValid, fill_slot, held-length}
use gnatsd.Swp.Receiver.Deliver.{deliver-Delivered}

module _ (sent : ℕ → Bytes) (gone : List (Option Packet)) where
  store-IsValid :
      (pack : Packet) (r : RecvState)
      → IsSent sent pack
      → r.next_frame_expected ≤ pack.seq_num
      → pack.seq_num < r.next_frame_expected + r.recv_window_size
      → IsValid sent gone r
      → IsValid sent gone (store pack (remember pack r))
  unfolding store remember
  store-IsValid pack r e low high v =
      let w = r.recv_window_size in
      let q = pack.seq_num in
      record {
        window = v.window;
        storage = length-set r.rxq (q % w) record { received = true; pack = some pack } ∙ v.storage;
        history = v.history;
        ready = v.ready;
        slots = λ k.
            fill_slot sent w r.next_frame_expected k pack r.rxq e low high v.storage (v.slots k);
      }

  -- What a data packet does to a receiver.
  abbrev pub Received : Packet → RecvState → RecvState → Type 0
  Received pack r d =
      IsValid sent gone d
      × (r.next_frame_expected ≤ d.next_frame_expected)
      × (pack.seq_num ≡ r.next_frame_expected → r.next_frame_expected < d.next_frame_expected)

  in_window_iff :
      (q a w : ℕ) (b : Bool)
      → 0 < w
      → in_window q a (a + w - 1) ≡ b
      → (b ≡ true → (a ≤ q) × (q < a + w)) × (b ≡ false → q ≢ a)
  unfolding in_window
  in_window_iff q a w b pos_w h = ground (arith, h)

  told :
      (d : RecvState)
      → IsValid sent gone d
      → IsValid sent gone (record d { snd_consumed = d.last_frame_client_consumed })
  told d v = record {
    window = v.window;
    storage = v.storage;
    history = v.history;
    ready = v.ready;
    slots = v.slots;
  }

  discarded :
      (pack : Packet) (r : RecvState)
      → IsValid sent gone r
      → in_window pack.seq_num r.next_frame_expected
          (r.next_frame_expected + r.recv_window_size - 1)
        ≡ false
      → (d : RecvState) × (receive pack r ≡ some d) × Received pack r d
  unfolding receive remember send_ack
  discarded pack r v h =
      let out =
        in_window_iff pack.seq_num r.next_frame_expected r.recv_window_size false v.window h in
      let d =
        send_ack pack
          (record (remember pack r) { discard_count = (remember pack r).discard_count + 1 }) in
      (
        d,
        rw h refl,
        (
          record {
            window = v.window;
            storage = v.storage;
            history = v.history;
            ready = v.ready;
            slots = v.slots;
          },
          omega arith,
          λ e. absurd (out.1 refl e),
        ),
      )

  arrived :
      (pack : Packet) (r : RecvState)
      → pack.seq_num ≡ r.next_frame_expected
      → 0 < r.recv_window_size
      → length r.rxq ≡ r.recv_window_size
      → (slot_at (store pack (remember pack r)) r.next_frame_expected).received ≡ true
  unfolding slot_at store remember
  arrived pack r e pos_w l =
      let w = r.recv_window_size in
      let q = pack.seq_num in
      let slot : RxqSlot = record { received = true; pack = some pack } in
      ap (λ i. (get_or (set r.rxq (q % w) slot) (i % w) empty_slot).received) (sym e)
      ∙ ap (λ x. x.received)
          (get_or-set_self r.rxq (q % w) slot empty_slot (omega (arith, mod-lt q {m = w} pos_w)))

  kept :
      (pack : Packet) (r : RecvState)
      → IsSent sent pack
      → IsValid sent gone r
      → in_window pack.seq_num r.next_frame_expected
          (r.next_frame_expected + r.recv_window_size - 1)
        ≡ true
      → (d : RecvState) × (receive pack r ≡ some d) × Received pack r d
  unfolding receive remember store slot_at
  kept pack r e v h =
      let (low, high) =
        (in_window_iff pack.seq_num r.next_frame_expected r.recv_window_size true v.window h).0
          refl in
      let r2 = store pack (remember pack r) in
      let v2 = store-IsValid pack r e low high v in
      elim (Bool-cases (pack.seq_num == r.next_frame_expected)) [
        | inl t ↦
            let (d, run, (vd, stopped, grown, more)) =
              deliver-Delivered sent gone (length r2.rxq) r2 v2 (held-length r2.rxq) in
            (
              record d { snd_consumed = d.last_frame_client_consumed },
              rw (h, t, run) refl,
              (told d vd, grown, λ e. more (arrived pack r e v.window v.storage)),
            )
        | inr t ↦ (r2, rw (h, t) refl, (v2, omega arith, λ e. absurd (ground (arith, e))))
      ]

  -- A data packet of the stream, whichever and whenever it comes, leaves a valid receiver valid: what
  -- it has delivered is the packets of the stream before the one it expects, in order. The loop
  -- of deliveries ends, nothing is taken back, and the expected packet is delivered at once.
  pub receive_refines :
      (pack : Packet) (r : RecvState)
      → IsSent sent pack
      → IsValid sent gone r
      → (d : RecvState) × (receive pack r ≡ some d) × Received pack r d
  receive_refines pack r e v =
      elim (Bool-cases (
        in_window pack.seq_num r.next_frame_expected
          (r.next_frame_expected + r.recv_window_size - 1))) [
            | inl t ↦ kept pack r e v t
            | inr t ↦ discarded pack r v t
          ]
