-- ===== src/Swp/Link/Arrive.antt =====
-- What a packet of the sender does at the receiver, when it arrives.
use gnatsd.Prelude.{
  ℕ, ◌+◌, ◌≤◌, ◌<◌, false, List, [], Option, some, ltb, ◌≡◌, refl, sym, ◌∙◌, ap, subst, arith, inl,
  inr, Bool-cases, get_or, length, Bytes,
}
use mathlib.Core.Option.{some-injective}
use gnatsd.Swp.Receiver.{Packet, RecvState, note_arrival, take_packet, update_control}
use gnatsd.Swp.Receiver.Slots.{IsValid}
use gnatsd.Swp.Receiver.InOrder.{receive_refines}
use gnatsd.Swp.Receiver.Bounds.{IsBounded, Bounded?, AllBelow-mono, Below-mono, receive-Bounded}
use gnatsd.Swp.Sender.History.{total, total_mono, IsFrame}

-- A stream that starts with a history.
abbrev pub Agrees : List Bytes → (ℕ → Bytes) → Type 0
Agrees h sent = (n : ℕ) → n < length h → sent n ≡ get_or h n []

-- A receiver that has seen only packets of a history, with `client` gone to its client. It is in order
-- for every stream that starts with the history, so it depends on no more than the history.
pub record Follows (w : ℕ) (h : List Bytes) (client : List (Option Packet)) (r : RecvState)
    : Type 0 where
  pub bounded : IsBounded w r
  pub arrived : r.seqnos_rcvd ≤ length h
  pub summed : r.max_cumul_bytes_trans ≡ total h r.seqnos_rcvd
  pub in_order : (sent : ℕ → Bytes) → Agrees h sent → IsValid sent client r

-- What a packet does before its event counts.
abbrev Noted : ℕ → List Bytes → List (Option Packet) → Packet → RecvState → Type 0
Noted w h client pack r = Follows w h client r × (pack.seq_num < r.seqnos_rcvd)

note_arrival-Noted :
    (w : ℕ) (h : List Bytes) (client : List (Option Packet)) (pack : Packet) (r : RecvState)
    → IsFrame h pack
    → Follows w h client r
    → (n : RecvState) × (note_arrival pack r ≡ some n) × Noted w h client pack n
unfolding note_arrival update_control
note_arrival-Noted w h client pack r (l, data_same, c) f =
    let b = f.bounded in
    let c' : pack.cumul ≡ total h (pack.seq_num + 1) = c ∙ ap (total h) (omega arith) in
    let in_order : (sent : ℕ → Bytes) → Agrees h sent → IsValid sent client (update_control r) =
      λ sent agrees.
        let v = f.in_order sent agrees in
        record {
          window = v.window;
          storage = v.storage;
          history = v.history;
          ready = v.ready;
          slots = v.slots;
        } in
    elim (Bool-cases (ltb r.seqnos_rcvd (pack.seq_num + 1))) [
      | inl e ↦
          let newer : r.seqnos_rcvd ≤ pack.seq_num + 1 = ground (arith, e) in
          let up : ltb pack.cumul r.max_cumul_bytes_trans ≡ false =
            ground (arith, c', f.summed, total_mono h r.seqnos_rcvd (pack.seq_num + 1) newer) in
          let level : ltb pack.cumul pack.cumul ≡ false = ground arith in
          let n = record r { seqnos_rcvd = pack.seq_num + 1; max_cumul_bytes_trans = pack.cumul } in
          (
            update_control n,
            rw (e, up, level) refl,
            (
              record {
                bounded = record {
                  size = b.size;
                  consumed = omega (arith, b.consumed, newer);
                  slots = λ k. Below-mono r.seqnos_rcvd (pack.seq_num + 1) _ newer (b.slots k);
                  ready =
                      AllBelow-mono r.seqnos_rcvd (pack.seq_num + 1) r.ready_for_delivery newer
                        b.ready;
                  acks = b.acks;
                };
                arrived = omega (arith, l);
                summed = c';
                in_order = λ sent agrees.
                    let v = f.in_order sent agrees in
                    record {
                      window = v.window;
                      storage = v.storage;
                      history = v.history;
                      ready = v.ready;
                      slots = v.slots;
                    };
              },
              omega arith,
            ),
          )
      | inr e ↦
          let older : pack.seq_num + 1 ≤ r.seqnos_rcvd = ground (arith, e) in
          let down : ltb r.max_cumul_bytes_trans pack.cumul ≡ false =
            ground (arith, c', f.summed, total_mono h (pack.seq_num + 1) r.seqnos_rcvd older) in
          (
            update_control r,
            rw (e, down) refl,
            (
              record {
                bounded = record {
                  size = b.size;
                  consumed = b.consumed;
                  slots = b.slots;
                  ready = b.ready;
                  acks = b.acks;
                };
                arrived = f.arrived;
                summed = f.summed;
                in_order = in_order;
              },
              omega (arith, older),
            ),
          )
    ]

-- A packet of the history does not panic, and the receiver follows the history.
pub take_packet-Follows :
    (w : ℕ) (h : List Bytes) (client : List (Option Packet)) (pack : Packet) (r : RecvState)
    → IsFrame h pack
    → Follows w h client r
    → (d : RecvState) × (take_packet pack r ≡ some d) × Follows w h client d
unfolding take_packet
take_packet-Follows w h client pack r frame f =
    let (l, data_same, _) = frame in
    let (n, noted, (g, below)) = note_arrival-Noted w h client pack r frame f in
    let runs = λ (sent : ℕ → Bytes) (agrees : Agrees h sent).
      receive_refines sent client pack n (data_same ∙ sym (agrees pack.seq_num l))
        (g.in_order sent agrees) in
    let (d, run, _) = runs (λ k. get_or h k []) (λ k less. refl) in
    let kept = subst (Bounded? w n) run (receive-Bounded w pack n below g.bounded) in
    (
      d,
      rw (take_packet, noted, run) refl,
      record {
        bounded = kept.0;
        arrived = omega (arith, kept.1.0, g.arrived);
        summed = kept.1.1 ∙ g.summed ∙ ap (total h) (sym kept.1.0);
        in_order = λ sent agrees.
            let (d', run', (v, _, _)) = runs sent agrees in
            subst (IsValid sent client) (some-injective d' d (sym run' ∙ run)) v;
      },
    )
