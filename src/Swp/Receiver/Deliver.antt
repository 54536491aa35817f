-- ===== src/Swp/Receiver/Deliver.antt =====
-- The delivery loop of swp/recv.go.
use gnatsd.Prelude.{
  ℕ, zero, suc, ◌+◌, ◌%◌, ◌≤◌, ◌<◌, true, false, [], ◌∷◌, ◌++◌, some, ◌≡◌, refl, sym, ◌∙◌, ap, ap₂,
  arith, inl, inr, Bool-cases, length-set, Bytes, List, Option, map, append_assoc,
}
use gnatsd.Prelude.Mods.{mod-inj}
use gnatsd.Swp.Receiver.{Packet, RecvState, empty_slot, slot_at, deliver_one, deliver}
use gnatsd.Swp.Receiver.Slots.{prefix, contents, IsValid, clear_slot, held, held-set}

map-append :
    (xs ys : List (Option Packet)) → map contents (xs ++ ys) ≡ map contents xs ++ map contents ys
map-append [] ys = refl
map-append (x ∷ xs) ys = ap (λ l. contents x ∷ l) (map-append xs ys)

module _ (sent : ℕ → Bytes) (gone : List (Option Packet)) where
  next_slot :
      (r : RecvState)
      → IsValid sent gone r
      → (slot_at r r.next_frame_expected).received ≡ true
      → contents (slot_at r r.next_frame_expected).pack ≡ some (sent r.next_frame_expected)
  unfolding slot_at
  next_slot r v h =
      let nfe = r.next_frame_expected in
      let (s, e, m, low, high) = v.slots (nfe % r.recv_window_size) h in
      e ∙ ap (λ x. some (sent x)) (sym (mod-inj r.recv_window_size nfe s (sym m) low high))

  deliver_one-IsValid :
      (r : RecvState)
      → IsValid sent gone r
      → (slot_at r r.next_frame_expected).received ≡ true
      → IsValid sent gone (deliver_one r (slot_at r r.next_frame_expected))
  unfolding deliver_one
  deliver_one-IsValid r v h =
      let nfe = r.next_frame_expected in
      let w = r.recv_window_size in
      let succ : nfe + 1 ≡ suc nfe = omega arith in
      record {
        window = v.window;
        storage = length-set r.rxq (nfe % w) empty_slot ∙ v.storage;
        history =
            map-append r.recv_history ((slot_at r nfe).pack ∷ [])
            ∙ ap₂ (λ x p. x ++ p ∷ []) v.history (next_slot r v h)
            ∙ ap (λ n. prefix n sent) (sym succ);
        ready =
            ap (λ x. x ++ (slot_at r nfe).pack ∷ []) v.ready
            ∙ append_assoc gone r.ready_for_delivery ((slot_at r nfe).pack ∷ []);
        slots = λ k. clear_slot sent w nfe k r.rxq v.window v.storage (v.slots k);
      }

held_next :
    (r : RecvState)
    → (slot_at r r.next_frame_expected).received ≡ true
    → held (deliver_one r (slot_at r r.next_frame_expected)).rxq + 1 ≡ held r.rxq
unfolding slot_at deliver_one
held_next r h = held-set r.rxq (r.next_frame_expected % r.recv_window_size) h

one_more :
    (r d : RecvState)
    → (deliver_one r (slot_at r r.next_frame_expected)).next_frame_expected ≤ d.next_frame_expected
    → r.next_frame_expected + 1 ≤ d.next_frame_expected
unfolding deliver_one
one_more r d h = h

module _ (sent : ℕ → Bytes) (gone : List (Option Packet)) where
  -- The result of the delivery loop from `r`.
  abbrev pub Delivered : RecvState → RecvState → Type 0
  Delivered r d =
      IsValid sent gone d
      × ((slot_at d d.next_frame_expected).received ≡ false)
      × (r.next_frame_expected ≤ d.next_frame_expected)
      × ((slot_at r r.next_frame_expected).received ≡ true
          → r.next_frame_expected < d.next_frame_expected)

  pub deliver-Delivered :
      (fuel : ℕ) (r : RecvState)
      → IsValid sent gone r
      → held r.rxq ≤ fuel
      → (d : RecvState) × (deliver fuel r ≡ some d) × Delivered r d
  unfolding deliver deliver_one
  deliver-Delivered zero r v h = elim (Bool-cases (slot_at r r.next_frame_expected).received) [
    | inl t ↦ absurd (omega (arith, held_next r t))
    | inr t ↦ (r, rw t refl, (v, t, omega arith, λ e. absurd (ground (arith, t, e))))
  ]
  deliver-Delivered (suc fuel) r v h =
      elim (Bool-cases (slot_at r r.next_frame_expected).received) [
        | inl t ↦
            let r' = deliver_one r (slot_at r r.next_frame_expected) in
            let (d, e, (vd, stopped, grown, _)) =
              deliver-Delivered fuel r' (deliver_one-IsValid sent gone r v t)
                (omega (arith, held_next r t)) in
            (
              d,
              rw t e,
              (
                vd,
                stopped,
                omega (arith, one_more r d grown),
                λ _. omega (arith, one_more r d grown),
              ),
            )
        | inr t ↦ (r, rw t refl, (v, t, omega arith, λ e. absurd (ground (arith, t, e))))
      ]
