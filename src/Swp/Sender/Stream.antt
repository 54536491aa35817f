-- ===== src/Swp/Sender/Stream.antt =====
-- What the sender of swp/sender.go puts on the network is what the application gave it.
use gnatsd.Prelude.{
  ℕ, zero, suc, ◌+◌, ◌%◌, List, [], ◌∷◌, ◌++◌, Option, none, some, not, ◌&&◌, ◌==◌, ◌⊎◌, ◌≡◌, refl,
  sym, ◌∙◌, ap, subst, arith, inl, inr, Bool-cases, get_or, length, length-append, Bytes, replicate,
}
use gnatsd.Swp.Retree.{Rbtree}
use gnatsd.Swp.Receiver.{Packet}
use gnatsd.Swp.Sender.{
  KeepAlive, SenderState, Heard, unused_slot, new_sender_state, reset_slot, resend, resend_all,
  take_due, resend_due, wakeup, do_orig_data_send, accept_send, can_send, forget_acked, got_pack,
  acks_sent,
}
use gnatsd.Swp.Sender.Turns.{wakeup_either}
use gnatsd.Swp.Sender.History.{
  total, total-append_all, get_or-append_end, IsFrame, IsFrame?, AllFrames, IsFrame?-append,
  AllFrames-append, AllFrames-snoc, IsFrame?-next_retry, IsFrame?-set,
}

-- The slots and the network hold packets of the history.
pub record Carries (t : Rbtree) (s : SenderState t) : Type 0 where
  pub counted : length s.send_history ≡ s.frames_sent
  pub summed : s.total_bytes_sent ≡ total s.send_history (length s.send_history)
  pub slots : (k : ℕ) → IsFrame? s.send_history (get_or s.txq k unused_slot).pack
  pub wire : AllFrames s.send_history s.net

module _ (t : Rbtree) where
  pub new_sender_state-Carries : (k : KeepAlive) (w : ℕ) → Carries t (new_sender_state t k w)
  unfolding new_sender_state
  new_sender_state-Carries k w = record {
    counted = refl;
    summed = refl;
    slots = λ k. unused w k;
    wire = tt;
  }
    where
      unused : (w k : ℕ) → IsFrame? [] (get_or (replicate w unused_slot) k unused_slot).pack
      unused zero k = tt
      unused (suc w) zero = tt
      unused (suc w) (suc k) = unused w k

  do_orig_data_send-Carries :
      (now dur : ℕ) (bytes : Bytes) (s : SenderState t)
      → Carries t s
      → Carries t (do_orig_data_send t now dur bytes s)
  unfolding do_orig_data_send
  do_orig_data_send-Carries now dur bytes s v =
      let h = s.send_history in
      let all = total-append_all h bytes in
      let len : length (h ++ bytes ∷ []) ≡ suc (length h) =
        omega (arith, length-append h (bytes ∷ [])) in
      let pack : Packet = record {
        seq_num = s.frames_sent;
        seq_retry = 0;
        bytes = bytes;
        cumul = s.total_bytes_sent + length bytes;
      } in
      let frame : IsFrame (h ++ bytes ∷ []) pack = (
        omega (arith, len, v.counted),
        sym (get_or-append_end h bytes) ∙ ap (λ n. get_or (h ++ bytes ∷ []) n []) v.counted,
        omega (arith, v.summed, all) ∙ ap (λ n. total (h ++ bytes ∷ []) (suc n)) v.counted,
      ) in
      record {
        counted = omega (arith, len, v.counted);
        summed = omega (arith, v.summed, all, ap (total (h ++ bytes ∷ [])) len);
        slots = λ k.
            IsFrame?-set (h ++ bytes ∷ []) s.txq (s.frames_sent % s.sender_window_size) k
              record {
                orig_send_time = now;
                retry_deadline = now + dur;
                retry_dur = dur;
                pack = some pack;
              }
              frame (IsFrame?-append h bytes (get_or s.txq k unused_slot).pack (v.slots k));
        wire =
            AllFrames-snoc (h ++ bytes ∷ []) s.net (some pack)
              (AllFrames-append h bytes s.net v.wire) frame;
      }

  pub accept_send-Carries :
      (now dur : ℕ) (bytes : Bytes) (s : SenderState t)
      → Carries t s
      → Carries t (accept_send t now dur bytes s)
  unfolding accept_send
  accept_send-Carries now dur bytes s v = elim (Bool-cases (can_send t s)) [
    | inl e ↦ rw e (do_orig_data_send-Carries now dur bytes s v)
    | inr e ↦ rw e v
  ]

  resend_all-Carries :
      (clk : ℕ → ℕ × ℕ) (xs : List ℕ) (s : SenderState t)
      → Carries t s
      → Carries t (resend_all t clk xs s)
  unfolding resend_all resend
  resend_all-Carries clk [] s v = v
  resend_all-Carries clk (x ∷ xs) s v =
      let slot = reset_slot (clk x).0 (clk x).1 (get_or s.txq x unused_slot) in
      let frame =
        IsFrame?-next_retry s.send_history (get_or s.txq x unused_slot).pack (v.slots x) in
      resend_all-Carries clk xs (resend t (clk x).0 (clk x).1 x s) record {
        counted = v.counted;
        summed = v.summed;
        slots = λ k. IsFrame?-set s.send_history s.txq x k slot frame (v.slots k);
        wire = AllFrames-snoc s.send_history s.net slot.pack v.wire frame;
      }

  resend_due-Carries :
      (now : ℕ) (clk : ℕ → ℕ × ℕ) (s : SenderState t)
      → Carries t s
      → Carries t (resend_due t now clk s)
  unfolding resend_due take_due
  resend_due-Carries now clk s v =
      resend_all-Carries clk (take_due t now s).0 (take_due t now s).1
        record { counted = v.counted; summed = v.summed; slots = v.slots; wire = v.wire }

  pub wakeup-Carries :
      (now : ℕ) (clk : ℕ → ℕ × ℕ) (s : SenderState t) → Carries t s → Carries t (wakeup t now clk s)
  wakeup-Carries now clk s v =
      wakeup_either t (Carries t) now clk s
        record { counted = v.counted; summed = v.summed; slots = v.slots; wire = v.wire }
        (resend_due-Carries now clk s v)

  abbrev Kept? : SenderState t → Option (SenderState t) → Type 0
  Kept? s none = Unit
  Kept? s (some d) = Carries t d × (d.send_history ≡ s.send_history)

  kept : (a : Heard) (s : SenderState t) → Carries t s → Kept? s (got_pack t a s)
  unfolding got_pack forget_acked
  kept a s v =
      let f = forget_acked t a s in
      let vf : Carries t f = record {
        counted = v.counted;
        summed = v.summed;
        slots = v.slots;
        wire = v.wire;
      } in
      elim (Bool-cases (length (t.items f.by_seq_num) == length (t.items f.by_deadline))) [
        | inl e ↦
            elim (Bool-cases
              (a.is_data_ack && not (acks_sent f.acks_rec f.frames_sent a.ack_num))) [
                | inl g ↦
                    rw (e, g)
                      (
                        record {
                          counted = v.counted;
                          summed = v.summed;
                          slots = v.slots;
                          wire = v.wire;
                        },
                        refl,
                      )
                | inr g ↦ rw (e, g) (vf, refl)
              ]
        | inr e ↦ rw e tt
      ]

  -- What is heard changes neither the history nor the packets.
  pub got_pack-Carries :
      (a : Heard) (s d : SenderState t)
      → got_pack t a s ≡ some d
      → Carries t s
      → Carries t d × (d.send_history ≡ s.send_history)
  got_pack-Carries a s d e v = subst (Kept? s) e (kept a s v)

  history-resend_all :
      (clk : ℕ → ℕ × ℕ) (xs : List ℕ) (s : SenderState t)
      → (resend_all t clk xs s).send_history ≡ s.send_history
  unfolding resend_all resend
  history-resend_all clk [] s = refl
  history-resend_all clk (x ∷ xs) s = history-resend_all clk xs (resend t (clk x).0 (clk x).1 x s)

  pub history-wakeup :
      (now : ℕ) (clk : ℕ → ℕ × ℕ) (s : SenderState t)
      → (wakeup t now clk s).send_history ≡ s.send_history
  unfolding resend_due take_due
  history-wakeup now clk s =
      wakeup_either t (λ d. d.send_history ≡ s.send_history) now clk s refl
        (history-resend_all clk (take_due t now s).0 (take_due t now s).1)

  -- An offer leaves the history, or adds to it.
  pub history-accept_send :
      (now dur : ℕ) (bytes : Bytes) (s : SenderState t)
      → ((accept_send t now dur bytes s).send_history ≡ s.send_history)
        ⊎ ((accept_send t now dur bytes s).send_history ≡ s.send_history ++ bytes ∷ [])
  unfolding accept_send do_orig_data_send
  history-accept_send now dur bytes s = elim (Bool-cases (can_send t s)) [
    | inl e ↦ inr (rw e refl)
    | inr e ↦ inl (rw e refl)
  ]
