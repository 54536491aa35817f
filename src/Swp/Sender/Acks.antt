-- ===== src/Swp/Sender/Acks.antt =====
-- What is due and what is acked leaves both trees of swp/sender.go.
use gnatsd.Prelude.{
  ℕ, ◌+◌, ◌-◌, Bool, true, [], some, leb, not, ◌&&◌, ◌==◌, ◌≡◌, refl, sym, ◌∙◌, ap, subst, arith,
  inl, inr, Bool-cases, length, get_or, length-append,
}
use gnatsd.Swp.Receiver.Bounds.{Within}
use gnatsd.Swp.Retree.{Rbtree, IsRbtree, IsSorted, delete_through}
use gnatsd.Swp.Retree.Sorted.{count}
use gnatsd.Swp.Sender.{
  SenderState, Heard, unused_slot, seq_key, deadline_key, take_due, resend_due, halt, wakeup,
  through, forget_acked, got_pack, acks_sent,
}
use gnatsd.Swp.Sender.Turns.{wakeup_either}
use gnatsd.Swp.Sender.Frames.{length-slots_of, slots_of-split}
use gnatsd.Swp.Sender.Trees.{count-append, delete_through_lem, delete_all_lem, IsSorted-append}
use gnatsd.Swp.Sender.Window.{Misses, by_seq_num_lem}
use gnatsd.Swp.Sender.Resend.{resend_all-Misses}

module _ (t : Rbtree) (laws : IsRbtree t) where
  take_due-Misses :
      (now : ℕ) (s : SenderState t)
      → Misses t [] s
      → Misses t (take_due t now s).0 (take_due t now s).1
  unfolding take_due count
  take_due-Misses now s v =
      let w = s.sender_window_size in
      let goes : ℕ → Bool = λ i. leb (get_or s.txq i unused_slot).retry_deadline now in
      let (due, rest) = delete_through t goes (t.items s.by_deadline) s.by_deadline in
      let split = delete_through_lem t laws goes (t.items s.by_deadline) s.by_deadline refl in
      let counts : (z : ℕ)
          → count z due + count z (t.items rest) ≡ count z (t.items s.by_deadline) =
        λ z. sym (count-append z due (t.items rest)) ∙ ap (count z) split in
      let (a1, a2, _) =
        delete_all_lem t laws (seq_key s.txq) due s.by_seq_num v.by_seq_IsSorted
          (λ z. omega (arith, counts z, v.by_seq_count z, v.by_deadline_count z)) in
      record {
        base = v.base;
        n = v.n;
        window = v.window;
        storage = v.storage;
        frames = v.frames;
        fits = v.fits;
        cap_fits = v.cap_fits;
        holds = v.holds;
        by_seq_IsSorted = a1;
        by_deadline_IsSorted =
            IsSorted-append (deadline_key s.txq) due (t.items rest)
              (subst (IsSorted (deadline_key s.txq)) (sym split) v.by_deadline_IsSorted);
        by_seq_count = λ z. omega (arith, a2 z, v.by_seq_count z);
        by_deadline_count = λ z. omega (arith, counts z, v.by_deadline_count z);
        by_deadline_length =
            omega (arith, length-append due (t.items rest), ap length split, v.by_deadline_length);
      }

  resend_due-Misses :
      (now : ℕ) (clk : ℕ → ℕ × ℕ) (s : SenderState t)
      → Misses t [] s
      → Misses t [] (resend_due t now clk s)
  unfolding resend_due
  resend_due-Misses now clk s v =
      resend_all-Misses t laws clk (take_due t now s).0 (take_due t now s).1
        (take_due-Misses now s v)

  halt-Misses : (s : SenderState t) → Misses t [] s → Misses t [] (halt t s)
  halt-Misses s v = record {
    base = v.base;
    n = v.n;
    window = v.window;
    storage = v.storage;
    frames = v.frames;
    fits = v.fits;
    cap_fits = v.cap_fits;
    holds = v.holds;
    by_seq_IsSorted = v.by_seq_IsSorted;
    by_deadline_IsSorted = v.by_deadline_IsSorted;
    by_seq_count = v.by_seq_count;
    by_deadline_count = v.by_deadline_count;
    by_deadline_length = v.by_deadline_length;
  }

  pub wakeup-Misses :
      (now : ℕ) (clk : ℕ → ℕ × ℕ) (s : SenderState t)
      → Misses t [] s
      → Misses t [] (wakeup t now clk s)
  wakeup-Misses now clk s v =
      wakeup_either t (Misses t []) now clk s (halt-Misses s v) (resend_due-Misses now clk s v)

  forget_acked-Misses :
      (a : Heard) (s : SenderState t)
      → Within s.sender_window_size a.msg_cap
      → Misses t [] s
      → Misses t [] (forget_acked t a s)
  unfolding forget_acked count
  forget_acked-Misses a s c v =
      let w = s.sender_window_size in
      let goes = through s.txq a.ack_num in
      let (acked, rest) = delete_through t goes (t.items s.by_seq_num) s.by_seq_num in
      let split = delete_through_lem t laws goes (t.items s.by_seq_num) s.by_seq_num refl in
      let (m, le, left) =
        slots_of-split w v.base v.n acked (t.items rest) (split ∙ by_seq_num_lem t laws s v) in
      let counts : (z : ℕ)
          → count z acked + count z (t.items rest) ≡ count z (t.items s.by_seq_num) =
        λ z. sym (count-append z acked (t.items rest)) ∙ ap (count z) split in
      let same : (z : ℕ) → count z (t.items s.by_seq_num) ≡ count z (t.items s.by_deadline) =
        λ z. omega (arith, v.by_seq_count z, v.by_deadline_count z) in
      let (b1, b2, b3) =
        delete_all_lem t laws (deadline_key s.txq) acked s.by_deadline v.by_deadline_IsSorted
          (λ z. omega (arith, counts z, same z)) in
      record {
        base = v.base + (v.n - m);
        n = m;
        window = v.window;
        storage = v.storage;
        frames = omega (arith, v.frames, le);
        fits = omega (arith, v.fits, le);
        cap_fits = c;
        holds = λ i low high. v.holds i (omega arith) (omega (arith, high, le));
        by_seq_IsSorted =
            IsSorted-append (seq_key s.txq) acked (t.items rest)
              (subst (IsSorted (seq_key s.txq)) (sym split) v.by_seq_IsSorted);
        by_deadline_IsSorted = b1;
        by_seq_count = λ z. omega (arith, ap (count z) left);
        by_deadline_count = λ z. omega (arith, b2 z, counts z, same z, ap (count z) left);
        by_deadline_length = omega (
          arith,
          b3,
          length-append acked (t.items rest),
          ap length (split ∙ by_seq_num_lem t laws s v),
          length-slots_of w v.base v.n,
          ap length left,
          length-slots_of w (v.base + (v.n - m)) m,
          v.by_deadline_length,
        );
      }

  pub got_pack-Misses :
      (a : Heard) (s : SenderState t)
      → Within s.sender_window_size a.msg_cap
      → Misses t [] s
      → (d : SenderState t) × (got_pack t a s ≡ some d)
        × Misses t [] d
        × (d.sender_window_size ≡ s.sender_window_size)
  unfolding got_pack forget_acked
  got_pack-Misses a s c v =
      let f = forget_acked t a s in
      let vf = forget_acked-Misses a s c v in
      let same : (length (t.items f.by_seq_num) == length (t.items f.by_deadline)) ≡ true = ground (
        arith,
        ap length (by_seq_num_lem t laws f vf),
        length-slots_of f.sender_window_size vf.base vf.n,
        vf.by_deadline_length,
      ) in
      elim (Bool-cases (a.is_data_ack && not (acks_sent f.acks_rec f.frames_sent a.ack_num))) [
        | inl e ↦ (
          record f { discard_count = f.discard_count + 1 },
          rw (same, e) refl,
          record {
            base = vf.base;
            n = vf.n;
            window = vf.window;
            storage = vf.storage;
            frames = vf.frames;
            fits = vf.fits;
            cap_fits = vf.cap_fits;
            holds = vf.holds;
            by_seq_IsSorted = vf.by_seq_IsSorted;
            by_deadline_IsSorted = vf.by_deadline_IsSorted;
            by_seq_count = vf.by_seq_count;
            by_deadline_count = vf.by_deadline_count;
            by_deadline_length = vf.by_deadline_length;
          },
          refl,
        )
        | inr e ↦ (f, rw (same, e) refl, vf, refl)
      ]
