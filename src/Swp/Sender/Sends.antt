-- ===== src/Swp/Sender/Sends.antt =====
-- The first sends of swp/sender.go keep the invariant of its window.
use gnatsd.Prelude.{
  ℕ, suc, ◌+◌, ◌%◌, ◌≤◌, ◌<◌, Bool, true, List, [], ◌∷◌, Option, none, some, ◌&&◌, ◌==◌,
  if◌then◌else◌, ◌≡◌, ◌≢◌, refl, sym, ◌∙◌, ap, arith, inl, inr, Bool-cases, set, length, length-set,
  get_or-set_self, get_or-set_ne, Bytes,
}
use native.Mathlib.Nat.{mod-lt}
use gnatsd.Prelude.Mods.{mod-inj}
use gnatsd.Swp.Receiver.Bounds.{Within}
use gnatsd.Swp.Retree.{Rbtree, IsRbtree}
use gnatsd.Swp.Retree.Sorted.{count}
use gnatsd.Swp.Sender.{
  TxqSlot, SenderState, unused_slot, seq_at, seq_key, deadline_key, pack_seq, do_orig_data_send,
  accept_send, can_send, inflight, compute_inflight, room,
}
use gnatsd.Swp.Sender.Frames.{slots_of, count-slots_of_next}
use gnatsd.Swp.Sender.Window.{Misses, pack_frame, frame_at, insert_lem, live}
use gnatsd.Swp.Sender.Resend.{seq_key-set, deadline_key-set}

module _ (t : Rbtree) (laws : IsRbtree t) where
  -- A first send takes the next slot, which is in no tree as the window is not full.
  do_orig_data_send-Misses :
      (now dur : ℕ) (bytes : Bytes) (s : SenderState t) (v : Misses t [] s)
      → v.n < s.sender_window_size
      → Misses t [] (do_orig_data_send t now dur bytes s)
  unfolding do_orig_data_send count
  do_orig_data_send-Misses now dur bytes s v space =
      let w = s.sender_window_size in
      let x = s.frames_sent % w in
      let slot : TxqSlot = record {
        orig_send_time = now;
        retry_deadline = now + dur;
        retry_dur = dur;
        pack = some record {
          seq_num = s.frames_sent;
          seq_retry = 0;
          bytes = bytes;
          cumul = s.total_bytes_sent + length bytes;
        };
      } in
      let inside : x < length s.txq =
        omega (arith, v.storage, mod-lt s.frames_sent {m = w} v.window) in
      let self : seq_at (set s.txq x slot) x ≡ s.frames_sent =
        ap (λ q. pack_seq q.pack)
          (get_or-set_self s.txq x slot unused_slot
            (omega (arith, v.storage, mod-lt s.frames_sent {m = w} v.window))) in
      let keeps : (y : ℕ) → x ≢ y → seq_at (set s.txq x slot) y ≡ seq_at s.txq y =
        λ y ne. ap (λ q. pack_seq q.pack) (get_or-set_ne s.txq slot unused_slot ne) in
      let apart : (i : ℕ) → v.base ≤ i → i < v.base + v.n → x ≢ i % w = λ i low high m. omega (
        arith,
        mod-inj w i s.frames_sent (sym m) (omega (arith, v.frames)) (omega (arith, v.frames)),
        v.frames,
      ) in
      let live_apart : (y c : ℕ) → c ≤ count y (slots_of w v.base v.n) → 1 ≤ c → x ≢ y =
        λ y c le h p.
          let (low, high, m) = live t laws s [] v y c le h in
          apart (seq_at s.txq y) low high (p ∙ sym m) in
      let distinct : (y c : ℕ)
          → c ≤ count y (slots_of w v.base v.n)
          → 1 ≤ c
          → seq_at (set s.txq x slot) x ≢ seq_at (set s.txq x slot) y =
        λ y c le h p.
          let (low, high, m) = live t laws s [] v y c le h in
          omega (arith, p, self, keeps y (live_apart y c le h), high, v.frames) in
      let by_seq : (y : ℕ) → count y (t.items s.by_seq_num) ≤ count y (slots_of w v.base v.n) =
        λ y. omega (arith, v.by_seq_count y) in
      let by_deadline : (y : ℕ)
          → count y (t.items s.by_deadline) ≤ count y (slots_of w v.base v.n) =
        λ y. omega (arith, v.by_deadline_count y) in
      let (a1, a2, _) =
        insert_lem t laws (seq_key s.txq) (seq_key (set s.txq x slot)) x s.by_seq_num
          v.by_seq_IsSorted
          (λ y h.
            seq_key-set s.txq x y slot (live_apart y (count y (t.items s.by_seq_num)) (by_seq y) h))
          (λ y h p. distinct y (count y (t.items s.by_seq_num)) (by_seq y) h (ap (λ q. q.1) p)) in
      let (b1, b2, b3) =
        insert_lem t laws (deadline_key s.txq) (deadline_key (set s.txq x slot)) x s.by_deadline
          v.by_deadline_IsSorted
          (λ y h.
            deadline_key-set s.txq x y slot
              (live_apart y (count y (t.items s.by_deadline)) (by_deadline y) h))
          (λ y h p.
            distinct y (count y (t.items s.by_deadline)) (by_deadline y) h (ap (λ q. q.1) p)) in
      let next : (z : ℕ)
          → count z (slots_of w v.base (suc v.n))
            ≡ (if z == x then 1 else 0) + count z (slots_of w v.base v.n) =
        λ z.
          count-slots_of_next w v.base v.n z
          ∙ ap (λ f. (if z == f % w then 1 else 0) + count z (slots_of w v.base v.n)) v.frames in
      record {
        base = v.base;
        n = suc v.n;
        window = v.window;
        storage = length-set s.txq x slot ∙ v.storage;
        frames = omega (arith, v.frames);
        fits = omega (arith, space);
        cap_fits = v.cap_fits;
        holds = λ i low high. elim (Bool-cases (i == s.frames_sent)) [
          | inl e ↦
              let p : i ≡ s.frames_sent = ground arith in
              ap (λ f. frame_at (set s.txq x slot) (f % w)) p
              ∙ ap (λ q. pack_frame q.pack) (get_or-set_self s.txq x slot unused_slot inside)
              ∙ ap some (sym p)
          | inr e ↦
              let before : i < v.base + v.n = ground (arith, e, v.frames, high) in
              ap (λ q. pack_frame q.pack)
                (get_or-set_ne s.txq slot unused_slot (apart i low before))
              ∙ v.holds i low before
        ];
        by_seq_IsSorted = a1;
        by_deadline_IsSorted = b1;
        by_seq_count = λ z. omega (arith, a2 z, next z, v.by_seq_count z);
        by_deadline_count = λ z. omega (arith, b2 z, next z, v.by_deadline_count z);
        by_deadline_length = omega (arith, b3, v.by_deadline_length);
      }

  inflight-length : (txq : List TxqSlot) (xs : List ℕ) → (inflight txq xs).1 ≡ length xs
  unfolding inflight
  inflight-length txq [] = refl
  inflight-length txq (x ∷ xs) = omega (arith, inflight-length txq xs)

  -- Where flow control allows a send, the window has room.
  can_send-room :
      (s : SenderState t) (v : Misses t [] s) → can_send t s ≡ true → v.n < s.sender_window_size
  unfolding can_send compute_inflight
  can_send-room s v h = under s.msg_cap (room s.bytes_cap (compute_inflight t s).0) v.cap_fits h
    where
      under :
          (c : Option ℕ) (b : Bool)
          → Within s.sender_window_size c
          → (room c (inflight s.txq (t.items s.by_deadline)).1 && b) ≡ true
          → v.n < s.sender_window_size
      under none b f h = absurd (ground (arith, h))
      under (some c) b f h =
          ground (arith, h, f, inflight-length s.txq (t.items s.by_deadline), v.by_deadline_length)

  pub accept_send-Misses :
      (now dur : ℕ) (bytes : Bytes) (s : SenderState t)
      → Misses t [] s
      → Misses t [] (accept_send t now dur bytes s)
  unfolding accept_send
  accept_send-Misses now dur bytes s v = elim (Bool-cases (can_send t s)) [
    | inl e ↦ rw e (do_orig_data_send-Misses now dur bytes s v (can_send-room s v e))
    | inr e ↦ rw e v
  ]
