-- ===== src/Swp/Sender/Window.antt =====
-- The invariant of the sender of swp/sender.go: its trees list the frames that are in its window.
use gnatsd.Prelude.{
  get_or, none, some, Option, ℕ, ◌+◌, ◌%◌, ◌≤◌, ◌<◌, List, [], ◌==◌, if◌then◌else◌, ◌≡◌, refl, sym,
  ◌∙◌, ap, subst, arith, length, length-replicate,
}
use mathlib.Core.Option.{some-injective, none-ne-some}
use gnatsd.Swp.Receiver.Bounds.{Within}
use gnatsd.Swp.Retree.{Key, Rbtree, IsRbtree, IsSorted}
use gnatsd.Swp.Retree.Sorted.{count, count-put, put-IsSorted, same-IsSorted, IsFresh}
use gnatsd.Swp.Receiver.{Packet}
use gnatsd.Swp.Sender.{
  TxqSlot, KeepAlive, SenderState, unused_slot, new_sender_state, pack_seq, seq_at, seq_key,
  deadline_key,
}
use gnatsd.Swp.Sender.Frames.{slots_of, count-slots_of, slots_of-IsSorted}
use gnatsd.Swp.Sender.Trees.{IsSorted-same}

-- The frame that a slot holds, if any.
abbrev pub pack_frame : Option Packet → Option ℕ
pack_frame none = none
pack_frame (some pack) = some pack.seq_num

abbrev pub frame_at : List TxqSlot → ℕ → Option ℕ
frame_at txq i = pack_frame (get_or txq i unused_slot).pack

frame_at-seq_at : (p : Option Packet) (i : ℕ) → pack_frame p ≡ some i → pack_seq p ≡ i
frame_at-seq_at none i e = absurd (none-ne-some i e)
frame_at-seq_at (some pack) i e = some-injective pack.seq_num i e

-- Both trees list the slots of the `inflight` frames from `base` on, but for the slots `xs`.
pub record Misses (t : Rbtree) (xs : List ℕ) (s : SenderState t) : Type 0 where
  pub base : ℕ
  pub n : ℕ
  pub window : 0 < s.sender_window_size
  pub storage : length s.txq ≡ s.sender_window_size
  pub frames : base + n ≡ s.frames_sent
  pub fits : n ≤ s.sender_window_size
  pub cap_fits : Within s.sender_window_size s.msg_cap
  pub holds : (i : ℕ) → base ≤ i → i < base + n → frame_at s.txq (i % s.sender_window_size) ≡ some i
  pub by_seq_IsSorted : IsSorted (seq_key s.txq) (t.items s.by_seq_num)
  pub by_deadline_IsSorted : IsSorted (deadline_key s.txq) (t.items s.by_deadline)
  pub by_seq_count :
      (z : ℕ)
      → count z (t.items s.by_seq_num) + count z xs ≡ count z (slots_of s.sender_window_size base n)
  pub by_deadline_count :
      (z : ℕ)
      → count z (t.items s.by_deadline) + count z xs
        ≡ count z (slots_of s.sender_window_size base n)
  pub by_deadline_length : length (t.items s.by_deadline) + length xs ≡ n

module _ (t : Rbtree) (laws : IsRbtree t) where
  pub insert_lem :
      (k j : Key) (x : ℕ) (a : t.Tree)
      → IsSorted k (t.items a)
      → ((y : ℕ) → 1 ≤ count y (t.items a) → k y ≡ j y)
      → IsFresh j x (t.items a)
      → IsSorted j (t.items (t.insert j x a))
        × ((z : ℕ)
            → count z (t.items (t.insert j x a)) ≡ (if z == x then 1 else 0) + count z (t.items a))
        × (length (t.items (t.insert j x a)) ≡ length (t.items a) + 1)
  insert_lem k j x a s e f =
      let h = IsSorted-same k j (t.items a) e s in
      let p = laws.items-insert j x a h in
      (
        subst (IsSorted j) (sym p) (put-IsSorted j x (t.items a) h),
        λ z. ap (count z) p ∙ (count-put j x z (t.items a) f).0,
        ap length p ∙ (count-put j x x (t.items a) f).1,
      )

  -- The tree by sequence numbers of a sender that misses nothing.
  pub by_seq_num_lem :
      (s : SenderState t) (v : Misses t [] s)
      → t.items s.by_seq_num ≡ slots_of s.sender_window_size v.base v.n
  unfolding count
  by_seq_num_lem s v =
      let w = s.sender_window_size in
      same-IsSorted (seq_key s.txq) (t.items s.by_seq_num) (slots_of w v.base v.n) v.by_seq_IsSorted
        (slots_of-IsSorted (seq_key s.txq) w v.base v.n (λ i low high.
          ap (λ q. (0, q))
            (frame_at-seq_at (get_or s.txq (i % w) unused_slot).pack i (v.holds i low high))))
        (λ z. omega (arith, v.by_seq_count z))

  -- A slot that is listed holds its frame.
  pub live :
      (s : SenderState t) (xs : List ℕ) (v : Misses t xs s) (y c : ℕ)
      → c ≤ count y (slots_of s.sender_window_size v.base v.n)
      → 1 ≤ c
      → (v.base ≤ seq_at s.txq y)
        × (seq_at s.txq y < v.base + v.n)
        × (seq_at s.txq y % s.sender_window_size ≡ y)
  live s xs v y c le h =
      let w = s.sender_window_size in
      let (i, m, low, high) = count-slots_of w v.base v.n y (omega (arith, le, h)) in
      let e : seq_at s.txq y ≡ i =
        ap (seq_at s.txq) (sym m)
        ∙ frame_at-seq_at (get_or s.txq (i % w) unused_slot).pack i (v.holds i low high) in
      (omega (arith, e), omega (arith, e), ap (λ q. q % w) e ∙ m)

  pub new_sender_state-Misses :
      (k : KeepAlive) (w : ℕ) → 0 < w → Misses t [] (new_sender_state t k w)
  unfolding new_sender_state count slots_of
  new_sender_state-Misses k w h = record {
    base = 0;
    n = 0;
    window = h;
    storage = length-replicate w unused_slot;
    frames = refl;
    fits = omega arith;
    cap_fits = omega arith;
    holds = λ i low high. absurd (omega arith);
    by_seq_IsSorted =
        subst (IsSorted (seq_key (new_sender_state t k w).txq)) (sym laws.items-empty) tt;
    by_deadline_IsSorted =
        subst (IsSorted (deadline_key (new_sender_state t k w).txq)) (sym laws.items-empty) tt;
    by_seq_count = λ z. omega (arith, ap (count z) laws.items-empty);
    by_deadline_count = λ z. omega (arith, ap (count z) laws.items-empty);
    by_deadline_length = omega (arith, ap length laws.items-empty);
  }
