-- ===== src/Swp/Sender/Resend.antt =====
-- The retries of swp/sender.go keep the invariant of its window.
use gnatsd.Prelude.{
  ℕ, ◌%◌, ◌≤◌, ◌<◌, List, [], ◌∷◌, Option, none, some, ◌==◌, ◌≡◌, ◌≢◌, refl, sym, ◌∙◌, ap, arith,
  inl, inr, Bool-cases, get_or, set, length, length-set, get_or-set_self, get_or-set_ne,
}
use native.Mathlib.Nat.{mod-lt}
use gnatsd.Swp.Retree.{Rbtree, IsRbtree}
use gnatsd.Swp.Retree.Sorted.{count}
use gnatsd.Swp.Sender.{
  TxqSlot, SenderState, unused_slot, seq_at, seq_key, deadline_key, pack_seq, next_retry,
  reset_slot, resend, resend_all,
}
use gnatsd.Swp.Receiver.{Packet}
use gnatsd.Swp.Sender.Frames.{slots_of, count-slots_of_one}
use gnatsd.Swp.Sender.Window.{Misses, pack_frame, insert_lem, live}

next_retry_seq : (p : Option Packet) → pack_seq (next_retry p) ≡ pack_seq p
next_retry_seq none = refl
next_retry_seq (some pack) = refl

next_retry_frame : (p : Option Packet) → pack_frame (next_retry p) ≡ pack_frame p
next_retry_frame none = refl
next_retry_frame (some pack) = refl

-- A reset slot keeps its sequence number, and the others do too.
at-reset :
    {A : Type 0} (f : Option Packet → A) (same : (p : Option Packet) → f (next_retry p) ≡ f p)
    (now dur x y : ℕ) (txq : List TxqSlot)
    → x < length txq
    → f (get_or (set txq x (reset_slot now dur (get_or txq x unused_slot))) y unused_slot).pack
      ≡ f (get_or txq y unused_slot).pack
at-reset f same now dur x y txq h = elim (Bool-cases (x == y)) [
  | inl e ↦
      let p : x ≡ y = ground arith in
      ap
        (λ i.
          f (get_or (set txq x (reset_slot now dur (get_or txq x unused_slot))) i unused_slot).pack)
        (sym p)
      ∙ ap (λ q. f q.pack)
          (get_or-set_self txq x (reset_slot now dur (get_or txq x unused_slot)) unused_slot h)
      ∙ same (get_or txq x unused_slot).pack
      ∙ ap (λ i. f (get_or txq i unused_slot).pack) p
  | inr e ↦
      let ne : x ≢ y = ground arith in
      ap (λ q. f q.pack)
        (get_or-set_ne txq (reset_slot now dur (get_or txq x unused_slot)) unused_slot ne)
]

-- The orders of slots that are not written stay.
pub seq_key-set :
    (txq : List TxqSlot) (x y : ℕ) (slot : TxqSlot)
    → x ≢ y
    → seq_key txq y ≡ seq_key (set txq x slot) y
seq_key-set txq x y slot ne =
    ap (λ q. (0, pack_seq q.pack)) (sym (get_or-set_ne txq slot unused_slot ne))

pub deadline_key-set :
    (txq : List TxqSlot) (x y : ℕ) (slot : TxqSlot)
    → x ≢ y
    → deadline_key txq y ≡ deadline_key (set txq x slot) y
deadline_key-set txq x y slot ne =
    ap (λ q. (q.retry_deadline, pack_seq q.pack)) (sym (get_or-set_ne txq slot unused_slot ne))

other : (x y : ℕ) (xs : List ℕ) → count x xs ≡ 0 → 1 ≤ count y xs → x ≢ y
other x y xs e h p = absurd (omega (arith, e, h, ap (λ i. count i xs) p))

module _ (t : Rbtree) (laws : IsRbtree t) where
  -- A retry puts its slot back.
  resend-Misses :
      (now dur x : ℕ) (xs : List ℕ) (s : SenderState t)
      → Misses t (x ∷ xs) s
      → Misses t xs (resend t now dur x s)
  unfolding resend count
  resend-Misses now dur x xs s v =
      let w = s.sender_window_size in
      let slot = reset_slot now dur (get_or s.txq x unused_slot) in
      let once : count x (slots_of w v.base v.n) ≤ 1 = count-slots_of_one w v.base v.n x v.fits in
      let x_in : 1 ≤ count x (slots_of w v.base v.n) = ground (arith, v.by_seq_count x) in
      let (x_low, x_high, x_mod) = live t laws s (x ∷ xs) v x 1 x_in (omega arith) in
      let bound : x < length s.txq =
        omega (arith, x_mod, v.storage, mod-lt (seq_at s.txq x) {m = w} v.window) in
      let seqs : (y : ℕ) → seq_at (set s.txq x slot) y ≡ seq_at s.txq y =
        λ y. at-reset pack_seq next_retry_seq now dur x y s.txq bound in
      let seq_gone : count x (t.items s.by_seq_num) ≡ 0 = ground (arith, v.by_seq_count x, once) in
      let deadline_gone : count x (t.items s.by_deadline) ≡ 0 =
        ground (arith, v.by_deadline_count x, once) in
      let distinct : (y c : ℕ)
          → c ≤ count y (slots_of w v.base v.n)
          → 1 ≤ c
          → x ≢ y
          → seq_at (set s.txq x slot) x ≢ seq_at (set s.txq x slot) y =
        λ y c le h ne p. ne (
          sym x_mod
          ∙ ap (λ q. q % w) (sym (seqs x) ∙ p ∙ seqs y)
          ∙ (live t laws s (x ∷ xs) v y c le h).2) in
      let (a1, a2, _) =
        insert_lem t laws (seq_key s.txq) (seq_key (set s.txq x slot)) x s.by_seq_num
          v.by_seq_IsSorted
          (λ y h. seq_key-set s.txq x y slot (other x y (t.items s.by_seq_num) seq_gone h))
          (λ y h p.
            distinct y (count y (t.items s.by_seq_num)) (omega (arith, v.by_seq_count y)) h
              (other x y (t.items s.by_seq_num) seq_gone h) (ap (λ q. q.1) p)) in
      let (b1, b2, b3) =
        insert_lem t laws (deadline_key s.txq) (deadline_key (set s.txq x slot)) x s.by_deadline
          v.by_deadline_IsSorted
          (λ y h.
            deadline_key-set s.txq x y slot (other x y (t.items s.by_deadline) deadline_gone h))
          (λ y h p.
            distinct y (count y (t.items s.by_deadline)) (omega (arith, v.by_deadline_count y)) h
              (other x y (t.items s.by_deadline) deadline_gone h) (ap (λ q. q.1) p)) in
      record {
        base = v.base;
        n = v.n;
        window = v.window;
        storage = length-set s.txq x slot ∙ v.storage;
        frames = v.frames;
        fits = v.fits;
        cap_fits = v.cap_fits;
        holds = λ i low high.
            at-reset pack_frame next_retry_frame now dur x (i % w) s.txq bound ∙ v.holds i low high;
        by_seq_IsSorted = a1;
        by_deadline_IsSorted = b1;
        by_seq_count = λ z. omega (arith, a2 z, v.by_seq_count z);
        by_deadline_count = λ z. omega (arith, b2 z, v.by_deadline_count z);
        by_deadline_length = omega (arith, b3, v.by_deadline_length);
      }

  pub resend_all-Misses :
      (clk : ℕ → ℕ × ℕ) (xs : List ℕ) (s : SenderState t)
      → Misses t xs s
      → Misses t [] (resend_all t clk xs s)
  unfolding resend_all
  resend_all-Misses clk [] s v = v
  resend_all-Misses clk (x ∷ xs) s v =
      resend_all-Misses clk xs (resend t (clk x).0 (clk x).1 x s)
        (resend-Misses (clk x).0 (clk x).1 x xs s v)
