-- ===== src/Swp/Sender/Retries.antt =====
-- The timer of swp/sender.go sends again what is due.
use gnatsd.Prelude.{
  ℕ, ◌+◌, ◌*◌, ◌%◌, ◌≤◌, ◌<◌, Bool, true, false, List, [], ◌∷◌, ◌++◌, Option, none, some, ltb, leb,
  ◌==◌, ◌⊎◌, ◌≡◌, ◌≢◌, refl, sym, ◌∙◌, ap, subst, arith, inl, inr, Bool-cases, get_or, length,
  get_or-set_ne, append_assoc, append-nil,
}
use mathlib.Core.Option.{some-injective, none-ne-some}
use gnatsd.Swp.Retree.{Rbtree, IsRbtree, IsSorted, before, delete_through}
use gnatsd.Swp.Retree.Sorted.{count, count-Least}
use gnatsd.Swp.Receiver.{Packet}
use gnatsd.Swp.Sender.{
  TxqSlot, SenderState, SenderEvent, unused_slot, new_sender_state, deadline_key, next_retry,
  sent_pack, reset_slot, resend, resend_all, take_due, resend_due, too_quiet, halt, select, handle,
  send_loop, KeepAlive, woken,
}
use gnatsd.Swp.Sender.Turns.{wakeup-cases, handle-running}
use gnatsd.Swp.Sender.Frames.{length-slots_of, slots_of-count}
use gnatsd.Swp.Sender.Window.{Misses, new_sender_state-Misses, by_seq_num_lem, pack_frame, frame_at}
use gnatsd.Swp.Sender.Loop.{AllFit, send_loop-Misses}

-- A packet of the frame is among the packets.
abbrev pub Offers : ℕ → List Packet → Type 0
Offers q [] = ⊥
Offers q (pack ∷ packs) = (pack.seq_num ≡ q) ⊎ Offers q packs

Offers-append : (q : ℕ) (ps qs : List Packet) → Offers q ps ⊎ Offers q qs → Offers q (ps ++ qs)
Offers-append q [] qs (inl o) = absurd o
Offers-append q [] qs (inr o) = o
Offers-append q (p ∷ ps) qs (inl (inl e)) = inl e
Offers-append q (p ∷ ps) qs (inl (inr o)) = inr (Offers-append q ps qs (inl o))
Offers-append q (p ∷ ps) qs (inr o) = inr (Offers-append q ps qs (inr o))

Offers-retry :
    (q : ℕ) (p : Option Packet) → pack_frame p ≡ some q → Offers q (sent_pack (next_retry p))
Offers-retry q none e = absurd (none-ne-some q e)
Offers-retry q (some pack) e = inl (some-injective pack.seq_num q e)

-- A deadline that is not later than a time.
abbrev pub is_due : List TxqSlot → ℕ → ℕ → Bool
is_due txq now i = leb (get_or txq i unused_slot).retry_deadline now

-- Of a list sorted by deadlines, all that is due is taken.
delete_through-due :
    (t : Rbtree) (txq : List TxqSlot) (now i : ℕ) (xs : List ℕ) (a : t.Tree)
    → IsSorted (deadline_key txq) xs
    → 1 ≤ count i xs
    → is_due txq now i ≡ true
    → 1 ≤ count i (delete_through t (is_due txq now) xs a).0
unfolding delete_through count
delete_through-due t txq now i [] a h c due = absurd (omega arith)
delete_through-due t txq now i (x ∷ xs) a (l, h) c due = elim (Bool-cases (is_due txq now x)) [
  | inl g ↦ elim (Bool-cases (i == x)) [
    | inl e ↦ rw g (ground (arith, e))
    | inr e ↦ rw g (
        ground
          (arith, delete_through-due t txq now i xs (t.delete_min a) h (ground (arith, c, e)) due))
  ]
  | inr g ↦ elim (Bool-cases (i == x)) [
    | inl e ↦ let p : i ≡ x = ground arith in absurd (ground (arith, ap (is_due txq now) p, due, g))
    | inr e ↦
        let first : before (deadline_key txq) x i ≡ true =
          count-Least (deadline_key txq) x i xs l (ground (arith, c, e)) in
        absurd (ground (arith, first, due, g))
  ]
]

module _ (t : Rbtree) where
  resend_all-net :
      (clk : ℕ → ℕ × ℕ) (xs : List ℕ) (s : SenderState t)
      → (more : List Packet) × ((resend_all t clk xs s).net ≡ s.net ++ more)
  unfolding resend_all resend
  resend_all-net clk [] s = ([], sym (append-nil s.net))
  resend_all-net clk (x ∷ xs) s =
      let (more, e) = resend_all-net clk xs (resend t (clk x).0 (clk x).1 x s) in
      let first = sent_pack (next_retry (get_or s.txq x unused_slot).pack) in
      (first ++ more, e ∙ append_assoc s.net first more)

  -- What a loop of retries adds to the network.
  resend_all-Offers :
      (clk : ℕ → ℕ × ℕ) (i q : ℕ) (xs : List ℕ) (s : SenderState t)
      → frame_at s.txq i ≡ some q
      → 1 ≤ count i xs
      → (more : List Packet) × ((resend_all t clk xs s).net ≡ s.net ++ more) × Offers q more
  unfolding resend_all resend count
  resend_all-Offers clk i q [] s f c = absurd (omega arith)
  resend_all-Offers clk i q (x ∷ xs) s f c = elim (Bool-cases (i == x)) [
    | inl e ↦
        let p : i ≡ x = ground arith in
        let first = sent_pack (next_retry (get_or s.txq x unused_slot).pack) in
        let (more, net) = resend_all-net clk xs (resend t (clk x).0 (clk x).1 x s) in
        (
          first ++ more,
          net ∙ append_assoc s.net first more,
          Offers-append q first more (
              inl (
                Offers-retry q (get_or s.txq x unused_slot).pack
                  (ap (frame_at s.txq) (sym p) ∙ f))),
        )
    | inr e ↦
        let first = sent_pack (next_retry (get_or s.txq x unused_slot).pack) in
        let ne : x ≢ i = ground (arith, e) in
        let slot = reset_slot (clk x).0 (clk x).1 (get_or s.txq x unused_slot) in
        let (more, net, o) =
          resend_all-Offers clk i q xs (resend t (clk x).0 (clk x).1 x s)
            (ap (λ k. pack_frame k.pack) (get_or-set_ne s.txq slot unused_slot ne) ∙ f)
            (ground (arith, c, e)) in
        (first ++ more, net ∙ append_assoc s.net first more, Offers-append q first more (inr o))
  ]

  resend_due-Offers :
      (now : ℕ) (clk : ℕ → ℕ × ℕ) (i q : ℕ) (s : SenderState t)
      → Misses t [] s
      → frame_at s.txq i ≡ some q
      → 1 ≤ count i (t.items s.by_deadline)
      → is_due s.txq now i ≡ true
      → (more : List Packet) × ((resend_due t now clk s).net ≡ s.net ++ more) × Offers q more
  unfolding resend_due take_due
  resend_due-Offers now clk i q s v f c due =
      resend_all-Offers clk i q (take_due t now s).0 (take_due t now s).1 f (
        delete_through-due t s.txq now i (t.items s.by_deadline) s.by_deadline
          v.by_deadline_IsSorted c due)

too_quiet_lem :
    (t : Rbtree) (now : ℕ) (s : SenderState t)
    → too_quiet t now s ≡ true
    → (0 < s.num_failed_keep_alives_before_closing)
      × (s.last_heard + s.keep_alive_interval * s.num_failed_keep_alives_before_closing < now)
unfolding too_quiet
too_quiet_lem t now s e = ground (arith, e)

heard_lately :
    (t : Rbtree) (now : ℕ) (s : SenderState t)
    → too_quiet t now s ≡ false
    → (s.num_failed_keep_alives_before_closing ≡ 0)
      ⊎ (now ≤ s.last_heard + s.keep_alive_interval * s.num_failed_keep_alives_before_closing)
unfolding too_quiet
heard_lately t now s e = elim (Bool-cases (ltb 0 s.num_failed_keep_alives_before_closing)) [
  | inl h ↦ inr (ground (arith, e, h))
  | inr h ↦ inl (ground (arith, h))
]

-- The timer fires: either the session waits for no more than a number of keepalives, has heard nothing
-- for longer than these take, and returns from its loop; or the frame is on the network again.
abbrev pub ResendsOrHalts : (t : Rbtree) → ℕ → (ℕ → ℕ × ℕ) → ℕ → SenderState t → Type 0
ResendsOrHalts t now clk q s =
    let failures = s.num_failed_keep_alives_before_closing in
    let deadline = s.last_heard + s.keep_alive_interval * failures in
    ((0 < failures) × (deadline < now) × (handle t (woken now clk) s ≡ some (halt t s)))
    ⊎ (((failures ≡ 0) ⊎ (now ≤ deadline))
        × ((d : SenderState t) × (more : List Packet) × (handle t (woken now clk) s ≡ some d)
            × (d.net ≡ s.net ++ more)
            × Offers q more))

-- Whatever a fresh sender has been through that has not returned from its loop, with trees that are
-- ordered sets and receivers that advertise no more messages than its window: a frame that is in
-- flight, with a deadline that is not later than now, is put on the network again when the timer
-- fires, unless the number of keepalives that may fail is limited and nothing has been heard for
-- longer than so many intervals; then the loop returns.
pub wakeup-Resends :
    (t : Rbtree) (laws : IsRbtree t) (k : KeepAlive) (w : ℕ) (es : List SenderEvent)
    (s : SenderState t) (now : ℕ) (clk : ℕ → ℕ × ℕ) (q : ℕ)
    → 0 < w
    → AllFit w es
    → send_loop t es (new_sender_state t k w) ≡ some s
    → s.halted ≡ false
    → s.frames_sent ≤ q + length (t.items s.by_seq_num)
    → q < s.frames_sent
    → is_due s.txq now (q % s.sender_window_size) ≡ true
    → ResendsOrHalts t now clk q s
unfolding new_sender_state count select
wakeup-Resends t laws k w es s now clk q h f run running low high due =
    let (d, run', vd) =
      send_loop-Misses t laws w es (new_sender_state t k w) f refl
        (new_sender_state-Misses t laws k w h) in
    let v = subst (Misses t []) (some-injective d s (sym run' ∙ run)) vd in
    let size = s.sender_window_size in
    let listed = ap length (by_seq_num_lem t laws s v) ∙ length-slots_of size v.base v.n in
    let from : v.base ≤ q = omega (arith, low, listed, v.frames) in
    let turn = handle-running t (woken now clk) s running in
    elim (wakeup-cases t now clk s) [
      | inl (quiet, e) ↦
          let (limited, long) = too_quiet_lem t now s quiet in inl (limited, long, turn ∙ ap some e)
      | inr (lately, e) ↦
          let (more, net, o) =
            resend_due-Offers t now clk (q % size) q s v
              (v.holds q from (omega (arith, high, v.frames)))
              (omega (
                arith,
                v.by_deadline_count (q % size),
                slots_of-count size v.base v.n q from (omega (arith, high, v.frames)),
              ))
              due in
          inr
            (heard_lately t now s lately, (resend_due t now clk s, more, turn ∙ ap some e, net, o))
    ]
