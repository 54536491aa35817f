-- ===== src/Swp/Sender/Loop.antt =====
-- The loop of swp/sender.go: whatever wakes it, the trees agree on what is in flight.
use gnatsd.Prelude.{
  ℕ, ◌+◌, ◌≤◌, ◌<◌, List, [], ◌∷◌, some, ◌≡◌, refl, sym, ◌∙◌, subst, arith, inl, inr, Bool-cases,
  length, Bytes,
}
use gnatsd.Swp.Receiver.Bounds.{Within}
use gnatsd.Swp.Retree.{Rbtree, IsRbtree}
use gnatsd.Swp.Sender.{
  SenderState, SenderEvent, offered, woken, heard, new_sender_state, take_due, wakeup, resend,
  resend_all, do_orig_data_send, accept_send, can_send, resend_due, select, handle, send_loop,
  KeepAlive,
}
use gnatsd.Swp.Sender.Turns.{wakeup_either, handle_either}
use gnatsd.Swp.Sender.Frames.{slots_of}
use gnatsd.Swp.Sender.Window.{Misses, new_sender_state-Misses, by_seq_num_lem}
use gnatsd.Swp.Sender.Sends.{accept_send-Misses}
use gnatsd.Swp.Sender.Acks.{got_pack-Misses, wakeup-Misses}

-- The receivers that are heard advertise no more messages than the sender's window.
abbrev pub AllFit : ℕ → List SenderEvent → Type 0
AllFit w [] = Unit
AllFit w (offered now dur bytes ∷ es) = AllFit w es
AllFit w (woken now clk ∷ es) = AllFit w es
AllFit w (heard a ∷ es) = Within w a.msg_cap × AllFit w es

-- What is in flight, by the tree of sequence numbers and by that of deadlines.
abbrev pub InFlight : (t : Rbtree) → SenderState t → Type 0
InFlight t s =
    (base : ℕ) × (n : ℕ) × (t.items s.by_seq_num ≡ slots_of s.sender_window_size base n)
    × (length (t.items s.by_deadline) ≡ n)
    × (base + n ≡ s.frames_sent)
    × (n ≤ s.sender_window_size)

module _ (t : Rbtree) (laws : IsRbtree t) where
  pub Misses-InFlight : (s : SenderState t) → Misses t [] s → InFlight t s
  Misses-InFlight s v = (
    v.base,
    v.n,
    by_seq_num_lem t laws s v,
    omega (arith, v.by_deadline_length),
    v.frames,
    v.fits,
  )

  window-resend_all :
      (clk : ℕ → ℕ × ℕ) (xs : List ℕ) (s : SenderState t)
      → (resend_all t clk xs s).sender_window_size ≡ s.sender_window_size
  unfolding resend_all resend
  window-resend_all clk [] s = refl
  window-resend_all clk (x ∷ xs) s = window-resend_all clk xs (resend t (clk x).0 (clk x).1 x s)

  pub window-accept_send :
      (now dur : ℕ) (bytes : Bytes) (s : SenderState t)
      → (accept_send t now dur bytes s).sender_window_size ≡ s.sender_window_size
  unfolding accept_send do_orig_data_send
  window-accept_send now dur bytes s = elim (Bool-cases (can_send t s)) [
    | inl e ↦ rw e refl
    | inr e ↦ rw e refl
  ]

  pub window-wakeup :
      (now : ℕ) (clk : ℕ → ℕ × ℕ) (s : SenderState t)
      → (wakeup t now clk s).sender_window_size ≡ s.sender_window_size
  unfolding resend_due take_due
  window-wakeup now clk s =
      wakeup_either t (λ d. d.sender_window_size ≡ s.sender_window_size) now clk s refl
        (window-resend_all clk (take_due t now s).0 (take_due t now s).1)

  select-Misses :
      (w : ℕ) (e : SenderEvent) (s : SenderState t)
      → AllFit w (e ∷ [])
      → s.sender_window_size ≡ w
      → Misses t [] s
      → (d : SenderState t) × (select t e s ≡ some d) × Misses t [] d × (d.sender_window_size ≡ w)
  unfolding select
  select-Misses w (offered now dur bytes) s f p v = (
    accept_send t now dur bytes s,
    refl,
    accept_send-Misses t laws now dur bytes s v,
    window-accept_send now dur bytes s ∙ p,
  )
  select-Misses w (woken now clk) s f p v =
      (wakeup t now clk s, refl, wakeup-Misses t laws now clk s v, window-wakeup now clk s ∙ p)
  select-Misses w (heard a) s (f, _) p v =
      let (d, run, vd, q) =
        got_pack-Misses t laws a s (subst (λ x. Within x a.msg_cap) (sym p) f) v in
      (d, run, vd, q ∙ p)

  handle-Misses :
      (w : ℕ) (e : SenderEvent) (s : SenderState t)
      → AllFit w (e ∷ [])
      → s.sender_window_size ≡ w
      → Misses t [] s
      → (d : SenderState t) × (handle t e s ≡ some d) × Misses t [] d × (d.sender_window_size ≡ w)
  handle-Misses w e s f p v =
      handle_either t
        (λ o. (d : SenderState t) × (o ≡ some d) × Misses t [] d × (d.sender_window_size ≡ w)) e s
        (s, refl, v, p) (select-Misses w e s f p v)

  AllFit-head :
      (w : ℕ) (e : SenderEvent) (es : List SenderEvent)
      → AllFit w (e ∷ es)
      → AllFit w (e ∷ []) × AllFit w es
  AllFit-head w (offered now dur bytes) es f = (tt, f)
  AllFit-head w (woken now clk) es f = (tt, f)
  AllFit-head w (heard a) es (c, f) = ((c, tt), f)

  pub send_loop-Misses :
      (w : ℕ) (es : List SenderEvent) (s : SenderState t)
      → AllFit w es
      → s.sender_window_size ≡ w
      → Misses t [] s
      → (d : SenderState t) × (send_loop t es s ≡ some d) × Misses t [] d
  unfolding send_loop
  send_loop-Misses w [] s f p v = (s, refl, v)
  send_loop-Misses w (e ∷ es) s f p v =
      let (g, fs) = AllFit-head w e es f in
      let (d, one, vd, q) = handle-Misses w e s g p v in
      let (d', all, vd') = send_loop-Misses w es d fs q vd in
      (d', rw (one, send_loop, all) refl, vd')

-- From a fresh sender with a window, over a library of trees that are ordered sets, and with
-- receivers that advertise no more messages than that window: whatever is offered, heard and due in
-- whatever order, the loop does not panic on trees of different lengths. The tree of sequence
-- numbers lists, in order, the slots of the last frames sent, no more than the window, and the tree
-- of deadlines has as many.
pub send_loop-InFlight :
    (t : Rbtree) (laws : IsRbtree t) (k : KeepAlive) (w : ℕ) (es : List SenderEvent)
    → 0 < w
    → AllFit w es
    → (s : SenderState t) × (send_loop t es (new_sender_state t k w) ≡ some s) × InFlight t s
unfolding new_sender_state
send_loop-InFlight t laws k w es h f =
    let (s, e, v) =
      send_loop-Misses t laws w es (new_sender_state t k w) f refl
        (new_sender_state-Misses t laws k w h) in
    (s, e, Misses-InFlight t laws s v)
