-- ===== src/Swp/Link/Whole.antt =====
-- What is sent over a link of swp arrives, in order: the sender and the receiver together.
use gnatsd.Prelude.{
  ℕ, zero, suc, ◌≤◌, ◌<◌, List, [], ◌∷◌, ◌++◌, Option, none, some, ◌≡◌, refl, sym, ◌∙◌, ap, subst,
  arith, inl, inr, get_or, get_elem?, take, map, length, length-append, Bytes,
}
use gnatsd.Swp.Retree.{Rbtree, IsRbtree}
use gnatsd.Swp.Receiver.{Packet, Ack, RecvState, new_recv_state}
use gnatsd.Swp.Receiver.Slots.{contents, new_recv_state-IsValid}
use gnatsd.Swp.Receiver.Bounds.{Within, AllWithin, new_recv_state-IsBounded}
use gnatsd.Swp.Receiver.Consume.{consume-IsValid}
use gnatsd.Swp.Sender.{
  KeepAlive, SenderState, SenderEvent, Heard, offered, woken, heard, new_sender_state, accept_send,
  wakeup, got_pack, select,
}
use gnatsd.Swp.Sender.Turns.{handle_either}
use gnatsd.Swp.Sender.Window.{Misses, new_sender_state-Misses}
use gnatsd.Swp.Sender.Acks.{got_pack-Misses, wakeup-Misses}
use gnatsd.Swp.Sender.Loop.{AllFit, window-accept_send, window-wakeup}
use gnatsd.Swp.Sender.Sends.{accept_send-Misses}
use gnatsd.Swp.Sender.History.{total, IsFrame?, AllFrames-get, get_or-append, total-append}
use gnatsd.Swp.Sender.Stream.{
  Carries, new_sender_state-Carries, accept_send-Carries, wakeup-Carries, got_pack-Carries,
  history-wakeup, history-accept_send,
}
use gnatsd.Swp.Link.{
  Link, LinkEvent, offer, wake, arrive, acked, read, new_link, heard_ack, carry, carry_back,
  read_ready, sender_turn, link_step, link_run,
}
use gnatsd.Swp.Link.Arrive.{Follows, take_packet-Follows}
use gnatsd.Swp.Link.Pieces.{Follows-take}

-- A link with a window of `w` packets whose two sides agree.
pub record IsLinked (t : Rbtree) (w : ℕ) (l : Link t) : Type 0 where
  pub sender : Misses t [] l.sender
  pub window : l.sender.sender_window_size ≡ w
  pub carries : Carries t l.sender
  pub follows : Follows w l.sender.send_history l.client l.receiver

-- Another packet in the history changes nothing for the receiver.
Follows-append :
    (w : ℕ) (h : List Bytes) (b : Bytes) (client : List (Option Packet)) (r : RecvState)
    → Follows w h client r
    → Follows w (h ++ b ∷ []) client r
Follows-append w h b client r f =
    let more = length-append h (b ∷ []) in
    record {
      bounded = f.bounded;
      arrived = omega (arith, more, f.arrived);
      summed = f.summed ∙ sym (total-append h b r.seqnos_rcvd f.arrived);
      in_order = λ sent agrees.
          f.in_order sent (λ n l. agrees n (omega (arith, more, l)) ∙ get_or-append h b n l);
    }

abbrev Within? : ℕ → Option Ack → Type 0
Within? w none = Unit
Within? w (some a) = Within w a.msg_cap

AllWithin-get : (w : ℕ) (acks : List Ack) (i : ℕ) → AllWithin w acks → Within? w (get_elem? acks i)
AllWithin-get w [] i f = tt
AllWithin-get w (a ∷ acks) zero (f, fs) = f
AllWithin-get w (a ∷ acks) (suc i) (f, fs) = AllWithin-get w acks i fs

module _ (t : Rbtree) (laws : IsRbtree t) where
  offer-IsLinked :
      (w now dur : ℕ) (bytes : Bytes) (l : Link t)
      → IsLinked t w l
      → IsLinked t w (record l { sender = accept_send t now dur bytes l.sender })
  offer-IsLinked w now dur bytes l v =
      let s = l.sender in
      record {
        sender = accept_send-Misses t laws now dur bytes s v.sender;
        window = window-accept_send t laws now dur bytes s ∙ v.window;
        carries = accept_send-Carries t now dur bytes s v.carries;
        follows = elim (history-accept_send t now dur bytes s) [
          | inl e ↦ subst (λ h. Follows w h l.client l.receiver) (sym e) v.follows
          | inr e ↦
              subst (λ h. Follows w h l.client l.receiver) (sym e)
                (Follows-append w s.send_history bytes l.client l.receiver v.follows)
        ];
      }

  wake-IsLinked :
      (w now : ℕ) (clk : ℕ → ℕ × ℕ) (l : Link t)
      → IsLinked t w l
      → IsLinked t w (record l { sender = wakeup t now clk l.sender })
  wake-IsLinked w now clk l v = record {
    sender = wakeup-Misses t laws now clk l.sender v.sender;
    window = window-wakeup t laws now clk l.sender ∙ v.window;
    carries = wakeup-Carries t now clk l.sender v.carries;
    follows =
        subst (λ h. Follows w h l.client l.receiver) (sym (history-wakeup t now clk l.sender))
          v.follows;
  }

  carry-IsLinked :
      (w : ℕ) (p : Option Packet) (l : Link t)
      → IsFrame? l.sender.send_history p
      → IsLinked t w l
      → (d : Link t) × (carry t p l ≡ some d) × IsLinked t w d
  unfolding carry
  carry-IsLinked w none l f v = (l, refl, v)
  carry-IsLinked w (some pack) l f v =
      let (r, run, follows) =
        take_packet-Follows w l.sender.send_history l.client pack l.receiver f v.follows in
      (
        record l { receiver = r },
        rw (carry, run) refl,
        record { sender = v.sender; window = v.window; carries = v.carries; follows = follows },
      )

  -- What is heard keeps a link as it should be.
  heard-IsLinked :
      (w : ℕ) (a : Heard) (l : Link t)
      → Within w a.msg_cap
      → IsLinked t w l
      → (d : SenderState t) × (got_pack t a l.sender ≡ some d)
        × IsLinked t w (record l { sender = d })
  heard-IsLinked w a l f v =
      let s = l.sender in
      let (d, run, m, p) =
        got_pack-Misses t laws a s (subst (λ x. Within x a.msg_cap) (sym v.window) f) v.sender in
      let (carries, same) = got_pack-Carries t a s d run v.carries in
      (
        d,
        run,
        record {
          sender = m;
          window = p ∙ v.window;
          carries = carries;
          follows = subst (λ h. Follows w h l.client l.receiver) (sym same) v.follows;
        },
      )

  select-IsLinked :
      (w : ℕ) (e : SenderEvent) (l : Link t)
      → AllFit w (e ∷ [])
      → IsLinked t w l
      → (d : SenderState t) × (select t e l.sender ≡ some d)
        × IsLinked t w (record l { sender = d })
  unfolding select
  select-IsLinked w (offered now dur bytes) l f v =
      (accept_send t now dur bytes l.sender, refl, offer-IsLinked w now dur bytes l v)
  select-IsLinked w (woken now clk) l f v =
      (wakeup t now clk l.sender, refl, wake-IsLinked w now clk l v)
  select-IsLinked w (heard a) l (f, _) v = heard-IsLinked w a l f v

  sender_turn-IsLinked :
      (w : ℕ) (e : SenderEvent) (l : Link t)
      → AllFit w (e ∷ [])
      → IsLinked t w l
      → (d : Link t) × (sender_turn t e l ≡ some d) × IsLinked t w d
  unfolding sender_turn
  sender_turn-IsLinked w e l f v =
      let (d, run, vd) =
        handle_either t
          (λ o. (d : SenderState t) × (o ≡ some d) × IsLinked t w (record l { sender = d })) e
          l.sender (l.sender, refl, v) (select-IsLinked w e l f v) in
      (record l { sender = d }, rw (sender_turn, run) refl, vd)

  carry_back-IsLinked :
      (w now : ℕ) (a : Option Ack) (l : Link t)
      → Within? w a
      → IsLinked t w l
      → (d : Link t) × (carry_back t now a l ≡ some d) × IsLinked t w d
  unfolding carry_back
  carry_back-IsLinked w now none l f v = (l, refl, v)
  carry_back-IsLinked w now (some a) l f v =
      sender_turn-IsLinked w (heard (heard_ack now a)) l (f, tt) v

  read_ready-IsLinked :
      (w : ℕ) (ps : List (Option Packet)) (l : Link t)
      → l.receiver.ready_for_delivery ≡ ps
      → IsLinked t w l
      → (d : Link t) × (read_ready t ps l ≡ some d) × IsLinked t w d
  unfolding read_ready
  read_ready-IsLinked w [] l e v = (l, refl, v)
  read_ready-IsLinked w (p ∷ ps) l e v =
      let f = v.follows in
      let h = l.sender.send_history in
      let (r, run, behind, bounded, same, _) =
        consume-IsValid w l.client p ps l.receiver (λ n. get_or h n []) e
          (f.in_order (λ n. get_or h n []) (λ n less. refl)) f.bounded in
      (
        record l { receiver = r; client = l.client ++ l.receiver.ready_for_delivery },
        rw (read_ready, run) refl,
        record {
          sender = v.sender;
          window = v.window;
          carries = v.carries;
          follows = record {
            bounded = bounded;
            arrived = omega (arith, same.0, f.arrived);
            summed = same.1 ∙ f.summed ∙ ap (total h) (sym same.0);
            in_order = λ sent agrees. behind sent (f.in_order sent agrees);
          };
        },
      )

  link_step-IsLinked :
      (w : ℕ) (e : LinkEvent) (l : Link t)
      → IsLinked t w l
      → (d : Link t) × (link_step t e l ≡ some d) × IsLinked t w d
  unfolding link_step
  link_step-IsLinked w (offer now dur bytes) l v =
      sender_turn-IsLinked w (offered now dur bytes) l tt v
  link_step-IsLinked w (wake now clk) l v = sender_turn-IsLinked w (woken now clk) l tt v
  link_step-IsLinked w (arrive i) l v =
      carry-IsLinked w (get_elem? l.sender.net i) l
        (AllFrames-get l.sender.send_history l.sender.net i v.carries.wire) v
  link_step-IsLinked w (acked now i) l v =
      carry_back-IsLinked w now (get_elem? l.receiver.acks i) l
        (AllWithin-get w l.receiver.acks i v.follows.bounded.acks) v
  link_step-IsLinked w read l v = read_ready-IsLinked w l.receiver.ready_for_delivery l refl v

  link_run-IsLinked :
      (w : ℕ) (es : List LinkEvent) (l : Link t)
      → IsLinked t w l
      → (d : Link t) × (link_run t es l ≡ some d) × IsLinked t w d
  unfolding link_run
  link_run-IsLinked w [] l v = (l, refl, v)
  link_run-IsLinked w (e ∷ es) l v =
      let (d, one, vd) = link_step-IsLinked w e l v in
      let (d', all, vd') = link_run-IsLinked w es d vd in (d', rw (one, link_run, all) refl, vd')

  new_link-IsLinked : (k : KeepAlive) (w b : ℕ) → 0 < w → IsLinked t w (new_link t k w b)
  unfolding new_link new_sender_state new_recv_state
  new_link-IsLinked k w b h = record {
    sender = new_sender_state-Misses t laws k w h;
    window = refl;
    carries = new_sender_state-Carries t k w;
    follows = record {
      bounded = new_recv_state-IsBounded w b;
      arrived = omega arith;
      summed = refl;
      in_order = λ sent agrees. new_recv_state-IsValid sent w b h;
    };
  }

-- What the sender's application gave, as the other side's client has it: a first piece, in order, of
-- which all is read but what is ready.
abbrev pub Transfers : (t : Rbtree) → Link t → Type 0
Transfers t l =
    (l.receiver.next_frame_expected ≤ length l.sender.send_history)
    × (map contents (l.client ++ l.receiver.ready_for_delivery)
        ≡ map some (take l.receiver.next_frame_expected l.sender.send_history))

-- Over a network that loses, repeats, delays and reorders packets and acks, and with trees that are
-- ordered sets: from a fresh session with a window, whatever is offered, resent, arrives and is read
-- in whatever order, neither side panics, and what the client has read, with what is ready for it, is
-- the first packets that the application gave to the sender, in order, each once.
pub link_run-Transfers :
    (t : Rbtree) (laws : IsRbtree t) (k : KeepAlive) (w b : ℕ) (es : List LinkEvent)
    → 0 < w
    → (l : Link t) × (link_run t es (new_link t k w b) ≡ some l) × Transfers t l
link_run-Transfers t laws k w b es h =
    let (l, run, v) =
      link_run-IsLinked t laws w es (new_link t k w b) (new_link-IsLinked t laws k w b h) in
    (l, run, Follows-take w l.sender.send_history l.client l.receiver v.follows)
