-- ===== src/Swp/Sender/Tests.antt =====
-- Runs of the sender of swp/sender.go, and its theorem at concrete inputs.
use gnatsd.Prelude.{
  length, ◌+◌, ◌%◌, ◌≤◌, ◌<◌, ◌*◌, true, false, List, [], ◌∷◌, some, ◌≡◌, refl, map, arith,
}
use gnatsd.Swp.Receiver.{Packet}
use gnatsd.Swp.Retree.Model.{list_tree, list_tree-IsRbtree}
use gnatsd.Swp.Sender.{
  accept_send, KeepAlive, SenderState, SenderEvent, Heard, offered, woken, heard, new_sender_state,
  send_loop,
}
use gnatsd.Swp.Sender.Retries.{is_due, ResendsOrHalts, wakeup-Resends}
use gnatsd.Swp.Sender.Loop.{InFlight, send_loop-InFlight}

abbrev ack_of_0 : Heard
ack_of_0 = record {
  ack_num = some 0;
  is_data_ack = true;
  msg_cap = some 2;
  bytes_cap = some 100;
  arrived_at = 8;
}

-- Three keepalives may fail, of which one is due every 10.
abbrev keep_alive : KeepAlive
keep_alive = record { started = 0; interval = 10; failures = 3 }

-- A window of 2: frames 0 and 1 are sent and the third offer is refused; 0 is due and sent again; it
-- is acked at 8, and frame 2 takes its slot. At 39 the session is declared dead.
abbrev wakings : List SenderEvent
wakings =
    offered 0 5 (10 ∷ [])
    ∷ offered 1 9 (11 ∷ [])
    ∷ offered 2 9 (12 ∷ [])
    ∷ woken 6 (λ i. (7, 20))
    ∷ heard ack_of_0
    ∷ offered 9 9 (12 ∷ [])
    ∷ woken 39 (λ i. (39, 20))
    ∷ offered 40 9 (13 ∷ [])
    ∷ []

wakings_sent :
    (s : SenderState list_tree) × (send_loop list_tree wakings
        (new_sender_state list_tree keep_alive 2)
      ≡ some s)
    × (map (λ (p : Packet). p.seq_num + p.seq_retry * 100) s.net ≡ 0 ∷ 1 ∷ 100 ∷ 2 ∷ [])
    × (s.by_seq_num ≡ 1 ∷ 0 ∷ [])
    × (s.halted ≡ true)
unfolding send_loop new_sender_state gnatsd.Swp.Retree.put gnatsd.Swp.Retree.cut
wakings_sent = (_, refl, refl, refl, refl)

send_loop-InFlight_example :
    (s : SenderState list_tree) × (send_loop list_tree wakings
        (new_sender_state list_tree keep_alive 2)
      ≡ some s)
    × InFlight list_tree s
send_loop-InFlight_example =
    send_loop-InFlight list_tree list_tree-IsRbtree keep_alive 2 wakings (omega arith)
      (omega arith, tt)

abbrev two_offers : List SenderEvent
two_offers = offered 0 5 (10 ∷ []) ∷ offered 1 9 (11 ∷ []) ∷ []

abbrev two_sent : SenderState list_tree
two_sent =
    accept_send list_tree 1 9 (11 ∷ [])
      (accept_send list_tree 0 5 (10 ∷ []) (new_sender_state list_tree keep_alive 2))

two_offers_sent :
    send_loop list_tree two_offers (new_sender_state list_tree keep_alive 2) ≡ some two_sent
unfolding send_loop new_sender_state
two_offers_sent = refl

two_in_flight :
    (two_sent.halted ≡ false)
    × (two_sent.frames_sent ≤ 1 + length two_sent.by_seq_num)
    × (1 < two_sent.frames_sent)
    × (is_due two_sent.txq 10 (1 % two_sent.sender_window_size) ≡ true)
unfolding accept_send new_sender_state gnatsd.Swp.Retree.put gnatsd.Swp.Retree.cut
two_in_flight = (refl, omega arith, omega arith, refl)

wakeup-Resends_example : ResendsOrHalts list_tree 10 (λ i. (11, 20)) 1 two_sent
wakeup-Resends_example =
    wakeup-Resends list_tree list_tree-IsRbtree keep_alive 2 two_offers two_sent 10 (λ i. (11, 20))
      1 (omega arith) tt two_offers_sent two_in_flight.0 two_in_flight.1 two_in_flight.2
      two_in_flight.3
