-- ===== src/Swp/Receiver/Sequence.antt =====
-- Any sequence of data packets of a history, taken by the loop of swp/recv.go.
use gnatsd.Prelude.{
  ◌≤◌, ◌<◌, ℕ, List, [], ◌∷◌, some, ◌≡◌, refl, sym, arith, get_or, take, map, length, Bytes,
}
use gnatsd.Swp.Receiver.{Packet, RecvState, new_recv_state, receive_all}
use gnatsd.Swp.Receiver.Slots.{contents, new_recv_state-IsValid}
use gnatsd.Swp.Receiver.Bounds.{new_recv_state-IsBounded}
use gnatsd.Swp.Sender.History.{total, AllFrames}
use gnatsd.Swp.Link.Arrive.{Follows, take_packet-Follows}
use gnatsd.Swp.Link.Pieces.{Follows-take}

total-none : (h : List Bytes) → total h 0 ≡ 0
total-none [] = refl
total-none (b ∷ h) = refl

new_recv_state-Follows : (h : List Bytes) (w b : ℕ) → 0 < w → Follows w h [] (new_recv_state w b)
unfolding new_recv_state
new_recv_state-Follows h w b pos = record {
  bounded = new_recv_state-IsBounded w b;
  arrived = omega arith;
  summed = sym (total-none h);
  in_order = λ sent agrees. new_recv_state-IsValid sent w b pos;
}

receive_all-Follows :
    (h : List Bytes) (w : ℕ) (packs : List Packet) (r : RecvState)
    → AllFrames h packs
    → Follows w h [] r
    → (d : RecvState) × (receive_all packs r ≡ some d) × Follows w h [] d
unfolding receive_all
receive_all-Follows h w [] r all v = (r, refl, v)
receive_all-Follows h w (pack ∷ packs) r (frame, all) v =
    let (d, run, vd) = take_packet-Follows w h [] pack r frame v in
    let (d', run', vd') = receive_all-Follows h w packs d all vd in
    (d', rw (run, receive_all, run') refl, vd')

-- From a fresh receiver with a window, any sequence of data packets that a sender makes of a list
-- of data, each with the data and the cumulated bytes of its sequence number, in any order,
-- repeated, retried and with losses: the loop takes it all, without a panic and without running out
-- of fuel, and what is ready for the client is all that was delivered, the first packets of the
-- list, in order, each once.
pub receive_all-in_order :
    (h : List Bytes) (w b : ℕ) (packs : List Packet)
    → 0 < w
    → AllFrames h packs
    → (d : RecvState) × (receive_all packs (new_recv_state w b) ≡ some d)
      × (d.ready_for_delivery ≡ d.recv_history)
      × (d.next_frame_expected ≤ length h)
      × (map contents d.ready_for_delivery ≡ map some (take d.next_frame_expected h))
receive_all-in_order h w b packs pos all =
    let (d, run, v) =
      receive_all-Follows h w packs (new_recv_state w b) all (new_recv_state-Follows h w b pos) in
    let (le, same) = Follows-take w h [] d v in
    (d, run, sym (v.in_order (λ n. get_or h n []) (λ n l. refl)).ready, le, same)
