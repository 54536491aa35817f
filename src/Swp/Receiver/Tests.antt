-- ===== src/Swp/Receiver/Tests.antt =====
-- Runs of the receiver of swp/recv.go, and its theorems at concrete inputs.
use gnatsd.Prelude.{ℕ, ◌+◌, List, [], ◌∷◌, none, some, ◌≤◌, take, ◌≡◌, refl, arith, map, Bytes}
use gnatsd.Swp.Receiver.{Packet, RecvState, new_recv_state, receive, receive_all}
use gnatsd.Swp.Receiver.Slots.{prefix, contents, new_recv_state-IsValid}
use gnatsd.Swp.Receiver.InOrder.{Received, receive_refines}
use gnatsd.Swp.Receiver.Sequence.{receive_all-in_order}
use gnatsd.Swp.Sender.History.{AllFrames}

abbrev stream : ℕ → Bytes
stream n = n ∷ []

-- A packet of it, at its given retry.
abbrev packet : ℕ → ℕ → Packet
packet n retry = record { seq_num = n; seq_retry = retry; bytes = stream n; cumul = n + 1 }

-- The packets of a list of nine.
abbrev nine : List Bytes
nine = map stream (0 ∷ 1 ∷ 2 ∷ 3 ∷ 4 ∷ 5 ∷ 6 ∷ 7 ∷ 8 ∷ [])

-- 2 comes early, 0 twice, and 8 is outside the window of 3.
abbrev arrivals : List Packet
arrivals = packet 2 0 ∷ packet 0 0 ∷ packet 0 1 ∷ packet 8 0 ∷ packet 1 3 ∷ []

arrivals_delivered :
    (d : RecvState) × (receive_all arrivals (new_recv_state 3 100) ≡ some d)
    × (map contents d.ready_for_delivery ≡ prefix 3 stream)
    × (d.discard_count ≡ 2)
unfolding receive_all new_recv_state
arrivals_delivered = (_, refl, refl, refl)

-- A packet whose cumulated bytes go back panics.
arrivals_panic :
    receive_all (packet 0 0 ∷ record (packet 1 0) { cumul = 0 } ∷ []) (new_recv_state 3 100) ≡ none
unfolding receive_all new_recv_state
arrivals_panic = refl

receive_refines_example :
    (d : RecvState) × (receive (packet 2 0) (new_recv_state 3 100) ≡ some d)
    × Received stream [] (packet 2 0) (new_recv_state 3 100) d
receive_refines_example =
    receive_refines stream [] (packet 2 0) (new_recv_state 3 100) refl
      (new_recv_state-IsValid stream 3 100 (omega arith))

arrivals_of_nine : AllFrames nine arrivals
arrivals_of_nine = (
  (omega arith, refl, refl),
  (
    (omega arith, refl, refl),
    ((omega arith, refl, refl), ((omega arith, refl, refl), ((omega arith, refl, refl), tt))),
  ),
)

receive_all-in_order_example :
    (d : RecvState) × (receive_all arrivals (new_recv_state 3 100) ≡ some d)
    × (d.ready_for_delivery ≡ d.recv_history)
    × (d.next_frame_expected ≤ 9)
    × (map contents d.ready_for_delivery ≡ map some (take d.next_frame_expected nine))
receive_all-in_order_example =
    receive_all-in_order nine 3 100 arrivals (omega arith) arrivals_of_nine
