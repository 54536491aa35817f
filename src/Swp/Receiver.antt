-- ===== src/Swp/Receiver.antt =====
-- swp/recv.go: the window of the receiver, and what it does with a data packet.
pub mod Slots
pub mod Bounds
pub mod Consume
pub mod Deliver
pub mod InOrder
pub mod Sequence
mod Tests
use gnatsd.Prelude.{
  ℕ, zero, suc, ◌+◌, ◌-◌, ◌%◌, Bool, true, false, List, [], ◌∷◌, ◌++◌, Bytes, Option, none, some,
  ltb, leb, ◌==◌, ◌||◌, ◌&&◌, not, if◌then◌else◌, get_or, set, replicate, length,
}

-- A data packet: the fields of `Packet` that this path reads, with `Data` as `bytes` and
-- `CumulBytesTransmitted` as `cumul`. `SeqNum` of data starts at 0.
pub record Packet : Type 0 where
  pub seq_num : ℕ
  pub seq_retry : ℕ
  pub bytes : Bytes
  pub cumul : ℕ

-- `Pack` is nil in a slot that has not received.
pub record RxqSlot : Type 0 where
  pub received : Bool
  pub pack : Option Packet

-- An ack with event EventDataAck: `AckNum`, `AckRetry`, `AvailReaderMsgCap` and
-- `AvailReaderBytesCap`. A capacity of `none` is a negative one.
pub record Ack : Type 0 where
  pub ack_num : ℕ
  pub ack_retry : ℕ
  pub msg_cap : Option ℕ
  pub bytes_cap : Option ℕ

-- The part of `RecvState` that this path uses; `acks` are the acks given to the sender so far,
-- `snd_consumed` is what the sender is told by SetRecvLastFrameClientConsumed. `seqnos_rcvd`,
-- `msgs_consumed` and `bytes_consumed` are one more than `LargestSeqnoRcvd`, `LastMsgConsumed` and
-- `LastByteConsumed`, which start at -1.
pub record RecvState : Type 0 where
  pub next_frame_expected : ℕ
  pub last_frame_client_consumed : ℕ
  pub rxq : List RxqSlot
  pub recv_window_size : ℕ
  pub recv_history : List (Option Packet)
  pub discard_count : ℕ
  pub rcvd_but_not_consumed : List (ℕ × Packet)
  pub ready_for_delivery : List (Option Packet)
  pub snd_consumed : ℕ
  pub acks : List Ack
  pub recv_window_size_bytes : ℕ
  pub seqnos_rcvd : ℕ
  pub max_cumul_bytes_trans : ℕ
  pub msgs_consumed : ℕ
  pub bytes_consumed : ℕ
  pub last_avail_reader_msg_cap : Option ℕ
  pub last_avail_reader_bytes_cap : Option ℕ

abbrev pub empty_slot : RxqSlot
empty_slot = record { received = false; pack = none }

-- `NewRecvState`
unfoldable pub new_recv_state : ℕ → ℕ → RecvState
new_recv_state recv_sz recv_sz_bytes = record {
  next_frame_expected = 0;
  last_frame_client_consumed = 0;
  rxq = replicate recv_sz empty_slot;
  recv_window_size = recv_sz;
  recv_history = [];
  discard_count = 0;
  rcvd_but_not_consumed = [];
  ready_for_delivery = [];
  snd_consumed = 0;
  acks = [];
  recv_window_size_bytes = recv_sz_bytes;
  seqnos_rcvd = 0;
  max_cumul_bytes_trans = 0;
  msgs_consumed = 0;
  bytes_consumed = 0;
  last_avail_reader_msg_cap = some 0;
  last_avail_reader_bytes_cap = some 0;
}

-- `InWindow`
unfoldable pub in_window : ℕ → ℕ → ℕ → Bool
in_window seqno min max = if ltb seqno min then false else if ltb max seqno then false else true

-- `m[k] = v`
unfoldable pub map_set : ℕ → Packet → List (ℕ × Packet) → List (ℕ × Packet)
map_set k v [] = (k, v) ∷ []
map_set k v ((k', v') ∷ m) =
    let rest = map_set k v m in if k == k' then (k, v) ∷ m else (k', v') ∷ rest

unfoldable pub slot_at : RecvState → ℕ → RxqSlot
slot_at r s = get_or r.rxq (s % r.recv_window_size) empty_slot

-- The body of `for slot.Received`.
unfoldable pub deliver_one : RecvState → RxqSlot → RecvState
deliver_one r slot = record r {
  ready_for_delivery = r.ready_for_delivery ++ slot.pack ∷ [];
  recv_history = r.recv_history ++ slot.pack ∷ [];
  rxq = set r.rxq (r.next_frame_expected % r.recv_window_size) empty_slot;
  next_frame_expected = r.next_frame_expected + 1;
}

-- `for slot.Received`, from the slot of `NextFrameExpected`; `none` is out of fuel.
unfoldable pub deliver : ℕ → RecvState → Option RecvState
unfolding slot_at deliver_one
deliver zero r = if (slot_at r r.next_frame_expected).received then none else some r
deliver (suc fuel) r =
    let slot = slot_at r r.next_frame_expected in
    let rest = deliver fuel (deliver_one r slot) in if slot.received then rest else some r

-- What is left of `size` with `used` out and `back` in again.
abbrev pub capacity : ℕ → ℕ → ℕ → Option ℕ
capacity size used back = if leb used (size + back) then some (size + back - used) else none

-- `UpdateControl`, of the receiver's own state.
unfoldable pub update_control : RecvState → RecvState
update_control r = record r {
  last_avail_reader_msg_cap = capacity r.recv_window_size r.seqnos_rcvd r.msgs_consumed;
  last_avail_reader_bytes_cap =
      capacity r.recv_window_size_bytes r.max_cumul_bytes_trans r.bytes_consumed;
}

-- `ack(r.LastFrameClientConsumed, pack, EventDataAck)`
unfoldable pub send_ack : Packet → RecvState → RecvState
unfolding update_control
send_ack pack r =
    let u = update_control r in
    record u {
      acks =
          u.acks
          ++ record {
            ack_num = u.last_frame_client_consumed;
            ack_retry = pack.seq_retry;
            msg_cap = u.last_avail_reader_msg_cap;
            bytes_cap = u.last_avail_reader_bytes_cap;
          }
            ∷ [];
    }

-- What the receiver remembers of a packet that is no old duplicate.
unfoldable pub remember : Packet → RecvState → RecvState
unfolding map_set
remember pack r = record r {
  rcvd_but_not_consumed =
      if leb r.next_frame_expected pack.seq_num
      then map_set pack.seq_num pack r.rcvd_but_not_consumed
      else r.rcvd_but_not_consumed;
}

unfoldable pub store : Packet → RecvState → RecvState
store pack r = record r {
  rxq = set r.rxq (pack.seq_num % r.recv_window_size) record { received = true; pack = some pack };
}

-- The part of the loop for a packet with event EventData. The window of the model never holds more
-- than `length rxq` packets, so that is the fuel.
unfoldable pub receive : Packet → RecvState → Option RecvState
unfolding in_window remember store deliver send_ack
receive pack r =
    let r1 = remember pack r in
    let r2 = store pack r1 in
    if not (
      in_window pack.seq_num r1.next_frame_expected
        (r1.next_frame_expected + r1.recv_window_size - 1))
    then some (send_ack pack (record r1 { discard_count = r1.discard_count + 1 }))
    else if pack.seq_num == r2.next_frame_expected
    then elim (deliver (length r2.rxq) r2) [
      | none ↦ none
      | some d ↦ some (record d { snd_consumed = d.last_frame_client_consumed })
    ]
    else some r2

-- What the loop does with every packet before its event counts: the two panics, where the cumulated
-- bytes do not go up with the sequence numbers, and `UpdateControl`.
unfoldable pub note_arrival : Packet → RecvState → Option RecvState
unfolding update_control
note_arrival pack r =
    let largest = ltb r.seqnos_rcvd (pack.seq_num + 1) in
    let max = if largest then pack.cumul else r.max_cumul_bytes_trans in
    let noted = record r {
      seqnos_rcvd = if largest then pack.seq_num + 1 else r.seqnos_rcvd;
      max_cumul_bytes_trans = max;
    } in
    if largest && ltb pack.cumul r.max_cumul_bytes_trans
    then none
    else if ltb max pack.cumul
    then none
    else some (update_control noted)

-- The loop for a data packet that passes the filters by sender and checksum.
unfoldable pub take_packet : Packet → RecvState → Option RecvState
unfolding note_arrival receive
take_packet pack r = elim (note_arrival pack r) [ none ↦ none | some noted ↦ receive pack noted ]

-- The loop over the data packets that arrive.
unfoldable pub receive_all : List Packet → RecvState → Option RecvState
unfolding take_packet
receive_all [] r = some r
receive_all (pack ∷ packs) r = elim (take_packet pack r) [
  | none ↦ none
  | some d ↦ receive_all packs d
]

-- `delete(m, k)`
unfoldable pub map_delete : ℕ → List (ℕ × Packet) → List (ℕ × Packet)
map_delete k [] = []
map_delete k ((j, v) ∷ m) = let rest = map_delete k m in if k == j then rest else (j, v) ∷ rest

-- The loop over a delivery to the client; a nil packet panics.
unfoldable pub consume_all : List (Option Packet) → RecvState → Option RecvState
unfolding map_delete
consume_all [] r = some r
consume_all (none ∷ packs) r = none
consume_all (some pack ∷ packs) r = consume_all packs (record r {
  rcvd_but_not_consumed = map_delete pack.seq_num r.rcvd_but_not_consumed;
  msgs_consumed = pack.seq_num + 1;
  bytes_consumed = pack.cumul + 1;
  last_frame_client_consumed = pack.seq_num;
})

-- The last packet of a delivery.
unfoldable pub last_pack : List (Option Packet) → Option Packet
last_pack [] = none
last_pack (pack ∷ []) = pack
last_pack (_ ∷ packs) = last_pack packs

-- `deliverToConsumer <- delivery`, of all that is ready: there is something, and it is acked.
unfoldable pub consume : RecvState → Option RecvState
unfolding consume_all last_pack send_ack
consume r = elim (last_pack r.ready_for_delivery) [
  | none ↦ none
  | some pack ↦ elim (consume_all r.ready_for_delivery r) [
    | none ↦ none
    | some c ↦ some (send_ack pack (record c { ready_for_delivery = [] }))
  ]
]
