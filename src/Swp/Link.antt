-- ===== src/Swp/Link.antt =====
-- Data from one side of a session of swp to the other, over a network that loses, repeats and
-- reorders: swp/sender.go, swp/recv.go, and the acks between them.
pub mod Arrive
pub mod Pieces
pub mod Whole
mod Tests
use gnatsd.Prelude.{ℕ, true, List, [], ◌∷◌, ◌++◌, Option, none, some, get_elem?, Bytes}
use gnatsd.Swp.Retree.{Rbtree}
use gnatsd.Swp.Receiver.{Packet, Ack, RecvState, new_recv_state, take_packet, consume}
use gnatsd.Swp.Sender.{
  KeepAlive, SenderState, SenderEvent, Heard, offered, woken, heard, new_sender_state, handle,
}

-- The sender of one side, the receiver of the other, and what its client has read.
pub record Link (t : Rbtree) : Type 0 where
  pub sender : SenderState t
  pub receiver : RecvState
  pub client : List (Option Packet)

-- `NewSWP` on both sides, with the same windows.
unfoldable pub new_link : (t : Rbtree) → KeepAlive → ℕ → ℕ → Link t
unfolding new_sender_state new_recv_state
new_link t k window_msg_count window_byte_count = record {
  sender = new_sender_state t k window_msg_count;
  receiver = new_recv_state window_msg_count window_byte_count;
  client = [];
}

-- The application offers a packet, the timer of the sender fires, the packet or ack that was sent as
-- the i-th arrives, be it again or late, and the client reads all that is ready.
pub data LinkEvent : Type 0 where
  offer : (now dur : ℕ) (bytes : Bytes) → LinkEvent
  wake : (now : ℕ) (clk : ℕ → ℕ × ℕ) → LinkEvent
  arrive : (i : ℕ) → LinkEvent
  acked : (now i : ℕ) → LinkEvent
  read : LinkEvent

-- An ack as the sender hears it at a time.
abbrev pub heard_ack : ℕ → Ack → Heard
heard_ack now a = record {
  ack_num = some a.ack_num;
  is_data_ack = true;
  msg_cap = a.msg_cap;
  bytes_cap = a.bytes_cap;
  arrived_at = now;
}

-- The packet reaches the receiver, if there is one.
unfoldable pub carry : (t : Rbtree) → Option Packet → Link t → Option (Link t)
unfolding take_packet
carry t none l = some l
carry t (some pack) l = elim (take_packet pack l.receiver) [
  | none ↦ none
  | some r ↦ some (record l { receiver = r })
]

-- A turn of the sender's loop.
unfoldable pub sender_turn : (t : Rbtree) → SenderEvent → Link t → Option (Link t)
unfolding handle
sender_turn t e l = elim (handle t e l.sender) [
  | none ↦ none
  | some s ↦ some (record l { sender = s })
]

-- The ack reaches the sender, if there is one.
unfoldable pub carry_back : (t : Rbtree) → ℕ → Option Ack → Link t → Option (Link t)
unfolding sender_turn
carry_back t now none l = some l
carry_back t now (some a) l = sender_turn t (heard (heard_ack now a)) l

-- The client reads what is ready, if anything is.
unfoldable pub read_ready : (t : Rbtree) → List (Option Packet) → Link t → Option (Link t)
unfolding consume
read_ready t [] l = some l
read_ready t (p ∷ ps) l = elim (consume l.receiver) [
  | none ↦ none
  | some r ↦ some (record l { receiver = r; client = l.client ++ l.receiver.ready_for_delivery })
]

-- One event; `none` is a panic of either side.
unfoldable pub link_step : (t : Rbtree) → LinkEvent → Link t → Option (Link t)
unfolding sender_turn carry carry_back read_ready
link_step t (offer now dur bytes) l = sender_turn t (offered now dur bytes) l
link_step t (wake now clk) l = sender_turn t (woken now clk) l
link_step t (arrive i) l = carry t (get_elem? l.sender.net i) l
link_step t (acked now i) l = carry_back t now (get_elem? l.receiver.acks i) l
link_step t read l = read_ready t l.receiver.ready_for_delivery l

unfoldable pub link_run : (t : Rbtree) → List LinkEvent → Link t → Option (Link t)
unfolding link_step
link_run t [] l = some l
link_run t (e ∷ es) l = elim (link_step t e l) [ none ↦ none | some d ↦ link_run t es d ]
