-- ===== src/Swp/Sender.antt =====
-- swp/sender.go: the window of the sender, its two trees of slots, and its flow control.
pub mod Turns
pub mod Frames
pub mod Trees
pub mod Window
pub mod Resend
pub mod Sends
pub mod Acks
pub mod Loop
pub mod History
pub mod Stream
pub mod Retries
mod Tests
use gnatsd.Prelude.{
  ◌*◌, ℕ, zero, suc, ◌+◌, ◌%◌, Bool, true, false, List, [], ◌∷◌, ◌++◌, Bytes, Option, none, some,
  ltb, leb, ◌==◌, ◌||◌, ◌&&◌, not, if◌then◌else◌, get_or, set, replicate, length,
}
use gnatsd.Swp.Receiver.{Packet}
use gnatsd.Swp.Retree.{Key, Rbtree, delete_through}

-- Times and durations are numbers of nanoseconds. `Pack` is nil until the slot is first used.
pub record TxqSlot : Type 0 where
  pub orig_send_time : ℕ
  pub retry_deadline : ℕ
  pub retry_dur : ℕ
  pub pack : Option Packet

-- What the sender reads of a packet from the other side: `AckNum`, `none` for a negative one, whether
-- `TcpEvent` is EventDataAck, the two capacities, `none` for a negative one, and `ArrivedAtDestTm`.
pub record Heard : Type 0 where
  pub ack_num : Option ℕ
  pub is_data_ack : Bool
  pub msg_cap : Option ℕ
  pub bytes_cap : Option ℕ
  pub arrived_at : ℕ

-- How a session waits for the other side: when the sender is made, `KeepAliveInterval`, and
-- `NumFailedKeepAlivesBeforeClosing`, 0 for a negative one, which deactivates the test as well.
pub record KeepAlive : Type 0 where
  pub started : ℕ
  pub interval : ℕ
  pub failures : ℕ

-- The part of `SenderState` that the data path uses. `frames_sent` and `acks_rec` are one more than
-- `LastFrameSent` and `LastAckRec`, which start at -1. A slot is known by its index in `txq`. Of a
-- packet, `send_history` keeps the data, and `net` the state at each call of `Net.Send`. `last_heard`
-- is `LastHeardFromDownstream`; `halted` says that `sendloop` has returned.
pub record SenderState (t : Rbtree) : Type 0 where
  pub frames_sent : ℕ
  pub acks_rec : ℕ
  pub txq : List TxqSlot
  pub sender_window_size : ℕ
  pub by_deadline : t.Tree
  pub by_seq_num : t.Tree
  pub send_history : List Bytes
  pub discard_count : ℕ
  pub msg_cap : Option ℕ
  pub bytes_cap : Option ℕ
  pub total_bytes_sent : ℕ
  pub last_send_time : ℕ
  pub last_heard : ℕ
  pub keep_alive_interval : ℕ
  pub num_failed_keep_alives_before_closing : ℕ
  pub halted : Bool
  pub net : List Packet

abbrev pub unused_slot : TxqSlot
unused_slot = record { orig_send_time = 0; retry_deadline = 0; retry_dur = 0; pack = none }

-- `NewSenderState`, and the number of failures that `NewSession` puts into it.
unfoldable pub new_sender_state : (t : Rbtree) → KeepAlive → ℕ → SenderState t
new_sender_state t k send_sz = record {
  frames_sent = 0;
  acks_rec = 0;
  txq = replicate send_sz unused_slot;
  sender_window_size = send_sz;
  by_deadline = t.empty;
  by_seq_num = t.empty;
  send_history = [];
  discard_count = 0;
  msg_cap = some send_sz;
  bytes_cap = some (1024 * 1024);
  total_bytes_sent = 0;
  last_send_time = 0;
  last_heard = k.started;
  keep_alive_interval = k.interval;
  num_failed_keep_alives_before_closing = k.failures;
  halted = false;
  net = [];
}

abbrev pub pack_seq : Option Packet → ℕ
pack_seq none = 0
pack_seq (some pack) = pack.seq_num

abbrev pub pack_size : Option Packet → ℕ
pack_size none = 0
pack_size (some pack) = length pack.bytes

abbrev pub seq_at : List TxqSlot → ℕ → ℕ
seq_at txq i = pack_seq (get_or txq i unused_slot).pack

-- `compareSeqNum`; a slot in a tree has a packet.
abbrev pub seq_key : List TxqSlot → Key
seq_key txq i = (0, seq_at txq i)

-- `compareRetryDeadline`
abbrev pub deadline_key : List TxqSlot → Key
deadline_key txq i = ((get_or txq i unused_slot).retry_deadline, seq_at txq i)

-- The loop of `ComputeInflight`: bytes and messages.
unfoldable pub inflight : List TxqSlot → List ℕ → ℕ × ℕ
inflight txq [] = (0, 0)
inflight txq (i ∷ is) =
    let rest = inflight txq is in (pack_size (get_or txq i unused_slot).pack + rest.0, 1 + rest.1)

-- `ComputeInflight`
unfoldable pub compute_inflight : (t : Rbtree) → SenderState t → ℕ × ℕ
unfolding inflight
compute_inflight t s = inflight s.txq (t.items s.by_deadline)

-- A capacity minus what is in flight, above 0.
abbrev pub room : Option ℕ → ℕ → Bool
room none used = false
room (some cap) used = ltb used cap

-- The test by which the loop accepts a packet of the application.
unfoldable pub can_send : (t : Rbtree) → SenderState t → Bool
unfolding compute_inflight
can_send t s =
    let (bytes, msgs) = compute_inflight t s in room s.msg_cap msgs && room s.bytes_cap bytes

-- `doOrigDataSend`, where `Clk.Now()` is `now` and `GetDeadlineDur` is `dur`.
unfoldable pub do_orig_data_send : (t : Rbtree) → ℕ → ℕ → Bytes → SenderState t → SenderState t
do_orig_data_send t now dur bytes s =
    let pos = s.frames_sent % s.sender_window_size in
    let total = s.total_bytes_sent + length bytes in
    let pack : Packet = record {
      seq_num = s.frames_sent;
      seq_retry = 0;
      bytes = bytes;
      cumul = total;
    } in
    let txq = set s.txq pos record {
      orig_send_time = now;
      retry_deadline = now + dur;
      retry_dur = dur;
      pack = some pack;
    } in
    record s {
      frames_sent = s.frames_sent + 1;
      total_bytes_sent = total;
      txq = txq;
      send_history = s.send_history ++ bytes ∷ [];
      last_send_time = now;
      by_deadline = t.insert (deadline_key txq) pos s.by_deadline;
      by_seq_num = t.insert (seq_key txq) pos s.by_seq_num;
      net = s.net ++ pack ∷ [];
    }

-- `acceptSend`: a packet that the application offers is sent where flow control allows it.
unfoldable pub accept_send : (t : Rbtree) → ℕ → ℕ → Bytes → SenderState t → SenderState t
unfolding can_send do_orig_data_send
accept_send t now dur bytes s = if can_send t s then do_orig_data_send t now dur bytes s else s

-- `deleteSlot` for each slot of a list.
unfoldable pub delete_all : (t : Rbtree) → Key → List ℕ → t.Tree → t.Tree
delete_all t k [] a = a
delete_all t k (x ∷ xs) a = delete_all t k xs (t.delete k x a)

abbrev pub next_retry : Option Packet → Option Packet
next_retry none = none
next_retry (some pack) = some (record pack { seq_retry = pack.seq_retry + 1 })

abbrev pub sent_pack : Option Packet → List Packet
sent_pack none = []
sent_pack (some pack) = pack ∷ []

-- The slot with its deadline reset.
abbrev pub reset_slot : ℕ → ℕ → TxqSlot → TxqSlot
reset_slot now dur slot = record slot {
  retry_dur = dur;
  retry_deadline = now + dur;
  pack = next_retry slot.pack;
}

-- The body of `for _, slot := range retry`.
unfoldable pub resend : (t : Rbtree) → ℕ → ℕ → ℕ → SenderState t → SenderState t
resend t now dur i s =
    let slot = reset_slot now dur (get_or s.txq i unused_slot) in
    let txq = set s.txq i slot in
    record s {
      txq = txq;
      by_deadline = t.insert (deadline_key txq) i s.by_deadline;
      by_seq_num = t.insert (seq_key txq) i s.by_seq_num;
      net = s.net ++ sent_pack slot.pack;
    }

-- That loop; `clk` gives the time and the duration read for a slot.
unfoldable pub resend_all : (t : Rbtree) → (ℕ → ℕ × ℕ) → List ℕ → SenderState t → SenderState t
unfolding resend
resend_all t clk [] s = s
resend_all t clk (i ∷ is) s = resend_all t clk is (resend t (clk i).0 (clk i).1 i s)

-- The slots that are due leave both trees.
unfoldable pub take_due : (t : Rbtree) → ℕ → SenderState t → List ℕ × SenderState t
unfolding delete_through delete_all
take_due t now s =
    let (due, rest) =
      delete_through t (λ i. leb (get_or s.txq i unused_slot).retry_deadline now)
        (t.items s.by_deadline) s.by_deadline in
    (
      due,
      record s { by_deadline = rest; by_seq_num = delete_all t (seq_key s.txq) due s.by_seq_num },
    )

-- The slots whose deadline has passed are sent again.
unfoldable pub resend_due : (t : Rbtree) → ℕ → (ℕ → ℕ × ℕ) → SenderState t → SenderState t
unfolding take_due resend_all
resend_due t now clk s = let (due, taken) = take_due t now s in resend_all t clk due taken

-- Nothing has been heard of the other side for longer than the keepalives that may fail.
unfoldable pub too_quiet : (t : Rbtree) → ℕ → SenderState t → Bool
too_quiet t now s =
    let failures = s.num_failed_keep_alives_before_closing in
    ltb 0 failures && ltb (s.last_heard + s.keep_alive_interval * failures) now

-- `return`, out of `sendloop`.
abbrev pub halt : (t : Rbtree) → SenderState t → SenderState t
halt t s = record s { halted = true }

-- `regularIntervalWakeup`: the session is declared dead, or what is due is sent again.
unfoldable pub wakeup : (t : Rbtree) → ℕ → (ℕ → ℕ × ℕ) → SenderState t → SenderState t
unfolding too_quiet resend_due
wakeup t now clk s = if too_quiet t now s then halt t s else resend_due t now clk s

abbrev pub through : List TxqSlot → Option ℕ → ℕ → Bool
through txq none i = false
through txq (some n) i = leb (seq_at txq i) n

-- The time and the capacities of a packet that is heard are taken over, and what it acks leaves both
-- trees.
unfoldable pub forget_acked : (t : Rbtree) → Heard → SenderState t → SenderState t
unfolding delete_through delete_all
forget_acked t a s =
    let (acked, rest) =
      delete_through t (through s.txq a.ack_num) (t.items s.by_seq_num) s.by_seq_num in
    record s {
      bytes_cap = a.bytes_cap;
      msg_cap = a.msg_cap;
      last_heard = a.arrived_at;
      by_seq_num = rest;
      by_deadline = delete_all t (deadline_key s.txq) acked s.by_deadline;
    }

-- An ack is inside the window from `LastAckRec + 1` to `LastFrameSent`, as `InWindow` tests.
abbrev pub acks_sent : ℕ → ℕ → Option ℕ → Bool
acks_sent acks_rec frames_sent none = true
acks_sent acks_rec frames_sent (some n) = leb acks_rec n && ltb n frames_sent

-- `a := <-s.GotPack`; `none` is the panic where the trees differ in length. `UpdateRTT` and what the
-- client asked to be told of acks are not part of the state.
unfoldable pub got_pack : (t : Rbtree) → Heard → SenderState t → Option (SenderState t)
unfolding forget_acked
got_pack t a s =
    let f = forget_acked t a s in
    if not (length (t.items f.by_seq_num) == length (t.items f.by_deadline))
    then none
    else if a.is_data_ack && not (acks_sent f.acks_rec f.frames_sent a.ack_num)
    then some (record f { discard_count = f.discard_count + 1 })
    else some f

-- What wakes the loop of the sender, of its data path.
pub data SenderEvent : Type 0 where
  offered : (now dur : ℕ) (bytes : Bytes) → SenderEvent
  woken : (now : ℕ) (clk : ℕ → ℕ × ℕ) → SenderEvent
  heard : (a : Heard) → SenderEvent

-- The `select` of `sendloop`.
unfoldable pub select : (t : Rbtree) → SenderEvent → SenderState t → Option (SenderState t)
unfolding accept_send wakeup got_pack
select t (offered now dur bytes) s = some (accept_send t now dur bytes s)
select t (woken now clk) s = some (wakeup t now clk s)
select t (heard a) s = got_pack t a s

-- One turn of `sendloop`; once it has returned, nothing changes any more.
unfoldable pub handle : (t : Rbtree) → SenderEvent → SenderState t → Option (SenderState t)
unfolding select
handle t e s = if s.halted then some s else select t e s

-- `sendloop`
unfoldable pub send_loop : (t : Rbtree) → List SenderEvent → SenderState t → Option (SenderState t)
unfolding handle
send_loop t [] s = some s
send_loop t (e ∷ es) s = elim (handle t e s) [ none ↦ none | some d ↦ send_loop t es d ]
