-- ===== src/Server/Client/Deliver.antt =====
-- server/client.go: `msgHeader` and `deliverMsg`.
use gnatsd.Prelude.{
  ℕ, ◌+◌, ◌-◌, ◌%◌, ◌^◌, [], ◌∷◌, ◌++◌, Bytes, none, some, ◌==◌, ltb, ◌&&◌, not, if◌then◌else◌,
  codes, length,
}
use gnatsd.Sublist.Store.{inc64}
use gnatsd.Server.Args.{PubArg}
use gnatsd.Server.Client.{
  Env, Sub, taken, timeout, failed, World, msg, cr_lf, set_client, set_sub, mark_flush,
  broadcast_unsubscribe,
}
use gnatsd.Server.Client.Subs.{unsubscribe, close_connection}

-- `msgHeader`, with the `MSG` and the subject that `processMsg` has put before.
unfoldable pub msg_header : PubArg → Sub → Bytes
msg_header pa s =
    codes "MSG "
    ++ pa.subject
    ++ codes " "
    ++ s.sid
    ++ codes " "
    ++ elim pa.reply [ none ↦ [] | some r ↦ r ++ codes " " ]
    ++ pa.szb
    ++ cr_lf

-- The message includes the CRLF, which does not count.
abbrev pub add_size : ℕ → Bytes → ℕ
add_size n text = (n + length text + (2 ^ 64 - 2)) % 2 ^ 64

abbrev pub count_out : ℕ → Bytes → World → World
count_out d text w =
    let cl = w.clients d in
    record (set_client d
      (record cl { out_msgs = inc64 cl.out_msgs; out_bytes = add_size cl.out_bytes text }) w) {
        out_msgs = inc64 w.out_msgs;
        out_bytes = add_size w.out_bytes text;
      }

-- The part of `deliverMsg` that writes, for a message of client `c` to subscription `i` of `d`.
unfoldable pub write_msg : Env → ℕ → ℕ → ℕ → Bytes → Bytes → World → World
unfolding close_connection
write_msg env c d i header text w =
    let counted = count_out d text w in
    if not (w.clients d).connected then w else elim (w.clients d).write [
      | taken ↦ mark_flush c d (record counted { out = counted.out ++ msg i header text ∷ [] })
      | timeout ↦
          close_connection env d (record counted { slow_consumers = inc64 counted.slow_consumers })
      | failed ↦ counted
    ]

-- `client.unsubscribe(sub)`, and the routes hear of it.
unfoldable pub drop_sub : Env → ℕ → ℕ → World → World
unfolding unsubscribe broadcast_unsubscribe
drop_sub env d i w =
    let w' = unsubscribe d i w in
    if (w.clients d).router then w' else broadcast_unsubscribe env i w'

-- `deliverMsg`; the deferred calls come last.
unfoldable pub deliver_msg : Env → ℕ → ℕ → Bytes → Bytes → World → World
unfolding write_msg drop_sub
deliver_msg env c i header text w =
    let s = w.heap i in
    let nm = s.nm + 1 in
    let w' = set_sub i (record s { nm = nm }) w in
    if ltb 0 s.max && nm == s.max
    then drop_sub env s.client i (write_msg env c s.client i header text w')
    else if ltb 0 s.max && ltb s.max nm
    then drop_sub env s.client i w'
    else write_msg env c s.client i header text w'
