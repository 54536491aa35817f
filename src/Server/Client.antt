-- ===== src/Server/Client.antt =====
-- server/client.go: the clients and routes of a server, with their subscriptions, as one state.
pub mod Subs
pub mod Deliver
pub mod Publish
pub mod Limits
pub mod Exact
pub mod Reach
pub mod Publication
pub mod Keeps
pub mod Registration
pub mod Withdrawal
pub mod Header
mod Tests
use gnatsd.Prelude.{
  ℕ, ◌+◌, ◌-◌, ◌*◌, ◌%◌, ◌^◌, Bool, true, false, List, [], ◌∷◌, ◌++◌, map, Bytes, Option, none,
  some, bytes_eq, ◌==◌, ltb, ◌&&◌, not, if◌then◌else◌, codes, length,
}
use gnatsd.Sublist.Trie.{Subscription, SublistResult}
use gnatsd.Sublist.Store.{Sublist, Cache}

-- The libraries: decimal numbers and quoted strings (`%d` and `%q`), the groups of `qrsidRe` in a
-- route's sid, the entry that an iteration of a map gives first,
-- the order in which it gives the keys of a map, and the draws of `prand.Intn`.
pub record Env : Type 0 where
  pub decimal : ℕ → Bytes
  pub quote : Bytes → Bytes
  pub find_submatch : Bytes → Option (Bytes × Bytes)
  pub first : Cache → ℕ
  pub order : List Bytes → List Bytes
  pub intn : ℕ → ℕ → ℕ

-- `subscription`: what the sublist reads of it, and the rest. `client` is the client's cid.
pub record Sub : Type 0 where
  pub it : Subscription
  pub client : ℕ
  pub sid : Bytes
  pub nm : ℕ
  pub max : ℕ

-- `permissions`
pub record Permissions : Type 0 where
  pub sub : Sublist
  pub pub_list : Sublist
  pub pcache : List (Bytes × Bool)

-- What a write to a connection comes to: it is taken, it times out, or it fails.
pub data Write : Type 0 where
  taken timeout failed : Write

-- `client`, with its `readCache`. `connected` says that `nc` is not nil; `remote_id` is empty without a
-- route; no `results` is the nil map; `pcd` is a set, by its insertions.
pub record Client : Type 0 where
  pub router : Bool
  pub connected : Bool
  pub verbose : Bool
  pub pedantic : Bool
  pub subs : List (Bytes × ℕ)
  pub perms : Option Permissions
  pub remote_id : Bytes
  pub genid : ℕ
  pub results : Option Cache
  pub in_msgs : ℕ
  pub in_bytes : ℕ
  pub in_subs : ℕ
  pub out_msgs : ℕ
  pub out_bytes : ℕ
  pub pcd : List ℕ
  pub write : Write

-- What is written: a line of the protocol to a client or route, or a message for a subscription.
pub data Out : Type 0 where
  proto : ℕ → Bytes → Out
  msg : ℕ → Bytes → Bytes → Out

-- The server with its clients by cid, the subscriptions by their pointers, and what was written.
-- `listed` says which cids are in `s.clients`.
pub record World : Type 0 where
  pub sl : Sublist
  pub heap : ℕ → Sub
  pub fresh : ℕ
  pub clients : ℕ → Client
  pub listed : ℕ → Bool
  pub routes : List ℕ
  pub out_msgs : ℕ
  pub out_bytes : ℕ
  pub slow_consumers : ℕ
  pub out : List Out

abbrev pub cr_lf : Bytes
cr_lf = 13 ∷ 10 ∷ []

abbrev pub put {ℓ} : {A : Type ℓ} → ℕ → A → (ℕ → A) → ℕ → A
put i a f = λ j. if j == i then a else f j

abbrev pub set_client : ℕ → Client → World → World
set_client c cl w = record w { clients = put c cl w.clients }

abbrev pub set_sub : ℕ → Sub → World → World
set_sub i s w = record w { heap = put i s w.heap }

abbrev pub is_taken : Write → Bool
is_taken taken = true
is_taken _ = false

-- `sendProto`, of which the callers here ignore the error.
abbrev pub send_proto : ℕ → Bytes → World → World
send_proto c text w =
    if (w.clients c).connected && is_taken (w.clients c).write
    then record w { out = w.out ++ proto c text ∷ [] }
    else w

abbrev pub send_err : ℕ → Bytes → World → World
send_err c err w = send_proto c (codes "-ERR '" ++ err ++ codes "'" ++ cr_lf) w

abbrev pub mark_flush : ℕ → ℕ → World → World
mark_flush c d w = set_client c (record (w.clients c) { pcd = d ∷ (w.clients c).pcd }) w

abbrev pub send_ok : ℕ → World → World
send_ok c w = mark_flush c c (send_proto c (codes "+OK" ++ cr_lf) w)

-- `c.subs[sid]`
unfoldable pub sub_at : Bytes → List (Bytes × ℕ) → Option ℕ
sub_at sid [] = none
sub_at sid ((k, i) ∷ subs) = let rest = sub_at sid subs in if bytes_eq k sid then some i else rest

-- `delete(c.subs, sid)`
unfoldable pub delete_sub : Bytes → List (Bytes × ℕ) → List (Bytes × ℕ)
delete_sub sid [] = []
delete_sub sid ((k, i) ∷ subs) =
    let rest = delete_sub sid subs in if bytes_eq k sid then rest else (k, i) ∷ rest

-- `broadcastInterestToRoutes`
unfoldable pub broadcast_interest : Bytes → List ℕ → World → World
broadcast_interest text [] w = w
broadcast_interest text (r ∷ routes) w = broadcast_interest text routes (send_proto r text w)

abbrev pub queue_of : Sub → Bytes
queue_of s = elim s.it.queue [ none ↦ [] | some q ↦ q ]

-- `routeSid`
abbrev pub route_sid : Env → Sub → Bytes
route_sid env s =
    (if ltb 0 (length (queue_of s)) then codes "Q" else [])
    ++ codes "RSID:"
    ++ env.decimal s.client
    ++ codes ":"
    ++ s.sid

-- `broadcastSubscribe`
unfoldable pub broadcast_subscribe : Env → Sub → World → World
unfolding broadcast_interest
broadcast_subscribe env s w =
    broadcast_interest
      (codes "SUB "
        ++ s.it.subject
        ++ codes " "
        ++ queue_of s
        ++ codes " "
        ++ route_sid env s
        ++ cr_lf)
      w.routes w

-- `broadcastUnSubscribe`
unfoldable pub broadcast_unsubscribe : Env → ℕ → World → World
unfolding broadcast_interest
broadcast_unsubscribe env i w =
    let s = w.heap i in
    broadcast_interest
      (codes "UNSUB "
        ++ route_sid env s
        ++ (if ltb 0 s.max && ltb s.nm s.max then codes " " ++ env.decimal s.max else [])
        ++ cr_lf)
      w.routes w
