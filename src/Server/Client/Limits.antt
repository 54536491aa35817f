-- ===== src/Server/Client/Limits.antt =====
-- How many messages reach a subscription: what the operations of server/client.go write for it.
pub mod Bounded
use gnatsd.Prelude.{
  ℕ, ◌+◌, ◌≤◌, ◌<◌, Bool, true, false, List, [], ◌∷◌, ◌++◌, Bytes, Option, none, some, ◌==◌, ==_iff,
  ltb, ◌&&◌, if◌then◌else◌, ◌≡◌, refl, sym, ◌∙◌, ap, arith, inl, inr, Bool-cases, Option-cases,
  get_elem?, length,
}
use gnatsd.Sublist.Trie.{Subscription, Subs, Groups, SublistResult}
use gnatsd.Sublist.Store.{remove, inc64}
use gnatsd.Server.Args.{PubArg}
use gnatsd.Server.Client.{
  Env, Sub, Client, Write, taken, timeout, failed, World, Out, proto, msg, set_sub, set_client,
  send_proto, broadcast_interest, broadcast_unsubscribe,
}
use gnatsd.Server.Client.Subs.{unsubscribe, remove_client, remove_subs, close_connection}
use gnatsd.Server.Client.Deliver.{msg_header, write_msg, drop_sub, deliver_msg, count_out}
use gnatsd.Server.Client.Publish.{
  may_publish, find_result, deliver_plain, deliver_queues, goes_to, fan_out, route_msg, process_msg,
  route_sid_queue_subscriber, pub_permission_violation,
}

-- The messages written for subscription `i`.
unfoldable pub sent : ℕ → List Out → ℕ
sent i [] = 0
sent i (proto c text ∷ out) = sent i out
sent i (msg j header text ∷ out) = (if i == j then 1 else 0) + sent i out

pub sent-append : (i : ℕ) (xs ys : List Out) → sent i (xs ++ ys) ≡ sent i xs + sent i ys
unfolding sent
sent-append i [] ys = omega arith
sent-append i (proto c text ∷ xs) ys = sent-append i xs ys
sent-append i (msg j header text ∷ xs) ys = omega (arith, sent-append i xs ys)

-- Nothing for a subscription is written, and none changes.
pub record Quiet (w w' : World) : Type 0 where
  pub heap : w'.heap ≡ w.heap
  pub same : (i : ℕ) → sent i w'.out ≡ sent i w.out

pub Quiet-refl : (w : World) → Quiet w w
Quiet-refl w = record { heap = refl; same = λ i. refl }

pub Quiet-trans : {u v w : World} → Quiet u v → Quiet v w → Quiet u w
Quiet-trans p q = record { heap = q.heap ∙ p.heap; same = λ i. q.same i ∙ p.same i }

pub send_proto-Quiet : (c : ℕ) (text : Bytes) (w : World) → Quiet w (send_proto c text w)
unfolding sent
send_proto-Quiet c text w = record {
  heap = ground arith;
  same = λ i. ground (arith, sent-append i w.out (proto c text ∷ []));
}

broadcast_interest-Quiet :
    (text : Bytes) (routes : List ℕ) (w : World) → Quiet w (broadcast_interest text routes w)
unfolding broadcast_interest
broadcast_interest-Quiet text [] w = Quiet-refl w
broadcast_interest-Quiet text (r ∷ routes) w =
    Quiet-trans (send_proto-Quiet r text w)
      (broadcast_interest-Quiet text routes (send_proto r text w))

pub broadcast_unsubscribe-Quiet :
    (env : Env) (i : ℕ) (w : World) → Quiet w (broadcast_unsubscribe env i w)
unfolding broadcast_unsubscribe
broadcast_unsubscribe-Quiet env i w = broadcast_interest-Quiet _ w.routes w

pub unsubscribe-Quiet : (c i : ℕ) (w : World) → Quiet w (unsubscribe c i w)
unfolding unsubscribe
unsubscribe-Quiet c i w = record { heap = ground arith; same = λ j. ground arith }

Quiet-if : {w u v : World} (b : Bool) → Quiet w u → Quiet w v → Quiet w (if b then u else v)
Quiet-if true p q = p
Quiet-if false p q = q

pub drop_sub-Quiet : (env : Env) (d i : ℕ) (w : World) → Quiet w (drop_sub env d i w)
unfolding drop_sub
drop_sub-Quiet env d i w =
    Quiet-if (w.clients d).router (unsubscribe-Quiet d i w) (
      Quiet-trans (unsubscribe-Quiet d i w) (broadcast_unsubscribe-Quiet env i (unsubscribe d i w)))

without_one-Quiet : (i : ℕ) (w : World) → Quiet w (record w { sl = (remove (w.heap i).it w.sl).0 })
without_one-Quiet i w = record { heap = refl; same = λ j. refl }

remove_subs-Quiet :
    (env : Env) (router : Bool) (subs : List (Bytes × ℕ)) (w : World)
    → Quiet w (remove_subs env router subs w)
unfolding remove_subs
remove_subs-Quiet env router [] w = Quiet-refl w
remove_subs-Quiet env router ((sid, i) ∷ subs) w =
    let w' = record w { sl = (remove (w.heap i).it w.sl).0 } in
    Quiet-trans
      (Quiet-if router (without_one-Quiet i w)
        (Quiet-trans (without_one-Quiet i w) (broadcast_unsubscribe-Quiet env i w')))
      (remove_subs-Quiet env router subs (if router then w' else broadcast_unsubscribe env i w'))

remove_client-Quiet : (c : ℕ) (w : World) → Quiet w (remove_client c w)
unfolding remove_client
remove_client-Quiet c w = record { heap = ground arith; same = λ i. ground arith }

pub close_connection-Quiet : (env : Env) (c : ℕ) (w : World) → Quiet w (close_connection env c w)
unfolding close_connection
close_connection-Quiet env c w =
    let cl = w.clients c in
    let w' = set_client c (record cl { connected = false }) w in
    Quiet-if cl.connected
      (Quiet-trans (Quiet-trans record { heap = refl; same = λ i. refl } (remove_client-Quiet c w'))
        (remove_subs-Quiet env cl.router cl.subs (remove_client c w')))
      (Quiet-refl w)

pub write_msg_heap :
    (env : Env) (c d i : ℕ) (header text : Bytes) (w : World)
    → (write_msg env c d i header text w).heap ≡ w.heap
unfolding write_msg
write_msg_heap env c d i header text w =
    let counted = count_out d text w in
    let closed =
      close_connection-Quiet env d
        (record counted { slow_consumers = inc64 counted.slow_consumers }) in
    ground (arith, closed.heap)

pub sent-write_msg :
    (env : Env) (c d i : ℕ) (header text : Bytes) (w : World) (j : ℕ)
    → sent j (write_msg env c d i header text w).out ≤ sent j w.out + (if j == i then 1 else 0)
unfolding write_msg sent
sent-write_msg env c d i header text w j =
    let counted = count_out d text w in
    let closed =
      close_connection-Quiet env d
        (record counted { slow_consumers = inc64 counted.slow_consumers }) in
    ground (arith, closed.same j, sent-append j w.out (msg i header text ∷ []))
