-- ===== src/Server/Client/Limits/Bounded.antt =====
-- The maximum of a subscription, over `processMsg` of server/client.go.
use gnatsd.Prelude.{
  ℕ, ◌+◌, ◌≤◌, ◌<◌, Bool, true, false, List, [], ◌∷◌, ◌++◌, Bytes, Option, none, some, ◌==◌, ltb,
  ◌&&◌, if◌then◌else◌, ◌≡◌, refl, arith, inl, inr, Option-cases, get_elem?, length, not, codes,
}
use gnatsd.Sublist.Trie.{Subscription, Subs, Groups, SublistResult}
use gnatsd.Sublist.Store.{match, cache_lookup}
use gnatsd.Server.Args.{PubArg}
use gnatsd.Server.Client.{Env, Sub, World, set_sub, send_ok, cr_lf}
use gnatsd.Server.Client.Deliver.{msg_header, write_msg, deliver_msg}
use gnatsd.Server.Client.Publish.{
  may_publish, find_result, deliver_plain, deliver_queues, goes_to, fan_out, route_msg, process_msg,
  route_sid_queue_subscriber, pub_permission_violation, send_msg, allow, count_in, pcache_lookup,
  fresh_results, sid_of, is_system,
}
use gnatsd.Server.Client.Subs.{is_nil, verbose_ok}
use gnatsd.Server.Client.Limits.{
  sent, Quiet, Quiet-refl, Quiet-trans, Quiet-if, send_proto-Quiet, drop_sub-Quiet, write_msg_heap,
  sent-write_msg,
}

-- A subscription has been sent no more than it has counted, and no more than its maximum, if any.
abbrev pub Within : Sub → ℕ → Type 0
Within s n = (n ≤ s.nm) × (0 < s.max → n ≤ s.max)

abbrev pub Bounded : World → Type 0
Bounded w = (i : ℕ) → Within (w.heap i) (sent i w.out)

Quiet-Bounded : (w w' : World) → Quiet w w' → Bounded w → Bounded w'
Quiet-Bounded w w' q h i = rw (q.heap, q.same i) (h i)

-- The number of a subscription's messages, where one may be written for `i` that `nm` counts.
deliver_msg_heap :
    (env : Env) (c i : ℕ) (header text : Bytes) (w : World)
    → (deliver_msg env c i header text w).heap
      ≡ (set_sub i (record (w.heap i) { nm = (w.heap i).nm + 1 }) w).heap
unfolding deliver_msg
deliver_msg_heap env c i header text w =
    let s = w.heap i in
    let w' = set_sub i (record s { nm = s.nm + 1 }) w in
    let v = write_msg env c s.client i header text w' in
    ground (
      arith,
      write_msg_heap env c s.client i header text w',
      (drop_sub-Quiet env s.client i v).heap,
      (drop_sub-Quiet env s.client i w').heap,
    )

sent-deliver_msg :
    (env : Env) (c i : ℕ) (header text : Bytes) (w : World) (j : ℕ)
    → let s = w.heap i in
      sent j (deliver_msg env c i header text w).out
      ≤ sent j w.out + (if j == i then if ltb 0 s.max && ltb s.max (s.nm + 1) then 0 else 1 else 0)
unfolding deliver_msg
sent-deliver_msg env c i header text w j =
    let s = w.heap i in
    let w' = set_sub i (record s { nm = s.nm + 1 }) w in
    let v = write_msg env c s.client i header text w' in
    ground (
      arith,
      sent-write_msg env c s.client i header text w' j,
      (drop_sub-Quiet env s.client i v).same j,
      (drop_sub-Quiet env s.client i w').same j,
    )

deliver_msg-Bounded :
    (env : Env) (c i : ℕ) (header text : Bytes) (w : World)
    → Bounded w
    → Bounded (deliver_msg env c i header text w)
deliver_msg-Bounded env c i header text w h j =
    rw (deliver_msg_heap env c i header text w)
      (ground (arith, sent-deliver_msg env c i header text w j, h j, h i))

pub send_msg-Bounded :
    (env : Env) (c : ℕ) (pa : PubArg) (text : Bytes) (i : ℕ) (w : World)
    → Bounded w
    → Bounded (send_msg env c pa text i w)
send_msg-Bounded env c pa text i w h =
    deliver_msg-Bounded env c i (msg_header pa (w.heap i)) text w h

Bounded-if : (u v : World) (b : Bool) → Bounded u → Bounded v → Bounded (if b then u else v)
Bounded-if u v true p q = p
Bounded-if u v false p q = q

deliver_plain-Bounded :
    (env : Env) (c : ℕ) (pa : PubArg) (text : Bytes) (from_route : Bool) (seen : List Bytes)
    (subs : Subs) (w : World)
    → Bounded w
    → Bounded (deliver_plain env c pa text from_route seen subs w)
unfolding deliver_plain
deliver_plain-Bounded env c pa text from_route seen [] w h = h
deliver_plain-Bounded env c pa text from_route seen (s ∷ subs) w h =
    let cl = w.clients (w.heap s.id).client in
    let goes = goes_to from_route cl seen in
    deliver_plain-Bounded env c pa text from_route
      (if goes && cl.router then cl.remote_id ∷ seen else seen) subs
      (if goes then send_msg env c pa text s.id w else w)
      (Bounded-if (send_msg env c pa text s.id w) w goes (send_msg-Bounded env c pa text s.id w h)
        h)

-- Where it does not panic, the limits hold behind it.
abbrev ThenBounded : Option World → Type 0
ThenBounded none = Unit
ThenBounded (some w) = Bounded w

ThenBounded-if :
    (u v : Option World) (b : Bool)
    → ThenBounded u
    → ThenBounded v
    → ThenBounded (if b then u else v)
ThenBounded-if u v true p q = p
ThenBounded-if u v false p q = q

ThenBounded-elim :
    (o : Option Subscription) (f : Subscription → Option World)
    → ((s : Subscription) → ThenBounded (f s))
    → ThenBounded (elim o [ none ↦ none | some s ↦ f s ])
ThenBounded-elim none f h = tt
ThenBounded-elim (some s) f h = h s

deliver_queues-Bounded :
    (env : Env) (c : ℕ) (pa : PubArg) (text : Bytes) (turn : ℕ) (groups : Groups) (w : World)
    → Bounded w
    → ThenBounded (deliver_queues env c pa text turn groups w)
unfolding deliver_queues
deliver_queues-Bounded env c pa text turn [] w h = h
deliver_queues-Bounded env c pa text turn (g ∷ groups) w h =
    ThenBounded-elim (get_elem? g (env.intn turn (length g))) _ (λ s.
      deliver_queues-Bounded env c pa text (turn + 1) groups (send_msg env c pa text s.id w)
        (send_msg-Bounded env c pa text s.id w h))

allow-Quiet :
    (env : Env) (c : ℕ) (subject : Bytes) (allowed : Bool) (w : World)
    → Quiet w (allow env c subject allowed w)
unfolding pub_permission_violation
allow-Quiet env c subject true w = Quiet-refl w
allow-Quiet env c subject false w = send_proto-Quiet c _ w

may_publish-Quiet :
    (env : Env) (c : ℕ) (subject : Bytes) (w : World) → Quiet w (may_publish env c subject w).0
unfolding may_publish
may_publish-Quiet env c subject w = elim (Option-cases (w.clients c).perms) [
  | inl e ↦ rw (e, may_publish) (Quiet-refl w)
  | inr (p, e) ↦
      rw (e, may_publish)
        (elim (Option-cases (pcache_lookup subject p.pcache)) [
          | inl f ↦
              let q =
                allow-Quiet env c subject
                  (not (is_nil (match env.first subject p.pub_list).1.psubs)) w in
              rw f (record { heap = q.heap; same = q.same })
          | inr (a, f) ↦ rw f (allow-Quiet env c subject a w)
        ])
]

find_result-Quiet :
    (env : Env) (c : ℕ) (subject : Bytes) (w : World) → Quiet w (find_result env c subject w).0
unfolding find_result
find_result-Quiet env c subject w =
    elim (Option-cases (cache_lookup subject (fresh_results w.sl.genid (w.clients c)))) [
      | inl e ↦ rw (e, find_result) record { heap = refl; same = λ i. refl }
      | inr (r, e) ↦ rw (e, find_result) record { heap = refl; same = λ i. refl }
    ]

send_ok-Quiet : (c : ℕ) (w : World) → Quiet w (send_ok c w)
send_ok-Quiet c w =
    let q = send_proto-Quiet c (codes "+OK" ++ cr_lf) w in record { heap = q.heap; same = q.same }

verbose_ok-Quiet : (c : ℕ) (w : World) → Quiet w (verbose_ok c w)
verbose_ok-Quiet c w = Quiet-if (w.clients c).verbose (send_ok-Quiet c w) (Quiet-refl w)

fan_out-Bounded :
    (env : Env) (c : ℕ) (pa : PubArg) (text : Bytes) (r : SublistResult) (w : World)
    → Bounded w
    → ThenBounded (fan_out env c pa text r w)
unfolding fan_out
fan_out-Bounded env c pa text r w h =
    let (sub, queue) = route_sid_queue_subscriber env (sid_of pa) w in
    ThenBounded-if
      (if queue
        then some (elim sub [ none ↦ w | some i ↦ send_msg env c pa text i w ])
        else some (deliver_plain env c pa text true [] r.psubs w))
      (deliver_queues env c pa text 0 r.qsubs (deliver_plain env c pa text false [] r.psubs w))
      (w.clients c).router
      (ThenBounded-if (some (elim sub [ none ↦ w | some i ↦ send_msg env c pa text i w ]))
        (some (deliver_plain env c pa text true [] r.psubs w)) queue
        (elim (Option-cases sub) [
          | inl e ↦ rw e h
          | inr (i, e) ↦ rw e (send_msg-Bounded env c pa text i w h)
        ])
        (deliver_plain-Bounded env c pa text true [] r.psubs w h))
      (deliver_queues-Bounded env c pa text 0 r.qsubs
        (deliver_plain env c pa text false [] r.psubs w)
        (deliver_plain-Bounded env c pa text false [] r.psubs w h))

route_msg-Bounded :
    (env : Env) (c : ℕ) (pa : PubArg) (text : Bytes) (w : World)
    → Bounded w
    → ThenBounded (route_msg env c pa text w)
unfolding route_msg
route_msg-Bounded env c pa text w h =
    let (w', r) = find_result env c pa.subject w in
    let h' = Quiet-Bounded w w' (find_result-Quiet env c pa.subject w) h in
    ThenBounded-if (some w') _ (is_nil r.psubs && is_nil r.qsubs) h' (
      ThenBounded-if (some w') (fan_out env c pa text r w') _ h'
        (fan_out-Bounded env c pa text r w' h'))

process_msg-ThenBounded :
    (env : Env) (c : ℕ) (pa : PubArg) (text : Bytes) (w : World)
    → Bounded w
    → ThenBounded (process_msg env c pa text w)
unfolding process_msg pub_permission_violation
process_msg-ThenBounded env c pa text w h =
    let v = count_in c text w in
    let (w', allowed) = may_publish env c pa.subject v in
    let q = may_publish-Quiet env c pa.subject v in
    ThenBounded-if none _ (is_nil pa.subject) tt (
      ThenBounded-if (some (pub_permission_violation env c pa.subject v)) _ (is_system pa.subject)
        (Quiet-Bounded v _ (send_proto-Quiet c _ v) h)
        (ThenBounded-if (route_msg env c pa text (verbose_ok c w')) (some w') allowed
          (route_msg-Bounded env c pa text (verbose_ok c w')
            (Quiet-Bounded v _ (Quiet-trans q (verbose_ok-Quiet c w')) h))
          (Quiet-Bounded v _ q h)))

-- Where no subscription has been sent more messages than it has counted, nor more than its maximum,
-- this holds behind `processMsg` of any message, from a client or a route, as well, where it returns.
pub process_msg-Bounded :
    (env : Env) (c : ℕ) (pa : PubArg) (text : Bytes) (w : World) {w' : World}
    → Bounded w
    → process_msg env c pa text w ≡ some w'
    → Bounded w'
process_msg-Bounded env c pa text w h e = rw e at (process_msg-ThenBounded env c pa text w h)
