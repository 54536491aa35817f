-- ===== src/Server/Client/Publish.antt =====
-- server/client.go: `processMsg`.
use gnatsd.Prelude.{
  ℕ, ◌+◌, ◌-◌, ◌^◌, Bool, true, false, List, [], ◌∷◌, ◌++◌, map, Bytes, Option, none, some, ◌==◌,
  bytes_eq, ltb, ◌&&◌, not, if◌then◌else◌, codes, length, take, get_elem?,
}
use gnatsd.Prelude.Int.{ℤ, pos, negsuc}
use gnatsd.Sublist.Subject.{is_valid_literal_subject}
use gnatsd.Sublist.Trie.{Subs, Groups, SublistResult}
use gnatsd.Sublist.Store.{Cache, match, inc64, cache_lookup}
use gnatsd.Server.Number.{parse_int64}
use gnatsd.Server.Args.{PubArg}
use gnatsd.Server.Client.{Env, Client, World, set_client, send_err, sub_at}
use gnatsd.Server.Client.Subs.{is_nil, verbose_ok}
use gnatsd.Server.Client.Deliver.{msg_header, deliver_msg, add_size}

abbrev pub max_result_cache_size : ℕ
max_result_cache_size = 512

abbrev pub max_perm_cache_size : ℕ
max_perm_cache_size = 32

abbrev pub prune_size : ℕ
prune_size = 16

-- `_SYS.` and more, or exactly this: reserved for internals.
unfoldable pub is_system : Bytes → Bool
is_system subject = bytes_eq (take 5 subject) (codes "_SYS.")

-- `pubPermissionViolation`
unfoldable pub pub_permission_violation : Env → ℕ → Bytes → World → World
pub_permission_violation env c subject w =
    send_err c (codes "Permissions Violation for Publish to " ++ env.quote subject) w

-- `c.perms.pcache[subject]`
unfoldable pub pcache_lookup : Bytes → List (Bytes × Bool) → Option Bool
pcache_lookup subject [] = none
pcache_lookup subject ((k, a) ∷ pcache) =
    let rest = pcache_lookup subject pcache in if bytes_eq k subject then some a else rest

unfoldable pub delete_key : Bytes → Cache → Cache
delete_key k [] = []
delete_key k ((j, r) ∷ cache) =
    let rest = delete_key k cache in if bytes_eq j k then rest else (j, r) ∷ rest

unfoldable pub delete_keys : List Bytes → Cache → Cache
unfolding delete_key
delete_keys [] cache = cache
delete_keys (k ∷ ks) cache = delete_keys ks (delete_key k cache)

-- The keys that a pruning loop comes to: it ends behind the one past `pruneSize`.
abbrev pub pruned : Env → List Bytes → List Bytes
pruned env keys = take (prune_size + 1) (env.order keys)

-- The pruning for the permissions: it walks over their cache and deletes from the results.
unfoldable pub prune_perms : Env → List (Bytes × Bool) → Option Cache → Option Cache
unfolding delete_keys
prune_perms env pcache none = none
prune_perms env pcache (some results) =
    if ltb max_perm_cache_size (length pcache)
    then some (delete_keys (pruned env (map (λ e. e.0) pcache)) results)
    else some results

abbrev pub allow : Env → ℕ → Bytes → Bool → World → World
allow env c subject allowed w = if allowed then w else pub_permission_violation env c subject w

-- The test of the permissions, and the state behind it.
unfoldable pub may_publish : Env → ℕ → Bytes → World → World × Bool
unfolding pcache_lookup match prune_perms pub_permission_violation
may_publish env c subject w = elim (w.clients c).perms [
  | none ↦ (w, true)
  | some p ↦ elim (pcache_lookup subject p.pcache) [
    | some allowed ↦ (allow env c subject allowed w, allowed)
    | none ↦
        let (l, r) = match env.first subject p.pub_list in
        let allowed = not (is_nil r.psubs) in
        let pcache = (subject, allowed) ∷ p.pcache in
        (
          set_client c
              (record (w.clients c) {
                perms = some (record p { pub_list = l; pcache = pcache });
                results = prune_perms env pcache (w.clients c).results;
              })
              (allow env c subject allowed w),
          allowed,
        )
  ]
]

-- The results that are still good for the generation of the sublist.
abbrev pub fresh_results : ℕ → Client → Cache
fresh_results genid cl =
    if genid == cl.genid then elim cl.results [ none ↦ [] | some results ↦ results ] else []

unfoldable pub prune_results : Env → Cache → Cache
unfolding delete_keys
prune_results env results =
    if ltb max_result_cache_size (length results)
    then delete_keys (pruned env (map (λ e. e.0) results)) results
    else results

-- What `Match` says of the subject, by the client's cache of results.
unfoldable pub find_result : Env → ℕ → Bytes → World → World × SublistResult
unfolding match cache_lookup prune_results
find_result env c subject w =
    let cl = w.clients c in
    let results = fresh_results w.sl.genid cl in
    elim (cache_lookup subject results) [
      | some r ↦ (set_client c (record cl { results = some results; genid = w.sl.genid }) w, r)
      | none ↦
          let (sl, r) = match env.first subject w.sl in
          (
            set_client c
                (record cl {
                  results = some (prune_results env ((subject, r) ∷ results));
                  genid = w.sl.genid;
                })
                (record w { sl = sl }),
            r,
          )
    ]

-- A message to a subscription, with its header.
abbrev pub send_msg : Env → ℕ → PubArg → Bytes → ℕ → World → World
send_msg env c pa text i w = deliver_msg env c i (msg_header pa (w.heap i)) text w

unfoldable pub is_seen : Bytes → List Bytes → Bool
is_seen id [] = false
is_seen id (s ∷ seen) = let rest = is_seen id seen in if bytes_eq s id then true else rest

-- Whether a message goes to a subscription, by the client it belongs to and the routes that have
-- been served: to a route once, and never from a route.
unfoldable pub goes_to : Bool → Client → List Bytes → Bool
unfolding is_seen
goes_to from_route cl seen =
    if cl.router
    then not from_route
      && (cl.connected && (not (is_nil cl.remote_id) && not (is_seen cl.remote_id seen)))
    else true

-- The loop over the plain subscriptions.
unfoldable pub deliver_plain : Env → ℕ → PubArg → Bytes → Bool → List Bytes → Subs → World → World
unfolding goes_to msg_header deliver_msg
deliver_plain env c pa text from_route seen [] w = w
deliver_plain env c pa text from_route seen (s ∷ subs) w =
    let cl = w.clients (w.heap s.id).client in
    let goes = goes_to from_route cl seen in
    deliver_plain env c pa text from_route (if goes && cl.router then cl.remote_id ∷ seen else seen)
      subs (if goes then send_msg env c pa text s.id w else w)

-- The loop over the queue groups; `none` is the panic of `Intn` on an empty group.
unfoldable pub deliver_queues : Env → ℕ → PubArg → Bytes → ℕ → Groups → World → Option World
unfolding msg_header deliver_msg
deliver_queues env c pa text turn [] w = some w
deliver_queues env c pa text turn (g ∷ groups) w = elim (get_elem? g (env.intn turn (length g))) [
  | none ↦ none
  | some s ↦ deliver_queues env c pa text (turn + 1) groups (send_msg env c pa text s.id w)
]

abbrev pub to_uint64 : ℤ → ℕ
to_uint64 (pos n) = n
to_uint64 (negsuc n) = 2 ^ 64 - 1 - n

-- `routeSidQueueSubscriber`: the subscription, and whether the sid is that of a queue.
unfoldable pub route_sid_queue_subscriber : Env → Bytes → World → Option ℕ × Bool
unfolding parse_int64 sub_at
route_sid_queue_subscriber env rsid w =
    if bytes_eq (take 5 rsid) (codes "QRSID")
    then elim (env.find_submatch rsid) [
      | none ↦ (none, false)
      | some (digits, sid) ↦
          let cid = to_uint64 (parse_int64 digits) in
          ((if w.listed cid then sub_at sid (w.clients cid).subs else none), true)
    ]
    else (none, false)

abbrev pub sid_of : PubArg → Bytes
sid_of pa = elim pa.sid [ none ↦ [] | some sid ↦ sid ]

-- What `processMsg` does with a result.
unfoldable pub fan_out : Env → ℕ → PubArg → Bytes → SublistResult → World → Option World
unfolding route_sid_queue_subscriber deliver_plain deliver_queues
fan_out env c pa text r w =
    if (w.clients c).router
    then (let (sub, queue) = route_sid_queue_subscriber env (sid_of pa) w in
        if queue
        then some (elim sub [ none ↦ w | some i ↦ send_msg env c pa text i w ])
        else some (deliver_plain env c pa text true [] r.psubs w))
    else deliver_queues env c pa text 0 r.qsubs (deliver_plain env c pa text false [] r.psubs w)

unfoldable pub route_msg : Env → ℕ → PubArg → Bytes → World → Option World
unfolding find_result fan_out is_valid_literal_subject
route_msg env c pa text w =
    let (w', r) = find_result env c pa.subject w in
    if is_nil r.psubs && is_nil r.qsubs
    then some w'
    else if (w.clients c).pedantic && not (is_valid_literal_subject pa.subject)
    then some w'
    else fan_out env c pa text r w'

abbrev pub count_in : ℕ → Bytes → World → World
count_in c text w =
    let cl = w.clients c in
    set_client c (record cl { in_msgs = inc64 cl.in_msgs; in_bytes = add_size cl.in_bytes text }) w

-- `processMsg`; `none` is a panic, and an empty subject is one.
unfoldable pub process_msg : Env → ℕ → PubArg → Bytes → World → Option World
unfolding is_system pub_permission_violation may_publish route_msg
process_msg env c pa text w0 =
    let w = count_in c text w0 in
    let (w', allowed) = may_publish env c pa.subject w in
    if is_nil pa.subject
    then none
    else if is_system pa.subject
    then some (pub_permission_violation env c pa.subject w)
    else if allowed
    then route_msg env c pa text (verbose_ok c w')
    else some w'
