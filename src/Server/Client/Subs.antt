-- ===== src/Server/Client/Subs.antt =====
-- server/client.go: `processSub`, `processUnsub`, `unsubscribe` and `closeConnection`.
use gnatsd.Prelude.{
  ℕ, ◌+◌, Bool, true, false, List, [], ◌∷◌, ◌++◌, Bytes, Option, none, some, ◌==◌, ltb, ◌&&◌, not,
  if◌then◌else◌, codes,
}
use gnatsd.Prelude.Int.{ℤ, pos, negsuc}
use gnatsd.Sublist.Store.{insert, remove, match, inc64, Error}
use gnatsd.Server.Args.{split_arg, sub_args, unsub_args}
use gnatsd.Server.Client.{
  Env, Sub, World, put, set_client, set_sub, send_err, send_ok, sub_at, delete_sub,
  broadcast_subscribe, broadcast_unsubscribe,
}

abbrev pub is_nil {ℓ} : {A : Type ℓ} → List A → Bool
is_nil [] = true
is_nil (x ∷ xs) = false

-- `c.cache.subs += 1`
abbrev pub count_sub : ℕ → World → World
count_sub c w = set_client c (record (w.clients c) { in_subs = inc64 (w.clients c).in_subs }) w

-- Whether the permissions of a client let it subscribe, and the state after the call of `Match`.
unfoldable pub may_subscribe : Env → ℕ → Bytes → World → World × Bool
unfolding match
may_subscribe env c subject w = elim (w.clients c).perms [
  | none ↦ (w, true)
  | some p ↦
      let (sub, r) = match env.first subject p.sub in
      (
        set_client c (record (w.clients c) { perms = some (record p { sub = sub }) }) w,
        not (is_nil r.psubs),
      )
]

abbrev pub verbose_ok : ℕ → World → World
verbose_ok c w = if (w.clients c).verbose then send_ok c w else w

-- The end of `processSub`, by the error of `Insert`: the client's map has the sid back out of it,
-- or the routes hear of it.
abbrev pub inserted : Env → ℕ → Sub → Option Error → World → World
inserted env c s (some err) w =
    send_err c (codes "Invalid Subject")
      (set_client c (record (w.clients c) { subs = delete_sub s.sid (w.clients c).subs }) w)
inserted env c s none w =
    let w' = verbose_ok c w in if (w.clients c).router then w' else broadcast_subscribe env s w'

-- The new subscription in `c.subs` and, where there is none with its sid, in the sublist.
unfoldable pub add_subscription : Env → ℕ → Sub → World → World
unfolding sub_at delete_sub insert broadcast_subscribe
add_subscription env c s w = elim (sub_at s.sid (w.clients c).subs) [
  | some i ↦ verbose_ok c w
  | none ↦
      let (sl, err) = insert s.it w.sl in
      inserted env c s err
        (record (set_client c
          (record (w.clients c) { subs = (s.sid, s.it.id) ∷ (w.clients c).subs }) w) {
            sl = sl;
            heap = put s.it.id s w.heap;
            fresh = w.fresh + 1;
          })
]

unfoldable pub subscribe : Env → ℕ → Bytes × Option Bytes × Bytes → World → World
unfolding may_subscribe add_subscription
subscribe env c (subject, queue, sid) w =
    let (w', allowed) = may_subscribe env c subject w in
    if not (w.clients c).connected
    then w
    else if allowed
    then add_subscription env c
        record {
          it = record { id = w.fresh; subject = subject; queue = queue };
          client = c;
          sid = sid;
          nm = 0;
          max = 0;
        }
        w'
    else send_err c (codes "Permissions Violation for Subscription to " ++ env.quote subject) w'

-- `processSub`; `false` is a parse error.
unfoldable pub process_sub : Env → ℕ → Bytes → World → World × Bool
unfolding split_arg sub_args subscribe
process_sub env c arg w = elim (sub_args (split_arg arg)) [
  | none ↦ (count_sub c w, false)
  | some s ↦ (subscribe env c s (count_sub c w), true)
]

-- `unsubscribe`, of a subscription of client `c`.
unfoldable pub unsubscribe : ℕ → ℕ → World → World
unfolding delete_sub remove
unsubscribe c i w =
    let s = w.heap i in
    if ltb 0 s.max && ltb s.nm s.max
    then w
    else record (set_client c (record (w.clients c) { subs = delete_sub s.sid (w.clients c).subs })
        w) { sl = (remove s.it w.sl).0 }

-- `sub.max = int64(max)` where it is positive.
abbrev pub new_max : ℤ → ℕ
new_max (pos n) = n
new_max (negsuc n) = 0

unfoldable pub limit : Env → ℕ → ℕ → ℕ → World → World
unfolding unsubscribe broadcast_unsubscribe
limit env c i max w =
    let w' = unsubscribe c i (set_sub i (record (w.heap i) { max = max }) w) in
    if (w.clients c).router then w' else broadcast_unsubscribe env i w'

-- `processUnsub`; `false` is a parse error.
unfoldable pub process_unsub : Env → ℕ → Bytes → World → World × Bool
unfolding split_arg unsub_args limit sub_at
process_unsub env c arg w = elim (unsub_args (split_arg arg)) [
  | none ↦ (w, false)
  | some (sid, max) ↦ (
    verbose_ok c (elim (sub_at sid (w.clients c).subs) [
      | none ↦ count_sub c w
      | some i ↦ limit env c i (new_max max) (count_sub c w)
    ]),
    true,
  )
]

unfoldable pub without : ℕ → List ℕ → List ℕ
without c [] = []
without c (r ∷ routes) = let rest = without c routes in if r == c then rest else r ∷ rest

-- `removeClient`
unfoldable pub remove_client : ℕ → World → World
unfolding without
remove_client c w =
    if (w.clients c).router
    then record w { routes = without c w.routes }
    else record w { listed = put c false w.listed }

-- The loop of `closeConnection` over the subscriptions.
unfoldable pub remove_subs : Env → Bool → List (Bytes × ℕ) → World → World
unfolding remove broadcast_unsubscribe
remove_subs env router [] w = w
remove_subs env router ((sid, i) ∷ subs) w =
    let w' = record w { sl = (remove (w.heap i).it w.sl).0 } in
    remove_subs env router subs (if router then w' else broadcast_unsubscribe env i w')

-- `closeConnection`
unfoldable pub close_connection : Env → ℕ → World → World
unfolding remove_client remove_subs
close_connection env c w =
    let cl = w.clients c in
    if cl.connected
    then remove_subs env cl.router cl.subs
        (remove_client c (set_client c (record cl { connected = false }) w))
    else w
