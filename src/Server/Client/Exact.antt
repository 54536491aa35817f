-- ===== src/Server/Client/Exact.antt =====
-- Which subscriptions a message reaches in server/client.go, where all connections take what is
-- written, there are no routes, and no subscription has a maximum.
use gnatsd.Prelude.{
  ℕ, ◌+◌, ◌≤◌, ◌<◌, Bool, true, false, List, [], ◌∷◌, ◌++◌, Bytes, Option, some, ◌==◌, ltb, ◌&&◌,
  if◌then◌else◌, ◌≡◌, refl, sym, ◌∙◌, arith, get_elem?, zero, suc, length, subst, ap₂,
}
use gnatsd.Sublist.Trie.{Subscription, Subs, Groups}
use gnatsd.Sublist.Occurs.{occurs, occurs-append}
use gnatsd.Server.Args.{PubArg}
use gnatsd.Server.Client.{Env, Client, World, taken, msg, set_sub}
use gnatsd.Server.Client.Deliver.{msg_header, write_msg, deliver_msg}
use gnatsd.Server.Client.Publish.{deliver_plain, deliver_queues, goes_to, send_msg}
use gnatsd.Server.Client.Limits.{sent, sent-append}

-- All clients are connected and take what is written; no subscription has a maximum.
pub record Steady (w : World) : Type 0 where
  pub client : (d : ℕ) → (w.clients d).router ≡ false
  pub connected : (d : ℕ) → (w.clients d).connected ≡ true
  pub takes : (d : ℕ) → (w.clients d).write ≡ taken
  pub no_max : (i : ℕ) → (w.heap i).max ≡ 0

write_msg_taken :
    (env : Env) (c d i : ℕ) (header text : Bytes) (w : World)
    → Steady w
    → Steady (write_msg env c d i header text w)
      × ((j : ℕ)
          → sent j (write_msg env c d i header text w).out
            ≡ sent j w.out + (if j == i then 1 else 0))
unfolding write_msg sent
write_msg_taken env c d i header text w h =
    rw (h.connected d, write_msg)
      (rw (h.takes d, write_msg)
        (
          record {
            client = λ e. ground (arith, h.client e, h.client d, h.client c);
            connected = λ e. ground (arith, h.connected e, h.connected d, h.connected c);
            takes = λ e. ground (arith, h.takes e, h.takes d, h.takes c);
            no_max = h.no_max;
          },
          λ j. ground (arith, sent-append j w.out (msg i header text ∷ [])),
        ))

set_sub-Steady :
    (i : ℕ) (nm : ℕ) (w : World) → Steady w → Steady (set_sub i (record (w.heap i) { nm = nm }) w)
set_sub-Steady i nm w h = record {
  client = h.client;
  connected = h.connected;
  takes = h.takes;
  no_max = λ j. ground (arith, h.no_max j, h.no_max i);
}

-- One message, to one subscription.
pub record Sends (i : ℕ) (w w' : World) : Type 0 where
  pub steady : Steady w'
  pub counted : (j : ℕ) → sent j w'.out ≡ sent j w.out + (if j == i then 1 else 0)

pub if-false {ℓ} : {A : Type ℓ} (b : Bool) (x y : A) → b ≡ false → (if b then x else y) ≡ y
if-false b x y e = rw e refl

pub if-true {ℓ} : {A : Type ℓ} (b : Bool) (x y : A) → b ≡ true → (if b then x else y) ≡ x
if-true b x y e = rw e refl

deliver_msg-write_msg :
    (env : Env) (c i : ℕ) (header text : Bytes) (w : World)
    → (w.heap i).max ≡ 0
    → deliver_msg env c i header text w
      ≡ write_msg env c
          (w.heap i).client
          i
          header
          text
          (set_sub i (record (w.heap i) { nm = (w.heap i).nm + 1 }) w)
unfolding deliver_msg
deliver_msg-write_msg env c i header text w h =
    let s = w.heap i in
    if-false (ltb 0 s.max && s.nm + 1 == s.max) _ _ (ground (arith, h))
    ∙ if-false (ltb 0 s.max && ltb s.max (s.nm + 1)) _ _ (ground (arith, h))

deliver_msg-Sends :
    (env : Env) (c i : ℕ) (header text : Bytes) (w : World)
    → Steady w
    → Sends i w (deliver_msg env c i header text w)
deliver_msg-Sends env c i header text w h =
    let s = w.heap i in
    let w' = set_sub i (record s { nm = s.nm + 1 }) w in
    let (steady, counted) =
      write_msg_taken env c s.client i header text w' (set_sub-Steady i (s.nm + 1) w h) in
    subst (Sends i w) (sym (deliver_msg-write_msg env c i header text w (h.no_max i)))
      record { steady = steady; counted = counted }

send_msg-Sends :
    (env : Env) (c : ℕ) (pa : PubArg) (text : Bytes) (i : ℕ) (w : World)
    → Steady w
    → Sends i w (send_msg env c pa text i w)
send_msg-Sends env c pa text i w h = deliver_msg-Sends env c i (msg_header pa (w.heap i)) text w h

-- A message to each of some subscriptions, as often as they stand there.
pub record SendsAll (subs : Subs) (w w' : World) : Type 0 where
  pub steady : Steady w'
  pub counted : (j : ℕ) → sent j w'.out ≡ sent j w.out + occurs j subs

pub SendsAll-nil : (w : World) → Steady w → SendsAll [] w w
unfolding occurs
SendsAll-nil w h = record { steady = h; counted = λ j. omega arith }

SendsAll-cons :
    (s : Subscription) (subs : Subs) (u v w : World)
    → Sends s.id u v
    → SendsAll subs v w
    → SendsAll (s ∷ subs) u w
unfolding occurs
SendsAll-cons s subs u v w p q = record {
  steady = q.steady;
  counted = λ j. omega (arith, p.counted j, q.counted j);
}

pub SendsAll-append :
    (xs ys : Subs) (u v w : World) → SendsAll xs u v → SendsAll ys v w → SendsAll (xs ++ ys) u w
SendsAll-append xs ys u v w p q = record {
  steady = q.steady;
  counted = λ j. omega (arith, p.counted j, q.counted j, occurs-append j xs ys);
}

goes_to-client :
    (from_route : Bool) (cl : Client) (seen : List Bytes)
    → cl.router ≡ false
    → goes_to from_route cl seen ≡ true
unfolding goes_to
goes_to-client from_route cl seen h = rw h refl

deliver_plain-cons :
    (env : Env) (c : ℕ) (pa : PubArg) (text : Bytes) (from_route : Bool) (seen : List Bytes)
    (s : Subscription) (subs : Subs) (w : World)
    → (w.clients (w.heap s.id).client).router ≡ false
    → deliver_plain env c pa text from_route seen (s ∷ subs) w
      ≡ deliver_plain env c pa text from_route seen subs (send_msg env c pa text s.id w)
unfolding deliver_plain
deliver_plain-cons env c pa text from_route seen s subs w h =
    let cl = w.clients (w.heap s.id).client in
    let e = goes_to-client from_route cl seen h in
    ap₂ (λ seen' w'. deliver_plain env c pa text from_route seen' subs w')
      (if-false (goes_to from_route cl seen && cl.router) (cl.remote_id ∷ seen) seen
        (ground (arith, h, e)))
      (if-true (goes_to from_route cl seen) (send_msg env c pa text s.id w) w e)

pub deliver_plain-SendsAll :
    (env : Env) (c : ℕ) (pa : PubArg) (text : Bytes) (from_route : Bool) (seen : List Bytes)
    (subs : Subs) (w : World)
    → Steady w
    → SendsAll subs w (deliver_plain env c pa text from_route seen subs w)
unfolding deliver_plain
deliver_plain-SendsAll env c pa text from_route seen [] w h = SendsAll-nil w h
deliver_plain-SendsAll env c pa text from_route seen (s ∷ subs) w h =
    let p = send_msg-Sends env c pa text s.id w h in
    let w' = send_msg env c pa text s.id w in
    subst (SendsAll (s ∷ subs) w)
      (sym
        (deliver_plain-cons env c pa text from_route seen s subs w (h.client (w.heap s.id).client)))
      (SendsAll-cons s subs w w' (deliver_plain env c pa text from_route seen subs w') p
        (deliver_plain-SendsAll env c pa text from_route seen subs w' p.steady))

-- `chosen` has one member of each group.
abbrev pub Chosen : Groups → Subs → Type 0
Chosen [] [] = Unit
Chosen (g ∷ groups) (s ∷ chosen) = (1 ≤ occurs s.id g) × Chosen groups chosen
Chosen _ _ = ⊥

abbrev pub NonEmpty : Groups → Type 0
NonEmpty [] = Unit
NonEmpty (g ∷ groups) = (0 < length g) × NonEmpty groups

-- What `Intn` promises.
abbrev pub InRange : Env → Type 0
InRange env = (turn n : ℕ) → 0 < n → env.intn turn n < n

get_elem?-occurs :
    (g : Subs) (i : ℕ)
    → i < length g
    → (s : Subscription) × (get_elem? g i ≡ some s) × (1 ≤ occurs s.id g)
unfolding occurs
get_elem?-occurs [] i h = absurd (omega arith)
get_elem?-occurs (s ∷ g) zero h = (s, refl, ground arith)
get_elem?-occurs (s ∷ g) (suc i) h =
    let (t, e, k) = get_elem?-occurs g i (omega arith) in (t, e, omega arith)

-- A run that returns, having served some subscriptions.
pub record Serves (groups : Groups) (w : World) (run : Option World) : Type 0 where
  pub chosen : Subs
  pub after : World
  pub returns : run ≡ some after
  pub one_each : Chosen groups chosen
  pub sends : SendsAll chosen w after

pub deliver_queues-Serves :
    (env : Env) (c : ℕ) (pa : PubArg) (text : Bytes) (turn : ℕ) (groups : Groups) (w : World)
    → InRange env
    → NonEmpty groups
    → Steady w
    → Serves groups w (deliver_queues env c pa text turn groups w)
unfolding deliver_queues
deliver_queues-Serves env c pa text turn [] w r n h = record {
  chosen = [];
  after = w;
  returns = refl;
  one_each = tt;
  sends = SendsAll-nil w h;
}
deliver_queues-Serves env c pa text turn (g ∷ groups) w r (n, ns) h =
    let (s, e, k) = get_elem?-occurs g (env.intn turn (length g)) (r turn (length g) n) in
    let w' = send_msg env c pa text s.id w in
    let p = send_msg-Sends env c pa text s.id w h in
    let q = deliver_queues-Serves env c pa text (turn + 1) groups w' r ns p.steady in
    record {
      chosen = s ∷ q.chosen;
      after = q.after;
      returns = rw (e, deliver_queues) q.returns;
      one_each = (k, q.one_each);
      sends = SendsAll-cons s q.chosen w w' q.after p q.sends;
    }
