-- ===== src/Server/Client/Registration.antt =====
-- What `processSub` of server/client.go registers.
use gnatsd.Prelude.{
  ℕ, ◌+◌, ==_refl, Bool, true, false, List, [], ◌∷◌, ◌++◌, Bytes, Option, none, some, ◌&&◌,
  if◌then◌else◌, ◌≡◌, refl, sym, ◌∙◌, ap, subst, inl, inr, Bool-cases, Option-cases, not, codes,
  bytes_eq, bytes_eq_refl,
}
use gnatsd.Sublist.Subject.{split}
use gnatsd.Sublist.Trie.{Subscription, Subs}
use gnatsd.Sublist.Store.{Sublist, Error, insert, err_invalid_subject}
use gnatsd.Sublist.Spec.{Represents, after_insert, insert-Represents}
use gnatsd.Sublist.Validity.{acceptable, insert-acceptable}
use gnatsd.Server.Client.{Env, Sub, World, set_client, send_err, put, sub_at, delete_sub}
use gnatsd.Server.Client.Subs.{may_subscribe, verbose_ok, inserted, add_subscription, subscribe}
use gnatsd.Server.Client.Keeps.{
  Keeps, Keeps-trans, Keeps-if, send_proto-Keeps, verbose_ok-Keeps, broadcast_subscribe-Keeps,
}

-- A sid that is not there is deleted without a trace.
delete_sub-none :
    (sid : Bytes) (subs : List (Bytes × ℕ)) → sub_at sid subs ≡ none → delete_sub sid subs ≡ subs
unfolding sub_at delete_sub
delete_sub-none sid [] h = refl
delete_sub-none sid ((k, i) ∷ subs) h = elim (Bool-cases (bytes_eq k sid)) [
  | inl e ↦ cc
  | inr e ↦ rw e (ap (λ t. (k, i) ∷ t) (delete_sub-none sid subs (rw e at h)))
]

-- With `true`, the subscription is live, and its client has its sid for it; with `false`, nothing
-- has changed in the sublist's collection and in the client's map.
abbrev pub Registered : Bool → ℕ → Sub → Subs → World → World → Type 0
Registered true c s live w w' =
    Represents w'.sl (s.it ∷ live) × (sub_at s.sid (w'.clients c).subs ≡ some s.it.id)
Registered false c s live w w' = Represents w'.sl live × ((w'.clients c).subs ≡ (w.clients c).subs)

Keeps-Registered :
    (b : Bool) (c : ℕ) (s : Sub) (live : Subs) (w u v : World)
    → Keeps u v
    → Registered b c s live w u
    → Registered b c s live w v
Keeps-Registered true c s live w u v k (r, e) = (rw k.sl r, rw (k.subs c) e)
Keeps-Registered false c s live w u v k (r, e) = (rw k.sl r, k.subs c ∙ e)

-- The state behind `Insert`.
abbrev stored : ℕ → Sub → Sublist → World → World
stored c s sl w =
    record (set_client c (record (w.clients c) { subs = (s.sid, s.it.id) ∷ (w.clients c).subs })
      w) { sl = sl; heap = put s.it.id s w.heap; fresh = w.fresh + 1 }

abbrev is_none : Option Error → Bool
is_none none = true
is_none (some err) = false

delete_sub-cons :
    (sid : Bytes) (i : ℕ) (subs : List (Bytes × ℕ))
    → delete_sub sid ((sid, i) ∷ subs) ≡ delete_sub sid subs
unfolding delete_sub
delete_sub-cons sid i subs = rw (bytes_eq_refl sid) refl

sub_at-cons :
    (sid : Bytes) (i : ℕ) (subs : List (Bytes × ℕ)) → sub_at sid ((sid, i) ∷ subs) ≡ some i
unfolding sub_at
sub_at-cons sid i subs = rw (bytes_eq_refl sid) refl

inserted-Registered :
    (env : Env) (c : ℕ) (s : Sub) (live : Subs) (w : World) (sl : Sublist) (err : Option Error)
    → Represents sl (after_insert s.it err live)
    → sub_at s.sid (w.clients c).subs ≡ none
    → Registered (is_none err) c s live w (inserted env c s err (stored c s sl w))
inserted-Registered env c s live w sl none r fresh =
    let v = stored c s sl w in
    let v' = verbose_ok c v in
    let k = verbose_ok-Keeps c v in
    Keeps-Registered true c s live w v _
      (Keeps-if (v.clients c).router k (Keeps-trans k (broadcast_subscribe-Keeps env s v')))
      (r, rw (==_refl c) (sub_at-cons s.sid s.it.id (w.clients c).subs))
inserted-Registered env c s live w sl (some err) r fresh =
    let v = stored c s sl w in
    let u = set_client c (record (v.clients c) { subs = delete_sub s.sid (v.clients c).subs }) v in
    Keeps-Registered false c s live w u _ (send_proto-Keeps c _ u) (
      r,
      rw (==_refl c) (
          delete_sub-cons s.sid s.it.id (w.clients c).subs
          ∙ delete_sub-none s.sid (w.clients c).subs fresh),
    )

-- Whether `processSub` registers a subscription: the connection is there, the client has none with
-- this sid, and the sublist takes the subject.
abbrev pub registers : ℕ → Bytes → Bytes → World → Bool
registers c subject sid w =
    (w.clients c).connected
    && (elim (sub_at sid (w.clients c).subs) [ none ↦ true | some i ↦ false ]
        && acceptable false (split subject))

-- The subscription that `processSub` makes.
abbrev pub new_sub : ℕ → Bytes → Option Bytes → Bytes → World → Sub
new_sub c subject queue sid w = record {
  it = record { id = w.fresh; subject = subject; queue = queue };
  client = c;
  sid = sid;
  nm = 0;
  max = 0;
}

is_none-insert :
    (it : Subscription) (sl : Sublist)
    → is_none (insert it sl).1 ≡ acceptable false (split it.subject)
is_none-insert it sl =
    ap is_none (insert-acceptable it sl) ∙ is_none_if (acceptable false (split it.subject))
  where
    is_none_if : (b : Bool) → is_none (if b then none else some err_invalid_subject) ≡ b
    is_none_if true = refl
    is_none_if false = refl

add_subscription_new :
    (env : Env) (c : ℕ) (s : Sub) (w : World)
    → sub_at s.sid (w.clients c).subs ≡ none
    → add_subscription env c s w
      ≡ inserted env c s (insert s.it w.sl).1 (stored c s (insert s.it w.sl).0 w)
unfolding add_subscription
add_subscription_new env c s w e = rw (e, add_subscription) refl

add_subscription_old :
    (env : Env) (c : ℕ) (s : Sub) (w : World) (i : ℕ)
    → sub_at s.sid (w.clients c).subs ≡ some i
    → add_subscription env c s w ≡ verbose_ok c w
unfolding add_subscription
add_subscription_old env c s w i e = rw (e, add_subscription) refl

add_subscription-Registered :
    (env : Env) (c : ℕ) (s : Sub) (live : Subs) (w : World)
    → Represents w.sl live
    → Registered
        (elim (sub_at s.sid (w.clients c).subs) [ none ↦ true | some i ↦ false ]
          && acceptable false (split s.it.subject))
        c
        s
        live
        w
        (add_subscription env c s w)
add_subscription-Registered env c s live w r =
    let (sl, err) = insert s.it w.sl in
    elim (Option-cases (sub_at s.sid (w.clients c).subs)) [
      | inl e ↦
          subst (λ b. Registered b c s live w (add_subscription env c s w))
            (is_none-insert s.it w.sl
              ∙ ap
                  (λ o.
                    elim o [ none ↦ true | some i ↦ false ]
                    && acceptable false (split s.it.subject))
                  (sym e))
            (subst (Registered (is_none err) c s live w) (sym (add_subscription_new env c s w e))
              (inserted-Registered env c s live w sl err (insert-Represents s.it w.sl live r) e))
      | inr (i, e) ↦
          subst (λ b. Registered b c s live w (add_subscription env c s w))
            (ap
              (λ o.
                elim o [ none ↦ true | some i ↦ false ] && acceptable false (split s.it.subject))
              (sym e))
            (subst (Registered false c s live w) (sym (add_subscription_old env c s w i e)) (
              Keeps-Registered false c s live w w (verbose_ok c w) (verbose_ok-Keeps c w)
                (r, refl)))
    ]

may_subscribe_free :
    (env : Env) (c : ℕ) (subject : Bytes) (w : World)
    → (w.clients c).perms ≡ none
    → may_subscribe env c subject w ≡ (w, true)
unfolding may_subscribe
may_subscribe_free env c subject w h = rw (h, may_subscribe) refl

if-not {ℓ} : {A : Type ℓ} (b : Bool) (u v : A) → (if not b then u else v) ≡ (if b then v else u)
if-not true u v = refl
if-not false u v = refl

subscribe_free :
    (env : Env) (c : ℕ) (subject : Bytes) (queue : Option Bytes) (sid : Bytes) (w : World)
    → (w.clients c).perms ≡ none
    → subscribe env c (subject, queue, sid) w ≡ (
        if (w.clients c).connected
        then add_subscription env c (new_sub c subject queue sid w) w
        else w)
unfolding subscribe
subscribe_free env c subject queue sid w h =
    ap
      (λ x.
        if not (w.clients c).connected
        then w
        else if x.1
        then add_subscription env c (new_sub c subject queue sid w) x.0
        else send_err c (codes "Permissions Violation for Subscription to " ++ env.quote subject)
            x.0)
      (may_subscribe_free env c subject w h)
    ∙ if-not (w.clients c).connected w (add_subscription env c (new_sub c subject queue sid w) w)

Registered-if :
    (a b : Bool) (c : ℕ) (s : Sub) (live : Subs) (w u : World)
    → Registered b c s live w u
    → Represents w.sl live
    → Registered (a && b) c s live w (if a then u else w)
Registered-if true b c s live w u h r = h
Registered-if false b c s live w u h r = (r, refl)

-- A client without permissions: `processSub` makes the subscription live, with its sid in the map of
-- the client, exactly if the connection is there, the sid is new to the client and the sublist takes
-- the subject; else the sublist's collection and the client's map stay as they were.
pub subscribe-Registered :
    (env : Env) (c : ℕ) (subject : Bytes) (queue : Option Bytes) (sid : Bytes) (live : Subs)
    (w : World)
    → Represents w.sl live
    → (w.clients c).perms ≡ none
    → Registered
        (registers c subject sid w)
        c
        (new_sub c subject queue sid w)
        live
        w
        (subscribe env c (subject, queue, sid) w)
subscribe-Registered env c subject queue sid live w r free =
    let s = new_sub c subject queue sid w in
    subst (Registered (registers c subject sid w) c s live w)
      (sym (subscribe_free env c subject queue sid w free))
      (Registered-if (w.clients c).connected _ c s live w (add_subscription env c s w)
        (add_subscription-Registered env c s live w r) r)
