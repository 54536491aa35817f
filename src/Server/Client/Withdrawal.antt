-- ===== src/Server/Client/Withdrawal.antt =====
-- What `processUnsub` of server/client.go withdraws.
use gnatsd.Prelude.{
  ℕ, ==_refl, Bool, true, false, List, [], ◌∷◌, Bytes, none, ◌&&◌, ltb, if◌then◌else◌, ◌≡◌, refl,
  sym, ◌∙◌, subst, inl, inr, Bool-cases, bytes_eq,
}
use gnatsd.Sublist.Trie.{Subscription, Subs}
use gnatsd.Sublist.Store.{Sublist, remove}
use gnatsd.Sublist.Spec.{Represents, SameSubject}
use gnatsd.Sublist.SpecRemove.{after_remove, remove-Represents}
use gnatsd.Server.Client.{Env, World, set_sub, sub_at, delete_sub}
use gnatsd.Server.Client.Subs.{unsubscribe, limit}
use gnatsd.Server.Client.Keeps.{Keeps, Keeps-refl, Keeps-if, broadcast_unsubscribe-Keeps}

sub_at-delete_sub :
    (sid : Bytes) (subs : List (Bytes × ℕ)) → sub_at sid (delete_sub sid subs) ≡ none
unfolding sub_at delete_sub
sub_at-delete_sub sid [] = refl
sub_at-delete_sub sid ((k, i) ∷ subs) = elim (Bool-cases (bytes_eq k sid)) [
  | inl e ↦ rw e (sub_at-delete_sub sid subs)
  | inr e ↦ rw e (rw e (sub_at-delete_sub sid subs))
]

-- From a sublist and a client's map, by whether the withdrawal waits: then both stay as they were;
-- else the subscription is no longer live if `Remove` has found it, and its sid leads to nothing.
abbrev pub Withdrawn :
    Bool → ℕ → Subscription → Bytes → Subs → Sublist → List (Bytes × ℕ) → World → Type 0
Withdrawn true c it sid live sl subs w = Represents w.sl live × ((w.clients c).subs ≡ subs)
Withdrawn false c it sid live sl subs w =
    Represents w.sl (after_remove it (remove it sl).1 live) × (sub_at sid (w.clients c).subs ≡ none)

Keeps-Withdrawn :
    (b : Bool) (c : ℕ) (it : Subscription) (sid : Bytes) (live : Subs) (sl : Sublist)
    (subs : List (Bytes × ℕ)) (u v : World)
    → Keeps u v
    → Withdrawn b c it sid live sl subs u
    → Withdrawn b c it sid live sl subs v
Keeps-Withdrawn true c it sid live sl subs u v k (r, e) = (rw k.sl r, k.subs c ∙ e)
Keeps-Withdrawn false c it sid live sl subs u v k (r, e) = (rw k.sl r, rw (k.subs c) e)

Withdrawn-if :
    (b : Bool) (c : ℕ) (it : Subscription) (sid : Bytes) (live : Subs) (sl : Sublist)
    (subs : List (Bytes × ℕ)) (u v : World)
    → Withdrawn true c it sid live sl subs u
    → Withdrawn false c it sid live sl subs v
    → Withdrawn b c it sid live sl subs (if b then u else v)
Withdrawn-if true c it sid live sl subs u v p q = p
Withdrawn-if false c it sid live sl subs u v p q = q

-- Whether a withdrawal waits for more messages.
abbrev pub waits : ℕ → ℕ → Bool
waits max nm = ltb 0 max && ltb nm max

unsubscribe-Withdrawn :
    (c i : ℕ) (live : Subs) (w : World)
    → Represents w.sl live
    → SameSubject (w.heap i).it live
    → let s = w.heap i in
      Withdrawn (waits s.max s.nm) c s.it s.sid live w.sl (w.clients c).subs (unsubscribe c i w)
unfolding unsubscribe
unsubscribe-Withdrawn c i live w r same =
    let s = w.heap i in
    Withdrawn-if (waits s.max s.nm) c s.it s.sid live w.sl (w.clients c).subs w _ (r, refl)
      (
        remove-Represents s.it w.sl live r same,
        rw (==_refl c) (sub_at-delete_sub s.sid (w.clients c).subs),
      )

-- `processUnsub` of a client's subscription, with a new maximum: above the number of messages that it
-- has had, the subscription stays live and in the client's map; else it is withdrawn from both, from
-- the sublist as far as `Remove` finds it.
pub limit-Withdrawn :
    (env : Env) (c i max : ℕ) (live : Subs) (w : World)
    → Represents w.sl live
    → SameSubject (w.heap i).it live
    → let s = w.heap i in
      Withdrawn (waits max s.nm) c s.it s.sid live w.sl (w.clients c).subs (limit env c i max w)
unfolding limit
limit-Withdrawn env c i max live w r same =
    let s = w.heap i in
    let s' = record s { max = max } in
    let u = set_sub i s' w in
    let v = unsubscribe c i u in
    let e : u.heap i ≡ s' = rw (==_refl i) refl in
    Keeps-Withdrawn (waits max s.nm) c s.it s.sid live w.sl (w.clients c).subs v _
      (Keeps-if (u.clients c).router (Keeps-refl v) (broadcast_unsubscribe-Keeps env i v))
      (subst (λ t. Withdrawn (waits t.max t.nm) c t.it t.sid live w.sl (w.clients c).subs v) e
        (unsubscribe-Withdrawn c i live u r (subst (λ t. SameSubject t.it live) (sym e) same)))
