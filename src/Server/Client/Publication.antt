-- ===== src/Server/Client/Publication.antt =====
-- What `processMsg` of server/client.go does with a message behind its test of the permissions.
use gnatsd.Prelude.{
  ℕ, ◌+◌, Bool, true, false, [], ◌∷◌, ◌++◌, Bytes, Option, none, some, ◌&&◌, if◌then◌else◌, ◌≡◌,
  ==_refl, codes, refl, sym, ◌∙◌, ap, subst, arith, inl, inr, Bool-cases, not,
}
use gnatsd.Sublist.Subject.{split, is_valid_literal_subject}
use gnatsd.Sublist.Split.{no_empty_token}
use gnatsd.Sublist.Trie.{Subs, Groups, SublistResult}
use gnatsd.Sublist.Occurs.{occurs, occurs_groups, occurs-append}
use gnatsd.Sublist.Spec.{demand}
use gnatsd.Server.Args.{PubArg}
use gnatsd.Server.Client.{Env, World, proto, send_ok, send_proto, mark_flush, cr_lf}
use gnatsd.Server.Client.Subs.{is_nil, verbose_ok}
use gnatsd.Server.Client.Publish.{
  count_in, process_msg, is_system, may_publish, find_result, deliver_plain, fan_out, route_msg,
}
use gnatsd.Server.Client.Limits.{sent, sent-append}
use gnatsd.Server.Client.Exact.{
  Steady, SendsAll, SendsAll-append, SendsAll-nil, Chosen, NonEmpty, InRange,
  deliver_plain-SendsAll, deliver_queues-Serves, if-false, if-true,
}
use gnatsd.Server.Client.Reach.{Informed, find_result-Answers, find_result-Steady}

-- A run that returns, having sent a message to the plain subscriptions of a result, as often as they
-- stand there, and to one member of each of its queue groups.
pub record Delivers (r : SublistResult) (w : World) (run : Option World) : Type 0 where
  pub chosen : Subs
  pub after : World
  pub returns : run ≡ some after
  pub one_each : Chosen r.qsubs chosen
  pub sends : SendsAll (r.psubs ++ chosen) w after

fan_out-Delivers :
    (env : Env) (c : ℕ) (pa : PubArg) (text : Bytes) (r : SublistResult) (w : World)
    → InRange env
    → NonEmpty r.qsubs
    → Steady w
    → Delivers r w (fan_out env c pa text r w)
unfolding fan_out
fan_out-Delivers env c pa text r w i n h =
    let v = deliver_plain env c pa text false [] r.psubs w in
    let p = deliver_plain-SendsAll env c pa text false [] r.psubs w h in
    let q = deliver_queues-Serves env c pa text 0 r.qsubs v i n p.steady in
    record {
      chosen = q.chosen;
      after = q.after;
      returns = if-false (w.clients c).router _ _ (h.client c) ∙ q.returns;
      one_each = q.one_each;
      sends = SendsAll-append r.psubs q.chosen w v q.after p q.sends;
    }

nothing_at :
    (ps : Subs) (qs : Groups) (w : World)
    → (is_nil ps && is_nil qs) ≡ true
    → Steady w
    → Delivers record { psubs = ps; qsubs = qs } w (some w)
nothing_at [] [] w e h = record {
  chosen = [];
  after = w;
  returns = refl;
  one_each = tt;
  sends = SendsAll-nil w h;
}
nothing_at (s ∷ ps) qs w e h = cc
nothing_at [] (g ∷ qs) w e h = cc

nothing-Delivers :
    (r : SublistResult) (w : World)
    → (is_nil r.psubs && is_nil r.qsubs) ≡ true
    → Steady w
    → Delivers r w (some w)
nothing-Delivers r w e h = nothing_at r.psubs r.qsubs w e h

-- Where all clients are connected and take what is written, there are no routes and no maxima, the
-- draws are in range and the groups of the result are not empty: a message with a subject that a
-- pedantic client may use is delivered without a panic, once for each time that a plain
-- subscription stands in the result that the caches and the trie have for the subject, and to
-- exactly one member of each queue group; nobody else gets a message.
pub route_msg-Delivers :
    (env : Env) (c : ℕ) (pa : PubArg) (text : Bytes) (w : World)
    → InRange env
    → NonEmpty (find_result env c pa.subject w).1.qsubs
    → Steady w
    → ((w.clients c).pedantic && not (is_valid_literal_subject pa.subject)) ≡ false
    → Delivers
        (find_result env c pa.subject w).1
        (find_result env c pa.subject w).0
        (route_msg env c pa text w)
unfolding route_msg
route_msg-Delivers env c pa text w i n h v =
    let (w', r) = find_result env c pa.subject w in
    let (h', _) = find_result-Steady env c pa.subject w h in
    elim (Bool-cases (is_nil r.psubs && is_nil r.qsubs)) [
      | inl e ↦
          subst (Delivers r w') (sym (if-true (is_nil r.psubs && is_nil r.qsubs) _ _ e))
            (nothing-Delivers r w' e h')
      | inr e ↦
          subst (Delivers r w')
            (sym (
              if-false (is_nil r.psubs && is_nil r.qsubs) _ _ e
              ∙ if-false ((w.clients c).pedantic && not (is_valid_literal_subject pa.subject)) _ _
                  v))
            (fan_out-Delivers env c pa text r w' i n h')
    ]

-- What `processMsg` does before it looks for a result keeps all that the rest relies on.
record Prepared (c : ℕ) (live : Subs) (w v : World) : Type 0 where
  steady : Steady v
  informed : Informed c live v
  pedantic : (v.clients c).pedantic ≡ (w.clients c).pedantic
  same : (j : ℕ) → sent j v.out ≡ sent j w.out

Prepared-if :
    (c : ℕ) (live : Subs) (w u v : World) (b : Bool)
    → Prepared c live w u
    → Prepared c live w v
    → Prepared c live w (if b then u else v)
Prepared-if c live w u v true p q = p
Prepared-if c live w u v false p q = q

count_in-Prepared :
    (c : ℕ) (live : Subs) (text : Bytes) (w : World)
    → Steady w
    → Informed c live w
    → Prepared c live w (count_in c text w)
count_in-Prepared c live text w h i = record {
  steady = record {
    client = λ d. ground (arith, h.client d, h.client c);
    connected = λ d. ground (arith, h.connected d, h.connected c);
    takes = λ d. ground (arith, h.takes d, h.takes c);
    no_max = h.no_max;
  };
  informed = record { coherent = i.coherent; cached = rw (==_refl c) i.cached };
  pedantic = rw (==_refl c) refl;
  same = λ j. refl;
}

mark_flush-Prepared :
    (c : ℕ) (live : Subs) (w u : World) → Prepared c live w u → Prepared c live w (mark_flush c c u)
mark_flush-Prepared c live w u p = record {
  steady = record {
    client = λ d. ground (arith, p.steady.client d, p.steady.client c);
    connected = λ d. ground (arith, p.steady.connected d, p.steady.connected c);
    takes = λ d. ground (arith, p.steady.takes d, p.steady.takes c);
    no_max = p.steady.no_max;
  };
  informed = record { coherent = p.informed.coherent; cached = rw (==_refl c) p.informed.cached };
  pedantic = rw (==_refl c) p.pedantic;
  same = p.same;
}

add_proto-Prepared :
    (c : ℕ) (live : Subs) (text : Bytes) (w u : World)
    → Prepared c live w u
    → Prepared c live w (record u { out = u.out ++ proto c text ∷ [] })
unfolding sent
add_proto-Prepared c live text w u p = record {
  steady = record {
    client = p.steady.client;
    connected = p.steady.connected;
    takes = p.steady.takes;
    no_max = p.steady.no_max;
  };
  informed = record { coherent = p.informed.coherent; cached = p.informed.cached };
  pedantic = p.pedantic;
  same = λ j. omega (arith, p.same j, sent-append j u.out (proto c text ∷ []));
}

verbose_ok-Prepared :
    (c : ℕ) (live : Subs) (w u : World) → Prepared c live w u → Prepared c live w (verbose_ok c u)
verbose_ok-Prepared c live w u p =
    let ok = codes "+OK" ++ cr_lf in
    Prepared-if c live w (send_ok c u) u (u.clients c).verbose
      (mark_flush-Prepared c live w (send_proto c ok u) (
        Prepared-if c live w (record u { out = u.out ++ proto c ok ∷ [] }) u _
          (add_proto-Prepared c live ok w u p) p))
      p

-- A run that returns, having sent each subscription what the live ones demand.
pub record Publishes (live : Subs) (subject : Bytes) (w : World) (run : Option World) : Type 0 where
  pub after : World
  pub returns : run ≡ some after
  pub exact : (j : ℕ) → sent j after.out ≡ sent j w.out + demand j live (split subject)

-- The state in which `processMsg` looks for its result.
abbrev pub ready : ℕ → Bytes → World → World
ready c text w = verbose_ok c (count_in c text w)

none-Chosen :
    (j : ℕ) (groups : Groups) (chosen : Subs)
    → groups ≡ []
    → Chosen groups chosen
    → occurs j chosen ≡ 0
unfolding occurs
none-Chosen j [] [] e h = refl
none-Chosen j [] (s ∷ chosen) e h = absurd h
none-Chosen j (g ∷ groups) chosen e h = cc

route_msg-Publishes :
    (env : Env) (c : ℕ) (pa : PubArg) (text : Bytes) (live : Subs) (w : World)
    → InRange env
    → (find_result env c pa.subject w).1.qsubs ≡ []
    → Steady w
    → Informed c live w
    → no_empty_token true pa.subject ≡ true
    → ((w.clients c).pedantic && not (is_valid_literal_subject pa.subject)) ≡ false
    → Publishes live pa.subject w (route_msg env c pa text w)
unfolding occurs_groups
route_msg-Publishes env c pa text live w i q h known n v =
    let r = (find_result env c pa.subject w).1 in
    let (a, _) = find_result-Answers env c pa.subject live w known n in
    let (_, o) = find_result-Steady env c pa.subject w h in
    let d = route_msg-Delivers env c pa text w i (subst NonEmpty (sym q) tt) h v in
    record {
      after = d.after;
      returns = d.returns;
      exact = λ j. omega (
        arith,
        d.sends.counted j,
        occurs-append j r.psubs d.chosen,
        none-Chosen j r.qsubs d.chosen q d.one_each,
        a j,
        ap (occurs_groups j) q,
        ap (sent j) o,
      );
    }

may_publish_free :
    (env : Env) (c : ℕ) (subject : Bytes) (w : World)
    → (w.clients c).perms ≡ none
    → may_publish env c subject w ≡ (w, true)
unfolding may_publish
may_publish_free env c subject w h = rw (h, may_publish) refl

process_msg-route_msg :
    (env : Env) (c : ℕ) (pa : PubArg) (text : Bytes) (w : World)
    → (w.clients c).perms ≡ none
    → is_nil pa.subject ≡ false
    → is_system pa.subject ≡ false
    → process_msg env c pa text w ≡ route_msg env c pa text (ready c text w)
unfolding process_msg
process_msg-route_msg env c pa text w free some_subject user =
    let v = count_in c text w in
    if-false (is_nil pa.subject) _ _ some_subject
    ∙ if-false (is_system pa.subject) _ _ user
    ∙ ap (λ x. if x.1 then route_msg env c pa text (verbose_ok c x.0) else some x.0)
        (may_publish_free env c pa.subject v (rw (==_refl c) free))

-- Where all clients are connected and take what is written, there are no routes and no maxima, the
-- publisher has no permissions, the draws are in range, all live subscriptions are plain and
-- well-formed, the caches of the sublist and of the publisher answer right for them, and the result
-- for the subject has no queue group: a message with a subject that has no empty token, is not
-- reserved, and that a pedantic client may use, is published without a panic, and each subscription
-- gets it exactly as often as it is live with a pattern that covers the subject.
pub process_msg-Publishes :
    (env : Env) (c : ℕ) (pa : PubArg) (text : Bytes) (live : Subs) (w : World)
    → InRange env
    → (find_result env c pa.subject (ready c text w)).1.qsubs ≡ []
    → Steady w
    → Informed c live w
    → no_empty_token true pa.subject ≡ true
    → is_nil pa.subject ≡ false
    → is_system pa.subject ≡ false
    → (w.clients c).perms ≡ none
    → ((w.clients c).pedantic && not (is_valid_literal_subject pa.subject)) ≡ false
    → Publishes live pa.subject w (process_msg env c pa text w)
process_msg-Publishes env c pa text live w i q h known n some_subject user free v =
    let p =
      verbose_ok-Prepared c live w (count_in c text w) (count_in-Prepared c live text w h known) in
    let r =
      route_msg-Publishes env c pa text live (ready c text w) i q p.steady p.informed n
        (ap (λ b. b && not (is_valid_literal_subject pa.subject)) p.pedantic ∙ v) in
    record {
      after = r.after;
      returns = process_msg-route_msg env c pa text w free some_subject user ∙ r.returns;
      exact = λ j. omega (arith, r.exact j, p.same j);
    }
