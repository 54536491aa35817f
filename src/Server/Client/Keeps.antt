-- ===== src/Server/Client/Keeps.antt =====
-- What the operations of server/client.go that only write leave alone.
use gnatsd.Prelude.{
  ℕ, Bool, true, false, List, [], ◌∷◌, ◌++◌, Bytes, if◌then◌else◌, ◌≡◌, refl, ◌∙◌, arith, codes,
}
use gnatsd.Server.Client.{
  Env, Sub, World, send_proto, cr_lf, broadcast_interest, broadcast_subscribe,
  broadcast_unsubscribe,
}
use gnatsd.Server.Client.Subs.{verbose_ok}

-- The sublist and the clients' maps stay.
pub record Keeps (w w' : World) : Type 0 where
  pub sl : w'.sl ≡ w.sl
  pub subs : (d : ℕ) → (w'.clients d).subs ≡ (w.clients d).subs

pub Keeps-refl : (w : World) → Keeps w w
Keeps-refl w = record { sl = refl; subs = λ d. refl }

pub Keeps-trans : {u v w : World} → Keeps u v → Keeps v w → Keeps u w
Keeps-trans p q = record { sl = q.sl ∙ p.sl; subs = λ d. q.subs d ∙ p.subs d }

pub Keeps-if : {w u v : World} (b : Bool) → Keeps w u → Keeps w v → Keeps w (if b then u else v)
Keeps-if true p q = p
Keeps-if false p q = q

pub send_proto-Keeps : (c : ℕ) (text : Bytes) (w : World) → Keeps w (send_proto c text w)
send_proto-Keeps c text w = Keeps-if _ record { sl = refl; subs = λ d. refl } (Keeps-refl w)

pub broadcast_interest-Keeps :
    (text : Bytes) (routes : List ℕ) (w : World) → Keeps w (broadcast_interest text routes w)
unfolding broadcast_interest
broadcast_interest-Keeps text [] w = Keeps-refl w
broadcast_interest-Keeps text (r ∷ routes) w =
    Keeps-trans (send_proto-Keeps r text w)
      (broadcast_interest-Keeps text routes (send_proto r text w))

pub verbose_ok-Keeps : (c : ℕ) (w : World) → Keeps w (verbose_ok c w)
verbose_ok-Keeps c w =
    let q = send_proto-Keeps c (codes "+OK" ++ cr_lf) w in
    Keeps-if (w.clients c).verbose
      record { sl = q.sl; subs = λ d. ground (arith, q.subs d, q.subs c) } (Keeps-refl w)

pub broadcast_subscribe-Keeps :
    (env : Env) (s : Sub) (w : World) → Keeps w (broadcast_subscribe env s w)
unfolding broadcast_subscribe
broadcast_subscribe-Keeps env s w = broadcast_interest-Keeps _ w.routes w

pub broadcast_unsubscribe-Keeps :
    (env : Env) (i : ℕ) (w : World) → Keeps w (broadcast_unsubscribe env i w)
unfolding broadcast_unsubscribe
broadcast_unsubscribe-Keeps env i w = broadcast_interest-Keeps _ w.routes w
