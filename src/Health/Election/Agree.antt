-- ===== src/Health/Election/Agree.antt =====
-- Holders of a leader of health/health.go that hear the same proposals agree.
use gnatsd.Prelude.{
  ℕ, true, false, List, [], ◌∷◌, leb, ◌⊎◌, ◌≡◌, refl, sym, ◌∙◌, ap, subst, arith, inl, inr,
}
use gnatsd.Health.Election.{AgentLoc, LeadHolder, set_leader, set_leaders}
use gnatsd.Health.Election.Best.{
  bare, IsLive, Prefers, Prefers-trans, Prefers-antisym, Outcome, set_leader-Outcome,
}

abbrev pub Among : AgentLoc → List AgentLoc → Type 0
Among q [] = ⊥
Among q (s ∷ slocs) = (q ≡ s) ⊎ Among q slocs

-- What proposals leave: the preferred one of those that are live, and of the old leader until its
-- lease expires.
abbrev pub Elects : ℕ → List AgentLoc → LeadHolder → AgentLoc → Type 0
Elects now slocs e d =
    ((q : AgentLoc)
      → Among q slocs
      → IsLive now q
      → (leb d.lease_expires now ≡ false) × Prefers d q)
    × (leb e.sloc.lease_expires now ≡ false → (leb d.lease_expires now ≡ false) × Prefers d e.sloc)
    × ((d ≡ e.sloc) ⊎ (Among d slocs × IsLive now d))

Elects-next :
    (now : ℕ) (s : AgentLoc) (slocs : List AgentLoc) (e f : LeadHolder) (d : AgentLoc)
    → Outcome now s e f
    → Elects now slocs f d
    → Elects now (s ∷ slocs) e d
Elects-next now s slocs e f d (inl (p, keep)) (all, old, from) = (
  λ q a live. elim a [
    | inl r ↦
        let (c, pref) = keep (subst (IsLive now) r live) in
        let (l, better) = old (ap (λ x. leb x.sloc.lease_expires now) p ∙ c) in
        (
          l,
          Prefers-trans d e.sloc q (subst (λ x. Prefers d x.sloc) p better)
              (subst (Prefers e.sloc) (sym r) pref),
        )
    | inr r ↦ all q r live
  ],
  λ c.
      let (l, better) = old (ap (λ x. leb x.sloc.lease_expires now) p ∙ c) in
      (l, subst (λ x. Prefers d x.sloc) p better),
  elim from [ inl r ↦ inl (r ∙ ap (λ x. x.sloc) p) | inr r ↦ inr (inr r.0, r.1) ],
)
Elects-next now s slocs e f d (inr (p, live, better)) (all, old, from) =
    let (l, pref) = old (ap (λ x. leb x.sloc.lease_expires now) p ∙ live.1) in
    let over : Prefers d s = subst (λ x. Prefers d x.sloc) p pref in
    (
      λ q a q_live. elim a [ inl r ↦ (l, subst (Prefers d) (sym r) over) | inr r ↦ all q r q_live ],
      λ c. (l, Prefers-trans d s e.sloc over (inr (better c))),
      elim from [
        | inl r ↦
            let is_s : d ≡ s = r ∙ ap (λ x. x.sloc) p in
            inr (inl is_s, subst (IsLive now) (sym is_s) live)
        | inr r ↦ inr (inr r.0, r.1)
      ],
    )

set_leaders-Elects :
    (now : ℕ) (slocs : List AgentLoc) (e : LeadHolder)
    → Elects now slocs e (set_leaders now slocs e).sloc
unfolding set_leaders
set_leaders-Elects now [] e = (λ q a live. absurd a, λ c. (c, inl refl), inl refl)
set_leaders-Elects now (s ∷ slocs) e =
    Elects-next now s slocs e (set_leader now s e).1 (set_leaders now (s ∷ slocs) e).sloc
      (set_leader-Outcome now s e) (set_leaders-Elects now slocs (set_leader now s e).1)

chosen :
    (now : ℕ) (slocs : List AgentLoc) (e : LeadHolder) (d : AgentLoc)
    → leb d.lease_expires now ≡ false
    → leb e.sloc.lease_expires now ≡ true
    → (d ≡ e.sloc) ⊎ (Among d slocs × IsLive now d)
    → Among d slocs × IsLive now d
chosen now slocs e d l old (inl p) =
    absurd (ground (arith, l, old, ap (λ x. leb x.lease_expires now) p))
chosen now slocs e d l old (inr c) = c

-- Two holders of a leader whose leases have expired, that hear the same proposals at one time, in
-- whatever order and however often, agree on the leader, but for its Grpc addresses, if one of the
-- proposals is live.
pub set_leaders-agree :
    (now : ℕ) (xs ys : List AgentLoc) (e f : LeadHolder) (q : AgentLoc)
    → ((s : AgentLoc) → Among s xs → Among s ys)
    → ((s : AgentLoc) → Among s ys → Among s xs)
    → leb e.sloc.lease_expires now ≡ true
    → leb f.sloc.lease_expires now ≡ true
    → Among q xs
    → IsLive now q
    → bare (set_leaders now xs e).sloc ≡ bare (set_leaders now ys f).sloc
set_leaders-agree now xs ys e f q there back old_e old_f a live =
    let x = (set_leaders now xs e).sloc in
    let y = (set_leaders now ys f).sloc in
    let (all_x, _, from_x) = set_leaders-Elects now xs e in
    let (all_y, _, from_y) = set_leaders-Elects now ys f in
    let (in_x, live_x) = chosen now xs e x (all_x q a live).0 old_e from_x in
    let (in_y, live_y) = chosen now ys f y (all_y q (there q a) live).0 old_f from_y in
    Prefers-antisym x y (all_x y (back y in_y) live_y).1 (all_y x (there x in_x) live_x).1
