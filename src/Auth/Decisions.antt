-- ===== src/Auth/Decisions.antt =====
-- The tests of permissions in server/client.go, `processSub` and `processMsg`, one at a time.
use gnatsd.Prelude.{
  ℕ, Bool, true, false, List, [], ◌∷◌, Bytes, some, not, ◌≡◌, refl, ◌∙◌, subst, arith, inl, inr,
  Bool-cases, ==_refl, Option-cases, bytes_eq, bytes_eq→eq,
}
use mathlib.Core.Option.{some-injective, none-ne-some}
use gnatsd.Sublist.Split.{no_empty_token}
use gnatsd.Sublist.Store.{new_sublist, match}
use gnatsd.Sublist.SpecMatch.{Coherent, match-Coherent}
use gnatsd.Server.Client.{Env, Permissions, World}
use gnatsd.Server.Client.Subs.{is_nil, may_subscribe}
use gnatsd.Server.Client.Publish.{may_publish, pcache_lookup, allow, pub_permission_violation}
use gnatsd.Auth.{User, UserPermissions, allow_subjects, register_user}
use gnatsd.Auth.Covered.{covered, allowed, Coherent-covered}

pub may_subscribe-some :
    (env : Env) (c : ℕ) (p : Permissions) (subject : Bytes) (w : World)
    → (w.clients c).perms ≡ some p
    → (may_subscribe env c subject w).1 ≡ not (is_nil (match env.first subject p.sub).1.psubs)
unfolding may_subscribe
may_subscribe-some env c p subject w h = rw (h, may_subscribe) refl

-- The permissions that `RegisterUser` makes.
abbrev pub given : UserPermissions → Permissions
given p = record {
  sub = allow_subjects p.subscribe new_sublist;
  pub_list = allow_subjects p.publish new_sublist;
  pcache = [];
}

pub register_user_perms :
    (c : ℕ) (user : User) (p : UserPermissions) (w : World)
    → user.permissions ≡ some p
    → ((register_user c user w).clients c).perms ≡ some (given p)
unfolding register_user
register_user_perms c user p w e = rw (e, register_user) (rw (==_refl c) refl)

-- What has been decided about messages is covered, where it was to allow them.
abbrev Decided : List Bytes → List (Bytes × Bool) → Type 0
Decided xs [] = Unit
Decided xs ((k, b) ∷ pcache) = (b ≡ true → covered xs k ≡ true) × Decided xs pcache

Decided-lookup :
    (xs : List Bytes) (subject : Bytes) (pcache : List (Bytes × Bool)) {b : Bool}
    → Decided xs pcache
    → pcache_lookup subject pcache ≡ some b
    → b ≡ true
    → covered xs subject ≡ true
unfolding pcache_lookup
Decided-lookup xs subject [] d e t = absurd (none-ne-some _ e)
Decided-lookup xs subject ((k, b) ∷ pcache) (d, ds) e t = elim (Bool-cases (bytes_eq k subject)) [
  | inl q ↦
      let same : b ≡ true = some-injective _ _ (rw q at e) ∙ t in
      subst (λ x. covered xs x ≡ true) (bytes_eq→eq k subject q) (d same)
  | inr q ↦ Decided-lookup xs subject pcache ds (rw q at e) t
]

-- The permissions of a client for its subscriptions are right.
abbrev pub MaySubscribe : ℕ → List Bytes → World → Type 0
MaySubscribe c xs w =
    (p : Permissions) × ((w.clients c).perms ≡ some p) × Coherent p.sub (allowed xs [])

-- Those for its messages are, and so is what has been decided about them.
abbrev pub MayPublish : ℕ → List Bytes → World → Type 0
MayPublish c xs w =
    (p : Permissions) × ((w.clients c).perms ≡ some p)
    × Coherent p.pub_list (allowed xs [])
    × Decided xs p.pcache

perms-allow :
    (env : Env) (c : ℕ) (subject : Bytes) (b : Bool) (w : World)
    → ((allow env c subject b w).clients c).perms ≡ (w.clients c).perms
unfolding pub_permission_violation
perms-allow env c subject true w = refl
perms-allow env c subject false w = ground arith

module _ (env : Env) (c : ℕ) (xs : List Bytes) (subject : Bytes) (w : World) where
  pub may_subscribe-MaySubscribe :
      no_empty_token true subject ≡ true
      → MaySubscribe c xs w
      → MaySubscribe c xs (may_subscribe env c subject w).0
  unfolding may_subscribe
  may_subscribe-MaySubscribe n (p, e, h) =
      let (_, h') = match-Coherent env.first subject p.sub (allowed xs []) h n in
      (
        record p { sub = (match env.first subject p.sub).0 },
        rw (e, may_subscribe) (rw (==_refl c) refl),
        h',
      )

  pub may_subscribe-MayPublish :
      MayPublish c xs w → MayPublish c xs (may_subscribe env c subject w).0
  unfolding may_subscribe
  may_subscribe-MayPublish (p, e, h, d) = (
    record p { sub = (match env.first subject p.sub).0 },
    rw (e, may_subscribe) (rw (==_refl c) refl),
    h,
    d,
  )

  pub may_publish-MaySubscribe :
      MaySubscribe c xs w → MaySubscribe c xs (may_publish env c subject w).0
  unfolding may_publish
  may_publish-MaySubscribe (p, e, h) = elim (Option-cases (pcache_lookup subject p.pcache)) [
    | inl k ↦
        let (l, r) = match env.first subject p.pub_list in
        (
          record p { pub_list = l; pcache = (subject, not (is_nil r.psubs)) ∷ p.pcache },
          rw (e, may_publish) (rw (k, may_publish) (rw (==_refl c) refl)),
          h,
        )
    | inr (b, k) ↦
        (p, rw (e, may_publish) (rw (k, may_publish) (perms-allow env c subject b w ∙ e)), h)
  ]

  -- A message that is allowed is covered, and the permissions stay right.
  pub may_publish-MayPublish :
      no_empty_token true subject ≡ true
      → MayPublish c xs w
      → MayPublish c xs (may_publish env c subject w).0
        × ((may_publish env c subject w).1 ≡ true → covered xs subject ≡ true)
  unfolding may_publish
  may_publish-MayPublish n (p, e, h, d) = elim (Option-cases (pcache_lookup subject p.pcache)) [
    | inl k ↦
        let (l, r) = match env.first subject p.pub_list in
        let (_, h') = match-Coherent env.first subject p.pub_list (allowed xs []) h n in
        let ok : not (is_nil r.psubs) ≡ true → covered xs subject ≡ true =
          Coherent-covered env xs p.pub_list subject h n in
        (
          (
            record p { pub_list = l; pcache = (subject, not (is_nil r.psubs)) ∷ p.pcache },
            rw (e, may_publish) (rw (k, may_publish) (rw (==_refl c) refl)),
            h',
            (ok, d),
          ),
          rw (e, may_publish) (rw (k, may_publish) ok),
        )
    | inr (b, k) ↦ (
      (p, rw (e, may_publish) (rw (k, may_publish) (perms-allow env c subject b w ∙ e)), h, d),
      rw (e, may_publish) (rw (k, may_publish) (λ t. Decided-lookup xs subject p.pcache d k t)),
    )
  ]
