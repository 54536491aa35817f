-- ===== src/Auth/Permitted.antt =====
-- What the permissions that `RegisterUser` gives a client let it do.
use gnatsd.Prelude.{ℕ, Bool, true, List, [], ◌∷◌, Bytes, some, ◌&&◌, ◌≡◌, sym, ◌∙◌, arith}
use gnatsd.Sublist.Split.{no_empty_token}
use gnatsd.Sublist.Store.{new_sublist}
use gnatsd.Sublist.SpecMatch.{new_sublist-Coherent}
use gnatsd.Server.Client.{Env, World}
use gnatsd.Server.Client.Subs.{may_subscribe}
use gnatsd.Server.Client.Publish.{may_publish}
use gnatsd.Auth.{User, UserPermissions, register_user}
use gnatsd.Auth.Covered.{covered, all_well_formed, allow_subjects-Coherent, Coherent-covered}
use gnatsd.Auth.Decisions.{
  may_subscribe-some, given, register_user_perms, MaySubscribe, MayPublish,
  may_subscribe-MaySubscribe, may_subscribe-MayPublish, may_publish-MaySubscribe,
  may_publish-MayPublish,
}

-- A client asks for a subscription, or publishes.
pub data Test : Type 0 where
  subscribing : Bytes → Test
  publishing : Bytes → Test

-- The tests of a client's permissions, in turn.
unfoldable pub tested : Env → ℕ → List Test → World → World
unfolding may_subscribe may_publish
tested env c [] w = w
tested env c (subscribing x ∷ ts) w = tested env c ts (may_subscribe env c x w).0
tested env c (publishing x ∷ ts) w = tested env c ts (may_publish env c x w).0

-- No test is of a subject with an empty token.
unfoldable pub full_tokens : List Test → Bool
full_tokens [] = true
full_tokens (subscribing x ∷ ts) = no_empty_token true x && full_tokens ts
full_tokens (publishing x ∷ ts) = no_empty_token true x && full_tokens ts

module _ (env : Env) (c : ℕ) (xs : List Bytes) where
  tested-MaySubscribe :
      (ts : List Test) (w : World)
      → full_tokens ts ≡ true
      → MaySubscribe c xs w
      → MaySubscribe c xs (tested env c ts w)
  unfolding tested full_tokens
  tested-MaySubscribe [] w n h = h
  tested-MaySubscribe (subscribing x ∷ ts) w n h =
      tested-MaySubscribe ts (may_subscribe env c x w).0 (ground (arith, n))
        (may_subscribe-MaySubscribe env c xs x w (ground (arith, n)) h)
  tested-MaySubscribe (publishing x ∷ ts) w n h =
      tested-MaySubscribe ts (may_publish env c x w).0 (ground (arith, n))
        (may_publish-MaySubscribe env c xs x w h)

  tested-MayPublish :
      (ts : List Test) (w : World)
      → full_tokens ts ≡ true
      → MayPublish c xs w
      → MayPublish c xs (tested env c ts w)
  unfolding tested full_tokens
  tested-MayPublish [] w n h = h
  tested-MayPublish (subscribing x ∷ ts) w n h =
      tested-MayPublish ts (may_subscribe env c x w).0 (ground (arith, n))
        (may_subscribe-MayPublish env c xs x w h)
  tested-MayPublish (publishing x ∷ ts) w n h =
      tested-MayPublish ts (may_publish env c x w).0 (ground (arith, n))
        (may_publish-MayPublish env c xs x w (ground (arith, n)) h).0

-- A client whose user has permissions, with well-formed subjects in them, whatever subscriptions
-- and messages with subjects without empty tokens were tested before: it may subscribe to such a
-- subject only if one of the permitted subjects covers it, as a pattern covers a literal.
pub register_user-covered :
    (env : Env) (c : ℕ) (user : User) (p : UserPermissions) (earlier : List Test) (subject : Bytes)
    (w : World)
    → user.permissions ≡ some p
    → all_well_formed p.subscribe ≡ true
    → full_tokens earlier ≡ true
    → no_empty_token true subject ≡ true
    → (may_subscribe env c subject (tested env c earlier (register_user c user w))).1 ≡ true
    → covered p.subscribe subject ≡ true
register_user-covered env c user p earlier subject w e h m n ok =
    let right = allow_subjects-Coherent p.subscribe new_sublist [] h new_sublist-Coherent in
    let (q, has, still) =
      tested-MaySubscribe env c p.subscribe earlier (register_user c user w) m
        (given p, register_user_perms c user p w e, right) in
    Coherent-covered env p.subscribe q.sub subject still n (
      sym (may_subscribe-some env c q subject (tested env c earlier (register_user c user w)) has)
      ∙ ok)

-- A client whose user has permissions, with well-formed subjects in them, whatever subscriptions
-- and messages with subjects without empty tokens were tested before: it may publish a message to
-- such a subject only if one of the subjects permitted for publishing covers it.
pub publishes-covered :
    (env : Env) (c : ℕ) (user : User) (p : UserPermissions) (earlier : List Test) (subject : Bytes)
    (w : World)
    → user.permissions ≡ some p
    → all_well_formed p.publish ≡ true
    → full_tokens earlier ≡ true
    → no_empty_token true subject ≡ true
    → (may_publish env c subject (tested env c earlier (register_user c user w))).1 ≡ true
    → covered p.publish subject ≡ true
publishes-covered env c user p earlier subject w e h m n ok =
    let right = allow_subjects-Coherent p.publish new_sublist [] h new_sublist-Coherent in
    let still =
      tested-MayPublish env c p.publish earlier (register_user c user w) m
        (given p, register_user_perms c user p w e, right, tt) in
    (may_publish-MayPublish env c p.publish subject (tested env c earlier (register_user c user w))
        n still).1
      ok
