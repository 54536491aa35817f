-- ===== src/Auth/Tests.antt =====
-- Users with permissions, and what these let them do.
use gnatsd.Prelude.{true, false, List, [], ◌∷◌, none, some, ◌≡◌, refl, codes, bytes_eq}
use gnatsd.Sublist.Split.{well_formed_from, no_empty_token}
use gnatsd.Sublist.Store.{new_sublist, insert, match}
use gnatsd.Server.Client.{Env, World, taken}
use gnatsd.Server.Client.Subs.{may_subscribe}
use gnatsd.Server.Client.Publish.{may_publish}
use gnatsd.Auth.{User, UserPermissions, Bcrypt, multi_check, register_user}
use gnatsd.Auth.Covered.{covered, all_well_formed}
use gnatsd.Auth.Permitted.{
  Test, subscribing, publishing, tested, full_tokens, register_user-covered, publishes-covered,
}

abbrev plain_env : Env
plain_env = record {
  decimal = λ n. n ∷ [];
  quote = λ s. s;
  find_submatch = λ s. none;
  first = λ cache. 0;
  order = λ keys. keys;
  intn = λ turn n. 0;
}

abbrev empty_world : World
empty_world = record {
  sl = new_sublist;
  heap = λ i. record {
    it = record { id = i; subject = []; queue = none };
    client = 0;
    sid = [];
    nm = 0;
    max = 0;
  };
  fresh = 0;
  clients = λ d. record {
    router = false;
    connected = true;
    verbose = false;
    pedantic = false;
    subs = [];
    perms = none;
    remote_id = [];
    genid = 0;
    results = none;
    in_msgs = 0;
    in_bytes = 0;
    in_subs = 0;
    out_msgs = 0;
    out_bytes = 0;
    pcd = [];
    write = taken;
  };
  listed = λ d. true;
  routes = [];
  out_msgs = 0;
  out_bytes = 0;
  slow_consumers = 0;
  out = [];
}

abbrev rights : UserPermissions
rights = record { publish = codes "req.*" ∷ []; subscribe = codes "_INBOX.>" ∷ codes "news" ∷ [] }

abbrev alice : User
alice = record { username = codes "alice"; password = codes "foo"; permissions = some rights }

no_bcrypt : Bcrypt
no_bcrypt = record { compare = λ stored given. false }

checked :
    ((multi_check no_bcrypt (alice ∷ []) (codes "alice") (codes "foo") 1 empty_world).1 ≡ true)
    × ((multi_check no_bcrypt (alice ∷ []) (codes "alice") (codes "bar") 1 empty_world).1 ≡ false)
unfolding multi_check bytes_eq
checked = (refl, refl)

-- What was tested before: subscriptions and messages, of which some were refused.
abbrev earlier : List Test
earlier =
    subscribing (codes "olds")
    ∷ publishing (codes "req.x")
    ∷ publishing (codes "news")
    ∷ subscribing (codes "news")
    ∷ []

register_user-covered_example : covered (codes "_INBOX.>" ∷ codes "news" ∷ []) (codes "news") ≡ true
unfolding register_user all_well_formed well_formed_from no_empty_token full_tokens insert
    new_sublist match bytes_eq may_subscribe tested
register_user-covered_example =
    register_user-covered plain_env 1 alice rights earlier (codes "news") empty_world refl refl refl
      refl refl

publishes-covered_example : covered (codes "req.*" ∷ []) (codes "req.x") ≡ true
unfolding register_user all_well_formed well_formed_from no_empty_token full_tokens insert
    new_sublist match bytes_eq may_publish tested
publishes-covered_example =
    publishes-covered plain_env 1 alice rights earlier (codes "req.x") empty_world refl refl refl
      refl refl
