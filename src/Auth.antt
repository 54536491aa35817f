-- ===== src/Auth.antt =====
-- auth/plain.go, auth/multiuser.go and auth/token.go: who may connect; and `RegisterUser` of
-- server/client.go, which gives a client the permissions of its user.
pub mod Covered
pub mod Decisions
pub mod Permitted
mod Tests
use gnatsd.Prelude.{
  ℕ, Bool, true, false, List, [], ◌∷◌, Bytes, Option, none, some, bytes_eq, if◌then◌else◌, codes,
  take, length, not,
}
use gnatsd.Sublist.Trie.{Subscription}
use gnatsd.Sublist.Store.{Sublist, new_sublist, insert}
use gnatsd.Server.Client.{Permissions, Client, World, set_client}

-- `bcrypt.CompareHashAndPassword`, which returns nil or an error.
pub record Bcrypt : Type 0 where
  pub compare : Bytes → Bytes → Bool

-- `Permissions` and `User` of server/opts.go.
pub record UserPermissions : Type 0 where
  pub publish : List Bytes
  pub subscribe : List Bytes

pub record User : Type 0 where
  pub username : Bytes
  pub password : Bytes
  pub permissions : Option UserPermissions

-- `isBcrypt`
abbrev pub is_bcrypt : Bytes → Bool
is_bcrypt password = bytes_eq (take 4 password) (codes "$2a$")

-- The test of a password, or of a token, that the three `Check` share.
unfoldable pub accepts : Bcrypt → Bytes → Bytes → Bool
accepts bcrypt stored given =
    if is_bcrypt stored then bcrypt.compare stored given else bytes_eq stored given

-- `Check` of `Token`
abbrev pub token_check : Bcrypt → Bytes → Bytes → Bool
token_check bcrypt token given = accepts bcrypt token given

-- `Check` of `Plain`
unfoldable pub plain_check : Bcrypt → Bytes → Bytes → Bytes → Bytes → Bool
unfolding accepts
plain_check bcrypt username password name given =
    if not (bytes_eq username name) then false else accepts bcrypt password given

-- `m.users[opts.Username]`, where `NewMultiUser` keeps the last user of a name.
unfoldable pub find_user : Bytes → List User → Option User
find_user name [] = none
find_user name (u ∷ users) =
    let rest = find_user name users in
    elim rest [ some v ↦ some v | none ↦ if bytes_eq u.username name then some u else none ]

-- The loop of `RegisterUser` over subjects; each subscription is a pointer of its own.
unfoldable pub allow_subjects : List Bytes → Sublist → Sublist
unfolding insert
allow_subjects [] s = s
allow_subjects (x ∷ xs) s =
    allow_subjects xs (insert record { id = length xs; subject = x; queue = none } s).0

-- `RegisterUser`
unfoldable pub register_user : ℕ → User → World → World
unfolding allow_subjects new_sublist
register_user c user w = elim user.permissions [
  | none ↦ w
  | some p ↦
      set_client c
        (record (w.clients c) {
          perms = some record {
            sub = allow_subjects p.subscribe new_sublist;
            pub_list = allow_subjects p.publish new_sublist;
            pcache = [];
          };
        })
        w
]

-- `Check` of `MultiUser`
unfoldable pub multi_check : Bcrypt → List User → Bytes → Bytes → ℕ → World → World × Bool
unfolding find_user accepts register_user
multi_check bcrypt users name given c w = elim (find_user name users) [
  | none ↦ (w, false)
  | some user ↦
      if accepts bcrypt user.password given then (register_user c user w, true) else (w, false)
]
