-- ===== src/Server.antt =====
-- app/server.go: users and their passwords. `digest` stands for the hexadecimal SHA-256 of a password.
pub mod Passwords
use redis_go.Base.{
  Bool, true, false, not, ◌||◌, List, [], ◌∷◌, ◌++◌, Option, none, some, ◌==◌, if◌then◌else◌, Bytes,
  codes, bytes_eq,
}
use redis_go.Base.Dict.{Dict, get, put}
use redis_go.Store.{Outcome, done, panic}

pub record User : Type 0 where
  pub name : Bytes
  pub flags : List Bytes
  pub passwords : List Bytes

abbrev pub nopass : Bytes
nopass = codes "nopass"

abbrev pub default : Bytes
default = codes "default"

-- `acl.users`
unfoldable pub new_acl : Dict User
unfolding put
new_acl = put [] default (record { name = default; flags = nopass ∷ []; passwords = [] })

-- `slices.Contains`
abbrev pub contains : List Bytes → Bytes → Bool
contains [] x = false
contains (y ∷ ys) x = bytes_eq y x || contains ys x

-- `slices.DeleteFunc` of the texts that equal `x`.
unfoldable pub delete_all : List Bytes → Bytes → List Bytes
delete_all [] x = []
delete_all (y ∷ ys) x = let rest = delete_all ys x in if bytes_eq y x then rest else y ∷ rest

unfoldable pub default_if_no_pass : Dict User → Option User
default_if_no_pass users = elim (get users default) [
  | none ↦ none
  | some u ↦ if contains u.flags nopass then some u else none
]

module _ (digest : Bytes → Bytes) where
  unfoldable pub check_password : Bytes → Bytes → Dict User → Option User
  check_password name password users = elim (get users name) [
    | none ↦ none
    | some u ↦
        if contains u.flags nopass
        then some u
        else if contains u.passwords (digest password)
        then some u
        else none
  ]

  -- A password is added, and from then on one is asked for.
  unfoldable pub add_password : Bytes → User → User
  unfolding delete_all
  add_password pw u = record u {
    passwords = u.passwords ++ digest pw ∷ [];
    flags = delete_all u.flags nopass;
  }

  -- `strings.CutPrefix(password, ">")`: any other text changes nothing.
  unfoldable pub set_user : Bytes → Bytes → Dict User → Outcome (Dict User)
  unfolding add_password
  set_user name [] users = done users
  set_user name (c ∷ pw) users =
      if c == b'>'
      then elim (get users name) [
        | none ↦ panic
        | some u ↦ done (put users name (add_password pw u))
      ]
      else done users
