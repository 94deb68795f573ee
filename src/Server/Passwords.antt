-- ===== src/Server/Passwords.antt =====
-- Who is let in after a password was set.
use redis_go.Base.{
  ◌≡◌, refl, Bool, true, false, ◌||◌, List, [], ◌∷◌, ◌++◌, Option, none, some, arith, if◌then◌else◌,
  Bytes, bytes_eq, bytes_eq_refl,
}
use redis_go.Base.Dict.{Dict, get, put, get-put}
use redis_go.Store.{done}
use redis_go.Server.{
  User, nopass, default, new_acl, contains, delete_all, default_if_no_pass, check_password,
  add_password, set_user,
}

contains-delete_all : (xs : List Bytes) (x : Bytes) → contains (delete_all xs x) x ≡ false
unfolding delete_all
contains-delete_all [] x = refl
contains-delete_all (y ∷ ys) x = ground (arith, contains-delete_all ys x)

contains-append :
    (xs ys : List Bytes) (x : Bytes) → contains (xs ++ ys) x ≡ (contains xs x || contains ys x)
contains-append [] ys x = refl
contains-append (y ∷ xs) ys x = ground (arith, contains-append xs ys x)

abbrev pub is_let_in : Option User → Bool
is_let_in none = false
is_let_in (some u) = true

module _ (digest : Bytes → Bytes) where
  -- After a password is set for a user that exists, whatever flags the user had: a password is accepted
  -- where its digest is the new one or one of those before, and no other; other users are asked for
  -- what they were asked for.
  check_password-set_user :
      (name pw : Bytes) (users : Dict User) (u : User)
      → get users name ≡ some u
      → (users' : Dict User) × (set_user digest name (b'>' ∷ pw) users ≡ done users')
        × ((other tried : Bytes)
            → is_let_in (check_password digest other tried users') ≡ (
                if bytes_eq name other
                then contains u.passwords (digest tried) || bytes_eq (digest pw) (digest tried)
                else is_let_in (check_password digest other tried users)))
  unfolding set_user check_password
  check_password-set_user name pw users u here = (
    put users name (add_password digest pw u),
    ground arith,
    λ other tried. ground (
      arith,
      get-put users name other (add_password digest pw u),
      contains-delete_all u.flags nopass,
      contains-append u.passwords (digest pw ∷ []) (digest tried),
    ),
  )

  only :
      (pw tried : Bytes)
      → is_let_in (
          check_password digest default tried (
            put new_acl default (
              add_password digest pw
                (record { name = default; flags = nopass ∷ []; passwords = [] }))))
        ≡ bytes_eq (digest pw) (digest tried)
  unfolding check_password add_password
  only pw tried =
      let u : User = record { name = default; flags = []; passwords = digest pw ∷ [] } in
      ground (
        arith,
        get-put new_acl default default (
            add_password digest pw
              (record { name = default; flags = nopass ∷ []; passwords = [] })),
        bytes_eq_refl default,
        bytes_eq_refl nopass,
      )

  set_user-new_acl :
      (pw : Bytes)
      → (set_user digest default (b'>' ∷ pw) new_acl
          ≡ done (
              put new_acl default (
                add_password digest pw
                  (record { name = default; flags = nopass ∷ []; passwords = [] }))))
  unfolding set_user new_acl get put bytes_eq
  set_user-new_acl pw = refl

  -- On a new server every connection is let in; after a password is set for the default user, no new
  -- connection is, and a password is accepted where its digest is that of the one that was set.
  pub default_if_no_pass-set_user :
      (pw : Bytes)
      → (users' : Dict User) × (set_user digest default (b'>' ∷ pw) new_acl ≡ done users')
        × (is_let_in (default_if_no_pass new_acl) ≡ true)
        × (default_if_no_pass users' ≡ none)
        × ((tried : Bytes)
            → is_let_in (check_password digest default tried users')
              ≡ bytes_eq (digest pw) (digest tried))
  default_if_no_pass-set_user pw = (
    put new_acl default
        (add_password digest pw (record { name = default; flags = nopass ∷ []; passwords = [] })),
    set_user-new_acl pw,
    unfold default_if_no_pass new_acl get put bytes_eq in refl,
    unfold default_if_no_pass new_acl add_password get put bytes_eq in refl,
    λ tried. only pw tried,
  )
