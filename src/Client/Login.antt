-- ===== src/Client/Login.antt =====
-- ACL SETUSER on a new server, and the connections behind it.
use redis_go.Base.{
  ℕ, ◌≡◌, refl, ap, ◌∙◌, true, false, List, [], ◌∷◌, arith, if◌then◌else◌, Bytes, codes, bytes_eq,
  inl, inr, Option-cases,
}
use redis_go.Base.Dict.{Dict, get_or}
use redis_go.Store.{done}
use redis_go.Server.{User, new_acl, default, set_user, default_if_no_pass, check_password}
use redis_go.Server.Passwords.{is_let_in, default_if_no_pass-set_user}
use redis_go.Commands.{Env}
use redis_go.Commands.Admin
use redis_go.Commands.Cases.{handle_commands-acl}
use redis_go.Commands.Reply.{to_upper}
use redis_go.Client.{handle, new_client, record_write}
use redis_go.Client.State.{Client, Node, ready, has_name}
use redis_go.Client.Paths.{handle_plain, handle-auth}
use redis_go.Client.Watched.{run_command_replied}
use redis_go.Client.Logged.{IsPlain, dispatch-other}
use redis_go.Client.Channels.{auth, log_in}

abbrev pub with_users : Node → Dict User → Node
with_users n users = record n { world = record n.world { users = users } }

acl-default :
    (digest : Bytes → Bytes) (sub name rule : Bytes) (users users' : Dict User)
    → to_upper sub ≡ codes "SETUSER"
    → set_user digest default rule users ≡ done users'
    → Admin.acl digest (sub ∷ name ∷ rule ∷ []) users ≡ done (codes "+OK\r\n", users')
unfolding Admin.acl Admin.acl_setuser bytes_eq
acl-default digest sub name rule users users' is_sub set = rw (is_sub, set) refl

record_write_acl :
    (word : Bytes) (args : List Bytes) (n : Node)
    → to_upper word ≡ codes "ACL"
    → record_write (word ∷ args) n ≡ n
unfolding record_write has_name bytes_eq
record_write_acl word args n h = rw h refl

handle-acl :
    (env : Env) (clock : ℕ → ℕ) (word sub name rule : Bytes) (c : Client) (n : Node)
    (users' : Dict User)
    → to_upper word ≡ codes "ACL"
    → to_upper sub ≡ codes "SETUSER"
    → IsPlain c n
    → set_user env.digest default rule n.world.users ≡ done users'
    → handle env (word ∷ sub ∷ name ∷ rule ∷ []) clock c n
      ≡ done (ready (codes "+OK\r\n") c (with_users n users'))
unfolding get_or bytes_eq
handle-acl env clock word sub name rule c n users' is_word is_sub plain set =
    handle_plain env clock c n word (sub ∷ name ∷ rule ∷ []) plain.has_user plain.inactive
      plain.subscribed
    ∙ (dispatch-other env (to_upper word) (word ∷ sub ∷ name ∷ rule ∷ []) (sub ∷ name ∷ rule ∷ [])
          clock c n (rw is_word refl)
        ∙ (run_command_replied env clock (word ∷ sub ∷ name ∷ rule ∷ []) c n (codes "+OK\r\n") _ (
              handle_commands-acl env word (sub ∷ name ∷ rule ∷ []) (clock 0) n.world is_word
              ∙ rw (acl-default env.digest sub name rule n.world.users users' is_sub set) refl)
            ∙ ap (λ (m : Node). done (ready (codes "+OK\r\n") c m))
                (record_write_acl word (sub ∷ name ∷ rule ∷ []) (with_users n users') is_word)))

has_user-new_client :
    (conn tx : ℕ) (n : Node)
    → (new_client conn tx n).has_user ≡ is_let_in (default_if_no_pass n.world.users)
unfolding new_client
has_user-new_client conn tx n = refl

log_in-let_in :
    (digest : Bytes → Bytes) (name password : Bytes) (c : Client) (n : Node)
    → log_in digest name password c n ≡ (
        if is_let_in (check_password digest name password n.world.users)
        then ready (codes "+OK\r\n") (record c { has_user = true }) n
        else ready (codes "-WRONGPASS invalid username-password pair or user is disabled.\r\n") c n)
unfolding log_in
log_in-let_in digest name password c n =
    elim (Option-cases (check_password digest name password n.world.users)) [
      | inl wrong ↦ ground (arith, wrong)
      | inr (u, right) ↦ ground (arith, right)
    ]

-- On a server with the users that it starts with, every connection is let in. One that is outside a
-- transaction and has no subscription sends ACL SETUSER with a password, whatever user it names. From
-- then on a new connection, whose transaction is not active, has no user, and its AUTH with a password
-- lets it in where the digest is that of the password that was set, and is refused where it is not.
pub handle-new_client :
    (env : Env) (clock : ℕ → ℕ) (acl_word sub name auth_word pw tried : Bytes) (c : Client)
    (n : Node) (conn tx : ℕ)
    → to_upper acl_word ≡ codes "ACL"
    → to_upper sub ≡ codes "SETUSER"
    → to_upper auth_word ≡ codes "AUTH"
    → n.world.users ≡ new_acl
    → IsPlain c n
    → (n.world.store.transactions tx).active ≡ false
    → (n' : Node) × (handle env (acl_word ∷ sub ∷ name ∷ (b'>' ∷ pw) ∷ []) clock c n
        ≡ done (ready (codes "+OK\r\n") c n'))
      × ((new_client conn tx n).has_user ≡ true)
      × ((new_client conn tx n').has_user ≡ false)
      × (handle env (auth_word ∷ tried ∷ []) clock (new_client conn tx n') n'
          ≡ done (
              if bytes_eq (env.digest pw) (env.digest tried)
              then ready (codes "+OK\r\n") (record (new_client conn tx n') { has_user = true }) n'
              else ready
                  (codes "-WRONGPASS invalid username-password pair or user is disabled.\r\n")
                  (new_client conn tx n')
                  n'))
handle-new_client env clock acl_word sub name auth_word pw tried c n conn tx is_acl is_sub is_auth
      start plain idle =
    let (users', set, free, closed, accepts) = default_if_no_pass-set_user env.digest pw in
    let n' = with_users n users' in
    let shut : (new_client conn tx n').has_user ≡ false =
      has_user-new_client conn tx n' ∙ rw closed refl in
    (
      n',
      handle-acl env clock acl_word sub name (b'>' ∷ pw) c n users' is_acl is_sub plain
          (rw start set),
      has_user-new_client conn tx n ∙ (rw start free),
      shut,
      handle-auth env clock (new_client conn tx n') n' auth_word (tried ∷ []) shut
            (unfold new_client in idle) (unfold new_client in refl) is_auth
          ∙ ap done (
              unfold auth in
              log_in-let_in env.digest default tried (new_client conn tx n') n'
              ∙ rw (accepts tried) refl),
    )
