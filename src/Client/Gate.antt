-- ===== src/Client/Gate.antt =====
-- What a connection can do before its AUTH: the guard in front of the switch of app/client.go.
use redis_go.Base.{
  ℕ, ◌≡◌, refl, ap, ◌∙◌, Bool, true, false, ◌&&◌, List, [], ◌∷◌, none, some, inl, inr, arith, Bytes,
  codes, bytes_eq, Bool-cases, Option-cases, All, bytes_eq_iff,
}
use redis_go.Store.{done}
use redis_go.Server.{check_password, default}
use redis_go.Commands.{Env}
use redis_go.Commands.Reply.{to_upper}
use redis_go.Client.{handle}
use redis_go.Client.Paths.{handle-auth}
use redis_go.Client.State.{Client, Node, ready}
use redis_go.Client.Session.{Session, stop, round}
use redis_go.Client.Transactions.{transaction_of}
use redis_go.Client.Channels.{auth, log_in}

-- The password is accepted.
abbrev pub is_right : Env → Bytes → Bytes → Node → Bool
is_right env name password n = elim (check_password env.digest name password n.world.users) [
  | none ↦ false
  | some u ↦ true
]

-- The arguments of an AUTH that is accepted.
abbrev pub is_login : Env → List Bytes → Node → Bool
is_login env (password ∷ []) n = is_right env default password n
is_login env (name ∷ password ∷ []) n = is_right env name password n
is_login env _ n = false

-- The command is an AUTH, under any spelling, with a right password.
abbrev pub logs_in : Env → Node → List Bytes → Bool
logs_in env n [] = false
logs_in env n (word ∷ args) = bytes_eq (to_upper word) (codes "AUTH") && is_login env args n

-- A command, and no such AUTH.
abbrev pub IsRefused : Env → Node → List Bytes → Type 0
IsRefused env n [] = ⊥
IsRefused env n (word ∷ args) = logs_in env n (word ∷ args) ≡ false

-- The reply is an error.
abbrev pub IsError : Bytes → Type 0
IsError [] = ⊥
IsError (b ∷ reply) = b ≡ b'-'

-- A connection as it is accepted: no user, no subscription, no transaction.
pub record IsStranger (c : Client) (n : Node) : Type 0 where
  pub has_user : c.has_user ≡ false
  pub subscribed : c.subscribed ≡ []
  pub inactive : (transaction_of c n).active ≡ false

log_in_missing :
    (env : Env) (name password : Bytes) (c : Client) (n : Node)
    → check_password env.digest name password n.world.users ≡ none
    → log_in env.digest name password c n
      ≡ ready (codes "-WRONGPASS invalid username-password pair or user is disabled.\r\n") c n
unfolding log_in
log_in_missing env name password c n missing = ground (arith, missing)

log_in_refused :
    (env : Env) (name password : Bytes) (c : Client) (n : Node)
    → is_right env name password n ≡ false
    → (reply : Bytes) × (log_in env.digest name password c n ≡ ready reply c n) × IsError reply
log_in_refused env name password c n h =
    elim (Option-cases (check_password env.digest name password n.world.users)) [
      | inl missing ↦ (
        codes "-WRONGPASS invalid username-password pair or user is disabled.\r\n",
        log_in_missing env name password c n missing,
        refl,
      )
      | inr (u, found) ↦ absurd (ground (arith, found))
    ]

auth_refused :
    (env : Env) (args : List Bytes) (c : Client) (n : Node)
    → is_login env args n ≡ false
    → (reply : Bytes) × (auth env.digest args c n ≡ ready reply c n) × IsError reply
unfolding auth
auth_refused env [] c n h = (_, refl, refl)
auth_refused env (password ∷ []) c n h = log_in_refused env default password c n h
auth_refused env (name ∷ password ∷ []) c n h = log_in_refused env name password c n h
auth_refused env (a ∷ b ∷ d ∷ _) c n h = (_, refl, refl)

handle_refused :
    (env : Env) (word : Bytes) (args : List Bytes) (clock : ℕ → ℕ) (c : Client) (n : Node)
    → IsStranger c n
    → logs_in env n (word ∷ args) ≡ false
    → (reply : Bytes) × (handle env (word ∷ args) clock c n ≡ done (ready reply c n))
      × IsError reply
unfolding handle
handle_refused env word args clock c n h wrong =
    elim (Bool-cases (bytes_eq (to_upper word) (codes "AUTH"))) [
      | inl is_auth ↦
          (let (reply, refused, error) = auth_refused env args c n (ground arith) in
            (
              reply,
              handle-auth env clock c n word args h.has_user h.inactive h.subscribed
                    ((bytes_eq_iff (to_upper word) (codes "AUTH")).0 is_auth)
                  ∙ ap done refused,
              error,
            ))
      | inr other ↦ (codes "-NOAUTH Authentication required.\r\n", simp (h.has_user, other), refl)
    ]

-- A connection with no user, no subscription and no transaction sends commands, none of them an AUTH
-- with a right password. Each is answered, and by an error: neither the connection nor anything that the
-- program shares changes.
pub Session-IsError :
    (env : Env) (clock : ℕ → ℕ) (c : Client) (n : Node) (cmds : List (List Bytes))
    → IsStranger c n
    → All (IsRefused env n) cmds
    → (replies : List Bytes) × Session env c n cmds replies c n × All IsError replies
Session-IsError env clock c n [] h ok = ([], stop, tt)
Session-IsError env clock c n ([] ∷ cmds) h (bad, ok) = elim bad [ ]
Session-IsError env clock c n ((word ∷ args) ∷ cmds) h (bad, ok) =
    let (reply, refused, error) = handle_refused env word args clock c n h bad in
    let (replies, rest, errors) = Session-IsError env clock c n cmds h ok in
    (reply ∷ replies, round clock refused rest, (error, errors))
