-- ===== src/Client/Paths.antt =====
-- The ways through the guards of `handleClient`, up to its switch.
use redis_go.Base.{
  Bool-cases, inl, inr, ℕ, ◌≡◌, refl, true, false, List, [], ◌∷◌, Bytes, codes, bytes_eq,
}
use redis_go.Store.{done}
use redis_go.Commands.{Env}
use redis_go.Commands.Reply.{to_upper}
use redis_go.Client.{handle, in_mode, dispatch, run_verb, control_commands}
use redis_go.Client.State.{Client, Node, has_name}
use redis_go.Client.Transactions
use redis_go.Client.Transactions.{transaction_of, enqueue}
use redis_go.Client.Channels.{auth}

module _ (env : Env) (clock : ℕ → ℕ) (c : Client) (n : Node) where
  -- Outside a transaction, and with no subscription.
  pub handle_plain :
      (word : Bytes) (args : List Bytes)
      → c.has_user ≡ true
      → (transaction_of c n).active ≡ false
      → c.subscribed ≡ []
      → handle env (word ∷ args) clock c n
        ≡ dispatch env (to_upper word) (word ∷ args) args clock c n
  unfolding handle in_mode
  handle_plain word args user inactive subscribed = simp (user, inactive, subscribed)

  pub handle_control :
      (word : Bytes) (args : List Bytes)
      → c.has_user ≡ true
      → has_name control_commands (to_upper word) ≡ true
      → c.subscribed ≡ []
      → handle env (word ∷ args) clock c n
        ≡ dispatch env (to_upper word) (word ∷ args) args clock c n
  unfolding handle in_mode
  handle_control word args user control subscribed = elim (Bool-cases (transaction_of c n).active) [
    | inl active ↦ simp (user, control, subscribed, active)
    | inr inactive ↦ simp (user, subscribed, inactive)
  ]

  pub handle_queued :
      (word : Bytes) (args : List Bytes)
      → c.has_user ≡ true
      → (transaction_of c n).active ≡ true
      → has_name control_commands (to_upper word) ≡ false
      → handle env (word ∷ args) clock c n ≡ done (enqueue (word ∷ args) c n)
  unfolding handle
  handle_queued word args user active control = simp (user, active, control)

  pub handle-auth :
      (word : Bytes) (args : List Bytes)
      → c.has_user ≡ false
      → (transaction_of c n).active ≡ false
      → c.subscribed ≡ []
      → to_upper word ≡ codes "AUTH"
      → handle env (word ∷ args) clock c n ≡ done (auth env.digest args c n)
  unfolding handle in_mode dispatch run_verb bytes_eq
  handle-auth word args user inactive subscribed is_auth =
      simp (user, inactive, subscribed, is_auth)

  pub dispatch-exec :
      (cmd args : List Bytes)
      → dispatch env (codes "EXEC") cmd args clock c n ≡ Transactions.exec env clock c n
  unfolding dispatch run_verb bytes_eq
  dispatch-exec cmd args = refl

  pub dispatch-multi :
      (cmd args : List Bytes)
      → dispatch env (codes "MULTI") cmd args clock c n ≡ done (Transactions.multi c n)
  unfolding dispatch run_verb bytes_eq
  dispatch-multi cmd args = refl

  pub dispatch-watch :
      (cmd args : List Bytes)
      → dispatch env (codes "WATCH") cmd args clock c n ≡ done (Transactions.watch args c n)
  unfolding dispatch run_verb bytes_eq
  dispatch-watch cmd args = refl
