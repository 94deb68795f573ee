-- ===== src/Commands/Cases.antt =====
-- Where the switch of `handleCommands` leads, by the name in capitals.
use redis_go.Base.{ℕ, ◌≡◌, refl, List, ◌∷◌, Bytes, codes, bytes_eq}
use redis_go.Base.Dict.{get_or}
use redis_go.Commands.{World, Env, on_store, on_users, command_of, run, handle_commands}
use redis_go.Commands.Reply.{to_upper}
use redis_go.Commands.Strings
use redis_go.Commands.Admin

module _ (env : Env) (word : Bytes) (args : List Bytes) (now : ℕ) (w : World) where
  pub handle_commands-set :
      to_upper word ≡ codes "SET"
      → handle_commands env (word ∷ args) now w ≡ on_store w (Strings.set args now w.store)
  unfolding handle_commands command_of run bytes_eq get_or
  handle_commands-set h = rw h refl

  pub handle_commands-get :
      to_upper word ≡ codes "GET"
      → handle_commands env (word ∷ args) now w ≡ on_store w (Strings.get args now w.store)
  unfolding handle_commands command_of run bytes_eq get_or
  handle_commands-get h = rw h refl

  pub handle_commands-acl :
      to_upper word ≡ codes "ACL"
      → handle_commands env (word ∷ args) now w ≡ on_users w (Admin.acl env.digest args w.users)
  unfolding handle_commands command_of run bytes_eq get_or
  handle_commands-acl h = rw h refl
