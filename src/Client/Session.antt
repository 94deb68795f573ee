-- ===== src/Client/Session.antt =====
-- The loop of `handleClient` over several commands, each answered before the next is read.
use redis_go.Base.{ℕ, ◌≡◌, List, [], ◌∷◌, Bytes}
use redis_go.Store.{done}
use redis_go.Commands.{Env}
use redis_go.Client.{handle}
use redis_go.Client.State.{Client, Node, ready}

-- The connection, the program's shared parts, the commands and their replies, and what becomes of both.
pub data Session (env : Env)
    : Client → Node → List (List Bytes) → List Bytes → Client → Node → Type 0 where
  stop : {c : Client} {n : Node} → Session env c n [] [] c n
  round :
      {c c' c'' : Client} {n n' n'' : Node} {cmd : List Bytes} {cmds : List (List Bytes)}
      {reply : Bytes} {replies : List Bytes} (clock : ℕ → ℕ)
      → handle env cmd clock c n ≡ done (ready reply c' n')
      → Session env c' n' cmds replies c'' n''
      → Session env c n (cmd ∷ cmds) (reply ∷ replies) c'' n''
