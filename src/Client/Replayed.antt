-- ===== src/Client/Replayed.antt =====
-- What the commands that connections send do to the store, and what the same commands do when they are
-- read back from the append-only file.
use redis_go.Base.{
  ℕ, suc, ◌≡◌, refl, ap, ◌∙◌, sym, true, false, List, [], ◌∷◌, Bytes, All, Bool-cases, inl, inr,
  arith,
}
use mathlib.Core.Path.{subst}
use redis_go.Aof.Replay.{apply_all}
use redis_go.Store.{Outcome, done, panic, blocked}
use redis_go.Config.{Config}
use redis_go.Commands.{World, Env, handle_commands}
use redis_go.Commands.Durable.{
  IsDurable, Unchanged, handle_commands-logged, handle_commands-unlogged,
}
use redis_go.Commands.Progress.{Handled, replied, waiting_pop, waiting_read}
use redis_go.Commands.Reply.{to_upper}
use redis_go.Client.{handle, run_command, go_on, record_write}
use redis_go.Client.State.{Client, Node, Step, ready}
use redis_go.Client.Paths.{handle_plain}
use redis_go.Client.Logged.{
  IsPlain, IsOrdinary, Serving, stop, serve, writes, is_write, dispatch-other,
}
use redis_go.Client.Written.{has_name-is_logged}

record_write-world : (cmd : List Bytes) (n : Node) → (record_write cmd n).world ≡ n.world
unfolding record_write
record_write-world [] n = refl
record_write-world (word ∷ args) n = ground arith

-- The reply is that of `handleCommands`, and so is the world that it leaves.
abbrev pub Ran : Env → List Bytes → ℕ → Node → Outcome Step → Type 0
Ran env cmd now n (done (ready reply c' n')) =
    handle_commands env cmd now n.world ≡ done (replied reply n'.world)
Ran env cmd now n _ = Unit

run_command-Ran :
    (env : Env) (cmd : List Bytes) (clock : ℕ → ℕ) (c : Client) (n : Node)
    (o : Outcome (Handled World))
    → handle_commands env cmd (clock 0) n.world ≡ o
    → Ran env cmd (clock 0) n (run_command env cmd clock c n)
unfolding run_command go_on
run_command-Ran env cmd clock c n (done (replied reply w)) h = rw h (
    h
    ∙ ap (λ (v : World). done (replied reply v))
        (sym (record_write-world cmd (record n { world = w }))))
run_command-Ran env cmd clock c n (done (waiting_pop keys ch w)) h = rw h tt
run_command-Ran env cmd clock c n (done (waiting_read ids ch w)) h = rw h tt
run_command-Ran env cmd clock c n panic h = rw h tt
run_command-Ran env cmd clock c n blocked h = rw h tt

pub handle-Ran :
    (env : Env) (cmd : List Bytes) (clock : ℕ → ℕ) (c : Client) (n : Node)
    → IsPlain c n
    → IsOrdinary cmd
    → Ran env cmd (clock 0) n (handle env cmd clock c n)
handle-Ran env [] clock c n plain ordinary = elim ordinary [ ]
handle-Ran env (word ∷ args) clock c n plain ordinary =
    rw
      (
        handle_plain env clock c n word args plain.has_user plain.inactive plain.subscribed,
        dispatch-other env (to_upper word) (word ∷ args) args clock c n ordinary,
      )
      (run_command-Ran env (word ∷ args) clock c n _ refl)

-- An answer of `handleCommands` to a command, told apart by whether it is written down.
module _ (env : Env) (now : ℕ) (w w' : World) (reply : Bytes) where
  answered_write :
      (cfg : Config) (later : ℕ) (cmd : List Bytes)
      → is_write cmd ≡ true
      → IsDurable cmd
      → handle_commands env cmd now w ≡ done (replied reply w')
      → handle_commands (record env { config = cfg }) cmd later w ≡ done (replied reply w')
  answered_write cfg later [] write durable ran = elim durable [ ]
  answered_write cfg later (word ∷ args) write durable ran =
      sym (
        handle_commands-logged env word args w cfg now later (sym (has_name-is_logged word) ∙ write)
          durable)
      ∙ ran

  answered_read :
      (cmd : List Bytes)
      → is_write cmd ≡ false
      → IsDurable cmd
      → handle_commands env cmd now w ≡ done (replied reply w')
      → w' ≡ w
  answered_read [] read durable ran = elim durable [ ]
  answered_read (word ∷ args) read durable ran =
      subst (Unchanged w) ran (
        handle_commands-unlogged env word args w now (sym (has_name-is_logged word) ∙ read) durable)

module _ {S : Type 0} (env : Env) (cfg : Config) (apply : List Bytes → S → S)
    (state : ℕ → World → S)
    (applied : (cmd : List Bytes) (k : ℕ) (w w' : World) (reply : Bytes)
      → is_write cmd ≡ true
      → ((now : ℕ)
          → handle_commands (record env { config = cfg }) cmd now w ≡ done (replied reply w'))
      → apply cmd (state k w) ≡ state (suc k) w') where
  -- The write commands, applied to the world as it was before the run, lead to the world behind it.
  pub apply_all-writes :
      (n n' : Node) (cmds : List (List Bytes)) (k : ℕ)
      → Serving env n cmds n'
      → All IsDurable cmds
      → (k' : ℕ) × (apply_all apply (writes cmds) (state k n.world) ≡ state k' n'.world)
  unfolding apply_all
  apply_all-writes n n' cmds k stop durable = (k, refl)
  apply_all-writes n n' cmds k
        (serve {n' = next} {cmd = cmd} {cmds = more} clock c c' reply plain ordinary run rest)
        (durable, more_durable) =
      let ran : handle_commands env cmd (clock 0) n.world ≡ done (replied reply next.world) =
        subst (Ran env cmd (clock 0) n) run (handle-Ran env cmd clock c n plain ordinary) in
      elim (Bool-cases (is_write cmd)) [
        | inl write ↦
            let (k', e) = apply_all-writes next n' more (suc k) rest more_durable in
            (
              k',
              rw write (
                  ap (apply_all apply (writes more)) (
                    applied cmd k n.world next.world reply write λ now.
                      answered_write env (clock 0) n.world next.world reply cfg now cmd write
                        durable ran)
                  ∙ e),
            )
        | inr read ↦
            let (k', e) = apply_all-writes next n' more k rest more_durable in
            (
              k',
              rw read (
                  ap (λ (v : World). apply_all apply (writes more) (state k v))
                    (sym
                      (answered_read env (clock 0) n.world next.world reply cmd read durable ran))
                  ∙ e),
            )
      ]
