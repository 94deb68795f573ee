-- ===== src/Commands/Durable.antt =====
-- The commands whose effect does not depend on the clock, and those that have none.
use redis_go.Base.{
  ℕ, ◌≡◌, refl, ap, Bool, true, false, List, [], ◌∷◌, arith, Bytes, codes, bytes_eq, length, not,
  ◌==◌, ◌%◌, ◌||◌, if◌then◌else◌,
}
use mathlib.Core.Path.{subst}
use redis_go.Config.{Config}
use redis_go.Store.{Store, Outcome, done, panic, blocked, ◌>>=◌}
use redis_go.Store.Streams as streams
use redis_go.Store.Streams.Block.{Xread, found, waiting, xread_block}
use redis_go.Commands.{
  World, Env, Command, set, xadd, zrem, setbit, bitop, geoadd, acl, incr, rpush, lpush, lpop, blpop,
  zadd, unknown, ping, echo, type, llen, lrange, xrange, xread, info, keys, config, zrank, zrange,
  zcard, zscore, getbit, strlen, bitcount, geopos, geodist, geosearch, milli_of, run, command_of,
  handle_commands, on_store, on_waiting,
}
use redis_go.Commands.Strings
use redis_go.Commands.Progress.{Handled, replied, waiting_pop, waiting_read}
use redis_go.Commands.Reads.{
  Keeps, echo-Keeps, get-Keeps, type-Keeps, keys-Keeps, llen-Keeps, lrange-Keeps, xrange-Keeps,
  zrank-Keeps, zrange-Keeps, zcard-Keeps, zscore-Keeps, getbit-Keeps, strlen-Keeps, bitcount-Keeps,
  geopos-Keeps, geodist-Keeps, geosearch-Keeps,
}
use redis_go.Commands.Streams

-- No expiry is given.
abbrev pub IsLasting : List Bytes → Type 0
IsLasting (key ∷ value ∷ px ∷ ms ∷ []) = ⊥
IsLasting _ = Unit

-- The ID is not made up from the clock.
abbrev pub HasId : List Bytes → Type 0
HasId (key ∷ id ∷ _) = bytes_eq id (codes "*") ≡ false
HasId _ = Unit

abbrev pub IsDurableAs : Command → List Bytes → Type 0
IsDurableAs set args = IsLasting args
IsDurableAs xadd args = HasId args
IsDurableAs zrem args = ⊥
IsDurableAs setbit args = ⊥
IsDurableAs bitop args = ⊥
IsDurableAs geoadd args = ⊥
IsDurableAs acl args = ⊥
IsDurableAs _ args = Unit

-- A command that changes nothing, or whose change is written down and is the same at any time.
abbrev pub IsDurable : List Bytes → Type 0
IsDurable [] = ⊥
IsDurable (name ∷ args) = IsDurableAs (command_of name) args

abbrev pub is_logged : Command → Bool
is_logged set = true
is_logged incr = true
is_logged rpush = true
is_logged lpush = true
is_logged lpop = true
is_logged blpop = true
is_logged xadd = true
is_logged zadd = true
is_logged _ = false

store_xadd_same :
    (key raw : Bytes) (fields : List Bytes) (now later : ℕ) (s : Store)
    → bytes_eq raw (codes "*") ≡ false
    → streams.xadd key raw fields now s ≡ streams.xadd key raw fields later s
unfolding streams.xadd streams.add_to_entry streams.new_id
store_xadd_same key raw fields now later s h = ground (arith, h)

xadd_same :
    (args : List Bytes) (now later : ℕ) (s : Store)
    → HasId args
    → Streams.xadd args now s ≡ Streams.xadd args later s
unfolding Streams.xadd
xadd_same (key ∷ id ∷ f ∷ v ∷ fields) now later s h =
    rw (store_xadd_same key id (f ∷ v ∷ fields) now later s h) refl
xadd_same (key ∷ id ∷ f ∷ []) now later s h = refl
xadd_same (key ∷ id ∷ []) now later s h = refl
xadd_same (key ∷ []) now later s h = refl
xadd_same [] now later s h = refl

set_same :
    (args : List Bytes) (now later : ℕ) (s : Store)
    → IsLasting args
    → Strings.set args now s ≡ Strings.set args later s
unfolding Strings.set
set_same [] now later s h = refl
set_same (a ∷ []) now later s h = refl
set_same (a ∷ b ∷ []) now later s h = refl
set_same (a ∷ b ∷ c ∷ []) now later s h = refl
set_same (a ∷ b ∷ c ∷ d ∷ []) now later s h = elim h [ ]
set_same (a ∷ b ∷ c ∷ d ∷ e ∷ rest) now later s h = refl

abbrev pub world_of : Handled World → World
world_of (replied reply w) = w
world_of (waiting_pop asked ch w) = w
world_of (waiting_read ids ch w) = w

-- A reply, or the wait for one, leaves the world as it was.
abbrev pub Unchanged : World → Outcome (Handled World) → Type 0
Unchanged w (done h) = world_of h ≡ w
Unchanged w _ = Unit

pub Unchanged-on_store :
    (w : World) (o : Outcome (Bytes × Store)) → Keeps w.store o → Unchanged w (on_store w o)
Unchanged-on_store w (done (reply, s)) h = ap (λ (s' : Store). record w { store = s' }) h
Unchanged-on_store w panic h = tt
Unchanged-on_store w blocked h = tt

Unchanged-if :
    (w : World) (b : Bool) (x y : Outcome (Handled Store))
    → Unchanged w (on_waiting w x)
    → Unchanged w (on_waiting w y)
    → Unchanged w (on_waiting w (if b then x else y))
Unchanged-if w true x y hx hy = hx
Unchanged-if w false x y hx hy = hy

Unchanged-found :
    (w : World) (o : Outcome Xread)
    → Unchanged w (on_waiting w (do r ← o; done (Streams.xread_step r w.store)))
unfolding Streams.xread_step
Unchanged-found w (done (found results)) = refl
Unchanged-found w (done (waiting ids ch)) = refl
Unchanged-found w panic = tt
Unchanged-found w blocked = tt

Unchanged-read :
    {A : Type 0} (w : World) (o : Outcome A) (f : A → Bytes)
    → Unchanged w (on_waiting w (do a ← o; done (replied (f a) w.store)))
Unchanged-read w (done a) f = refl
Unchanged-read w panic f = tt
Unchanged-read w blocked f = tt

Unchanged-xread_streams :
    (w : World) (block : Bool) (args : List Bytes)
    → Unchanged w (on_waiting w (Streams.xread_streams block args w.store))
unfolding Streams.xread_streams
Unchanged-xread_streams w block args =
    Unchanged-if w (length args == 0 || not (length args % 2 == 0)) _ _ refl (
      Unchanged-if w block _ _
        (Unchanged-found w (xread_block (Streams.keys_with_ids args) w.store))
        (Unchanged-read w (streams.xread (Streams.keys_with_ids args) w.store) Streams.xread_reply))

Unchanged-xread :
    (w : World) (args : List Bytes) → Unchanged w (on_waiting w (Streams.xread args w.store))
unfolding Streams.xread
Unchanged-xread w args =
    elim (Streams.scan_options false args)
      as (λ (o : Streams.Options). Unchanged w (
        on_waiting w (elim o [
          | Streams.syntax_error ↦ done (replied (codes "-ERR syntax error\r\n") w.store)
          | Streams.bad_timeout ↦
              done (replied (codes "-ERR timeout is not an integer or out of range\r\n") w.store)
          | Streams.streams block rest ↦ Streams.xread_streams block rest w.store
        ]))) [
          | Streams.syntax_error ↦ refl
          | Streams.bad_timeout ↦ refl
          | Streams.streams block rest ↦ Unchanged-xread_streams w block rest
        ]

-- What a case of the switch does not depend on, or leaves as it is.
abbrev pub Settled : Bool → (Env → ℕ → Outcome (Handled World)) → Env → World → Type 0
Settled true f env w =
    (cfg : Config) (now later : ℕ) → f env now ≡ f (record env { config = cfg }) later
Settled false f env w = (now : ℕ) → Unchanged w (f env now)

module _ (env : Env) (name : Bytes) (args : List Bytes) (w : World) where
  pub run-Settled :
      (c : Command)
      → IsDurableAs c args
      → Settled (is_logged c) (λ e now. run e c name args now w) env w
  unfolding run
  run-Settled ping h = λ now. refl
  run-Settled echo h = λ now. Unchanged-on_store w _ (echo-Keeps args w.store)
  run-Settled set h = λ cfg now later. ap (on_store w) (set_same args now later w.store h)
  run-Settled Command.get h = λ now. Unchanged-on_store w _ (get-Keeps args now w.store)
  run-Settled incr h = λ cfg now later. refl
  run-Settled type h = λ now. Unchanged-on_store w _ (type-Keeps args w.store)
  run-Settled rpush h = λ cfg now later. refl
  run-Settled lpush h = λ cfg now later. refl
  run-Settled llen h = λ now. Unchanged-on_store w _ (llen-Keeps args w.store)
  run-Settled lrange h = λ now. Unchanged-on_store w _ (lrange-Keeps args w.store)
  run-Settled lpop h = λ cfg now later. refl
  run-Settled blpop h = λ cfg now later. refl
  run-Settled xadd h =
      λ cfg now later. ap (on_store w) (xadd_same args (milli_of now) (milli_of later) w.store h)
  run-Settled xrange h = λ now. Unchanged-on_store w _ (xrange-Keeps args w.store)
  run-Settled xread h = λ now. Unchanged-xread w args
  run-Settled info h = λ now. refl
  run-Settled keys h = λ now. Unchanged-on_store w _ (keys-Keeps args w.store)
  run-Settled config h = λ now. refl
  run-Settled zadd h = λ cfg now later. refl
  run-Settled zrank h = λ now. Unchanged-on_store w _ (zrank-Keeps args w.store)
  run-Settled zrange h = λ now. Unchanged-on_store w _ (zrange-Keeps args w.store)
  run-Settled zcard h = λ now. Unchanged-on_store w _ (zcard-Keeps args w.store)
  run-Settled zscore h = λ now. Unchanged-on_store w _ (zscore-Keeps env.floats args w.store)
  run-Settled zrem h = elim h [ ]
  run-Settled setbit h = elim h [ ]
  run-Settled getbit h = λ now. Unchanged-on_store w _ (getbit-Keeps args now w.store)
  run-Settled strlen h = λ now. Unchanged-on_store w _ (strlen-Keeps args now w.store)
  run-Settled bitcount h = λ now. Unchanged-on_store w _ (bitcount-Keeps args w.store)
  run-Settled bitop h = elim h [ ]
  run-Settled geoadd h = elim h [ ]
  run-Settled geopos h = λ now. Unchanged-on_store w _ (geopos-Keeps env.floats args now w.store)
  run-Settled geodist h = λ now. Unchanged-on_store w _ (geodist-Keeps env.floats args w.store)
  run-Settled geosearch h = λ now. Unchanged-on_store w _ (geosearch-Keeps env.floats args w.store)
  run-Settled acl h = elim h [ ]
  run-Settled unknown h = λ now. refl

  pub handle_commands-logged :
      (cfg : Config) (now later : ℕ)
      → is_logged (command_of name) ≡ true
      → IsDurable (name ∷ args)
      → handle_commands env (name ∷ args) now w
        ≡ handle_commands (record env { config = cfg }) (name ∷ args) later w
  unfolding handle_commands
  handle_commands-logged cfg now later logged durable =
      subst (λ b. Settled b (λ e t. run e (command_of name) name args t w) env w) logged
        (run-Settled (command_of name) durable) cfg now later

  pub handle_commands-unlogged :
      (now : ℕ)
      → is_logged (command_of name) ≡ false
      → IsDurable (name ∷ args)
      → Unchanged w (handle_commands env (name ∷ args) now w)
  unfolding handle_commands
  handle_commands-unlogged now unlogged durable =
      subst (λ b. Settled b (λ e t. run e (command_of name) name args t w) env w) unlogged
        (run-Settled (command_of name) durable) now
