-- ===== src/Commands/Answers/Typed.antt =====
-- The commands that reply whatever their arguments are, on a store where the kinds are kept.
use redis_go.Base.{
  ℕ, ◌≡◌, refl, true, not, ◌==◌, ◌%◌, List, [], ◌∷◌, Bool-cases, inl, inr, Option, none, some,
  arith, if◌then◌else◌, Bytes, codes, length,
}
use redis_go.Base.Dict.{get}
use redis_go.Store.{
  Store, Entry, zero_entry, Kind, untyped, string, zset, Stream, StreamId, Zset, invalid_id, ok,
  stream, Outcome, done, panic, is_kind, err, wrong_type,
}
use redis_go.Store.Streams as streams
use redis_go.Store.Kinds.{IsTyped, IsBacked, Backed}
use redis_go.Commands.{
  World, Env, Command, milli_of, run, command_of, handle_commands, ping, echo, set, incr, type,
  lpush, llen, lrange, xadd, xrange, info, config, setbit, getbit, strlen, unknown, rpush, lpop,
  blpop, xread, keys, zadd, zrank, zrange, zcard, zscore, zrem, bitcount, bitop, geoadd, geopos,
  geodist, geosearch, acl,
}
use redis_go.Commands.Progress.{replied}
use redis_go.Commands.Streams
use redis_go.Commands.Answers.{
  IsDone, IsDone-elim, IsDone-if, IsDone-bind, Replies, Replies-on_store, set-IsDone, echo-IsDone,
  get-IsDone, incr-IsDone, type-IsDone, lpush-IsDone, llen-IsDone, lrange-IsDone, setbit-IsDone,
  getbit-IsDone, strlen-IsDone,
}

-- Where the kind says that there is a stream, there is one.
stream-IsDone :
    {A : Type 0} (k : Kind) (st : Option Stream) (z : Option Zset) (f : Stream → Outcome A)
    → is_kind k stream ≡ true
    → Backed k st z
    → ((x : Stream) → IsDone (f x))
    → IsDone (elim st [ none ↦ panic | some x ↦ f x ])
stream-IsDone k (some x) z f same backed h = h x
stream-IsDone stream none z f same backed h = elim backed [ ]
stream-IsDone untyped none z f same backed h = absurd (ground (arith, same))
stream-IsDone string none z f same backed h = absurd (ground (arith, same))
stream-IsDone zset none z f same backed h = absurd (ground (arith, same))

stream_entry-IsDone :
    {A : Type 0} (e : Entry) (x : A) (f : Stream → A)
    → IsBacked (some e)
    → IsDone (
        if not (is_kind e.kind stream)
        then done x
        else elim e.stream [ none ↦ panic | some st ↦ done (f st) ])
stream_entry-IsDone e x f backed = elim (Bool-cases (is_kind e.kind stream)) [
  | inl same ↦
      rw same (stream-IsDone e.kind e.stream e.zset (λ st. done (f st)) same backed λ st. tt)
  | inr other ↦ rw other tt
]

module _ (s : Store) (h : IsTyped s.entries) where
  store_xadd-IsDone :
      (key raw : Bytes) (fields : List Bytes) (now : ℕ) → IsDone (streams.xadd key raw fields now s)
  unfolding streams.xadd streams.add_to_entry
  store_xadd-IsDone key raw fields now =
      elim (get s.entries key)
          as (λ (o : Option Entry).
            IsBacked o
            → IsDone (elim o [
              | none ↦
                  streams.add_to_entry key raw fields now
                    (record zero_entry { kind = stream; stream = some streams.empty_stream }) s
              | some e ↦
                  if not (is_kind e.kind stream)
                  then done (err wrong_type, s)
                  else streams.add_to_entry key raw fields now e s
            ])) [
              | none ↦ λ b. tt
              | some e ↦ λ b.
                  stream_entry-IsDone e (err wrong_type, s)
                    (λ st.
                      streams.add_checked key e st (streams.new_id now st.last_id raw) fields s)
                    b
            ]
        (h.at key)

  xadd-IsDone : (args : List Bytes) (now : ℕ) → IsDone (Streams.xadd args now s)
  unfolding Streams.xadd
  xadd-IsDone [] now = tt
  xadd-IsDone (a ∷ []) now = tt
  xadd-IsDone (a ∷ b ∷ []) now = tt
  xadd-IsDone (a ∷ b ∷ c ∷ []) now = tt
  xadd-IsDone (a ∷ b ∷ c ∷ d ∷ rest) now =
      IsDone-if (not (length rest % 2 == 0))
        (done (codes "-ERR wrong number of arguments for 'xadd' command\r\n", s)) _ tt
        (IsDone-bind (streams.xadd a b (c ∷ d ∷ rest) now s) _
          (store_xadd-IsDone a b (c ∷ d ∷ rest) now))

  range_of_entry-IsDone :
      (start stop : StreamId) (o : Option Entry)
      → IsBacked o
      → IsDone (streams.range_of_entry start stop o)
  unfolding streams.range_of_entry
  range_of_entry-IsDone start stop none b = tt
  range_of_entry-IsDone start stop (some e) b =
      stream_entry-IsDone e (err wrong_type) (λ st. ok (streams.filter_entries start stop st)) b

  store_xrange-IsDone : (key start stop : Bytes) → IsDone (streams.xrange key start stop s)
  unfolding streams.xrange
  store_xrange-IsDone key start stop =
      IsDone-elim (streams.start_id start) (done (err invalid_id)) _ tt λ a.
        IsDone-elim (streams.end_id stop) (done (err invalid_id))
          (λ b. streams.range_of_entry a b (get s.entries key)) tt
          λ b. range_of_entry-IsDone a b (get s.entries key) (h.at key)

  xrange-IsDone : (args : List Bytes) → IsDone (Streams.xrange args s)
  unfolding Streams.xrange
  xrange-IsDone [] = tt
  xrange-IsDone (a ∷ []) = tt
  xrange-IsDone (a ∷ b ∷ []) = tt
  xrange-IsDone (a ∷ b ∷ c ∷ []) =
      IsDone-bind (streams.xrange a b c s) _ (store_xrange-IsDone a b c)
  xrange-IsDone (a ∷ b ∷ c ∷ d ∷ rest) = tt

-- The cases that reply whatever their arguments are.
abbrev pub IsSafe : Command → Type 0
IsSafe ping = Unit
IsSafe echo = Unit
IsSafe set = Unit
IsSafe Command.get = Unit
IsSafe incr = Unit
IsSafe type = Unit
IsSafe lpush = Unit
IsSafe llen = Unit
IsSafe lrange = Unit
IsSafe xadd = Unit
IsSafe xrange = Unit
IsSafe info = Unit
IsSafe config = Unit
IsSafe setbit = Unit
IsSafe getbit = Unit
IsSafe strlen = Unit
IsSafe unknown = Unit
IsSafe _ = ⊥

module _ (env : Env) (name : Bytes) (args : List Bytes) (now : ℕ) (w : World)
    (h : IsTyped w.store.entries) where
  run-Replies : (c : Command) → IsSafe c → Replies (run env c name args now w)
  unfolding run
  run-Replies ping safe = (_, (_, refl))
  run-Replies echo safe = Replies-on_store w _ (echo-IsDone w.store args)
  run-Replies set safe = Replies-on_store w _ (set-IsDone w.store args now)
  run-Replies Command.get safe = Replies-on_store w _ (get-IsDone w.store args now)
  run-Replies incr safe = Replies-on_store w _ (incr-IsDone w.store args)
  run-Replies type safe = Replies-on_store w _ (type-IsDone w.store args)
  run-Replies rpush safe = elim safe [ ]
  run-Replies lpush safe = Replies-on_store w _ (lpush-IsDone w.store args)
  run-Replies llen safe = Replies-on_store w _ (llen-IsDone w.store args)
  run-Replies lrange safe = Replies-on_store w _ (lrange-IsDone w.store args)
  run-Replies lpop safe = elim safe [ ]
  run-Replies blpop safe = elim safe [ ]
  run-Replies xadd safe = Replies-on_store w _ (xadd-IsDone w.store h args (milli_of now))
  run-Replies xrange safe = Replies-on_store w _ (xrange-IsDone w.store h args)
  run-Replies xread safe = elim safe [ ]
  run-Replies info safe = (_, (_, refl))
  run-Replies keys safe = elim safe [ ]
  run-Replies config safe = (_, (_, refl))
  run-Replies zadd safe = elim safe [ ]
  run-Replies zrank safe = elim safe [ ]
  run-Replies zrange safe = elim safe [ ]
  run-Replies zcard safe = elim safe [ ]
  run-Replies zscore safe = elim safe [ ]
  run-Replies zrem safe = elim safe [ ]
  run-Replies setbit safe = Replies-on_store w _ (setbit-IsDone w.store args now)
  run-Replies getbit safe = Replies-on_store w _ (getbit-IsDone w.store args now)
  run-Replies strlen safe = Replies-on_store w _ (strlen-IsDone w.store args now)
  run-Replies bitcount safe = elim safe [ ]
  run-Replies bitop safe = elim safe [ ]
  run-Replies geoadd safe = elim safe [ ]
  run-Replies geopos safe = elim safe [ ]
  run-Replies geodist safe = elim safe [ ]
  run-Replies geosearch safe = elim safe [ ]
  run-Replies acl safe = elim safe [ ]
  run-Replies unknown safe = (_, (_, refl))

-- In the store each entry of kind stream has a stream, and each of kind zset a sorted set. Then PING, ECHO,
-- SET, GET, INCR, TYPE, LPUSH, LLEN, LRANGE, XADD, XRANGE, INFO, CONFIG, SETBIT, GETBIT, STRLEN, and a
-- name that is no command's, come to a reply, which may be empty, whatever their arguments are and at any
-- time: they do not panic, do not block and do not wait.
pub handle_commands-IsSafe :
    (env : Env) (name : Bytes) (args : List Bytes) (now : ℕ) (w : World)
    → IsTyped w.store.entries
    → IsSafe (command_of name)
    → (reply : Bytes) × ((w' : World) × (handle_commands env (name ∷ args) now w
          ≡ done (replied reply w')))
unfolding handle_commands
handle_commands-IsSafe env name args now w h safe =
    run-Replies env name args now w h (command_of name) safe
