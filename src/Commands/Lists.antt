-- ===== src/Commands/Lists.antt =====
-- The cases RPUSH, LPUSH, LLEN, LRANGE, LPOP and BLPOP of app/handleCommands.go.
use redis_go.Base.{
  ℕ, Bool, not, ◌||◌, List, [], ◌∷◌, Option, none, some, if◌then◌else◌, Bytes, codes, length,
}
use redis_go.Base.Int.{pos, negsuc}
use redis_go.Base.Floats.{Floats}
use redis_go.Decimal.{parse_int}
use redis_go.Resp.Write.{bulk, bulks_onto, array_header, write_array, integer}
use redis_go.Store.{Store, Popped, Outcome, done, panic, ◌>>=◌}
use redis_go.Store.Lists as store
use redis_go.Store.Lists.{popped, waiting}
use redis_go.Store.Zsets.{float_lt}
use redis_go.Commands.Reply.{null_bulk, null_array}
use redis_go.Commands.Progress.{Handled, replied, waiting_pop}

unfoldable pub rpush : List Bytes → Store → Outcome (Bytes × Store)
rpush (key ∷ v ∷ values) s = do (n, s') ← store.rpush key (v ∷ values) s; done (integer n, s')
rpush _ s = done (codes "-ERR wrong number of arguments for 'rpush' command\r\n", s)

unfoldable pub lpush : List Bytes → Store → Outcome (Bytes × Store)
lpush (key ∷ v ∷ values) s = let (n, s') = store.lpush key (v ∷ values) s in done (integer n, s')
lpush _ s = done (codes "-ERR wrong number of arguments for 'lpush' command\r\n", s)

unfoldable pub llen : List Bytes → Store → Outcome (Bytes × Store)
llen (key ∷ []) s = done (integer (store.llen key s), s)
llen _ s = done (codes "-ERR wrong number of arguments for 'llen' command\r\n", s)

-- An empty slice is written apart.
unfoldable pub write_slice : List Bytes → Bytes
write_slice [] = codes "*0\r\n"
write_slice (x ∷ xs) = bulks_onto (array_header (length (x ∷ xs))) (x ∷ xs)

unfoldable pub lrange : List Bytes → Store → Outcome (Bytes × Store)
unfolding write_slice
lrange (key ∷ start ∷ stop ∷ []) s = elim (parse_int start) [
  | none ↦ done (codes "-ERR value is not an integer or out of range\r\n", s)
  | some a ↦ elim (parse_int stop) [
    | none ↦ done (codes "-ERR value is not an integer or out of range\r\n", s)
    | some b ↦ (do xs ← store.lrange key a b s; done (write_slice xs, s))
  ]
]
lrange _ s = done (codes "-ERR wrong number of arguments for 'lrange' command\r\n", s)

-- `ans[0]`, out of range where nothing was popped.
unfoldable pub lpop_one : Bytes → Store → Outcome (Bytes × Store)
lpop_one key s = do
  (ans, s') ← store.lpop key 1 s
  elim ans [
    | none ↦ done (null_bulk, s')
    | some found ↦ elim found [ [] ↦ panic | v ∷ _ ↦ done (bulk v, s') ]
  ]

unfoldable pub lpop_count : Bytes → ℕ → Store → Outcome (Bytes × Store)
lpop_count key n s = do
  (ans, s') ← store.lpop key n s
  done (elim ans [ none ↦ null_array | some found ↦ write_array found ], s')

unfoldable pub lpop : List Bytes → Store → Outcome (Bytes × Store)
unfolding lpop_one lpop_count
lpop [] s = done (codes "-ERR wrong number of arguments for 'lpop' command\r\n", s)
lpop (key ∷ []) s = lpop_one key s
lpop (key ∷ count ∷ _) s = elim (parse_int count) [
  | none ↦ done (codes "-ERR value is out of range, must be positive\r\n", s)
  | some v ↦ elim v [
    | negsuc n ↦ done (codes "-ERR value is out of range, must be positive\r\n", s)
    | pos n ↦ lpop_count key n s
  ]
]

-- All but the last argument, and the last one.
unfoldable pub split_last : Bytes → List Bytes → List Bytes × Bytes
split_last x [] = ([], x)
split_last x (y ∷ ys) = let (init, last) = split_last y ys in (x ∷ init, last)

-- `writeArray(w, []string{p.key, p.value})`
unfoldable pub popped_reply : Popped → Bytes
popped_reply p = write_array (p.key ∷ p.value ∷ [])

unfoldable pub blpop_keys : List Bytes → Store → Handled Store
unfolding popped_reply
blpop_keys keys s = elim (store.blpop keys s) [
  | popped p s' ↦ replied (popped_reply p) s'
  | waiting ch s' ↦ waiting_pop keys ch s'
]

module _ (floats : Floats) where
  -- The timeout is no number, or `secs < 0`.
  unfoldable pub bad_timeout : Bytes → Bool
  bad_timeout raw =
      let (secs, fine) = floats.parse raw in not fine || float_lt secs (floats.of_uint 0)

  unfoldable pub blpop : List Bytes → Store → Outcome (Handled Store)
  unfolding bad_timeout blpop_keys split_last
  blpop (key ∷ x ∷ xs) s =
      let (keys, timeout) = split_last x xs in
      if bad_timeout timeout
      then done (replied (codes "-ERR timeout is not a float or out of range\r\n") s)
      else done (blpop_keys (key ∷ keys) s)
  blpop _ s = done (replied (codes "-ERR wrong number of arguments for 'blpop' command\r\n") s)

-- BLPOP behind its select: a value came, or the timeout or the end of the program (a value that was
-- sent in the meantime is still received).
unfoldable pub pop_received : ℕ → Store → Option (Bytes × Store)
unfolding popped_reply
pop_received ch s = elim (store.receive ch s) [
  | none ↦ none
  | some (p, s') ↦ some (popped_reply p, s')
]

unfoldable pub pop_cancelled : List Bytes → ℕ → Store → Outcome (Bytes × Store)
unfolding popped_reply
pop_cancelled keys ch s = do
  (p, s') ← store.cancel_wait keys ch s
  done (elim p [ none ↦ null_array | some v ↦ popped_reply v ], s')
