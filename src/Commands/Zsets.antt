-- ===== src/Commands/Zsets.antt =====
-- The cases ZADD, ZRANK, ZRANGE, ZCARD, ZSCORE and ZREM of app/handleCommands.go.
use redis_go.Base.{ℕ, List, [], ◌∷◌, ◌++◌, none, some, Bytes, codes}
use redis_go.Base.Floats.{Floats}
use redis_go.Decimal.{int_value}
use redis_go.Resp.Write.{bulk, bulk_string, integer}
use redis_go.Store.{Store, Result, ok, err, Outcome, done, panic, ◌>>=◌}
use redis_go.Store.Zsets as store
use redis_go.Commands.Reply.{error_text, error_line, null_bulk}

-- The reply of ZADD and of GEOADD, whose errors are written alike but for a prefix.
unfoldable pub added_reply : Bytes → Result ℕ → Bytes
unfolding error_line error_text
added_reply prefix (err e) = error_line (prefix ++ error_text e)
added_reply prefix (ok n) = integer n

module _ (floats : Floats) where
  -- A score that does not parse is used as `ParseFloat` returns it.
  unfoldable pub zadd : List Bytes → Store → Outcome (Bytes × Store)
  unfolding added_reply
  zadd (key ∷ score ∷ member ∷ _) s = do
    (r, s') ← store.zadd key (floats.parse score).0 member s
    done (added_reply (codes "ERR ") r, s')
  zadd _ s = done (codes "-ERR invalid number of arguments for 'zadd'\r\n", s)

  unfoldable pub zscore : List Bytes → Store → Outcome (Bytes × Store)
  zscore (key ∷ member ∷ _) s = do
    score ← store.zscore key member s
    done (elim score [ none ↦ null_bulk | some x ↦ bulk (floats.format x) ], s)
  zscore _ s = done (codes "-ERR invalid number of arguments for 'zscore'\r\n", s)

unfoldable pub zrank : List Bytes → Store → Outcome (Bytes × Store)
zrank (key ∷ member ∷ _) s = do
  rank ← store.zrank key member s
  done (elim rank [ none ↦ null_bulk | some i ↦ integer i ], s)
zrank _ s = done (codes "-ERR invalid number of arguments for 'zrange'\r\n", s)

unfoldable pub zrange : List Bytes → Store → Outcome (Bytes × Store)
zrange (key ∷ start ∷ stop ∷ _) s = do
  names ← store.zrange key (int_value start) (int_value stop) s
  done (bulk_string names, s)
zrange _ s = done (codes "-ERR invalid number of arguments for 'zrange'\r\n", s)

unfoldable pub zcard : List Bytes → Store → Outcome (Bytes × Store)
zcard [] s = panic
zcard (key ∷ _) s = do n ← store.zcard key s; done (integer n, s)

unfoldable pub zrem : List Bytes → Store → Outcome (Bytes × Store)
zrem (key ∷ member ∷ _) s = do (n, s') ← store.zrem key member s; done (integer n, s')
zrem _ s = done (codes "-ERR invalid number of arguments for 'zrem'\r\n", s)
