-- ===== src/Tests/Streaming.antt =====
-- The append-only file, replication and channels on concrete inputs.
use redis_go.Base.{ℕ, suc, ◌≡◌, List, [], ◌∷◌, ◌++◌, arith, Bytes, codes, length, if◌then◌else◌}
use redis_go.Base.Dict.{get, get_or}
use redis_go.Resp.Reader.RoundTrip.{IsSendable}
use redis_go.Pubsub.{Pubsub, is_member, subscribers, subscribe, deliver, encode_delivery_message}
use redis_go.Pubsub.Delivery.{SetsDistinct, written-deliver, subscribe-SetsDistinct}

-- A state that counts the commands.
abbrev count : List Bytes → ℕ → ℕ
count cmd n = suc n

abbrev cmds : List (List Bytes)
cmds = (codes "INCR" ∷ codes "n" ∷ []) ∷ (codes "REPLCONF" ∷ codes "GETACK" ∷ codes "*" ∷ []) ∷ []

incr-IsSendable : IsSendable (codes "INCR" ∷ codes "n" ∷ [])
incr-IsSendable = record { not_empty = cc; few = omega arith; fit = omega arith }

getack-IsSendable : IsSendable (codes "REPLCONF" ∷ codes "GETACK" ∷ codes "*" ∷ [])
getack-IsSendable = record { not_empty = cc; few = omega arith; fit = omega arith }

abbrev channel : Bytes
channel = codes "news"

abbrev quiet : Pubsub
quiet = record { channels = []; written = λ c. [] }

quiet-SetsDistinct : SetsDistinct quiet
quiet-SetsDistinct = record { at = λ j. unfold get_or get in tt }

joined-SetsDistinct : SetsDistinct (subscribe channel 3 quiet)
joined-SetsDistinct = (subscribe-SetsDistinct channel 3 quiet quiet-SetsDistinct).0

written-deliver_example :
    ((deliver channel (codes "hi") (subscribe channel 3 quiet)).1.written 3 ≡ (
      if is_member (subscribers channel (subscribe channel 3 quiet)) 3
      then (subscribe channel 3 quiet).written 3 ++ encode_delivery_message channel (codes "hi")
      else (subscribe channel 3 quiet).written 3))
    × ((deliver channel (codes "hi") (subscribe channel 3 quiet)).0
        ≡ length (subscribers channel (subscribe channel 3 quiet)))
written-deliver_example =
    written-deliver channel (codes "hi") 3 (subscribe channel 3 quiet) joined-SetsDistinct
