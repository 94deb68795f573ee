-- ===== src/Client/Replicas.antt =====
-- The cases PSYNC, REPLCONF and WAIT of `handleClient`.
use redis_go.Base.{
  ℕ, ◌+◌, ◌-◌, ◌*◌, List, [], ◌∷◌, ◌++◌, Option, none, some, leb, ◌==◌, if◌then◌else◌, Bytes, codes,
  length,
}
use redis_go.Base.Int.{ℤ, pos_part}
use redis_go.Decimal.{format, parse_int, int_value}
use redis_go.Resp.Write.{crlf, integer}
use redis_go.Replication as replicas
use redis_go.Replication.{equal_fold, counted, asked, wait, wait_round}
use redis_go.Client.State.{Client, Node, Step, ready, Counting, counting}

abbrev hex_digit : ℕ → ℕ
hex_digit c = if leb b'a' c then c - b'a' + 10 else c - b'0'

-- `hex.DecodeString`, on digits in lower case.
unfoldable pub hex_decode : Bytes → Bytes
hex_decode (a ∷ b ∷ s) = (16 * hex_digit a + hex_digit b) ∷ hex_decode s
hex_decode _ = []

unfoldable pub empty_rdb : Bytes
unfolding hex_decode
empty_rdb = hex_decode (
    codes
      "524544495330303131fa0972656469732d76657205372e322e30fa0a72656469732d62697473c040fa056374696d65c26d08bc65fa08757365642d6d656dc2b0c41000fa08616f662d62617365c000fff06e3bfec0ff5aa2")

-- The reply, then the connection joins the replicas.
unfoldable pub psync : Bytes → Client → Node → Step
unfolding empty_rdb
psync replication_id c n =
    ready
      (codes "+FULLRESYNC "
        ++ (replication_id
            ++ (codes " 0\r\n" ++ (b'$' ∷ (format (length empty_rdb) ++ (crlf ++ empty_rdb))))))
      c (record n { replicas = replicas.add c.conn n.replicas })

unfoldable pub acknowledge : Bytes → Client → Node → Step
acknowledge raw c n = elim (parse_int raw) [
  | none ↦ ready [] c n
  | some offset ↦ ready [] c (record n { replicas = replicas.ack c.conn offset n.replicas })
]

unfoldable pub replconf : List Bytes → Client → Node → Step
unfolding acknowledge replicas.fold
replconf (sub ∷ raw ∷ _) c n =
    if equal_fold sub (codes "ACK") then acknowledge raw c n else ready (codes "+OK\r\n") c n
replconf _ c n = ready (codes "+OK\r\n") c n

-- One round of the loop of `wait`: it replies, or waits for the next acknowledgement. A negative number
-- of replicas is reached at once, as 0 is.
unfoldable pub wait_step : ℕ → ℤ → Client → Node → Step
wait_step wanted target c n = elim (wait_round wanted target n.replicas) [
  | some count ↦ ready (integer count) c n
  | none ↦
      counting
        (record {
          wanted = wanted;
          target = target;
          count = replicas.count_acked target n.replicas.replicas;
          ack_ch = n.replicas.ack_ch;
        })
        c n
]

unfoldable pub wait_for : List Bytes → Client → Node → Step
unfolding wait_step
wait_for (count ∷ timeout ∷ _) c n = elim (wait n.replicas) [
  | counted k ↦ ready (integer k) c n
  | asked target r ↦ wait_step (pos_part (int_value count)) target c (record n { replicas = r })
]
wait_for _ c n = ready (codes "-ERR invalid number of arguments for 'wait'\r\n") c n

-- `case <-ch`: possible where an acknowledgement has closed the channel.
unfoldable pub wait_woken : Counting → Client → Node → Option Step
unfolding wait_step
wait_woken w c n =
    if n.replicas.ack_ch == w.ack_ch then none else some (wait_step w.wanted w.target c n)

-- `case <-timeoutCh`: the count of the last round.
unfoldable pub wait_timeout : Counting → Client → Node → Step
wait_timeout w c n = ready (integer w.count) c n
