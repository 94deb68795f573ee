-- ===== src/Replication.antt =====
-- app/replication.go: the leader's set of replicas and its offset, and the loop by which a replica
-- follows. A connection is a number; what was written to it is kept in order.
pub mod Following
pub mod Handshake
use redis_go.Base.{
  ℕ, zero, suc, ◌+◌, ◌-◌, ◌^◌, Bool, true, false, not, ◌&&◌, ◌||◌, List, [], ◌∷◌, ◌++◌, Option,
  none, some, ltb, leb, ◌==◌, if◌then◌else◌, Bytes, codes, bytes_eq, length,
}
use redis_go.Base.Int.{ℤ, pos, negsuc, ltb_ℤ, ◌+ℤ◌}
use redis_go.Decimal.{format_int}
use redis_go.Resp.Write.{encode_command}
use redis_go.Resp.Reader.{ReadError, out_of_fuel, Result, ok, err, read_command}

pub record Replica : Type 0 where
  pub conn : ℕ
  pub acc_offset : ℤ

-- `ack_ch` counts the channels that were closed and made anew; `written` is what each connection got.
pub record ReplicaSet : Type 0 where
  pub replicas : List Replica
  pub offset : ℤ
  pub ack_ch : ℕ
  pub written : ℕ → Bytes

abbrev pub new_replica_set : ReplicaSet
new_replica_set = record { replicas = []; offset = pos 0; ack_ch = 0; written = λ conn. [] }

-- `int64` addition of a length, which wraps around.
unfoldable pub add_int64 : ℤ → ℕ → ℤ
add_int64 (pos a) n = if ltb (a + n) (2 ^ 63) then pos (a + n) else negsuc (2 ^ 64 - (a + n) - 1)
add_int64 (negsuc a) n = negsuc a +ℤ pos n

unfoldable pub write_to : ℕ → Bytes → (ℕ → Bytes) → ℕ → Bytes
write_to conn payload written c = if conn == c then written c ++ payload else written c

unfoldable pub broadcast : List Replica → Bytes → (ℕ → Bytes) → ℕ → Bytes
broadcast [] payload written = written
broadcast (r ∷ rest) payload written = broadcast rest payload (write_to r.conn payload written)

unfoldable pub propagate : List Bytes → ReplicaSet → ReplicaSet
propagate cmd r =
    let payload = encode_command cmd in
    record r {
      offset = add_int64 r.offset (length payload);
      written = broadcast r.replicas payload r.written;
    }

-- The new replica's offset is zero.
unfoldable pub add : ℕ → ReplicaSet → ReplicaSet
add conn r = record r { replicas = r.replicas ++ (record { conn = conn; acc_offset = pos 0 }) ∷ [] }

unfoldable pub without : ℕ → List Replica → List Replica
without conn [] = []
without conn (r ∷ rest) = let kept = without conn rest in if r.conn == conn then kept else r ∷ kept

unfoldable pub remove : ℕ → ReplicaSet → ReplicaSet
unfolding without
remove conn r = record r { replicas = without conn r.replicas }

-- The first replica on the connection; `none` where there is none.
unfoldable pub acknowledge : ℕ → ℤ → List Replica → Option (List Replica)
acknowledge conn offset [] = none
acknowledge conn offset (r ∷ rest) =
    let more = acknowledge conn offset rest in
    if r.conn == conn
    then some ((record r { acc_offset = offset }) ∷ rest)
    else elim more [ none ↦ none | some rest' ↦ some (r ∷ rest') ]

unfoldable pub ack : ℕ → ℤ → ReplicaSet → ReplicaSet
unfolding acknowledge
ack conn offset r = elim (acknowledge conn offset r.replicas) [
  | none ↦ r
  | some replicas ↦ record r { replicas = replicas; ack_ch = r.ack_ch + 1 }
]

-- How many replicas have acknowledged the target.
unfoldable pub count_acked : ℤ → List Replica → ℕ
count_acked target [] = 0
count_acked target (r ∷ rest) =
    (if ltb_ℤ r.acc_offset target then 0 else 1) + count_acked target rest

abbrev pub get_ack_cmd : List Bytes
get_ack_cmd = codes "REPLCONF" ∷ codes "GETACK" ∷ codes "*" ∷ []

abbrev is_zero_offset : ℤ → Bool
is_zero_offset (pos n) = n == 0
is_zero_offset (negsuc n) = false

-- `wait` before its loop: with nothing propagated every replica counts, and else all are asked.
pub data Wait : Type 0 where
  counted : ℕ → Wait
  asked : ℤ → ReplicaSet → Wait

unfoldable pub wait : ReplicaSet → Wait
wait r =
    if is_zero_offset r.offset
    then counted (length r.replicas)
    else asked r.offset (propagate get_ack_cmd r)

-- One round of the loop of `wait`: it returns where enough replicas have acknowledged.
unfoldable pub wait_round : ℕ → ℤ → ReplicaSet → Option ℕ
wait_round num_replicas target r =
    let count = count_acked target r.replicas in if leb num_replicas count then some count else none

-- ASCII letters in lower case; the two other letters that fold to ASCII ones (the Kelvin sign and the
-- long s) as well, by their UTF-8.
unfoldable pub fold : Bytes → Bytes
fold [] = []
fold (c ∷ []) = (if leb b'A' c && leb c b'Z' then c + 32 else c) ∷ []
fold (c ∷ d ∷ []) =
    if c == 0xC5 && d == 0xBF
    then b's' ∷ []
    else (if leb b'A' c && leb c b'Z' then c + 32 else c) ∷ fold (d ∷ [])
fold (c ∷ d ∷ e ∷ s) =
    let two = b's' ∷ fold (e ∷ s) in
    let three = b'k' ∷ fold s in
    let one = (if leb b'A' c && leb c b'Z' then c + 32 else c) ∷ fold (d ∷ e ∷ s) in
    if c == 0xC5 && d == 0xBF
    then two
    else if c == 0xE2 && d == 0x84 && e == 0xAA
    then three
    else one

-- `strings.EqualFold` against an ASCII text.
abbrev pub equal_fold : Bytes → Bytes → Bool
equal_fold s t = bytes_eq (fold s) (fold t)

unfoldable pub is_get_ack : List Bytes → Bool
unfolding fold
is_get_ack [] = false
is_get_ack (a ∷ []) = false
is_get_ack (a ∷ b ∷ rest) = equal_fold a (codes "REPLCONF") && equal_fold b (codes "GETACK")

-- The loop of `startReplication` behind the handshake: what it applied, what it answered, its offset,
-- and the error that ended the stream.
pub record Follower {ℓ} (S : Type ℓ) : Type ℓ where
  pub state : S
  pub answered : Bytes
  pub offset : ℤ

module _ {ℓ} {S : Type ℓ} (apply : List Bytes → S → S) where
  unfoldable pub follow_one : List Bytes → Follower S → Follower S
  unfolding is_get_ack
  follow_one cmd f =
      let size = length (encode_command cmd) in
      if is_get_ack cmd
      then record f {
        answered =
            f.answered
            ++ encode_command (codes "REPLCONF" ∷ codes "ACK" ∷ format_int f.offset ∷ []);
        offset = add_int64 f.offset size;
      }
      else record f { state = apply cmd f.state; offset = add_int64 f.offset size }

  unfoldable pub follow_loop : ℕ → Bytes → Follower S → Follower S × ReadError
  follow_loop zero stream f = (f, out_of_fuel)
  follow_loop (suc fuel) stream f = elim (read_command stream) [
    | err e ↦ (f, e)
    | ok (cmd, rest) ↦ follow_loop fuel rest (follow_one cmd f)
  ]

  unfoldable pub follow : Bytes → Follower S → Follower S × ReadError
  unfolding follow_loop
  follow stream f = follow_loop (suc (length stream)) stream f
