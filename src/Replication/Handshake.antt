-- ===== src/Replication/Handshake.antt =====
-- `startReplication` of app/replication.go: the handshake of a replica with its leader, and the loop
-- behind it. What the replica writes, and what it reads, is bytes.
use redis_go.Base.{
  ℕ, zero, suc, ◌-◌, Bool, true, List, [], ◌∷◌, ◌++◌, none, some, ◌==◌, if◌then◌else◌, Bytes, codes,
}
use redis_go.Base.Int.{ℤ, pos, negsuc}
use redis_go.Decimal.{parse_int, format_int}
use redis_go.Resp.Write.{encode_command}
use redis_go.Resp.Reader.{ReadError, ok, err, read_bytes, read_full, space_width}
use redis_go.Replication.{Follower, follow}

-- What the replica was reading when the connection ended.
pub data Place : Type 0 where
  ping_reply port_reply capa_reply psync_reply rdb_header rdb : Place

-- How the handshake ends: with the bytes of the stream, by an error, by a header that is no number, or
-- by a buffer of negative length, which is a panic.
pub data Link : Type 0 where
  linked : Bytes → Link
  lost : Place → ReadError → Link
  bad_header : Bytes → Link
  panicked : Link

-- White space to the end, behind `skip` bytes that belong to a character.
unfoldable pub all_space : ℕ → Bytes → Bool
unfolding space_width
all_space skip [] = true
all_space (suc skip) (c ∷ s) = all_space skip s
all_space zero (c ∷ s) =
    let w = space_width (c ∷ s) in
    let rest = all_space (w - 1) s in if w == 0 then Bool.false else rest

unfoldable pub trim_start : ℕ → Bytes → Bytes
unfolding space_width
trim_start skip [] = []
trim_start (suc skip) (c ∷ s) = trim_start skip s
trim_start zero (c ∷ s) =
    let w = space_width (c ∷ s) in let rest = trim_start (w - 1) s in if w == 0 then c ∷ s else rest

unfoldable pub trim_end : Bytes → Bytes
unfolding all_space
trim_end [] = []
trim_end (c ∷ s) = let rest = c ∷ trim_end s in if all_space 0 (c ∷ s) then [] else rest

-- `strings.TrimSpace`
unfoldable pub trim_space : Bytes → Bytes
unfolding trim_start trim_end
trim_space s = trim_end (trim_start 0 s)

-- The four commands, each written when the reply to the one before has come.
abbrev pub ping_cmd : List Bytes
ping_cmd = codes "PING" ∷ []

abbrev pub port_cmd : ℤ → List Bytes
port_cmd port = codes "REPLCONF" ∷ codes "listening-port" ∷ format_int port ∷ []

abbrev pub capa_cmd : List Bytes
capa_cmd = codes "REPLCONF" ∷ codes "capa" ∷ codes "psync2" ∷ []

abbrev pub psync_cmd : List Bytes
psync_cmd = codes "PSYNC" ∷ codes "?" ∷ codes "-1" ∷ []

-- `header[1:]` is never out of range, for the line that was read ends in a line feed.
abbrev pub without_first : Bytes → Bytes
without_first [] = []
without_first (c ∷ s) = s

unfoldable pub read_rdb : ℤ → Bytes → Link
read_rdb (negsuc n) input = panicked
read_rdb (pos n) input = elim (read_full n input) [
  | err e ↦ lost rdb e
  | ok (buf, rest) ↦ linked rest
]

unfoldable pub read_header : Bytes → Link
unfolding trim_space read_rdb
read_header input = elim (read_bytes input) [
  | err e ↦ lost rdb_header e
  | ok (header, rest) ↦ elim (parse_int (trim_space (without_first header))) [
    | none ↦ bad_header header
    | some n ↦ read_rdb n rest
  ]
]

-- `conn.Write` of a command, and `r.ReadString('\n')`: what was written up to the end, and the link.
abbrev pub exchange : List Bytes → Place → Bytes → (Bytes → Bytes × Link) → Bytes × Link
exchange cmd place input go =
    let r : Bytes × Link = (elim (read_bytes input) [
      | err e ↦ ([], lost place e)
      | ok (line, rest) ↦ go rest
    ]) in
    (encode_command cmd ++ r.0, r.1)

unfoldable pub handshake : ℤ → Bytes → Bytes × Link
unfolding read_header
handshake port input = exchange ping_cmd ping_reply input λ a.
    exchange (port_cmd port) port_reply a λ b.
      exchange capa_cmd capa_reply b λ c. exchange psync_cmd psync_reply c λ d. ([], read_header d)

-- What became of the replica: the handshake failed, or the loop followed the stream to its end.
pub data Replicating {ℓ} (S : Type ℓ) : Type ℓ where
  not_linked : Link → Replicating S
  followed : Follower S → ReadError → Replicating S

module _ {ℓ} {S : Type ℓ} (apply : List Bytes → S → S) where
  -- The loop on the link, from the offset 0.
  unfoldable pub follow_link : Link → S → Replicating S
  follow_link (linked stream) s =
      let (f, e) = follow apply stream (record { state = s; answered = []; offset = pos 0 }) in
      followed f e
  follow_link other s = not_linked other

  unfoldable pub start_replication : ℤ → Bytes → S → Bytes × Replicating S
  unfolding handshake follow_link
  start_replication port input s =
      let (written, link) = handshake port input in (written, follow_link link s)
