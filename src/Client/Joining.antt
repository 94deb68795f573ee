-- ===== src/Client/Joining.antt =====
-- A replica joins: what it sends in its handshake is answered by `handleClient`, and it reads the answers.
pub mod Applied
use redis_go.Base.{
  ℕ, ◌≡◌, refl, ap, ◌∙◌, sym, false, true, List, [], ◌∷◌, ◌++◌, map, append_assoc, append-nil,
  All-append, some, arith, ◌==◌, Bytes, codes, All, length, bytes_eq,
}
use redis_go.Base.Dict.{get_or}
use redis_go.Base.Int.{ℤ, pos}
use redis_go.Decimal.{parse_int, format, format_int}
use redis_go.Store.{done}
use redis_go.Resp.Reader.{ok, eof, read_bytes, read_full, space_width}
use redis_go.Resp.Reader.Lines.{read_full-append}
use redis_go.Resp.Write.{encode_command, crlf}
use redis_go.Replication as replicas
use redis_go.Replication.{add, Follower, equal_fold, fold}
use redis_go.Replication.Handshake.{
  Link, linked, handshake, read_header, read_rdb, trim_space, ping_cmd, port_cmd, capa_cmd,
  psync_cmd, exchange, Place, ping_reply, port_reply, capa_reply, psync_reply,
}
use redis_go.Commands.{Env, handle_commands, command_of, run}
use redis_go.Commands.Reply.{to_upper}
use redis_go.Client.{handle, dispatch, run_verb, run_command, go_on, record_write}
use redis_go.Client.Paths.{handle_plain}
use redis_go.Client.State.{Client, Node, ready, has_name}
use redis_go.Client.Session.{Session, stop, round}
use redis_go.Client.Logged.{IsPlain}
use redis_go.Client.Replicas.{empty_rdb, psync, replconf}

-- What PSYNC is answered.
abbrev pub full_resync : Bytes → Bytes
full_resync id =
    codes "+FULLRESYNC "
    ++ (id ++ (codes " 0\r\n" ++ (b'$' ∷ (format (length empty_rdb) ++ (crlf ++ empty_rdb)))))

abbrev pub answers : Bytes → List Bytes
answers id = codes "+PONG\r\n" ∷ codes "+OK\r\n" ∷ codes "+OK\r\n" ∷ full_resync id ∷ []

abbrev pub HasNoLineFeed : Bytes → Type 0
HasNoLineFeed s = All (λ c. c == 10 ≡ false) s

read_bytes-append :
    (s rest : Bytes) → HasNoLineFeed s → read_bytes (s ++ 10 ∷ rest) ≡ ok (s ++ 10 ∷ [], rest)
unfolding read_bytes
read_bytes-append [] rest h = refl
read_bytes-append (c ∷ s) rest (hc, h) = rw (hc, read_bytes-append s rest h) refl

length-empty_rdb : format (length empty_rdb) ≡ codes "88"
unfolding empty_rdb format
length-empty_rdb = refl

read_full-empty_rdb : (stream : Bytes) → read_full 88 (empty_rdb ++ stream) ≡ ok (empty_rdb, stream)
unfolding empty_rdb
read_full-empty_rdb stream = read_full-append empty_rdb stream

read_rdb-linked :
    (n : ℕ) (input buf rest : Bytes)
    → read_full n input ≡ ok (buf, rest)
    → read_rdb (pos n) input ≡ linked rest
unfolding read_rdb
read_rdb-linked n input buf rest h = ground (arith, h)

read_header-empty_rdb :
    (stream : Bytes)
    → read_header ((b'$' ∷ (format (length empty_rdb) ++ (crlf ++ empty_rdb))) ++ stream)
      ≡ linked stream
unfolding read_header read_bytes trim_space parse_int
read_header-empty_rdb stream =
    rw length-empty_rdb
      (read_rdb-linked 88 (empty_rdb ++ stream) empty_rdb stream (read_full-empty_rdb stream))

-- The texts behind one another.
abbrev pub joined : List Bytes → Bytes
joined [] = []
joined (s ∷ rest) = s ++ joined rest

abbrev pub handshake_cmds : ℤ → List (List Bytes)
handshake_cmds port = ping_cmd ∷ port_cmd port ∷ capa_cmd ∷ psync_cmd ∷ []

read_bytes-id :
    (id rest : Bytes)
    → HasNoLineFeed id
    → read_bytes (id ++ (codes " 0\r\n" ++ rest)) ≡ ok (id ++ codes " 0\r\n", rest)
read_bytes-id id rest h =
    ap read_bytes (sym (append_assoc id (codes " 0\r") (10 ∷ rest)))
    ∙ read_bytes-append (id ++ codes " 0\r") rest
        (All-append (λ c. c == 10 ≡ false) id (codes " 0\r") h (refl, (refl, (refl, tt))))
    ∙ ap (λ (line : Bytes). ok (line, rest)) (append_assoc id (codes " 0\r") (10 ∷ []))

full_resync-append :
    (id stream : Bytes)
    → full_resync id ++ stream
      ≡ codes "+FULLRESYNC "
        ++ (id
            ++ (codes " 0\r\n"
                ++ ((b'$' ∷ (format (length empty_rdb) ++ (crlf ++ empty_rdb))) ++ stream)))
full_resync-append id stream = simp append_assoc

read_bytes-full_resync :
    (id stream : Bytes)
    → HasNoLineFeed id
    → read_bytes (full_resync id ++ stream)
      ≡ ok (
        codes "+FULLRESYNC " ++ (id ++ codes " 0\r\n"),
        (b'$' ∷ (format (length empty_rdb) ++ (crlf ++ empty_rdb))) ++ stream,
      )
unfolding read_bytes
read_bytes-full_resync id stream h =
    ap read_bytes (full_resync-append id stream) ∙ rw (read_bytes-id id _ h) refl

exchange-ok :
    (cmd : List Bytes) (place : Place) (input line rest : Bytes) (go : Bytes → Bytes × Link)
    (written : Bytes) (link : Link)
    → read_bytes input ≡ ok (line, rest)
    → go rest ≡ (written, link)
    → exchange cmd place input go ≡ (encode_command cmd ++ written, link)
exchange-ok cmd place input line rest go written link h r = rw (h, r) refl

joined-answers :
    (id stream : Bytes)
    → joined (answers id) ++ stream
      ≡ codes "+PONG\r\n" ++ (codes "+OK\r\n" ++ (codes "+OK\r\n" ++ (full_resync id ++ stream)))
joined-answers id stream =
    ap (λ (t : Bytes). codes "+PONG\r\n" ++ (codes "+OK\r\n" ++ (codes "+OK\r\n" ++ (t ++ stream))))
      (append-nil (full_resync id))

abbrev after_psync : Bytes → Bytes × Link
after_psync b = ([], read_header b)

abbrev after_capa : Bytes → Bytes × Link
after_capa b = exchange psync_cmd psync_reply b after_psync

abbrev after_port : Bytes → Bytes × Link
after_port b = exchange capa_cmd capa_reply b after_capa

after_capa-answers :
    (id stream : Bytes)
    → HasNoLineFeed id
    → after_capa (full_resync id ++ stream) ≡ (encode_command psync_cmd ++ [], linked stream)
after_capa-answers id stream h =
    let body = (b'$' ∷ (format (length empty_rdb) ++ (crlf ++ empty_rdb))) ++ stream in
    exchange-ok psync_cmd psync_reply (full_resync id ++ stream)
      (codes "+FULLRESYNC " ++ (id ++ codes " 0\r\n")) body after_psync [] (linked stream)
      (read_bytes-full_resync id stream h)
      (ap (λ (l : Link). ([], l)) (read_header-empty_rdb stream))

read_bytes-word :
    (word rest : Bytes)
    → HasNoLineFeed word
    → read_bytes (word ++ (crlf ++ rest)) ≡ ok (word ++ crlf, rest)
read_bytes-word word rest h =
    ap read_bytes (sym (append_assoc word (codes "\r") (10 ∷ rest)))
    ∙ read_bytes-append (word ++ codes "\r") rest
        (All-append (λ c. c == 10 ≡ false) word (codes "\r") h (refl, tt))
    ∙ ap (λ (line : Bytes). ok (line, rest)) (append_assoc word (codes "\r") (10 ∷ []))

exchange-line :
    (cmd : List Bytes) (place : Place) (word rest : Bytes) (go : Bytes → Bytes × Link)
    (written : Bytes) (link : Link)
    → HasNoLineFeed word
    → go rest ≡ (written, link)
    → exchange cmd place (word ++ (crlf ++ rest)) go ≡ (encode_command cmd ++ written, link)
exchange-line cmd place word rest go written link h r =
    exchange-ok cmd place (word ++ (crlf ++ rest)) (word ++ crlf) rest go written link
      (read_bytes-word word rest h) r

pub handshake-answers :
    (port : ℤ) (id stream : Bytes)
    → HasNoLineFeed id
    → handshake port (joined (answers id) ++ stream)
      ≡ (joined (map encode_command (handshake_cmds port)), linked stream)
unfolding handshake
handshake-answers port id stream h =
    let last = encode_command psync_cmd ++ [] in
    let rest = full_resync id ++ stream in
    let ok_word : HasNoLineFeed (codes "+OK") = (refl, (refl, (refl, tt))) in
    ap (handshake port) (joined-answers id stream)
    ∙ exchange-line ping_cmd ping_reply (codes "+PONG")
        (codes "+OK\r\n" ++ (codes "+OK\r\n" ++ rest))
        (λ a. exchange (port_cmd port) port_reply a after_port)
        (encode_command (port_cmd port) ++ (encode_command capa_cmd ++ last)) (linked stream)
        (refl, (refl, (refl, (refl, (refl, tt)))))
        (exchange-line (port_cmd port) port_reply (codes "+OK") (codes "+OK\r\n" ++ rest) after_port
          (encode_command capa_cmd ++ last) (linked stream) ok_word
          (exchange-line capa_cmd capa_reply (codes "+OK") rest after_capa last (linked stream)
            ok_word (after_capa-answers id stream h)))

module _ (env : Env) (clock : ℕ → ℕ) (c : Client) (n : Node) (plain : IsPlain c n) where
  handle-ping : handle env ping_cmd clock c n ≡ done (ready (codes "+PONG\r\n") c n)
  unfolding dispatch run_verb run_command go_on handle_commands run command_of to_upper bytes_eq
      get_or has_name record_write
  handle-ping =
      handle_plain env clock c n (codes "PING") [] plain.has_user plain.inactive plain.subscribed
      ∙ refl

  handle-replconf :
      (sub arg : Bytes)
      → equal_fold sub (codes "ACK") ≡ false
      → handle env (codes "REPLCONF" ∷ sub ∷ arg ∷ []) clock c n
        ≡ done (ready (codes "+OK\r\n") c n)
  unfolding dispatch run_verb to_upper bytes_eq get_or replconf
  handle-replconf sub arg other =
      handle_plain env clock c n (codes "REPLCONF") (sub ∷ arg ∷ []) plain.has_user plain.inactive
        plain.subscribed
      ∙ rw other refl

  handle-psync :
      handle env psync_cmd clock c n
      ≡ done
          (ready (full_resync env.replication_id) c (record n { replicas = add c.conn n.replicas }))
  unfolding dispatch run_verb to_upper bytes_eq get_or psync
  handle-psync =
      handle_plain env clock c n (codes "PSYNC") (codes "?" ∷ codes "-1" ∷ []) plain.has_user
        plain.inactive plain.subscribed
      ∙ refl

  pub Session-handshake :
      (port : ℤ)
      → Session env c n
          (handshake_cmds port)
          (answers env.replication_id)
          c
          (record n { replicas = add c.conn n.replicas })
  unfolding fold bytes_eq
  Session-handshake port = round clock handle-ping (
      round clock (handle-replconf (codes "listening-port") (format_int port) refl) (
        round clock (handle-replconf (codes "capa") (codes "psync2") refl)
          (round clock handle-psync stop)))
