-- ===== src/Client/Channels.antt =====
-- The cases SUBSCRIBE, PUBLISH, UNSUBSCRIBE and AUTH of `handleClient`, and PING in subscriber mode.
use redis_go.Base.{
  true, List, [], ◌∷◌, ◌++◌, none, some, if◌then◌else◌, Bytes, codes, bytes_eq, length,
}
use redis_go.Store.{Outcome, done, panic}
use redis_go.Resp.Write.{bulk, integer}
use redis_go.Pubsub as channels
use redis_go.Pubsub.{encode_subscribe_reply}
use redis_go.Server.{check_password, default}
use redis_go.Client.State.{Client, Node, Step, ready, has_name}

-- `subscribed[name] = struct{}{}`, and `delete(subscribed, name)`.
unfoldable pub add_name : List Bytes → Bytes → List Bytes
unfolding has_name
add_name names name = if has_name names name then names else names ++ name ∷ []

unfoldable pub delete_name : List Bytes → Bytes → List Bytes
delete_name [] name = []
delete_name (n ∷ names) name =
    let rest = delete_name names name in if bytes_eq n name then rest else n ∷ rest

-- The loop over the names; the subscriber writes to the connection itself.
unfoldable pub subscribe_loop : List Bytes → Bytes → Client → Node → Step
unfolding add_name
subscribe_loop [] written c n = ready written c n
subscribe_loop (name ∷ names) written c n =
    let subscribed = add_name c.subscribed name in
    subscribe_loop names
      (written ++ encode_subscribe_reply (codes "subscribe") name (length subscribed))
      (record c { subscribed = subscribed })
      (record n { pubsub = channels.subscribe name c.conn n.pubsub })

unfoldable pub subscribe : List Bytes → Client → Node → Step
unfolding subscribe_loop
subscribe [] c n = ready (codes "-ERR wrong number of arguments for 'subscribe' command\r\n") c n
subscribe (name ∷ names) c n = subscribe_loop (name ∷ names) [] (record c { has_sub = true }) n

unfoldable pub publish : List Bytes → Client → Node → Step
publish (channel ∷ message ∷ _) c n =
    let (count, ps) = channels.deliver channel message n.pubsub in
    ready (integer count) c (record n { pubsub = ps })
publish _ c n = ready (codes "-ERR wrong number of arguments for 'publish' command\r\n") c n

-- Without a subscriber the write to its connection is one through a nil pointer.
unfoldable pub unsubscribe_loop : List Bytes → Bytes → Client → Node → Outcome Step
unfolding delete_name
unsubscribe_loop [] written c n = done (ready written c n)
unsubscribe_loop (name ∷ names) written c n =
    let (count, ps) = channels.unsubscribe name c.conn n.pubsub in
    let rest =
      unsubscribe_loop names (written ++ encode_subscribe_reply (codes "unsubscribe") name count)
        (record c { subscribed = delete_name c.subscribed name }) (record n { pubsub = ps }) in
    if c.has_sub then rest else panic

unfoldable pub subscriber_ping : List Bytes → Bytes
subscriber_ping [] = codes "*2\r\n$4\r\npong\r\n$0\r\n\r\n"
subscriber_ping (message ∷ _) = codes "*2\r\n$4\r\nPONG\r\n" ++ bulk message

unfoldable pub refused_in_mode : Bytes → Bytes
refused_in_mode name =
    codes "-ERR Can't execute '"
    ++ (name
        ++ codes
            "': only only (P|S)SUBSCRIBE / (P|S)UNSUBSCRIBE / PING / QUIT / RESET are allowed in this context\r\n")

module _ (digest : Bytes → Bytes) where
  unfoldable pub log_in : Bytes → Bytes → Client → Node → Step
  log_in name password c n = elim (check_password digest name password n.world.users) [
    | none ↦ ready (codes "-WRONGPASS invalid username-password pair or user is disabled.\r\n") c n
    | some u ↦ ready (codes "+OK\r\n") (record c { has_user = true }) n
  ]

  unfoldable pub auth : List Bytes → Client → Node → Step
  unfolding log_in
  auth (password ∷ []) c n = log_in default password c n
  auth (name ∷ password ∷ []) c n = log_in name password c n
  auth _ c n = ready (codes "-ERR wrong number of arguments for 'auth' command\r\n") c n
