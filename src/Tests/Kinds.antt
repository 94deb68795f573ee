-- ===== src/Tests/Kinds.antt =====
-- Commands on a store with entries of several kinds.
use redis_go.Base.{List, [], ◌∷◌, some, Bytes, codes}
use redis_go.Base.Dict.{get, put}
use redis_go.Store.{Entry, zero_entry, new_store, string, stream}
use redis_go.Store.Streams.{empty_stream}
use redis_go.Store.Kinds.{IsTyped, put-IsTyped}
use redis_go.Commands.{World, handle_commands}
use redis_go.Commands.Kinds.Every.{Keeps, handle_commands-IsTyped}
use redis_go.Tests.Client.{env, node}

abbrev text : Entry
text = record zero_entry { kind = string; value = codes "v" }

abbrev log : Entry
log = record zero_entry { kind = stream; stream = some empty_stream }

abbrev mixed : World
mixed = record node.world {
  store = record new_store { entries = put (put [] (codes "k") text) (codes "log") log };
}

mixed-IsTyped : IsTyped mixed.store.entries
mixed-IsTyped =
    put-IsTyped (codes "log") log (put [] (codes "k") text) tt
      (put-IsTyped (codes "k") text [] tt (record { at = λ key. unfold get in tt }))

abbrev xadd_cmd : List Bytes
xadd_cmd = codes "xadd" ∷ codes "log" ∷ codes "1-1" ∷ codes "f" ∷ codes "v" ∷ []

handle_commands-IsTyped_example : Keeps (handle_commands env xadd_cmd 5 mixed)
handle_commands-IsTyped_example = handle_commands-IsTyped env xadd_cmd 5 mixed mixed-IsTyped
