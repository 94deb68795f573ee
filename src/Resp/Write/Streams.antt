-- ===== src/Resp/Write/Streams.antt =====
-- `writeStream` and `writeXRead` of app/resp_write.go: the replies of the stream commands.
use redis_go.Base.{List, [], ◌∷◌, ◌++◌, Bytes, codes, length}
use redis_go.Store.{StreamEntry}
use redis_go.Store.Streams.{id_string, StreamResult}
use redis_go.Resp.Write.{array_header, bulk, bulks_onto}

-- One entry onto the builder: its ID and its fields.
unfoldable pub entry_onto : Bytes → StreamEntry → Bytes
entry_onto b e =
    bulks_onto (b ++ (codes "*2\r\n" ++ (bulk (id_string e.id) ++ array_header (length e.fields))))
      e.fields

unfoldable pub entries_onto : Bytes → List StreamEntry → Bytes
unfolding entry_onto
entries_onto b [] = b
entries_onto b (e ∷ es) = entries_onto (entry_onto b e) es

unfoldable pub write_stream : List StreamEntry → Bytes
unfolding entries_onto
write_stream entries = entries_onto (array_header (length entries)) entries

-- One key onto the builder, with its entries.
unfoldable pub results_onto : Bytes → List StreamResult → Bytes
unfolding entries_onto
results_onto b [] = b
results_onto b (r ∷ rs) =
    results_onto
      (entries_onto (b ++ (codes "*2\r\n" ++ (bulk r.key ++ array_header (length r.entries))))
        r.entries)
      rs

unfoldable pub write_xread : List StreamResult → Bytes
unfolding results_onto
write_xread results = results_onto (array_header (length results)) results
