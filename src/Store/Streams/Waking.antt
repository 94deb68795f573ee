-- ===== src/Store/Streams/Waking.antt =====
-- XREAD BLOCK and the XADD that it waits for.
use redis_go.Base.{
  ℕ, ◌+◌, All, append-nil, ◌≡◌, refl, ap, ◌∙◌, sym, true, false, List, [], ◌∷◌, none, some, arith,
  Bytes, codes, bytes_eq,
}
use redis_go.Base.Dict.{get}
use redis_go.Store.{Store, Entry, Stream, StreamId, StreamEntry, ok, done, stream, is_kind}
use redis_go.Store.Streams.{
  xadd, entries_after, append_entry, new_id, id_string, read_after, collect_after, last_id_of,
}
use redis_go.Store.Streams.Order.{IsOrdered, AtMost}
use redis_go.Store.Streams.Reading.{
  xadd-read_after, entries_after_skip, add_checked_ok, xadd_to_stream, done-injective,
}
use redis_go.Store.Streams.Block.{
  found, waiting, xread_block, block_ids, block_id, block_round, wake,
}

entries_after_last :
    (after : StreamId) (xs : List StreamEntry) → All (AtMost after) xs → entries_after after xs ≡ []
unfolding entries_after
entries_after_last after xs h =
    sym (ap (entries_after after) (append-nil xs)) ∙ entries_after_skip after xs [] h

read_last :
    (key : Bytes) (s : Store) (e : Entry) (st : Stream)
    → get s.entries key ≡ some e
    → is_kind e.kind stream ≡ true
    → e.stream ≡ some st
    → IsOrdered st
    → read_after key st.last_id s ≡ done []
unfolding read_after
read_last key s e st here kind has h =
    ground (arith, entries_after_last st.last_id st.entries h.last)

block_round_nothing :
    (key : Bytes) (after : StreamId) (s : Store)
    → read_after key after s ≡ done []
    → block_round ((key, after) ∷ []) s ≡ done (waiting ((key, after) ∷ []) s.notify)
unfolding block_round collect_after
block_round_nothing key after s h = rw h refl

block_round_some :
    (key : Bytes) (after : StreamId) (s : Store) (x : StreamEntry) (xs : List StreamEntry)
    → read_after key after s ≡ done (x ∷ xs)
    → block_round ((key, after) ∷ []) s
      ≡ done (found ((record { key = key; entries = x ∷ xs }) ∷ []))
unfolding block_round collect_after
block_round_some key after s x xs h = rw h refl

block_dollar :
    (key : Bytes) (s : Store) (e : Entry) (st : Stream)
    → get s.entries key ≡ some e
    → is_kind e.kind stream ≡ true
    → e.stream ≡ some st
    → xread_block ((key, codes "$") ∷ []) s ≡ block_round ((key, st.last_id) ∷ []) s
unfolding xread_block block_ids block_id last_id_of bytes_eq
block_dollar key s e st here kind has = rw (here, kind, has) refl

wake_at :
    (ch : ℕ) (ids : List (Bytes × StreamId)) (s : Store)
    → s.notify ≡ ch + 1
    → wake ch ids s ≡ some (block_round ids s)
unfolding wake
wake_at ch ids s h = ground arith

notify-xadd :
    (key raw : Bytes) (fields : List Bytes) (now : ℕ) (s : Store) (e : Entry) (st : Stream)
    (text : Bytes) (s' : Store)
    → get s.entries key ≡ some e
    → is_kind e.kind stream ≡ true
    → e.stream ≡ some st
    → xadd key raw fields now s ≡ done (ok text, s')
    → s'.notify ≡ s.notify + 1
unfolding append_entry
notify-xadd key raw fields now s e st text s' here kind has run =
    let (id, asked, lt, is_text, after) =
      add_checked_ok key e st (new_id now st.last_id raw) fields s text s'
        (done-injective (sym (xadd_to_stream key raw fields now s e st here kind has) ∙ run)) in
    ap (λ (t : Store). t.notify) after

-- XREAD BLOCK with `$` on one stream, which is in order: it waits, and cannot go on by itself. A successful
-- XADD to the stream wakes it, and what it returns then is the entry that was added, whose ID is the one
-- that XADD replied.
pub wake-xadd :
    (key raw : Bytes) (fields : List Bytes) (now : ℕ) (s : Store) (e : Entry) (st : Stream)
    (text : Bytes) (s' : Store)
    → get s.entries key ≡ some e
    → is_kind e.kind stream ≡ true
    → e.stream ≡ some st
    → IsOrdered st
    → xadd key raw fields now s ≡ done (ok text, s')
    → (ids : List (Bytes × StreamId)) × (xread_block ((key, codes "$") ∷ []) s
        ≡ done (waiting ids s.notify))
      × (wake s.notify ids s ≡ none)
      × (id : StreamId) × (text ≡ id_string id)
      × (wake s.notify ids s'
          ≡ some (
              done (
                found (
                  (record { key = key; entries = (record { id = id; fields = fields }) ∷ [] })
                  ∷ []))))
unfolding wake
wake-xadd key raw fields now s e st text s' here kind has h run =
    let (id, is_text, lt, read, same) =
      xadd-read_after key raw fields now s e st text s' here kind has h run in
    let ids = (key, st.last_id) ∷ [] in
    (
      ids,
      block_dollar key s e st here kind has
          ∙ block_round_nothing key st.last_id s (read_last key s e st here kind has h),
      ground arith,
      id,
      is_text,
      wake_at s.notify ids s' (notify-xadd key raw fields now s e st text s' here kind has run)
          ∙ ap some
              (block_round_some key st.last_id s' (record { id = id; fields = fields }) [] read),
    )

read_after_same :
    (key : Bytes) (after : StreamId) (s s' : Store)
    → get s'.entries key ≡ get s.entries key
    → read_after key after s' ≡ read_after key after s
unfolding read_after
read_after_same key after s s' h = ground (arith, h)

-- A client waits to read one key behind an ID, where there is nothing. A successful XADD to another key's
-- stream, which is in order, wakes it as well: it finds nothing, and waits again, on the next channel.
pub wake-waiting :
    (key j raw : Bytes) (after : StreamId) (fields : List Bytes) (now : ℕ) (s : Store) (e : Entry)
    (st : Stream) (text : Bytes) (s' : Store)
    → bytes_eq j key ≡ false
    → get s.entries j ≡ some e
    → is_kind e.kind stream ≡ true
    → e.stream ≡ some st
    → IsOrdered st
    → read_after key after s ≡ done []
    → xadd j raw fields now s ≡ done (ok text, s')
    → wake s.notify ((key, after) ∷ []) s'
      ≡ some (done (waiting ((key, after) ∷ []) (s.notify + 1)))
wake-waiting key j raw after fields now s e st text s' other here kind has h nothing run =
    let (id, is_text, lt, read, same) =
      xadd-read_after j raw fields now s e st text s' here kind has h run in
    let woken = notify-xadd j raw fields now s e st text s' here kind has run in
    wake_at s.notify ((key, after) ∷ []) s' woken
    ∙ ap some (
        block_round_nothing key after s'
          (read_after_same key after s s' (same key ∙ rw other refl) ∙ nothing))
    ∙ rw woken refl
