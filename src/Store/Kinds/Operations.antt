-- ===== src/Store/Kinds/Operations.antt =====
-- Every operation of the store leaves each entry with the pointer that its kind promises.
use redis_go.Base.{
  ltb, length, ℕ, ◌≡◌, refl, Bool, true, not, List, [], ◌∷◌, Option, none, some, arith,
  if◌then◌else◌, Bytes,
}
use mathlib.Core.Path.{subst}
use redis_go.Base.Dict.{get, get_or}
use redis_go.Base.Int.{ℤ}
use redis_go.Decimal.{parse_int}
use redis_go.Store.{
  Popped, Store, Entry, zero_entry, string, stream, zset, Stream, Zset, done, put_entry,
  mark_watchers, ok, err, id_zero, id_too_small, wrong_type, bit_offset, is_kind, StreamId,
}
use redis_go.Store.Strings as strings
use redis_go.Store.Lists as lists
use redis_go.Store.Streams as streams
use redis_go.Store.Zsets as zsets
use redis_go.Store.Bits as bits
use redis_go.Store.Bits.SetGet.{store_bit-done}
use redis_go.Store.Geo.{geo_add, added}
use redis_go.Base.Floats.{Floats}
use redis_go.Store.Kinds.{
  Backed, IsBacked, IsTyped, put-IsTyped, remove-IsTyped, Leaves, left, panicked, Leaves-if,
  Leaves-if_done, Leaves-if_known, Leaves-elim, Leaves-elim_done, Leaves-bind, Leaves-then,
  Backed-stream, Backed-zset, Backed-other,
}

module _ (s : Store) (h : IsTyped s.entries) where
  found-Backed :
      (key : Bytes) (e : Entry) → get s.entries key ≡ some e → Backed e.kind e.stream e.zset
  found-Backed key e there = subst IsBacked there (h.at key)

  get_or-Backed :
      (key : Bytes)
      → Backed
          (get_or s.entries key zero_entry).kind
          (get_or s.entries key zero_entry).stream
          (get_or s.entries key zero_entry).zset
  unfolding get_or
  get_or-Backed key =
      elim (get s.entries key)
          as (λ (o : Option Entry).
            IsBacked o → IsBacked (some (elim o [ none ↦ zero_entry | some e ↦ e ]))) [
              | none ↦ λ b. tt
              | some e ↦ λ b. b
            ]
        (h.at key)

  pub set-IsTyped :
      (key value : Bytes) (expires_at : ℕ) → IsTyped (strings.set key value expires_at s).entries
  unfolding strings.set mark_watchers
  set-IsTyped key value expires_at = put-IsTyped key _ s.entries tt h

  pub increment-IsTyped : (key : Bytes) → Leaves (done (strings.increment key s))
  unfolding strings.increment strings.store_count mark_watchers
  increment-IsTyped key =
      Leaves-elim_done (get s.entries key) _ _ (left (put-IsTyped key _ s.entries tt h)) λ e there.
        Leaves-if_done (not (is_kind e.kind string)) _ _ (left h) (
          Leaves-elim_done (parse_int e.value) _ _ (left h)
            λ v number. left (put-IsTyped key _ s.entries tt h))

  pub rpush-IsTyped : (key : Bytes) (values : List Bytes) → Leaves (lists.rpush key values s)
  unfolding lists.rpush lists.finish_push
  rpush-IsTyped key values =
      Leaves-bind (lists.push_loop key values (lists.start_push key s)) _
        λ p. left (put-IsTyped key _ s.entries (get_or-Backed key) h)

  pub lpush-IsTyped : (key : Bytes) (values : List Bytes) → Leaves (done (lists.lpush key values s))
  unfolding lists.lpush
  lpush-IsTyped key values = left (put-IsTyped key _ s.entries (get_or-Backed key) h)

  pub lpop-IsTyped : (key : Bytes) (n : ℕ) → Leaves (lists.lpop key n s)
  unfolding lists.lpop
  lpop-IsTyped key n = Leaves-elim (get s.entries key) _ _ (left h) λ e there.
      Leaves-if _ _ _ panicked (left (put-IsTyped key _ s.entries (found-Backed key e there) h))

  is_kind-stream : (e : Entry) → is_kind e.kind stream ≡ true → e.kind ≡ stream
  is_kind-stream e k = ground (arith, k)

  add_checked-IsTyped :
      (key : Bytes) (e : Entry) (st : Stream) (id : Option StreamId) (fields : List Bytes)
      → e.kind ≡ stream
      → Leaves (done (streams.add_checked key e st id fields s))
  unfolding streams.add_checked streams.append_entry
  add_checked-IsTyped key e st none fields k = left h
  add_checked-IsTyped key e st (some id) fields k =
      Leaves-if_done (streams.is_zero_id id) (err id_zero, s) _ (left h)
        (Leaves-if_done (not (streams.is_valid_stream_id st.last_id id)) (err id_too_small, s)
          (ok (streams.id_string id), streams.append_entry key e st id fields s) (left h)
          (left (put-IsTyped key _ s.entries (Backed-stream e.kind _ e.zset k) h)))

  add_to_entry-IsTyped :
      (key raw : Bytes) (fields : List Bytes) (now : ℕ) (e : Entry)
      → e.kind ≡ stream
      → Leaves (streams.add_to_entry key raw fields now e s)
  unfolding streams.add_to_entry
  add_to_entry-IsTyped key raw fields now e k =
      Leaves-elim e.stream _ _ panicked
        λ st there. add_checked-IsTyped key e st (streams.new_id now st.last_id raw) fields k

  pub xadd-IsTyped :
      (key raw : Bytes) (fields : List Bytes) (now : ℕ) → Leaves (streams.xadd key raw fields now s)
  unfolding streams.xadd
  xadd-IsTyped key raw fields now =
      let new : Entry = record zero_entry { kind = stream; stream = some streams.empty_stream } in
      Leaves-elim (get s.entries key) (streams.add_to_entry key raw fields now new s)
        (λ e.
          if not (is_kind e.kind stream)
          then done (err wrong_type, s)
          else streams.add_to_entry key raw fields now e s)
        (add_to_entry-IsTyped key raw fields now new refl)
        λ e there.
          Leaves-if_known (not (is_kind e.kind stream)) (done (err wrong_type, s))
            (streams.add_to_entry key raw fields now e s) (λ other. left h)
            λ same.
              add_to_entry-IsTyped key raw fields now e (is_kind-stream e (ground (arith, same)))

  store_zset-IsTyped :
      (key : Bytes) (e : Entry) (r : ℕ × Zset)
      → e.kind ≡ zset
      → Leaves (done (zsets.store_zset key e r s))
  unfolding zsets.store_zset mark_watchers
  store_zset-IsTyped key e r k =
      left (put-IsTyped key _ s.entries (Backed-zset e.kind e.stream (r.1) k) h)

  pub zadd-IsTyped :
      (key : Bytes) (score : ℕ) (member : Bytes) → Leaves (zsets.zadd key score member s)
  unfolding zsets.zadd
  zadd-IsTyped key score member =
      Leaves-elim (get s.entries key) _ _
        (Leaves-bind (zsets.add_to_zset member score zsets.empty_zset) _
          λ r. store_zset-IsTyped key _ r refl)
        λ e there.
          Leaves-if_known (not (is_kind e.kind zset)) _ _ (λ other. left h)
            λ same. Leaves-elim e.zset _ _ panicked λ z found.
              Leaves-bind (zsets.add_to_zset member score z) _
                λ r. store_zset-IsTyped key e r (ground (arith, same))

  pub zrem-IsTyped : (key member : Bytes) → Leaves (zsets.zrem key member s)
  unfolding zsets.zrem zsets.remove_from_entry
  zrem-IsTyped key member = Leaves-elim (get s.entries key) _ _ (left h) λ e there.
      Leaves-elim e.zset _ _ panicked λ z found.
        Leaves-elim (get z.scores member) _ _ (left h) λ score scored.
          Leaves-bind (zsets.remove_member member z) _ λ z'. left (
            put-IsTyped key _ s.entries
              (Backed-other e.kind e.stream e.zset z' (found-Backed key e there)) h)

  store_bit-IsTyped :
      (key : Bytes) (offset : ℕ) (b : Bool) (e : Entry) → Leaves (bits.store_bit key offset b e s)
  unfolding mark_watchers
  store_bit-IsTyped key offset b e =
      rw (store_bit-done key offset b e s) (left (put-IsTyped key _ s.entries tt h))

  pub set_bit-IsTyped :
      (key : Bytes) (offset : ℕ) (value : ℤ) (now : ℕ)
      → Leaves (bits.set_bit key offset value now s)
  unfolding bits.set_bit
  set_bit-IsTyped key offset value now =
      Leaves-elim (bits.bit_value_of value) _ _ (left h) λ v fine.
        Leaves-if (ltb bits.max_bit_offset offset) (done (err bit_offset, s)) _ (left h) (
          Leaves-elim (bits.entry_for_bits key now s) _ _
            (store_bit-IsTyped key offset v zero_entry)
            λ e there.
              Leaves-if (not (is_kind e.kind string)) (done (err wrong_type, s))
                (bits.store_bit key offset v e s) (left h) (store_bit-IsTyped key offset v e))

  store_combined-IsTyped :
      (dest : Bytes) (bytes : Bytes) → Leaves (done (bits.store_combined dest bytes s))
  unfolding bits.store_combined
  store_combined-IsTyped dest [] = left (remove-IsTyped dest s.entries h)
  store_combined-IsTyped dest (c ∷ bytes) =
      elim (get s.entries dest)
        as (λ (o : Option Entry). Leaves {A = ℕ} (
          done (
            length (c ∷ bytes),
            elim o [
              | none ↦ put_entry s dest (record zero_entry { kind = string; value = c ∷ bytes })
              | some e ↦ s
            ],
          ))) [ none ↦ left (put-IsTyped dest _ s.entries tt h) | some e ↦ left h ]

  pub bit_op-IsTyped :
      (op : ℕ → ℕ → ℕ) (dest key1 key2 : Bytes) → Leaves (done (bits.bit_op op dest key1 key2 s))
  unfolding bits.bit_op
  bit_op-IsTyped op dest key1 key2 = store_combined-IsTyped dest _

  after_pop-IsTyped :
      (key : Bytes) (e : Entry) (rest : List Bytes)
      → Backed e.kind e.stream e.zset
      → IsTyped (lists.after_pop key e rest s).entries
  unfolding lists.after_pop
  after_pop-IsTyped key e [] he = remove-IsTyped key s.entries h
  after_pop-IsTyped key e (v ∷ rest) he = put-IsTyped key _ s.entries he h

  abbrev PopLeaves : Option (Popped × Store) → Type 0
  PopLeaves none = Unit
  PopLeaves (some (p, s')) = IsTyped s'.entries

  pop_first-IsTyped : (keys : List Bytes) → PopLeaves (lists.pop_first keys s)
  unfolding lists.pop_first
  pop_first-IsTyped [] = tt
  pop_first-IsTyped (k ∷ keys) =
      let e = get_or s.entries k zero_entry in
      elim e.list
        as (λ (l : List Bytes). PopLeaves (elim l [
          | [] ↦ lists.pop_first keys s
          | v ∷ list ↦ some (record { key = k; value = v }, lists.after_pop k e list s)
        ])) [
          | [] ↦ pop_first-IsTyped keys
          | v ∷ list ↦ after_pop-IsTyped k e list (get_or-Backed k)
        ]

  abbrev pub BlpopLeaves : lists.Blpop → Type 0
  BlpopLeaves (lists.popped p s') = IsTyped s'.entries
  BlpopLeaves (lists.waiting ch s') = IsTyped s'.entries

  pub blpop-IsTyped : (keys : List Bytes) → BlpopLeaves (lists.blpop keys s)
  unfolding lists.blpop lists.wait_for
  blpop-IsTyped keys =
      elim (lists.pop_first keys s)
          as (λ (o : Option (Popped × Store)).
            PopLeaves o
            → BlpopLeaves (elim o [
              | some (p, s') ↦ lists.popped p s'
              | none ↦ lists.waiting (lists.wait_for keys s).0 (lists.wait_for keys s).1
            ])) [ none ↦ λ r. h | some (p, s') ↦ λ r. r ]
        (pop_first-IsTyped keys)

  module _ (floats : Floats) where
    pub geo_add-IsTyped :
        (key : Bytes) (long lat : ℕ) (member : Bytes)
        → Leaves (geo_add floats key long lat member s)
    unfolding geo_add
    geo_add-IsTyped key long lat member = Leaves-if _ _ _ (left h) (
        Leaves-then (zsets.zadd key _ member s) (λ r. (added (r.0), r.1))
          (zadd-IsTyped key _ member) λ r s'. refl)
