-- ===== src/Rdb/Load/Dump.antt =====
-- A dump that was written by the format's rules, and `Load` of app/rdb/rdb.go.
use redis_go.Base.{
  ℕ, zero, suc, ◌+◌, ◌^◌, ◌≤◌, ◌<◌, ◌≡◌, refl, ◌∙◌, List, [], ◌∷◌, ◌++◌, append_assoc, arith, Bytes,
  bytes_eq, codes, length, length-append, All,
}
use redis_go.Base.Int.{ℤ, pos}
use redis_go.Resp.Reader.{ok as got, read_byte, read_full}
use redis_go.Resp.Reader.Lines.{read_full-append}
use redis_go.Rdb.{signed, little_endian}
use redis_go.Rdb.RoundTrip.{put_size}
use redis_go.Rdb.Load.{
  finished, unix_milli, unix_seconds, next, reading_at, load_op, load_pair, load_aux, load_sizes,
  load_round, load_loop, load,
}
use redis_go.Rdb.Load.Format.{
  Expiry, never, at_milli, at_second, Text, text, Section, aux, select, sizes, item, instant,
  put_expiry, put_text, put_pair, put_section, put_sections, dump, FitsExpiry, FitsText, Fits,
  put_little_endian, little_endian-put, read_full-put, read_string-put_text,
  read_plain_size-put_size,
}

module _ {S : Type 0} (set : Bytes → Bytes → ℤ → S → S) where
  pub set_section : Section → S → S
  set_section (aux name value) s = s
  set_section (select i) s = s
  set_section (sizes keys expiring) s = s
  set_section (item x) s = set (text x.key) (text x.value) (instant x.expiry) s

  pub set_all : List Section → S → S
  set_all [] s = s
  set_all (x ∷ xs) s = set_all xs (set_section x s)

  load_round-milli :
      (ms : ℕ) (rest : Bytes) (e : ℤ) (s : S)
      → ms < 2 ^ 63
      → load_round set e ((0xFC ∷ put_little_endian 8 ms) ++ rest) s
        ≡ next (instant (at_milli ms)) rest s
  unfolding load_round load_op read_byte reading_at unix_milli signed
  load_round-milli ms rest e s h =
      let v : little_endian (put_little_endian 8 ms) ≡ ms = little_endian-put 8 ms (omega arith) in
      rw (read_full-put 8 ms rest) (ground (arith, v))

  load_round-second :
      (sec : ℕ) (rest : Bytes) (e : ℤ) (s : S)
      → sec < 2 ^ 32
      → load_round set e ((0xFD ∷ put_little_endian 4 sec) ++ rest) s
        ≡ next (instant (at_second sec)) rest s
  unfolding load_round load_op read_byte reading_at unix_seconds
  load_round-second sec rest e s h =
      let v : little_endian (put_little_endian 4 sec) ≡ sec =
        little_endian-put 4 sec (omega arith) in
      rw (read_full-put 4 sec rest, v) refl

  load_round-pair :
      (k v : Text) (rest : Bytes) (e : ℤ) (s : S)
      → FitsText k
      → FitsText v
      → load_round set e (put_pair k v ++ rest) s ≡ next (pos 0) rest (set (text k) (text v) e s)
  unfolding load_round load_op load_pair read_byte reading_at
  load_round-pair k v rest e s hk hv =
      rw
        (
          append_assoc (put_text k) (put_text v) rest,
          read_string-put_text k (put_text v ++ rest) hk,
          read_string-put_text v rest hv,
          reading_at,
        )
        refl

  load_round-aux :
      (k v : Text) (rest : Bytes) (e : ℤ) (s : S)
      → FitsText k
      → FitsText v
      → load_round set e (put_section (aux k v) ++ rest) s ≡ next e rest s
  unfolding load_round load_op load_aux read_byte reading_at
  load_round-aux k v rest e s hk hv =
      rw
        (
          append_assoc (put_text k) (put_text v) rest,
          read_string-put_text k (put_text v ++ rest) hk,
          read_string-put_text v rest hv,
          reading_at,
        )
        refl

  load_round-select :
      (i : ℕ) (rest : Bytes) (e : ℤ) (s : S)
      → i < 2 ^ 32
      → load_round set e (put_section (select i) ++ rest) s ≡ next e rest s
  unfolding load_round load_op read_byte reading_at
  load_round-select i rest e s h = rw (read_plain_size-put_size i rest h, reading_at) refl

  load_round-sizes :
      (i j : ℕ) (rest : Bytes) (e : ℤ) (s : S)
      → i < 2 ^ 32
      → j < 2 ^ 32
      → load_round set e (put_section (sizes i j) ++ rest) s ≡ next e rest s
  unfolding load_round load_op load_sizes read_byte reading_at
  load_round-sizes i j rest e s hi hj =
      rw
        (
          append_assoc (put_size i) (put_size j) rest,
          read_plain_size-put_size i (put_size j ++ rest) hi,
          read_plain_size-put_size j rest hj,
          reading_at,
        )
        refl

  load_loop-next :
      (fuel : ℕ) (e e' : ℤ) (file rest : Bytes) (s s' : S)
      → load_round set e file s ≡ next e' rest s'
      → load_loop set (suc fuel) e file s ≡ load_loop set fuel e' rest s'
  unfolding load_loop
  load_loop-next fuel e e' file rest s s' h = rw (h, load_loop) refl

  load_loop-pair :
      (fuel : ℕ) (k v : Text) (rest : Bytes) (e : ℤ) (s : S)
      → FitsText k
      → FitsText v
      → load_loop set (suc fuel) e (put_pair k v ++ rest) s
        ≡ load_loop set fuel (pos 0) rest (set (text k) (text v) e s)
  load_loop-pair fuel k v rest e s hk hv =
      load_loop-next fuel e (pos 0) (put_pair k v ++ rest) rest s (set (text k) (text v) e s)
        (load_round-pair k v rest e s hk hv)

  -- The rounds of a section leave enough for what is behind it.
  abbrev Passes : Section → ℕ → Bytes → S → Type 0
  Passes x fuel file s =
      (left : ℕ) × (fuel ≤ left + length (put_section x))
      × (load_loop set fuel (pos 0) (put_section x ++ file) s
          ≡ load_loop set left (pos 0) file (set_section x s))

  item-Passes :
      (key value : Text) (y : Expiry) (fuel : ℕ) (file : Bytes) (s : S)
      → FitsText key
      → FitsText value
      → FitsExpiry y
      → length (put_expiry y ++ put_pair key value) ≤ fuel
      → Passes (item (record { key = key; value = value; expiry = y })) fuel file s
  unfolding set_section
  item-Passes key value never (suc fuel) file s hk hv f h =
      (fuel, omega arith, load_loop-pair fuel key value file (pos 0) s hk hv)
  item-Passes key value (at_milli ms) (suc (suc fuel)) file s hk hv f h = (
    fuel,
    omega arith,
    load_loop-next (suc fuel) (pos 0) (instant (at_milli ms)) _ _ s s
          (load_round-milli ms (put_pair key value ++ file) (pos 0) s f)
        ∙ load_loop-pair fuel key value file (instant (at_milli ms)) s hk hv,
  )
  item-Passes key value (at_second sec) (suc (suc fuel)) file s hk hv f h = (
    fuel,
    omega arith,
    load_loop-next (suc fuel) (pos 0) (instant (at_second sec)) _ _ s s
          (load_round-second sec (put_pair key value ++ file) (pos 0) s f)
        ∙ load_loop-pair fuel key value file (instant (at_second sec)) s hk hv,
  )
  item-Passes key value never zero file s hk hv f h = absurd (omega arith)
  item-Passes key value (at_milli ms) zero file s hk hv f h = absurd (omega arith)
  item-Passes key value (at_milli ms) (suc zero) file s hk hv f h = absurd (omega arith)
  item-Passes key value (at_second sec) zero file s hk hv f h = absurd (omega arith)
  item-Passes key value (at_second sec) (suc zero) file s hk hv f h = absurd (omega arith)

  section-Passes :
      (x : Section) (fuel : ℕ) (file : Bytes) (s : S)
      → Fits x
      → length (put_section x) ≤ fuel
      → Passes x fuel file s
  unfolding set_section
  section-Passes (item x) fuel file s (hk, hv, f) h =
      item-Passes x.key x.value x.expiry fuel file s hk hv f h
  section-Passes (aux k v) (suc fuel) file s (hk, hv) h = (
    fuel,
    omega arith,
    load_loop-next fuel (pos 0) (pos 0) _ _ s s (load_round-aux k v file (pos 0) s hk hv),
  )
  section-Passes (select i) (suc fuel) file s f h = (
    fuel,
    omega arith,
    load_loop-next fuel (pos 0) (pos 0) _ _ s s (load_round-select i file (pos 0) s f),
  )
  section-Passes (sizes i j) (suc fuel) file s (hi, hj) h = (
    fuel,
    omega arith,
    load_loop-next fuel (pos 0) (pos 0) _ _ s s (load_round-sizes i j file (pos 0) s hi hj),
  )
  section-Passes (aux k v) zero file s f h = absurd (omega arith)
  section-Passes (select i) zero file s f h = absurd (omega arith)
  section-Passes (sizes i j) zero file s f h = absurd (omega arith)

  load_loop-sections :
      (xs : List Section) (fuel : ℕ) (rest : Bytes) (s : S)
      → All Fits xs
      → length (put_sections xs) ≤ fuel
      → load_loop set fuel (pos 0) (put_sections xs ++ rest) s ≡ (set_all xs s, finished)
  unfolding put_sections set_all
  load_loop-sections [] zero rest s fit h = absurd (omega arith)
  load_loop-sections [] (suc fuel) rest s fit h =
      unfold load_loop load_round load_op read_byte reading_at in refl
  load_loop-sections (x ∷ xs) fuel rest s (fx, fit) h =
      let size : length (put_section x ++ put_sections xs)
          ≡ length (put_section x) + length (put_sections xs) =
        length-append (put_section x) (put_sections xs) in
      let (left, enough, e) = section-Passes x fuel (put_sections xs ++ rest) s fx (omega arith) in
      rw (append_assoc (put_section x) (put_sections xs) rest)
        (e ∙ load_loop-sections xs left rest (set_section x s) fit (omega arith))

  -- A file that was written by the rules of the dump format, of any version: its fields about itself, the
  -- index of a database, the sizes of its tables, and its keys with their values, in any order and number.
  -- A string is shorter than 4 GiB, or is a number in one, two or four bytes with its sign; an index and a
  -- size are below 2^32. A key has an expiry time in one of the two forms, within its field and for
  -- milliseconds below 2^63, or none. The file is loaded whole: every key is set, in order and with its own
  -- expiry time, nothing else is, the loop comes to the end mark, and what follows that is not read.
  pub load-dump :
      (version : Bytes) (xs : List Section) (rest : Bytes) (s : S)
      → length version ≡ 4
      → All Fits xs
      → load set (dump version xs ++ rest) s ≡ (set_all xs s, finished)
  unfolding dump load set_all
  load-dump version xs rest s four fit =
      let hdr : read_full 9 ((codes "REDIS" ++ version) ++ (put_sections xs ++ rest))
          ≡ got (codes "REDIS" ++ version, put_sections xs ++ rest) =
        rw four at (read_full-append (codes "REDIS" ++ version) (put_sections xs ++ rest)) in
      unfold bytes_eq in
      rw (append_assoc (codes "REDIS" ++ version) (put_sections xs) rest, hdr, load)
        (load_loop-sections xs (suc (length (put_sections xs ++ rest))) rest s fit
          (omega (arith, length-append (put_sections xs) rest)))
