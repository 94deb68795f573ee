-- ===== src/Rdb/Load.antt =====
-- `Load` of app/rdb/rdb.go: the loop over the opcodes of a dump file.
pub mod Total
pub mod Format
pub mod Dump
pub mod Keeps
use redis_go.Base.{
  ℕ, zero, suc, ◌+◌, ◌*◌, ◌^◌, List, [], ◌∷◌, ◌==◌, if◌then◌else◌, Bytes, codes, bytes_eq, length,
  take, not,
}
use redis_go.Base.Int.{ℤ, pos, negsuc, sub_ℕ}
use redis_go.Resp.Reader.{ok as got, err as failed, read_byte, read_full}
use redis_go.Rdb.{
  Error, read, Result, ok, err, lift, signed, little_endian, read_string, read_plain_size,
}

-- What the program was reading when an error came: the texts of `fmt.Errorf`.
pub data Place : Type 0 where
  header opcode aux_name aux_value db_index db_size expires_size expiry_ms expiry_sec key : Place
  value_for : Bytes → Place

pub data Ending : Type 0 where
  finished not_an_rdb_file out_of_fuel : Ending
  unsupported_opcode : ℕ → Ending
  reading : Place → Error → Ending

-- A `time.Time` is its distance in nanoseconds from the zero time, which lies so long before 1970.
abbrev pub unix_epoch : ℕ
unix_epoch = 62135596800 * 10 ^ 9

unfoldable pub unix_milli : ℤ → ℤ
unix_milli (pos ms) = pos (unix_epoch + ms * 10 ^ 6)
unix_milli (negsuc ms) = sub_ℕ unix_epoch (suc ms * 10 ^ 6)

unfoldable pub unix_seconds : ℕ → ℤ
unix_seconds sec = pos (unix_epoch + sec * 10 ^ 9)

-- One round of the loop: it ends, or goes on with an expiry time for the next key.
pub data Round {ℓ} (S : Type ℓ) : Type ℓ where
  stop : Ending → S → Round S
  next : ℤ → Bytes → S → Round S

module _ {ℓ} {S : Type ℓ} (set : Bytes → Bytes → ℤ → S → S) where
  unfoldable pub reading_at {κ} : {A : Type κ} → Place → Result A → S → (A → Round S) → Round S
  reading_at place (err e) s f = stop (reading place e) s
  reading_at place (ok a) s f = f a

  unfoldable pub load_aux : ℤ → Bytes → S → Round S
  unfolding reading_at
  load_aux expires file s =
      reading_at aux_name (read_string file) s
        λ name. reading_at aux_value (read_string name.1) s λ value. next expires value.1 s

  unfoldable pub load_sizes : ℤ → Bytes → S → Round S
  unfolding reading_at
  load_sizes expires file s =
      reading_at db_size (read_plain_size file) s
        λ size. reading_at expires_size (read_plain_size size.1) s λ hint. next expires hint.1 s

  unfoldable pub load_pair : ℤ → Bytes → S → Round S
  unfolding reading_at
  load_pair expires file s = reading_at key (read_string file) s λ k.
      reading_at (value_for k.0) (read_string k.1) s λ v. next (pos 0) v.1 (set k.0 v.0 expires s)

  unfoldable pub load_op : ℕ → ℤ → Bytes → S → Round S
  unfolding load_aux load_sizes load_pair reading_at unix_milli unix_seconds
  load_op op expires file s =
      if op == 0xFA
      then load_aux expires file s
      else if op == 0xFE
      then reading_at db_index (read_plain_size file) s (λ index. next expires index.1 s)
      else if op == 0xFB
      then load_sizes expires file s
      else if op == 0xFC
      then reading_at expiry_ms (lift (read_full 8 file)) s
          (λ b. next (unix_milli (signed 64 (little_endian b.0))) b.1 s)
      else if op == 0xFD
      then reading_at expiry_sec (lift (read_full 4 file)) s
          (λ b. next (unix_seconds (little_endian b.0)) b.1 s)
      else if op == 0
      then load_pair expires file s
      else if op == 0xFF
      then stop finished s
      else stop (unsupported_opcode op) s

  unfoldable pub load_round : ℤ → Bytes → S → Round S
  unfolding load_op
  load_round expires file s =
      reading_at opcode (lift (read_byte file)) s λ op. load_op op.0 expires op.1 s

  unfoldable pub load_loop : ℕ → ℤ → Bytes → S → S × Ending
  load_loop zero expires file s = (s, out_of_fuel)
  load_loop (suc fuel) expires file s = elim (load_round expires file s) [
    | stop e s' ↦ (s', e)
    | next expires' rest s' ↦ load_loop fuel expires' rest s'
  ]

  -- A round reads a byte at least, so that the file's length bounds the rounds.
  unfoldable pub load : Bytes → S → S × Ending
  unfolding load_loop
  load file s = elim (lift (read_full 9 file)) [
    | err e ↦ (s, reading header e)
    | ok (hdr, rest) ↦
        if not (bytes_eq (take 5 hdr) (codes "REDIS"))
        then (s, not_an_rdb_file)
        else load_loop (suc (length rest)) (pos 0) rest s
  ]
