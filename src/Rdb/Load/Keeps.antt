-- ===== src/Rdb/Load/Keeps.antt =====
-- What every call of the function that `Load` is given keeps, `Load` keeps.
use redis_go.Base.{
  ℕ, zero, suc, not, ◌==◌, Bool, true, false, if◌then◌else◌, Bytes, codes, bytes_eq, length, take,
}
use redis_go.Base.Int.{ℤ, pos}
use redis_go.Resp.Reader.{read_byte, read_full}
use redis_go.Rdb.{Result, ok, err, read_string, read_plain_size, lift, signed, little_endian}
use redis_go.Rdb.Load.{
  Ending, Place, aux_name, aux_value, db_size, expires_size, key, value_for, db_index, expiry_ms,
  expiry_sec, opcode, header, not_an_rdb_file, unsupported_opcode, finished, reading, Round, stop,
  next, reading_at, load_aux, load_sizes, load_pair, load_op, load_round, load_loop, load,
  unix_milli, unix_seconds,
}

abbrev Keeps {ℓ κ} : {S : Type ℓ} → (S → Type κ) → Round S → Type κ
Keeps P (stop e s) = P s
Keeps P (next t rest s) = P s

module _ {ℓ κ} {S : Type ℓ} (set : Bytes → Bytes → ℤ → S → S) (P : S → Type κ)
    (kept : (k v : Bytes) (t : ℤ) (s : S) → P s → P (set k v t s)) where
  reading_at-Keeps {ι} :
      {A : Type ι} (place : Place) (r : Result A) (s : S) (f : A → Round S)
      → P s
      → ((a : A) → Keeps P (f a))
      → Keeps P (reading_at set place r s f)
  unfolding reading_at
  reading_at-Keeps place (err e) s f h hf = h
  reading_at-Keeps place (ok a) s f h hf = hf a

  Keeps-if : (b : Bool) (x y : Round S) → Keeps P x → Keeps P y → Keeps P (if b then x else y)
  Keeps-if true x y hx hy = hx
  Keeps-if false x y hx hy = hy

  load_op-Keeps :
      (op : ℕ) (expires : ℤ) (file : Bytes) (s : S) → P s → Keeps P (load_op set op expires file s)
  unfolding load_op load_aux load_sizes load_pair
  load_op-Keeps op expires file s h =
      Keeps-if (op == 0xFA) (load_aux set expires file s) _
        (reading_at-Keeps aux_name (read_string file) s _ h
          λ name. reading_at-Keeps aux_value (read_string name.1) s _ h λ value. h)
        (Keeps-if (op == 0xFE)
          (reading_at set db_index (read_plain_size file) s (λ index. next expires index.1 s)) _
          (reading_at-Keeps db_index (read_plain_size file) s _ h λ index. h)
          (Keeps-if (op == 0xFB) (load_sizes set expires file s) _
            (reading_at-Keeps db_size (read_plain_size file) s _ h
              λ size. reading_at-Keeps expires_size (read_plain_size size.1) s _ h λ hint. h)
            (Keeps-if (op == 0xFC)
              (reading_at set expiry_ms (lift (read_full 8 file)) s
                (λ b. next (unix_milli (signed 64 (little_endian b.0))) b.1 s))
              _ (reading_at-Keeps expiry_ms (lift (read_full 8 file)) s _ h λ b. h)
              (Keeps-if (op == 0xFD)
                (reading_at set expiry_sec (lift (read_full 4 file)) s
                  (λ b. next (unix_seconds (little_endian b.0)) b.1 s))
                _ (reading_at-Keeps expiry_sec (lift (read_full 4 file)) s _ h λ b. h)
                (Keeps-if (op == 0) (load_pair set expires file s) _
                  (reading_at-Keeps key (read_string file) s _ h λ k.
                    reading_at-Keeps (value_for k.0) (read_string k.1) s _ h
                      λ v. kept k.0 v.0 expires s h)
                  (Keeps-if (op == 0xFF) (stop finished s) (stop (unsupported_opcode op) s) h
                    h))))))

  load_round-Keeps :
      (expires : ℤ) (file : Bytes) (s : S) → P s → Keeps P (load_round set expires file s)
  unfolding load_round
  load_round-Keeps expires file s h =
      reading_at-Keeps opcode (lift (read_byte file)) s _ h
        λ op. load_op-Keeps op.0 expires op.1 s h

  load_loop-Keeps :
      (fuel : ℕ) (expires : ℤ) (file : Bytes) (s : S)
      → P s
      → P (load_loop set fuel expires file s).0
  unfolding load_loop
  load_loop-Keeps zero expires file s h = h
  load_loop-Keeps (suc fuel) expires file s h =
      elim (load_round set expires file s)
          as (λ (r : Round S).
            Keeps P r
            → (let out : S × Ending = (elim r [
              | stop e s' ↦ (s', e)
              | next expires' rest s' ↦ load_loop set fuel expires' rest s'
            ]) in
                P out.0)) [
                  | stop e s' ↦ λ k. k
                  | next t rest s' ↦ λ k. load_loop-Keeps fuel t rest s' k
                ]
        (load_round-Keeps expires file s h)

  first_if : (b : Bool) (x y : S × Ending) → P x.0 → P y.0 → P (if b then x else y).0
  first_if true x y hx hy = hx
  first_if false x y hx hy = hy

  pub load-Keeps : (file : Bytes) (s : S) → P s → P (load set file s).0
  unfolding load
  load-Keeps file s h =
      elim (lift (read_full 9 file))
        as (λ (r : Result (Bytes × Bytes)).
          let out : S × Ending = (elim r [
            | err e ↦ (s, reading header e)
            | ok (hdr, rest) ↦
                if not (bytes_eq (take 5 hdr) (codes "REDIS"))
                then (s, not_an_rdb_file)
                else load_loop set (suc (length rest)) (pos 0) rest s
          ]) in
          P out.0) [
            | err e ↦ h
            | ok (hdr, rest) ↦
                first_if (not (bytes_eq (take 5 hdr) (codes "REDIS"))) (s, not_an_rdb_file)
                  (load_loop set (suc (length rest)) (pos 0) rest s) h
                  (load_loop-Keeps (suc (length rest)) (pos 0) rest s h)
          ]
