-- ===== src/Main/Restart.antt =====
-- The program is started, serves, ends, and is started again.
use redis_go.Base.{
  ℕ, ◌≡◌, refl, ap, ◌∙◌, true, false, [], ◌∷◌, ◌++◌, Option, none, some, arith, Bytes, codes, All,
  length, All-append, bytes_eq, bytes_eq_iff, bytes_eq_refl, length-append, if◌then◌else◌,
  Bool-cases, inl, inr,
}
use redis_go.Rdb.Load as rdb
use redis_go.Server.{new_acl}
use redis_go.Aof.{replay, finished}
use redis_go.Aof.Replay.{append_all, apply_all, replay-append_all}
use redis_go.Store.{Store, new_store}
use redis_go.Commands.{World, Env}
use redis_go.Main.{new_manifest, incr_file_name_from_manifest}
use redis_go.Main.Manifest.{IsPrintable, incr_file_name_from_manifest-new_manifest}
use redis_go.Main.Start.{
  Disk, running, Started, listening, new_node, content_of, write_file, open_file, replay_command,
  replay_file, replayed, manifest_path, first_incr, dump_path, manifest_read, name_read, open_aof,
  load_rdb_file, loaded, start_aof, start,
}

write_file_there : (path content : Bytes) (d : Disk) → write_file path content d path ≡ some content
unfolding write_file
write_file_there path content d = ground (arith, bytes_eq_refl path)

write_file_elsewhere :
    (path content other : Bytes) (d : Disk)
    → bytes_eq path other ≡ false
    → write_file path content d other ≡ d other
unfolding write_file
write_file_elsewhere path content other d h = ground (arith, h)

bytes_eq_swap : (a b : Bytes) → bytes_eq a b ≡ false → bytes_eq b a ≡ false
bytes_eq_swap a b h = grind (arith, bytes_eq_iff a b, bytes_eq_iff b a)

open_file_there : (path content : Bytes) (d : Disk) → d path ≡ some content → open_file path d ≡ d
unfolding open_file
open_file_there path content d h =
    ap (λ (o : Option Bytes). elim o [ none ↦ write_file path [] d | some c ↦ d ]) h

open_file_new : (path : Bytes) (d : Disk) → d path ≡ none → open_file path d ≡ write_file path [] d
unfolding open_file
open_file_new path d h =
    ap (λ (o : Option Bytes). elim o [ none ↦ write_file path [] d | some c ↦ d ]) h

module _ (env : Env) (clock : ℕ → ℕ) (path : Bytes) (w : World) where
  abbrev opened : Disk → Bytes → Started
  opened d content =
      replayed env d path content (replay (replay_command env clock) (some content) (running 0 w))

  replay_file_opened :
      (d d' : Disk) (content : Bytes) (k : ℕ) (w' : World)
      → open_file path d ≡ d'
      → d' path ≡ some content
      → replay (replay_command env clock) (some content) (running 0 w) ≡ (running k w', finished)
      → replay_file env clock path d w ≡ listening (new_node w' (some content)) d' (some path)
  unfolding replay_file replayed
  replay_file_opened d d' content k w' same there run =
      ap (λ e. opened e (content_of (e path))) same
      ∙ ap (λ (o : Option Bytes). opened d' (content_of o)) there
      ∙ ap (replayed env d' path content) run

  replay_file_there :
      (d : Disk) (content : Bytes) (k : ℕ) (w' : World)
      → d path ≡ some content
      → replay (replay_command env clock) (some content) (running 0 w) ≡ (running k w', finished)
      → replay_file env clock path d w ≡ listening (new_node w' (some content)) d (some path)
  replay_file_there d content k w' there run =
      replay_file_opened d d content k w' (open_file_there path content d there) there run

  replay_file_new :
      (d : Disk)
      → d path ≡ none
      → replay_file env clock path d w
        ≡ listening (new_node w (some [])) (write_file path [] d) (some path)
  unfolding append_all apply_all
  replay_file_new d missing =
      replay_file_opened d (write_file path [] d) [] 0 w (open_file_new path d missing)
        (write_file_there path [] d)
        (replay-append_all (replay_command env clock) [] (running 0 w) tt)

suffix-IsPrintable : All IsPrintable (codes ".1.incr.aof")
suffix-IsPrintable =
    (refl, (refl, (refl, (refl, (refl, (refl, (refl, (refl, (refl, (refl, (refl, tt)))))))))))

not_file : (f : Bytes) → bytes_eq (f ++ codes ".1.incr.aof") (codes "file") ≡ false
not_file f = elim (Bool-cases (bytes_eq (f ++ codes ".1.incr.aof") (codes "file"))) [
  | inl same ↦
      let e =
        ap (length {A = ℕ}) ((bytes_eq_iff (f ++ codes ".1.incr.aof") (codes "file")).0 same) in
      absurd (omega (arith, e, length-append f (codes ".1.incr.aof")))
  | inr apart ↦ apart
]

first_incr-read :
    (f : Bytes)
    → All IsPrintable f
    → incr_file_name_from_manifest (new_manifest (f ++ codes ".1.incr.aof"))
      ≡ some (f ++ codes ".1.incr.aof")
first_incr-read [] h =
    incr_file_name_from_manifest-new_manifest b'.' (codes "1.incr.aof") suffix-IsPrintable
      (not_file [])
first_incr-read (c ∷ f) h =
    incr_file_name_from_manifest-new_manifest c (f ++ codes ".1.incr.aof")
      (All-append IsPrintable (c ∷ f) (codes ".1.incr.aof") h suffix-IsPrintable) (not_file (c ∷ f))

module _ (env : Env) (join : Bytes → Bytes → Bytes) where
  abbrev pub incr_path : Bytes
  incr_path = join env.config.aof_dir (first_incr env join)

  -- The names of the manifest, of the append-only file and of the dump lead to three files, and the
  -- name for the second can be read back from the first.
  pub record IsNamed : Type 0 where
    pub manifest_incr : bytes_eq (manifest_path env join) incr_path ≡ false
    pub manifest_dump : bytes_eq (manifest_path env join) (dump_path env join) ≡ false
    pub incr_dump : bytes_eq incr_path (dump_path env join) ≡ false
    pub printable : All IsPrintable env.config.append_filename

  -- The disk has neither a manifest nor an append-only file.
  pub record IsFresh (d : Disk) : Type 0 where
    pub manifest : d (manifest_path env join) ≡ none
    pub incr : d incr_path ≡ none

  -- The disk behind the first start, and with this in the append-only file.
  abbrev pub first_disk : Disk → Disk
  first_disk d =
      write_file incr_path []
        (write_file (manifest_path env join) (new_manifest (first_incr env join)) d)

  abbrev pub disk_with : Bytes → Disk → Disk
  disk_with content d = write_file incr_path content (first_disk d)

  pub loaded_same :
      (d d' : Disk)
      → d' (dump_path env join) ≡ d (dump_path env join)
      → loaded env join d' ≡ loaded env join d
  unfolding loaded
  loaded_same d d' h =
      ap
        (λ (o : Option Bytes).
          if bytes_eq env.config.db_filename []
          then (new_store, rdb.finished)
          else load_rdb_file env join o new_store)
        h

  pub start-open_aof :
      (clock : ℕ → ℕ) (d : Disk) (s : Store)
      → env.config.append_only ≡ true
      → loaded env join d ≡ (s, rdb.finished)
      → start env join clock d ≡ open_aof env join clock d (record { store = s; users = new_acl })
  unfolding start start_aof
  start-open_aof clock d s on load =
      let w : World = record { store = s; users = new_acl } in
      ap (start_aof env join clock d) load
      ∙ ap (λ b. if b then open_aof env join clock d w else listening (new_node w none) d none) on

  pub open_aof_new :
      (clock : ℕ → ℕ) (d : Disk) (w : World)
      → IsNamed
      → IsFresh d
      → open_aof env join clock d w
        ≡ listening (new_node w (some [])) (first_disk d) (some incr_path)
  unfolding open_aof manifest_read
  open_aof_new clock d w named fresh =
      ap (manifest_read env join clock d w) fresh.manifest
      ∙ replay_file_new env clock incr_path w
          (write_file (manifest_path env join) (new_manifest (first_incr env join)) d)
          (write_file_elsewhere (manifest_path env join) (new_manifest (first_incr env join))
              incr_path d named.manifest_incr
            ∙ fresh.incr)

  disk_with-manifest :
      (content : Bytes) (d : Disk)
      → IsNamed
      → disk_with content d (manifest_path env join) ≡ some (new_manifest (first_incr env join))
  disk_with-manifest content d named =
      let apart = bytes_eq_swap (manifest_path env join) incr_path named.manifest_incr in
      write_file_elsewhere incr_path content (manifest_path env join) _ apart
      ∙ write_file_elsewhere incr_path [] (manifest_path env join) _ apart
      ∙ write_file_there (manifest_path env join) _ d

  pub disk_with-dump :
      (content : Bytes) (d : Disk)
      → IsNamed
      → disk_with content d (dump_path env join) ≡ d (dump_path env join)
  disk_with-dump content d named =
      write_file_elsewhere incr_path content (dump_path env join) _ named.incr_dump
      ∙ write_file_elsewhere incr_path [] (dump_path env join) _ named.incr_dump
      ∙ write_file_elsewhere (manifest_path env join) _ (dump_path env join) d named.manifest_dump

  pub open_aof_again :
      (clock : ℕ → ℕ) (content : Bytes) (d : Disk) (k : ℕ) (w w' : World)
      → IsNamed
      → replay (replay_command env clock) (some content) (running 0 w) ≡ (running k w', finished)
      → open_aof env join clock (disk_with content d) w
        ≡ listening (new_node w' (some content)) (disk_with content d) (some incr_path)
  unfolding open_aof manifest_read name_read
  open_aof_again clock content d k w w' named run =
      ap (manifest_read env join clock (disk_with content d) w) (disk_with-manifest content d named)
      ∙ ap (name_read env join clock (disk_with content d) w)
          (first_incr-read env.config.append_filename named.printable)
      ∙ replay_file_there env clock incr_path w (disk_with content d) content k w'
          (write_file_there incr_path content (first_disk d)) run
