-- ===== src/Main.antt =====
-- app/main.go: the name of the append-only file in its manifest, and the keys of a dump at start-up.
pub mod Start
pub mod Manifest
pub mod Restart
pub mod Lasting
pub mod Replica
pub mod Safe
use redis_go.Base.{
  Bool, List, [], ◌∷◌, ◌++◌, Option, none, some, ◌==◌, if◌then◌else◌, Bytes, codes, bytes_eq,
}
use redis_go.Base.Int.{ℤ, pos, negsuc}
use redis_go.Resp.Reader.{fields}
use redis_go.Rdb.Load.{Ending, load}
use redis_go.Store.{Store}
use redis_go.Store.Strings.{set}

-- `strings.Split(s, "\n")`
unfoldable pub split_lines : Bytes → Bytes → List Bytes
split_lines cur [] = cur ∷ []
split_lines cur (c ∷ s) =
    let ended = cur ∷ split_lines [] s in
    let longer = split_lines (cur ++ c ∷ []) s in if c == 10 then ended else longer

-- The loop over the words of a line, each but the last with the word behind it: the last `file` and
-- the last `type` count.
unfoldable pub scan_words : List Bytes → Bytes → Bytes → Bytes × Bytes
scan_words [] name typ = (name, typ)
scan_words (w ∷ []) name typ = (name, typ)
scan_words (w ∷ next ∷ rest) name typ =
    scan_words (next ∷ rest) (if bytes_eq w (codes "file") then next else name)
      (if bytes_eq w (codes "type") then next else typ)

unfoldable pub is_incr : Bytes → Bytes → Bool
is_incr [] typ = Bool.false
is_incr (c ∷ name) typ = bytes_eq typ (codes "i")

unfoldable pub incr_in_lines : List Bytes → Option Bytes
unfolding scan_words is_incr
incr_in_lines [] = none
incr_in_lines (line ∷ lines) =
    let (name, typ) = scan_words (fields line) [] [] in
    let rest = incr_in_lines lines in if is_incr name typ then some name else rest

-- `getIncrFileNameFromManifest`, on the bytes of the manifest; `none` is the error of a manifest with
-- no such line.
unfoldable pub incr_file_name_from_manifest : Bytes → Option Bytes
unfolding incr_in_lines split_lines
incr_file_name_from_manifest manifest = incr_in_lines (split_lines [] manifest)

-- The manifest that is written where there is none.
unfoldable pub new_manifest : Bytes → Bytes
new_manifest name = codes "file " ++ (name ++ codes " seq 1 type i\n")

-- `db.Set` with an instant: the store takes a number, and an instant before the zero time is as long
-- past as the first nanosecond.
unfoldable pub set_at : Bytes → Bytes → ℤ → Store → Store
set_at key value (pos t) s = set key value t s
set_at key value (negsuc t) s = set key value 1 s
