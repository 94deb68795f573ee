-- ===== src/Tests/Rdb.antt =====
-- The dump format on concrete bytes.
use redis_go.Base.{◌≡◌, ◌≢◌, Bytes, List, refl, ◌++◌, [], ◌∷◌, arith, codes}
use redis_go.Decimal.{format_int}
use redis_go.Resp.Reader.{read_byte, read_full}
use redis_go.Rdb.{ok, read_string, read_size, read_size_of, read_number, signed}
use redis_go.Rdb.Load.{load, finished, out_of_fuel}
use redis_go.Rdb.Load.Format.{
  Section, plain, tiny, word, aux, select, sizes, item, never, at_milli, at_second, dump,
}
use redis_go.Rdb.Load.Dump.{set_all, load-dump}
use redis_go.Rdb.Load.Total.{load-terminates}
use redis_go.Base.Int.{ℤ, pos, negsuc}

-- A number in one byte, with its sign.
minus_one : read_string (0xC0 ∷ 0xFF ∷ []) ≡ ok (codes "-1", [])
unfolding read_string read_size read_size_of read_number read_byte signed format_int
minus_one = refl

-- A file that ends within a number of two bytes.
cut_short : read_string (0xC1 ∷ 0x01 ∷ []) ≡ ok ([], [])
unfolding read_string read_size read_size_of read_number read_byte read_full
cut_short = refl

-- A store that is the list of what was set.
abbrev note : Bytes → Bytes → ℤ → List (Bytes × ℤ) → List (Bytes × ℤ)
note key value t s = (key ++ value, t) ∷ s

abbrev version : Bytes
version = codes "0011"

abbrev sections : List Section
sections =
    aux (plain (codes "redis-bits")) (tiny (pos 64))
    ∷ select 0
    ∷ sizes 3 2
    ∷ item (record {
      key = plain (codes "a");
      value = plain (codes "1");
      expiry = at_milli 1700000000000;
    })
    ∷ item (record { key = plain (codes "b"); value = word (negsuc 69999); expiry = never })
    ∷ item (record { key = tiny (negsuc 0); value = plain []; expiry = at_second 1700000000 })
    ∷ []

load-dump_example :
    load note (dump version sections ++ codes "checksum") [] ≡ (set_all note sections [], finished)
load-dump_example = load-dump note version sections (codes "checksum") [] refl (
  (omega arith, omega arith),
  (
    omega arith,
    (
      (omega arith, omega arith),
      (
        (omega arith, omega arith, omega arith),
        ((omega arith, omega arith, tt), ((omega arith, omega arith, omega arith), tt)),
      ),
    ),
  ),
)

load-terminates_example : (load note (codes "REDIS0011" ++ 0xFB ∷ 3 ∷ []) []).1 ≢ out_of_fuel
load-terminates_example = load-terminates note (codes "REDIS0011" ++ 0xFB ∷ 3 ∷ []) []
