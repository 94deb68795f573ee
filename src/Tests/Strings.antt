-- ===== src/Tests/Strings.antt =====
-- Strings and counters on concrete keys.
use redis_go.Base.{◌-◌, ◌^◌, ◌≡◌, refl, some, none, arith, Bytes, codes, bytes_eq}
use redis_go.Base.Int.{negsuc}
use redis_go.Base.Dict.{get, put, remove}
use redis_go.Decimal.{format, format_int, parse_int}
use redis_go.Store.{Store, Entry, zero_entry, new_store, put_entry, string, ok}
use redis_go.Store.Strings.{set, get_value, increment}
use redis_go.Store.Strings.Counting.{increments, get_value-increments}

abbrev key : Bytes
key = codes "n"

abbrev entry_of : Bytes → Entry
entry_of value = record zero_entry { kind = string; value = value }

abbrev holding : Bytes → Store
holding value = put_entry new_store key (entry_of value)

expiry : get_value key 11 (set key (codes "v") 10 new_store) ≡ none
unfolding get_value set get put remove bytes_eq
expiry = refl

-- INCR of the largest int64 wraps around.
wraps : (increment key (holding (codes "9223372036854775807"))).0 ≡ ok (negsuc (2 ^ 63 - 1))
unfolding increment parse_int format_int get put remove bytes_eq
wraps = refl

get_value-increments_example : get_value key 0 (increments 3 key new_store) ≡ some (format 3)
get_value-increments_example =
    get_value-increments new_store key 2 0 (unfold get in refl) (omega arith)
