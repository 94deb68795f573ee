-- ===== src/Tests/Bits.antt =====
-- Strings as arrays of bits on concrete keys.
use Prim.Native.Nat.{bit_or, max}
use redis_go.Base.{◌≡◌, refl, ◌==◌, true, arith, Bytes, codes, bytes_eq, length, if◌then◌else◌}
use redis_go.Base.Int.{pos}
use redis_go.Base.Dict.{get, put, remove}
use redis_go.Store.{Store, Entry, zero_entry, new_store, put_entry, string, ok, expired, done}
use redis_go.Store.Bits.{
  set_bit, get_bit, bit_of, bit_op, bit_op_or, value_or_empty, byte_at, at, entry_for_bits, combine,
  store_combined, count_bit, count_bytes, count_loop, ones_count,
}
use redis_go.Store.Bits.SetGet.{bit_at, bits_at, get_bit-set_bit}
use redis_go.Store.Bits.Combine.{bit_op-stores}

abbrev key : Bytes
key = codes "k"

abbrev other : Bytes
other = codes "j"

abbrev dest : Bytes
dest = codes "d"

abbrev entry_of : Bytes → Entry
entry_of value = record zero_entry { kind = string; value = value }

abbrev two : Store
two = put_entry (put_entry new_store key (entry_of (codes "ab"))) other (entry_of (codes " "))

ones : count_bit key (pos 0) (pos 1) two ≡ done 6
unfolding count_bit count_bytes count_loop ones_count at get put remove bytes_eq
ones = refl

combined : (bit_op_or dest other key two).0 ≡ 2
unfolding bit_op_or bit_op combine store_combined byte_at get put remove bytes_eq
combined = refl

get_bit-set_bit_example :
    (s' : Store) × (set_bit key 6 (pos (bit_of true)) 0 two
      ≡ done (ok (bit_of (bit_at 6 (bits_at key 0 two))), s'))
    × (get_bit key 7 0 s'
        ≡ done (ok (bit_of (if 6 == 7 then true else bit_at 7 (bits_at key 0 two)))))
get_bit-set_bit_example =
    get_bit-set_bit key 6 7 0 true two (omega arith) (omega arith)
      (unfold entry_for_bits expired get put remove bytes_eq in refl)
      (unfold entry_for_bits expired get put remove bytes_eq in (omega arith, (omega arith, tt)))

bit_op-stores_example :
    ((bit_op bit_or dest key other two).0
      ≡ max
          (length (value_or_empty (get two.entries key)))
          (length (value_or_empty (get two.entries other))))
    × (length (value_or_empty (get (bit_op bit_or dest key other two).1.entries dest))
        ≡ (bit_op bit_or dest key other two).0)
    × (byte_at (value_or_empty (get (bit_op bit_or dest key other two).1.entries dest)) 1
        ≡ bit_or
            (byte_at (value_or_empty (get two.entries key)) 1)
            (byte_at (value_or_empty (get two.entries other)) 1))
bit_op-stores_example =
    bit_op-stores bit_or dest key other 1 two refl (unfold get put remove bytes_eq in refl)
