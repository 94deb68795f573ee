-- ===== src/Store/Bits.antt =====
-- `SetBit`, `GetBit`, `CountBit`, `BitOpAnd` and `BitOpOr` of app/store.go: strings as arrays of bits.
pub mod Bytewise
pub mod SetGet
pub mod Combine
use Prim.Native.Nat.{bit_and, bit_or, bit_xor, max}
use redis_go.Base.{
  ℕ, zero, suc, ◌+◌, ◌-◌, ◌*◌, ◌/◌, ◌%◌, ◌^◌, Bool, true, false, not, ◌&&◌, ◌||◌, List, [], ◌∷◌,
  ◌++◌, Option, none, some, ltb, leb, ◌==◌, if◌then◌else◌, Bytes, length, replicate, set, get_elem?,
}
use redis_go.Base.Int.{ℤ, pos, negsuc, ltb_ℤ}
use redis_go.Base.Dict.{Dict, get, put, remove}
use redis_go.Store.{
  Store, Entry, zero_entry, string, Error, bit_value, bit_offset, wrong_type, Result, ok, err,
  Outcome, done, panic, ◌>>=◌, is_kind, expired, put_entry, mark_watchers,
}

abbrev pub max_bit_offset : ℕ
max_bit_offset = 2 ^ 32 - 1

-- `byteAt`: the byte, or zero past the end.
unfoldable pub byte_at : Bytes → ℕ → ℕ
byte_at [] i = 0
byte_at (c ∷ s) zero = c
byte_at (c ∷ s) (suc i) = byte_at s i

-- `bitPosition`: the byte of an offset, and the mask of its bit, the highest bit first.
abbrev pub byte_index : ℕ → ℕ
byte_index offset = offset / 8

abbrev pub mask : ℕ → ℕ
mask offset = 2 ^ (7 - offset % 8)

-- `b & mask != 0`
unfoldable pub has_bit : ℕ → ℕ → Bool
has_bit b m = not (bit_and b m == 0)

unfoldable pub bit_of : Bool → ℕ
bit_of true = 1
bit_of false = 0

-- `b | mask`, and `b &^ mask` on a byte.
unfoldable pub write_bit : ℕ → ℕ → Bool → ℕ
write_bit b m true = bit_or b m
write_bit b m false = bit_and b (bit_xor 0xFF m)

-- Zero bytes behind the buffer, up to the index and with it.
unfoldable pub grow : ℕ → Bytes → Bytes
grow i buf = if leb (length buf) i then buf ++ replicate (i + 1 - length buf) 0 else buf

-- `buf[i]`, and `buf[i] = c`: an index out of range is a panic.
unfoldable pub at : Bytes → ℕ → Outcome ℕ
at buf i = elim (get_elem? buf i) [ none ↦ panic | some c ↦ done c ]

unfoldable pub put_at : Bytes → ℕ → ℕ → Outcome Bytes
put_at buf i c = if ltb i (length buf) then done (set buf i c) else panic

-- The entry that a command on a string works on: an expired one counts as new.
unfoldable pub entry_for_bits : Bytes → ℕ → Store → Option Entry
unfolding expired
entry_for_bits key now s = elim (get s.entries key) [
  | none ↦ none
  | some e ↦ if expired now e then none else some e
]

unfoldable pub store_bit : Bytes → ℕ → Bool → Entry → Store → Outcome (Result ℕ × Store)
unfolding grow at put_at write_bit has_bit bit_of mark_watchers
store_bit key offset value e s = do
  let i = byte_index offset
  let grown = grow i e.value
  b ← at grown i
  buf ← put_at grown i (write_bit b (mask offset) value)
  done (
    ok (bit_of (has_bit b (mask offset))),
    put_entry (mark_watchers key s) key (record e { kind = string; value = buf }),
  )

-- The value 0 or 1 as a Boolean; `none` is refused.
abbrev pub bit_value_of : ℤ → Option Bool
bit_value_of (pos zero) = some false
bit_value_of (pos (suc zero)) = some true
bit_value_of _ = none

unfoldable pub set_bit : Bytes → ℕ → ℤ → ℕ → Store → Outcome (Result ℕ × Store)
set_bit key offset value now s = elim (bit_value_of value) [
  | none ↦ done (err bit_value, s)
  | some v ↦
      if ltb max_bit_offset offset
      then done (err bit_offset, s)
      else elim (entry_for_bits key now s) [
        | none ↦ store_bit key offset v zero_entry s
        | some e ↦
            if not (is_kind e.kind string)
            then done (err wrong_type, s)
            else store_bit key offset v e s
      ]
]

unfoldable pub read_bit : ℕ → Bytes → Outcome ℕ
unfolding at has_bit bit_of
read_bit offset value =
    if leb (length value) (byte_index offset)
    then done 0
    else (do b ← at value (byte_index offset); done (bit_of (has_bit b (mask offset))))

unfoldable pub get_bit : Bytes → ℕ → ℕ → Store → Outcome (Result ℕ)
get_bit key offset now s =
    if ltb max_bit_offset offset then done (err bit_offset) else elim (entry_for_bits key now s) [
      | none ↦ done (ok 0)
      | some e ↦
          if not (is_kind e.kind string)
          then done (err wrong_type)
          else (do n ← read_bit offset e.value; done (ok n))
    ]

-- `bits.OnesCount8`
unfoldable pub ones_count : ℕ → ℕ → ℕ
ones_count zero b = 0
ones_count (suc n) b = b % 2 + ones_count n (b / 2)

-- The loop of `CountBit` over `n` bytes from `i` on.
unfoldable pub count_loop : ℕ → ℕ → Bytes → Outcome ℕ
unfolding ones_count at
count_loop zero i buf = done 0
count_loop (suc n) i buf = do
  b ← at buf i
  rest ← count_loop n (i + 1) buf
  done (ones_count 8 b + rest)

-- `stop` clamped to the buffer; the pair 0, 0 stands for the whole. The result is one past the last byte.
abbrev pub stop_bound : ℕ → ℕ → ℕ → ℕ
stop_bound n start stop =
    let clamped = (if leb n stop then n else stop + 1) in
    if start == 0 && (clamped == 1) then n else clamped

-- A negative start that is not above the stop is an index out of range.
unfoldable pub count_bytes : Bytes → ℤ → ℤ → Outcome ℕ
unfolding count_loop
count_bytes buf (pos start) (negsuc stop) = done 0
count_bytes buf (pos start) (pos stop) =
    if ltb (length buf) start || ltb stop start
    then done 0
    else count_loop (stop_bound (length buf) start stop - start) start buf
count_bytes buf (negsuc start) stop = if ltb_ℤ stop (negsuc start) then done 0 else panic

unfoldable pub count_bit : Bytes → ℤ → ℤ → Store → Outcome ℕ
unfolding count_bytes
count_bit key start stop s = elim (get s.entries key) [
  | none ↦ done 0
  | some e ↦ count_bytes e.value start stop
]

abbrev pub value_or_empty : Option Entry → Bytes
value_or_empty none = []
value_or_empty (some e) = e.value

-- The loop over `dest`: the bytes of both texts, one operation for each pair.
unfoldable pub combine : (ℕ → ℕ → ℕ) → ℕ → ℕ → Bytes → Bytes → Bytes
combine op zero i s t = []
combine op (suc n) i s t = op (byte_at s i) (byte_at t i) ∷ combine op n (i + 1) s t

-- An empty result deletes the destination; another is stored only where the destination is missing.
unfoldable pub store_combined : Bytes → Bytes → Store → ℕ × Store
store_combined dest_key [] s = (0, record s { entries = remove s.entries dest_key })
store_combined dest_key (c ∷ dest) s = (
  length (c ∷ dest),
  elim (get s.entries dest_key) [
    | none ↦ put_entry s dest_key (record zero_entry { kind = string; value = c ∷ dest })
    | some e ↦ s
  ],
)

unfoldable pub bit_op : (ℕ → ℕ → ℕ) → Bytes → Bytes → Bytes → Store → ℕ × Store
unfolding combine store_combined
bit_op op dest_key key1 key2 s =
    let str1 = value_or_empty (get s.entries key1) in
    let str2 = value_or_empty (get s.entries key2) in
    store_combined dest_key (combine op (max (length str1) (length str2)) 0 str1 str2) s

unfoldable pub bit_op_and : Bytes → Bytes → Bytes → Store → ℕ × Store
unfolding bit_op
bit_op_and = bit_op bit_and

unfoldable pub bit_op_or : Bytes → Bytes → Bytes → Store → ℕ × Store
unfolding bit_op
bit_op_or = bit_op bit_or
