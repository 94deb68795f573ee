-- ===== src/Store/Bits/Combine.antt =====
-- BITOP: the bytes of the result, and where it is stored.
use Prim.Native.Nat.{max}
use native.Mathlib.Decide.{dec_lt}
use redis_go.Base.{
  ℕ, zero, suc, ◌+◌, ◌<◌, ◌≡◌, refl, ap, ◌∙◌, sym, [], ◌∷◌, none, some, arith, Bytes, length,
  bytes_eq_refl,
}
use redis_go.Base.Dict.{get, get-put, get-remove}
use redis_go.Store.{Store, Entry, zero_entry, string}
use redis_go.Store.Bits.{byte_at, combine, store_combined, bit_op, value_or_empty}
use redis_go.Store.Bits.SetGet.{byte_at_past}

length-combine : (op : ℕ → ℕ → ℕ) (n i : ℕ) (s t : Bytes) → length (combine op n i s t) ≡ n
unfolding combine
length-combine op zero i s t = refl
length-combine op (suc n) i s t = ap suc (length-combine op n (i + 1) s t)

byte_at-combine :
    (op : ℕ → ℕ → ℕ) (n i j : ℕ) (s t : Bytes)
    → j < n
    → byte_at (combine op n i s t) j ≡ op (byte_at s (i + j)) (byte_at t (i + j))
unfolding combine byte_at
byte_at-combine op zero i j s t h = absurd (omega arith)
byte_at-combine op (suc n) i zero s t h = let e : i + 0 ≡ i = omega arith in rw e
byte_at-combine op (suc n) i (suc j) s t h =
    let e : i + suc j ≡ i + 1 + j = omega arith in
    rw e (byte_at-combine op n (i + 1) j s t (omega arith))

-- The first text's bytes with the second's, where a text has no byte a zero.
byte_at-combined :
    (op : ℕ → ℕ → ℕ) (s t : Bytes) (j : ℕ)
    → op 0 0 ≡ 0
    → byte_at (combine op (max (length s) (length t)) 0 s t) j ≡ op (byte_at s j) (byte_at t j)
byte_at-combined op s t j z =
    let n : ℕ = max (length s) (length t) in
    elim (dec_lt j n) [
      | yes h ↦
          let e : 0 + j ≡ j = omega arith in
          byte_at-combine op n 0 j s t h ∙ ap (λ k. op (byte_at s k) (byte_at t k)) e
      | no h ↦
          rw
            (
              byte_at_past (combine op n 0 s t) j (omega (arith, length-combine op n 0 s t)),
              byte_at_past s j (omega arith),
              byte_at_past t j (omega arith),
            )
            (sym z)
    ]

store_new :
    (dest : Bytes) (result : Bytes) (s : Store)
    → get s.entries dest ≡ none
    → (store_combined dest result s).0 ≡ length result
unfolding store_combined
store_new dest [] s h = refl
store_new dest (c ∷ result) s h = refl

value_stored :
    (dest : Bytes) (result : Bytes) (s : Store)
    → get s.entries dest ≡ none
    → value_or_empty (get (store_combined dest result s).1.entries dest) ≡ result
unfolding store_combined
value_stored dest [] s h = ground (arith, get-remove s.entries dest dest, bytes_eq_refl dest)
value_stored dest (c ∷ result) s h = ground (
  arith,
  bytes_eq_refl dest,
  get-put s.entries dest dest (record zero_entry { kind = string; value = c ∷ result }),
)

-- BITOP onto a key that is missing, by an operation that takes two zero bytes to zero: the reply is the
-- length of the longer text, which the stored value has, and each of its bytes is the operation on the
-- texts' bytes there, a text that ends before counting as zeros.
pub bit_op-stores :
    (op : ℕ → ℕ → ℕ) (dest key1 key2 : Bytes) (j : ℕ) (s : Store)
    → op 0 0 ≡ 0
    → get s.entries dest ≡ none
    → ((bit_op op dest key1 key2 s).0
        ≡ max
            (length (value_or_empty (get s.entries key1)))
            (length (value_or_empty (get s.entries key2))))
      × (length (value_or_empty (get (bit_op op dest key1 key2 s).1.entries dest))
          ≡ (bit_op op dest key1 key2 s).0)
      × (byte_at (value_or_empty (get (bit_op op dest key1 key2 s).1.entries dest)) j
          ≡ op
              (byte_at (value_or_empty (get s.entries key1)) j)
              (byte_at (value_or_empty (get s.entries key2)) j))
unfolding bit_op
bit_op-stores op dest key1 key2 j s z missing =
    let str1 = value_or_empty (get s.entries key1) in
    let str2 = value_or_empty (get s.entries key2) in
    let n : ℕ = max (length str1) (length str2) in
    let result : Bytes = combine op n 0 str1 str2 in
    let count = store_new dest result s missing in
    let kept = value_stored dest result s missing in
    (
      count ∙ length-combine op n 0 str1 str2,
      ap length kept ∙ sym count,
      ap (λ v. byte_at v j) kept ∙ byte_at-combined op str1 str2 j z,
    )

-- BITOP onto a key that exists, where one of the texts is not empty, replies with the length of the
-- result and stores nothing.
pub bit_op_drops :
    (op : ℕ → ℕ → ℕ) (dest key1 key2 : Bytes) (s : Store) (e : Entry)
    → get s.entries dest ≡ some e
    → 0
      < max
          (length (value_or_empty (get s.entries key1)))
          (length (value_or_empty (get s.entries key2)))
    → bit_op op dest key1 key2 s ≡ (
      max
          (length (value_or_empty (get s.entries key1)))
          (length (value_or_empty (get s.entries key2))),
      s,
    )
bit_op_drops op dest key1 key2 s e here more =
    unfold bit_op in
    dropped (combine op n 0 str1 str2) (omega (arith, length-combine op n 0 str1 str2))
    ∙ ap (λ k. (k, s)) (length-combine op n 0 str1 str2)
  where
    str1 : Bytes
    str1 = value_or_empty (get s.entries key1)

    str2 : Bytes
    str2 = value_or_empty (get s.entries key2)

    n : ℕ
    n = max (length str1) (length str2)

    dropped :
        (result : Bytes) → 0 < length result → store_combined dest result s ≡ (length result, s)
    dropped [] h = absurd (omega arith)
    dropped (c ∷ result) h = unfold store_combined in rw (here, store_combined)
