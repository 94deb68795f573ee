-- ===== src/Store/Lists/Ends.antt =====
-- Elements put on and taken off the ends of a list.
use native.Mathlib.Nat.{add-zero}
use redis_go.Base.{
  ℕ, ◌+◌, take-append, drop-append, bytes_eq_refl, ◌≤◌, ◌<◌, ◌≡◌, refl, ap, ◌∙◌, sym, List, [], ◌∷◌,
  ◌++◌, append_assoc, append-nil, none, some, arith, if◌then◌else◌, Bytes, bytes_eq, All, length,
  take, drop,
}
use mathlib.Core.List.{reverse, reverse-append}
use redis_go.Base.Dict.{get, get_or, get-put, get-remove}
use redis_go.Store.{Store, Entry, zero_entry, done, panic, put_entry}
use redis_go.Store.Lists.{
  Pushing, push_one, push_loop, start_push, finish_push, rpush, lpush, push_front, lpop, pop_first,
  blpop, popped, waiting, wait_for, after_pop,
}
use redis_go.Store.Lists.Range.{list_at}

pub push_loop_alone :
    (key : Bytes) (values : List Bytes) (p : Pushing)
    → p.queue ≡ []
    → push_loop key values p ≡ done (record p { list = p.list ++ values })
unfolding push_loop push_one
push_loop_alone key [] p h = ground (arith, append-nil p.list)
push_loop_alone key (v ∷ values) p h = ground (
  arith,
  push_loop_alone key values (record p { list = p.list ++ v ∷ [] }),
  append_assoc p.list (v ∷ []) values,
)

pub list_at-or : (key : Bytes) (s : Store) → (get_or s.entries key zero_entry).list ≡ list_at key s
unfolding get_or
list_at-or key s = ground arith

abbrev pushed : Bytes → List Bytes → Store → ℕ × Store
pushed key values s =
    finish_push key s
      (record (start_push key s) { list = (get_or s.entries key zero_entry).list ++ values })

-- RPUSH where no client waits for the key: it returns the length of the list, which is the old list
-- with the values behind it; the lists of other keys stay.
pub rpush-append :
    (key : Bytes) (values : List Bytes) (s : Store)
    → get_or s.waiters key [] ≡ []
    → (s' : Store) × (rpush key values s ≡ done (length (list_at key s ++ values), s'))
      × ((j : Bytes)
          → list_at j s' ≡ (if bytes_eq key j then list_at key s ++ values else list_at j s))
unfolding rpush
rpush-append key values s alone = (
  (pushed key values s).1,
  rw (push_loop_alone key values (start_push key s) alone)
      (unfold finish_push in rw (list_at-or, add-zero)),
  λ j.
      unfold finish_push in
      ground (
        arith,
        list_at-or key s,
        get-put s.entries key j (record (get_or s.entries key zero_entry) {
          list = (get_or s.entries key zero_entry).list ++ values;
        }),
      ),
)

push_front-reverse : (values list : List Bytes) → push_front values list ≡ reverse values ++ list
unfolding push_front
push_front-reverse [] list = refl
push_front-reverse (v ∷ values) list =
    push_front-reverse values (v ∷ list)
    ∙ sym (
        ap (λ r. r ++ list) (reverse-append (v ∷ []) values)
        ∙ append_assoc (reverse values) (v ∷ []) list)

-- LPUSH puts the values before the list one by one, so that the last value comes first; it returns the
-- new length, and the lists of other keys stay.
pub lpush-reverse :
    (key j : Bytes) (values : List Bytes) (s : Store)
    → ((lpush key values s).0 ≡ length (reverse values ++ list_at key s))
      × (list_at j (lpush key values s).1
          ≡ (if bytes_eq key j then reverse values ++ list_at key s else list_at j s))
unfolding lpush
lpush-reverse key j values s =
    let e = get_or s.entries key zero_entry in
    (
      ap length
          (push_front-reverse values e.list ∙ ap (λ l. reverse values ++ l) (list_at-or key s)),
      ground (
        arith,
        push_front-reverse values e.list,
        list_at-or key s,
        get-put s.entries key j (record e { list = push_front values e.list; expires_at = 0 }),
      ),
    )

length-push_front :
    (values list : List Bytes) → length (push_front values list) ≡ length values + length list
unfolding push_front
length-push_front [] list = omega arith
length-push_front (v ∷ values) list = omega (arith, length-push_front values (v ∷ list))

length-reverse : (values : List Bytes) → length (reverse values) ≡ length values
length-reverse values =
    ap length (sym (push_front-reverse values [] ∙ append-nil (reverse values)))
    ∙ omega (arith, length-push_front values [])

-- LPOP of `n` elements of a list that has as many.
lpop_within :
    (key : Bytes) (n : ℕ) (s : Store) (e : Entry)
    → get s.entries key ≡ some e
    → n ≤ length e.list
    → lpop key n s
      ≡ done (some (take n e.list), put_entry s key (record e { list = drop n e.list }))
unfolding lpop
lpop_within key n s e here fits = ground arith

-- LPUSH of some values and then LPOP of as many: the values come back, the last one first. The entry of
-- the key is there afterwards also where it was missing before, then with an empty list; it has the list
-- that it had and no expiry time, and the entries of other keys are what they were.
pub lpop-lpush :
    (key : Bytes) (values : List Bytes) (s : Store)
    → (s' : Store) × (lpop key (length values) (lpush key values s).1
        ≡ done (some (reverse values), s'))
      × ((j : Bytes)
          → get s'.entries j ≡ (
              if bytes_eq key j
              then some (record (get_or s.entries key zero_entry) { expires_at = 0 })
              else get s.entries j))
unfolding lpush
lpop-lpush key values s =
    let e : Entry = get_or s.entries key zero_entry in
    let e' : Entry = record e { list = push_front values e.list; expires_at = 0 } in
    let s1 : Store = put_entry s key e' in
    let whole : push_front values e.list ≡ reverse values ++ e.list =
      push_front-reverse values e.list in
    let front : take (length values) (push_front values e.list) ≡ reverse values =
      (rw (whole, sym (length-reverse values)) (take-append (reverse values) e.list)) in
    let back : drop (length values) (push_front values e.list) ≡ e.list =
      (rw (whole, sym (length-reverse values)) (drop-append (reverse values) e.list)) in
    let here : get s1.entries key ≡ some e' =
      ground (arith, get-put s.entries key key e', bytes_eq_refl key) in
    (
      put_entry s1 key (record e' { list = drop (length values) e'.list }),
      lpop_within key (length values) s1 e' here (omega (arith, length-push_front values e.list))
          ∙ ap
              (λ r.
                done (some r, put_entry s1 key (record e' { list = drop (length values) e'.list })))
              front,
      λ j.
          get-put s1.entries key j (record e' { list = drop (length values) e'.list })
          ∙ rw back (ground (arith, get-put s.entries key j e')),
    )

-- LPOP of more elements than the list has is a slice out of range: the process ends.
pub lpop_panics :
    (key : Bytes) (n : ℕ) (s : Store) (e : Entry)
    → get s.entries key ≡ some e
    → length e.list < n
    → lpop key n s ≡ panic
unfolding lpop
lpop_panics key n s e here long = ground arith

abbrev pub HasNone : Store → Bytes → Type 0
HasNone s k = list_at k s ≡ []

pop_first_skips :
    (before keys : List Bytes) (s : Store)
    → All (HasNone s) before
    → pop_first (before ++ keys) s ≡ pop_first keys s
unfolding pop_first
pop_first_skips [] keys s h = refl
pop_first_skips (k ∷ before) keys s (hk, h) =
    ground (arith, list_at-or k s, pop_first_skips before keys s h)

pop_first_takes :
    (k v : Bytes) (rest : List Bytes) (after : List Bytes) (s : Store)
    → list_at k s ≡ v ∷ rest
    → pop_first (k ∷ after) s
      ≡ some (record { key = k; value = v }, after_pop k (get_or s.entries k zero_entry) rest s)
unfolding pop_first
pop_first_takes k v rest after s h = ground (arith, list_at-or k s)

list_at-after_pop :
    (k j : Bytes) (e : Entry) (rest : List Bytes) (s : Store)
    → list_at j (after_pop k e rest s) ≡ (if bytes_eq k j then rest else list_at j s)
unfolding after_pop
list_at-after_pop k j e [] s = ground (arith, get-remove s.entries k j)
list_at-after_pop k j e (v ∷ rest) s =
    ground (arith, get-put s.entries k j (record e { list = v ∷ rest }))

-- BLPOP with an element at hand does not wait: the first of its keys that has an element gives up the
-- first one, and no other list changes.
pub blpop_at_once :
    (before after : List Bytes) (k v : Bytes) (rest : List Bytes) (s : Store)
    → All (HasNone s) before
    → list_at k s ≡ v ∷ rest
    → (s' : Store) × (blpop (before ++ k ∷ after) s ≡ popped (record { key = k; value = v }) s')
      × ((j : Bytes) → list_at j s' ≡ (if bytes_eq k j then rest else list_at j s))
unfolding blpop
blpop_at_once before after k v rest s none_before h = (
  after_pop k (get_or s.entries k zero_entry) rest s,
  ground
      (arith, pop_first_skips before (k ∷ after) s none_before, pop_first_takes k v rest after s h),
  λ j. list_at-after_pop k j (get_or s.entries k zero_entry) rest s,
)

pop_first-none : (keys : List Bytes) (s : Store) → All (HasNone s) keys → pop_first keys s ≡ none
unfolding pop_first
pop_first-none [] s h = refl
pop_first-none (k ∷ keys) s (hk, h) = ground (arith, list_at-or k s, pop_first-none keys s h)

-- BLPOP waits where every list is empty.
pub blpop_waits :
    (keys : List Bytes) (s : Store)
    → All (HasNone s) keys
    → blpop keys s ≡ waiting (wait_for keys s).0 (wait_for keys s).1
unfolding blpop
blpop_waits keys s h = ground (arith, pop_first-none keys s h)
