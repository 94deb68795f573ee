-- ===== src/Store/Kinds.antt =====
-- The kind of an entry and its pointers: an entry of kind stream has a stream, and one of kind zset a
-- sorted set.
pub mod Operations
use redis_go.Base.{
  ltb, length, ℕ, ◌≡◌, refl, ap, sym, Bool, true, false, not, List, [], ◌∷◌, Option, none, some,
  arith, if◌then◌else◌, Bytes, bytes_eq, Bool-cases, Option-cases, inl, inr,
}
use mathlib.Core.Path.{subst}
use redis_go.Base.Dict.{Dict, get, put, remove, get_or, get-put, get-remove}
use redis_go.Base.Int.{ℤ}
use redis_go.Decimal.{parse_int}
use redis_go.Store.{
  Popped, Store, Entry, zero_entry, Kind, untyped, string, stream, zset, Stream, Zset, Outcome,
  done, panic, blocked, ◌>>=◌, put_entry, mark_watchers, ok, err, id_zero, id_too_small, wrong_type,
  bit_offset, is_kind, StreamId,
}
use redis_go.Store.Strings as strings
use redis_go.Store.Lists as lists
use redis_go.Store.Streams as streams
use redis_go.Store.Zsets as zsets
use redis_go.Store.Bits as bits
use redis_go.Store.Geo.{geo_add, added}
use redis_go.Base.Floats.{Floats}

abbrev pub Backed : Kind → Option Stream → Option Zset → Type 0
Backed untyped st z = Unit
Backed string st z = Unit
Backed stream none z = ⊥
Backed stream (some st) z = Unit
Backed zset st none = ⊥
Backed zset st (some z) = Unit

abbrev pub IsBacked : Option Entry → Type 0
IsBacked none = Unit
IsBacked (some e) = Backed e.kind e.stream e.zset

-- No key has an entry whose kind promises a pointer that is nil.
pub record IsTyped (entries : Dict Entry) : Type 0 where
  pub at : (key : Bytes) → IsBacked (get entries key)

IsBacked-if :
    (b : Bool) (x y : Option Entry) → IsBacked x → IsBacked y → IsBacked (if b then x else y)
IsBacked-if true x y hx hy = hx
IsBacked-if false x y hx hy = hy

pub put-IsTyped :
    (key : Bytes) (e : Entry) (m : Dict Entry)
    → Backed e.kind e.stream e.zset
    → IsTyped m
    → IsTyped (put m key e)
put-IsTyped key e m he h = record {
  at = λ j. rw (get-put m key j e) (IsBacked-if (bytes_eq key j) (some e) (get m j) he (h.at j));
}

pub remove-IsTyped : (key : Bytes) (m : Dict Entry) → IsTyped m → IsTyped (remove m key)
remove-IsTyped key m h = record {
  at = λ j. rw (get-remove m key j) (IsBacked-if (bytes_eq key j) none (get m j) tt (h.at j));
}

-- What a call leaves, whatever its result; where it panics or is blocked there is no store.
pub data Leaves {ℓ} {A : Type ℓ} : Outcome (A × Store) → Type ℓ where
  left : {a : A} {s : Store} → IsTyped s.entries → Leaves (done (a, s))
  panicked : Leaves panic
  was_blocked : Leaves blocked

module _ {ℓ} {A : Type ℓ} where
  pub Leaves-if :
      (b : Bool) (x y : Outcome (A × Store)) → Leaves x → Leaves y → Leaves (if b then x else y)
  Leaves-if true x y hx hy = hx
  Leaves-if false x y hx hy = hy

  pub Leaves-if_done :
      (b : Bool) (x y : A × Store)
      → Leaves (done x)
      → Leaves (done y)
      → Leaves (done (if b then x else y))
  Leaves-if_done true x y hx hy = hx
  Leaves-if_done false x y hx hy = hy

  pub Leaves-if_known :
      (b : Bool) (x y : Outcome (A × Store))
      → (b ≡ true → Leaves x)
      → (b ≡ false → Leaves y)
      → Leaves (if b then x else y)
  Leaves-if_known true x y hx hy = hx refl
  Leaves-if_known false x y hx hy = hy refl

  pub Leaves-elim {κ} :
      {B : Type κ} (o : Option B) (x : Outcome (A × Store)) (f : B → Outcome (A × Store))
      → Leaves x
      → ((b : B) → o ≡ some b → Leaves (f b))
      → Leaves (elim o [ none ↦ x | some b ↦ f b ])
  Leaves-elim none x f hx hf = hx
  Leaves-elim (some b) x f hx hf = hf b refl

  pub Leaves-elim_done {κ} :
      {B : Type κ} (o : Option B) (x : A × Store) (f : B → A × Store)
      → Leaves (done x)
      → ((b : B) → o ≡ some b → Leaves (done (f b)))
      → Leaves {A = A} (done (elim o [ none ↦ x | some b ↦ f b ]))
  Leaves-elim_done none x f hx hf = hx
  Leaves-elim_done (some b) x f hx hf = hf b refl

  pub Leaves-bind {κ} :
      {B : Type κ} (o : Outcome B) (f : B → Outcome (A × Store))
      → ((b : B) → Leaves (f b))
      → Leaves (o >>= f)
  Leaves-bind (done b) f h = h b
  Leaves-bind panic f h = panicked
  Leaves-bind blocked f h = was_blocked

  pub Leaves-after {κ} :
      {B : Type κ} (o : Outcome (B × Store)) (f : B × Store → Outcome (A × Store))
      → Leaves o
      → ((b : B) (s : Store) → IsTyped s.entries → Leaves (f (b, s)))
      → Leaves (o >>= f)
  Leaves-after o f (left {a = b} {s = s} h) after = after b s h
  Leaves-after o f panicked after = panicked
  Leaves-after o f was_blocked after = was_blocked

  pub Leaves-reply {κ} :
      {B : Type κ} (r : B × Store) (a : A)
      → Leaves {A = B} (done r)
      → Leaves {A = A} (done (a, r.1))
  Leaves-reply r a (left h) = left h

  pub Leaves-then {κ} :
      {B : Type κ} (o : Outcome (B × Store)) (f : B × Store → A × Store)
      → Leaves o
      → ((b : B) (s : Store) → (f (b, s)).1 ≡ s)
      → Leaves (o >>= λ r. done (f r))
  Leaves-then o f (left {a = b} {s = s} h) same =
      left (subst (λ (s' : Store). IsTyped s'.entries) (sym (same b s)) h)
  Leaves-then o f panicked same = panicked
  Leaves-then o f was_blocked same = was_blocked

pub Backed-stream : (k : Kind) (st : Stream) (z : Option Zset) → k ≡ stream → Backed k (some st) z
Backed-stream k st z same = subst (λ j. Backed j (some st) z) (sym same) tt

pub Backed-zset : (k : Kind) (st : Option Stream) (z : Zset) → k ≡ zset → Backed k st (some z)
Backed-zset k st z same = subst (λ j. Backed j st (some z)) (sym same) tt

pub Backed-other :
    (k : Kind) (st : Option Stream) (z : Option Zset) (z' : Zset)
    → Backed k st z
    → Backed k st (some z')
Backed-other untyped st z z' h = tt
Backed-other string st z z' h = tt
Backed-other stream (some st) z z' h = tt
Backed-other stream none z z' h = elim h [ ]
Backed-other zset st z z' h = tt
