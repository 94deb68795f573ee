-- ===== src/Pubsub.antt =====
-- app/pubsub.go: the channels and their subscribers. A subscriber is a number, which stands for the
-- pointer; what was written to its connection is kept in order. The order in which a set is ranged over
-- is open in Go, and does not show: each subscriber is written to apart.
pub mod Delivery
use redis_go.Base.{
  ℕ, suc, Bool, true, false, ◌||◌, List, [], ◌∷◌, ◌++◌, Option, none, some, ◌==◌, if◌then◌else◌,
  Bytes, codes, length,
}
use redis_go.Base.Dict.{Dict, get, put, get_or}
use redis_go.Resp.Write.{array_header, bulk, integer}

pub record Pubsub : Type 0 where
  pub channels : Dict (List ℕ)
  pub written : ℕ → Bytes

-- `newPubSub`; nothing was written to any connection.
abbrev pub new_pubsub : Pubsub
new_pubsub = record { channels = []; written = λ conn. [] }

abbrev pub subscribers : Bytes → Pubsub → List ℕ
subscribers channel ps = get_or ps.channels channel []

abbrev pub is_member : List ℕ → ℕ → Bool
is_member [] sub = false
is_member (x ∷ xs) sub = x == sub || is_member xs sub

-- `set[sub] = struct{}{}`
abbrev pub add_member : ℕ → List ℕ → List ℕ
add_member sub xs = if is_member xs sub then xs else xs ++ sub ∷ []

-- `delete(set, sub)`
unfoldable pub delete_member : ℕ → List ℕ → List ℕ
delete_member sub [] = []
delete_member sub (x ∷ xs) = let rest = delete_member sub xs in if x == sub then rest else x ∷ rest

unfoldable pub subscribe : Bytes → ℕ → Pubsub → Pubsub
subscribe channel sub ps = record ps {
  channels = put ps.channels channel (add_member sub (subscribers channel ps));
}

unfoldable pub unsubscribe : Bytes → ℕ → Pubsub → ℕ × Pubsub
unfolding delete_member
unsubscribe channel sub ps =
    let left = delete_member sub (subscribers channel ps) in
    (length left, record ps { channels = put ps.channels channel left })

unfoldable pub write : ℕ → Bytes → (ℕ → Bytes) → ℕ → Bytes
write sub reply written c = if sub == c then written c ++ reply else written c

unfoldable pub encode_subscribe_reply : Bytes → Bytes → ℕ → Bytes
encode_subscribe_reply action name num_subscribers =
    array_header 3 ++ (bulk action ++ (bulk name ++ integer num_subscribers))

unfoldable pub encode_delivery_message : Bytes → Bytes → Bytes
encode_delivery_message channel message =
    array_header 3 ++ (bulk (codes "message") ++ (bulk channel ++ bulk message))

unfoldable pub write_all : List ℕ → Bytes → (ℕ → Bytes) → ℕ → Bytes
unfolding write
write_all [] reply written = written
write_all (sub ∷ subs) reply written = write_all subs reply (write sub reply written)

unfoldable pub deliver : Bytes → Bytes → Pubsub → ℕ × Pubsub
deliver channel message ps =
    let subs = subscribers channel ps in
    (
      length subs,
      record ps { written = write_all subs (encode_delivery_message channel message) ps.written },
    )
