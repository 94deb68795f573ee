-- ===== src/Pubsub/Delivery.antt =====
-- A published message reaches each subscriber of its channel once.
use redis_go.Base.{
  ℕ, ◌≡◌, refl, Bool, true, false, not, ◌&&◌, ◌||◌, List, [], ◌∷◌, ◌++◌, arith, ◌==◌, ==_iff,
  if◌then◌else◌, Bytes, bytes_eq, bytes_eq_iff, length, Bool-cases, inl, inr,
}
use redis_go.Base.Dict.{Dict, put, get_or, get-put}
use redis_go.Pubsub.{
  Pubsub, subscribers, is_member, add_member, delete_member, subscribe, unsubscribe, write,
  write_all, deliver, encode_delivery_message,
}

-- No subscriber stands twice in a set.
abbrev pub Distinct : List ℕ → Type 0
Distinct [] = Unit
Distinct (x ∷ xs) = (is_member xs x ≡ false) × Distinct xs

write_all-none :
    (subs : List ℕ) (reply : Bytes) (written : ℕ → Bytes) (c : ℕ)
    → is_member subs c ≡ false
    → write_all subs reply written c ≡ written c
unfolding write_all
write_all-none [] reply written c h = refl
write_all-none (x ∷ xs) reply written c h =
    ground (arith, write_all-none xs reply (write x reply written) c)

write_all-once :
    (subs : List ℕ) (reply : Bytes) (written : ℕ → Bytes) (c : ℕ)
    → Distinct subs
    → write_all subs reply written c ≡ (if is_member subs c then written c ++ reply else written c)
unfolding write_all
write_all-once [] reply written c d = refl
write_all-once (x ∷ xs) reply written c (dx, d) = elim (Bool-cases (x == c)) [
  | inl e ↦
      let same : x ≡ c = (==_iff x c).0 e in
      ground (arith, same, write_all-none xs reply (write x reply written) c (rw same at dx))
  | inr e ↦ ground (arith, write_all-once xs reply (write x reply written) c d)
]

is_member-append :
    (xs : List ℕ) (sub c : ℕ) → is_member (xs ++ sub ∷ []) c ≡ (is_member xs c || sub == c)
is_member-append [] sub c = ground arith
is_member-append (x ∷ xs) sub c = ground (arith, is_member-append xs sub c)

is_member-add_member :
    (sub c : ℕ) (xs : List ℕ) → is_member (add_member sub xs) c ≡ (sub == c || is_member xs c)
is_member-add_member sub c xs = elim (Bool-cases (is_member xs sub)) [
  | inl old ↦
      rw old
        (elim (Bool-cases (sub == c)) [ inl e ↦ rw (e, ← (==_iff sub c).0 e, old) | inr e ↦ rw e ])
  | inr new ↦ rw (new, is_member-append xs sub c) (ground arith)
]

Distinct-append :
    (xs : List ℕ) (sub : ℕ) → is_member xs sub ≡ false → Distinct xs → Distinct (xs ++ sub ∷ [])
Distinct-append [] sub h d = (refl, tt)
Distinct-append (x ∷ xs) sub h (dx, d) =
    (ground (arith, is_member-append xs sub x), Distinct-append xs sub (ground arith) d)

Distinct-add_member : (sub : ℕ) (xs : List ℕ) → Distinct xs → Distinct (add_member sub xs)
Distinct-add_member sub xs d = elim (Bool-cases (is_member xs sub)) [
  | inl old ↦ rw old d
  | inr new ↦ rw new (Distinct-append xs sub new d)
]

is_member-delete_member :
    (sub c : ℕ) (xs : List ℕ)
    → is_member (delete_member sub xs) c ≡ (not (sub == c) && is_member xs c)
unfolding delete_member
is_member-delete_member sub c [] = ground arith
is_member-delete_member sub c (x ∷ xs) = ground (arith, is_member-delete_member sub c xs)

Distinct-delete_member : (sub : ℕ) (xs : List ℕ) → Distinct xs → Distinct (delete_member sub xs)
unfolding delete_member
Distinct-delete_member sub [] d = tt
Distinct-delete_member sub (x ∷ xs) (dx, d) = elim (Bool-cases (x == sub)) [
  | inl e ↦ rw e (Distinct-delete_member sub xs d)
  | inr e ↦ rw e (ground (arith, is_member-delete_member sub x xs), Distinct-delete_member sub xs d)
]

-- Every set of subscribers holds each of them once.
pub record SetsDistinct (ps : Pubsub) : Type 0 where
  pub at : (channel : Bytes) → Distinct (subscribers channel ps)

subscribers-put :
    (m : Dict (List ℕ)) (k j : Bytes) (q : List ℕ)
    → get_or (put m k q) j [] ≡ (if bytes_eq k j then q else get_or m j [])
unfolding get_or
subscribers-put m k j q = ground (arith, get-put m k j q)

Distinct-if :
    (b : Bool) (xs ys : List ℕ) → Distinct xs → Distinct ys → Distinct (if b then xs else ys)
Distinct-if true xs ys dx dy = dx
Distinct-if false xs ys dx dy = dy

-- SUBSCRIBE makes its subscriber a member of the one channel, and changes no other membership; each set
-- still holds a subscriber once, also where a client subscribes twice.
pub subscribe-SetsDistinct :
    (channel : Bytes) (sub : ℕ) (ps : Pubsub)
    → SetsDistinct ps
    → SetsDistinct (subscribe channel sub ps)
      × ((j : Bytes) (c : ℕ)
          → is_member (subscribers j (subscribe channel sub ps)) c
            ≡ (bytes_eq channel j && sub == c || is_member (subscribers j ps) c))
unfolding subscribe
subscribe-SetsDistinct channel sub ps d = (
  record {
    at = λ j. rw subscribers-put (
        Distinct-if (bytes_eq channel j) (add_member sub (subscribers channel ps))
          (subscribers j ps) (Distinct-add_member sub (subscribers channel ps) (d.at channel))
          (d.at j));
  },
  λ j c. ground (
    arith,
    subscribers-put ps.channels channel j (add_member sub (subscribers channel ps)),
    bytes_eq_iff channel j,
    is_member-add_member sub c (subscribers channel ps),
  ),
)

-- UNSUBSCRIBE takes its subscriber out of the one channel, and changes no other membership; each set
-- still holds a subscriber once.
pub unsubscribe-SetsDistinct :
    (channel : Bytes) (sub : ℕ) (ps : Pubsub)
    → SetsDistinct ps
    → SetsDistinct (unsubscribe channel sub ps).1
      × ((j : Bytes) (c : ℕ)
          → is_member (subscribers j (unsubscribe channel sub ps).1) c
            ≡ (not (bytes_eq channel j && sub == c) && is_member (subscribers j ps) c))
unfolding unsubscribe
unsubscribe-SetsDistinct channel sub ps d = (
  record {
    at = λ j. rw subscribers-put (
        Distinct-if (bytes_eq channel j) (delete_member sub (subscribers channel ps))
          (subscribers j ps) (Distinct-delete_member sub (subscribers channel ps) (d.at channel))
          (d.at j));
  },
  λ j c. ground (
    arith,
    subscribers-put ps.channels channel j (delete_member sub (subscribers channel ps)),
    bytes_eq_iff channel j,
    is_member-delete_member sub c (subscribers channel ps),
  ),
)

-- Where no set holds a subscriber twice, PUBLISH writes the message once to every member of its channel
-- and to nobody else, and its reply counts the members.
pub written-deliver :
    (channel message : Bytes) (c : ℕ) (ps : Pubsub)
    → SetsDistinct ps
    → ((deliver channel message ps).1.written c ≡ (
        if is_member (subscribers channel ps) c
        then ps.written c ++ encode_delivery_message channel message
        else ps.written c))
      × ((deliver channel message ps).0 ≡ length (subscribers channel ps))
unfolding deliver
written-deliver channel message c ps d = (
  write_all-once (subscribers channel ps) (encode_delivery_message channel message) ps.written c
      (d.at channel),
  refl,
)
