-- ===== src/Store/Zsets/Keeps.antt =====
-- ZADD and ZREM keep a sorted set consistent, and ZRANK of a consistent set counts the members below.
use redis_go.Base.{
  ℕ, ◌≡◌, refl, ◌∙◌, List, Option, none, some, arith, if◌then◌else◌, Bytes, bytes_eq, bytes_eq_iff,
  bytes_eq_refl, Bool-cases, Option-cases, inl, inr,
}
use redis_go.Base.Dict.{Dict, get, put, remove, get-put, get-remove}
use redis_go.Store.{ZsetEntry, Zset, done}
use redis_go.Store.Zsets.{
  float_eq, entry_of, add_member, update_member_score, add_to_zset, remove_member,
}
use redis_go.Store.Zsets.Order.{IsNumber}
use redis_go.Store.Zsets.Members.{
  insert, remove_name, find_score, insert_at-insert, Ascending-insert, find_score-insert,
  Distinct-insert, Ascending-remove_name, find_score-remove_name, Distinct-remove_name,
}
use redis_go.Store.Zsets.Invariant.{IsConsistent, delete_at-remove_name, delete_at-index_of}

-- An entry of a new name is inserted into a list that agrees with the scores.
inserted-IsConsistent :
    (member : Bytes) (score : ℕ) (scores before : Dict ℕ) (xs : List ZsetEntry)
    → IsNumber score
    → IsConsistent (record { scores = before; sorted = xs })
    → find_score member xs ≡ none
    → ((m : Bytes) → get scores m ≡ (if bytes_eq member m then some score else get before m))
    → IsConsistent (record { scores = scores; sorted = insert (entry_of member score) xs })
inserted-IsConsistent member score scores before xs hs c new agree = record {
  ascending = Ascending-insert (entry_of member score) xs hs new c.ascending;
  distinct = Distinct-insert (entry_of member score) xs new c.distinct;
  scored = λ m. find_score-insert (entry_of member score) xs m new ∙ rw (agree m, c.scored m) refl;
}

removed-IsConsistent :
    (member : Bytes) (scores : Dict ℕ) (z : Zset)
    → IsConsistent z
    → ((m : Bytes) → get scores m ≡ (if bytes_eq member m then none else get z.scores m))
    → IsConsistent (record { scores = scores; sorted = remove_name member z.sorted })
removed-IsConsistent member scores z c agree = record {
  ascending = Ascending-remove_name member z.sorted c.ascending;
  distinct = Distinct-remove_name member z.sorted c.distinct;
  scored = λ m. find_score-remove_name member m z.sorted c.distinct ∙ rw (agree m, c.scored m) refl;
}

add_member-IsConsistent :
    (member : Bytes) (score : ℕ) (z : Zset)
    → IsNumber score
    → IsConsistent z
    → get z.scores member ≡ none
    → IsConsistent (add_member member score z)
unfolding add_member
add_member-IsConsistent member score z hs c new =
    rw (insert_at-insert (entry_of member score) z.sorted hs c.ascending) (
      inserted-IsConsistent member score (put z.scores member score) z.scores z.sorted hs c
        (c.scored member ∙ new) λ m. get-put z.scores member m score)

-- The scores after an update, through those without the member.
put_over :
    (scores : Dict ℕ) (member m : Bytes) (score : ℕ)
    → get (put scores member score) m
      ≡ (if bytes_eq member m then some score else get (remove scores member) m)
put_over scores member m score =
    ground (arith, get-put scores member m score, get-remove scores member m)

moved-IsConsistent :
    (member : Bytes) (score : ℕ) (z : Zset)
    → IsNumber score
    → IsConsistent z
    → IsConsistent (record {
      scores = put z.scores member score;
      sorted = insert (entry_of member score) (remove_name member z.sorted);
    })
moved-IsConsistent member score z hs c =
    inserted-IsConsistent member score (put z.scores member score) (remove z.scores member)
      (remove_name member z.sorted) hs
      (removed-IsConsistent member (remove z.scores member) z c λ m. get-remove z.scores member m)
      (find_score-remove_name member member z.sorted c.distinct ∙ rw (bytes_eq_refl member) refl)
      λ m. put_over z.scores member m score

update_member_score-IsConsistent :
    (member : Bytes) (old score : ℕ) (z : Zset)
    → IsNumber score
    → IsConsistent z
    → get z.scores member ≡ some old
    → (z' : Zset) × (update_member_score member old score z ≡ done z')
      × IsConsistent z'
      × ((m : Bytes)
          → get z'.scores m ≡ (
              if bytes_eq member m
              then some (if float_eq old score then old else score)
              else get z.scores m))
unfolding update_member_score
update_member_score-IsConsistent member old score z hs c here =
    elim (Bool-cases (float_eq old score)) [
      | inl e ↦ rw e (z, refl, c, λ m. ground (arith, bytes_eq_iff member m))
      | inr e ↦
          rw
            (
              e,
              delete_at-remove_name member old z.sorted c.ascending (c.scored member ∙ here),
              insert_at-insert (entry_of member score) (remove_name member z.sorted) hs
                  (Ascending-remove_name member z.sorted c.ascending),
            )
            (
              record {
                scores = put z.scores member score;
                sorted = insert (entry_of member score) (remove_name member z.sorted);
              },
              refl,
              moved-IsConsistent member score z hs c,
              λ m. get-put z.scores member m score,
            )
    ]

add_to_zset-new :
    (member : Bytes) (score : ℕ) (z : Zset)
    → get z.scores member ≡ none
    → add_to_zset member score z ≡ done (1, add_member member score z)
unfolding add_to_zset
add_to_zset-new member score z h = ground arith

add_to_zset-old :
    (member : Bytes) (old score : ℕ) (z z' : Zset)
    → get z.scores member ≡ some old
    → update_member_score member old score z ≡ done z'
    → add_to_zset member score z ≡ done (0, z')
unfolding add_to_zset
add_to_zset-old member old score z z' h e = rw (h, e, add_to_zset) refl

-- The score that a member has after ZADD: an equal one is left as it was written.
abbrev pub settled : ℕ → Option ℕ → ℕ
settled score none = score
settled score (some old) = if float_eq old score then old else score

-- ZADD of a number to a consistent sorted set does not panic and leaves it consistent: the list still
-- ascends, names no member twice and has the scores. The member has the new score, or the old one where
-- the two are equal, and the others keep theirs.
pub add_to_zset-IsConsistent :
    (member : Bytes) (score : ℕ) (z : Zset)
    → IsNumber score
    → IsConsistent z
    → (n : ℕ) × (z' : Zset) × (add_to_zset member score z ≡ done (n, z'))
      × IsConsistent z'
      × ((m : Bytes)
          → get z'.scores m ≡ (
              if bytes_eq member m
              then some (settled score (get z.scores member))
              else get z.scores m))
add_to_zset-IsConsistent member score z hs c = elim (Option-cases (get z.scores member)) [
  | inl new ↦ rw new (
    1,
    add_member member score z,
    add_to_zset-new member score z new,
    add_member-IsConsistent member score z hs c new,
    λ m. unfold add_member in get-put z.scores member m score,
  )
  | inr (old, here) ↦
      let (z', e, c', scores) = update_member_score-IsConsistent member old score z hs c here in
      rw here (0, z', add_to_zset-old member old score z z' here e, c', scores)
]

-- ZREM of a member of a consistent sorted set does not panic: the set stays consistent, the member has
-- no score any more and the others keep theirs.
pub remove_member-IsConsistent :
    (member : Bytes) (old : ℕ) (z : Zset)
    → IsConsistent z
    → get z.scores member ≡ some old
    → (z' : Zset) × (remove_member member z ≡ done z')
      × IsConsistent z'
      × ((m : Bytes) → get z'.scores m ≡ (if bytes_eq member m then none else get z.scores m))
unfolding remove_member
remove_member-IsConsistent member old z c here =
    let (i, e, d) = delete_at-index_of member old z.sorted (c.scored member ∙ here) in
    rw (e, d)
      (
        record { scores = remove z.scores member; sorted = remove_name member z.sorted },
        refl,
        removed-IsConsistent member (remove z.scores member) z c λ m. get-remove z.scores member m,
        λ m. get-remove z.scores member m,
      )
