-- ===== src/Client/Written.antt =====
-- The commands that `handleClient` writes down are cases of the switch of `handleCommands`.
use redis_go.Base.{
  arith, ◌≡◌, refl, ◌∙◌, ap, sym, true, false, [], ◌∷◌, Bytes, bytes_eq, bytes_eq_iff, ◌⊎◌, inl,
  inr, Bool-cases, All,
}
use mathlib.Core.Path.{subst}
use redis_go.Base.Dict.{Dict, get, get_or}
use redis_go.Commands.{Command, unknown, command_table, command_of}
use redis_go.Commands.Durable.{is_logged}
use redis_go.Commands.Reply.{to_upper}
use redis_go.Client.{write_commands}
use redis_go.Client.State.{has_name}

abbrev Agrees : Bytes × Command → Type 0
Agrees (name, c) = has_name write_commands name ≡ is_logged c

abbrev Misses : Bytes → Bytes × Command → Type 0
Misses name (other, c) = bytes_eq other name ≡ false

get_or_hit :
    (other name : Bytes) (c : Command) (table : Dict Command)
    → bytes_eq other name ≡ true
    → get_or ((other, c) ∷ table) name unknown ≡ c
unfolding get_or get
get_or_hit other name c table h = ground (arith, h)

get_or_miss :
    (other name : Bytes) (c : Command) (table : Dict Command)
    → bytes_eq other name ≡ false
    → get_or ((other, c) ∷ table) name unknown ≡ get_or table name unknown
unfolding get_or get
get_or_miss other name c table h = ground (arith, h)

lookup_cases :
    (table : Dict Command) (name : Bytes)
    → All Agrees table
    → (has_name write_commands name ≡ is_logged (get_or table name unknown))
      ⊎ (All (Misses name) table × (get_or table name unknown ≡ unknown))
unfolding get_or get
lookup_cases [] name h = inr (tt, refl)
lookup_cases ((other, c) ∷ table) name (agrees, h) = elim (Bool-cases (bytes_eq other name)) [
  | inl same ↦ inl (
      subst (λ n. has_name write_commands n ≡ is_logged c) ((bytes_eq_iff other name).0 same) agrees
      ∙ sym (ap is_logged (get_or_hit other name c table same)))
  | inr apart ↦ elim (lookup_cases table name h) [
    | inl found ↦ inl (found ∙ sym (ap is_logged (get_or_miss other name c table apart)))
    | inr (misses, none_there) ↦
        inr ((apart, misses), get_or_miss other name c table apart ∙ none_there)
  ]
]

has_name-Misses :
    (name : Bytes) → All (Misses name) command_table → has_name write_commands name ≡ false
unfolding has_name
has_name-Misses name
      (
        _,
        (
          _,
          (
            no_set,
            (
              _,
              (
                no_incr,
                (
                  _,
                  (
                    no_rpush,
                    (
                      no_lpush,
                      (
                        _,
                        (
                          _,
                          (no_lpop, (no_blpop, (no_xadd, (_, (_, (_, (_, (_, (no_zadd, _))))))))),
                        ),
                      ),
                    ),
                  ),
                ),
              ),
            ),
          ),
        ),
      ) =
    rw (no_set, no_incr, no_rpush, no_lpush, no_lpop, no_blpop, no_xadd, no_zadd) refl

command_table-Agrees : All Agrees command_table
unfolding has_name bytes_eq
command_table-Agrees = (
  refl,
  (
    refl,
    (
      refl,
      (
        refl,
        (
          refl,
          (
            refl,
            (
              refl,
              (
                refl,
                (
                  refl,
                  (
                    refl,
                    (
                      refl,
                      (
                        refl,
                        (
                          refl,
                          (
                            refl,
                            (
                              refl,
                              (
                                refl,
                                (
                                  refl,
                                  (
                                    refl,
                                    (
                                      refl,
                                      (
                                        refl,
                                        (
                                          refl,
                                          (
                                            refl,
                                            (
                                              refl,
                                              (
                                                refl,
                                                (
                                                  refl,
                                                  (
                                                    refl,
                                                    (
                                                      refl,
                                                      (
                                                        refl,
                                                        (
                                                          refl,
                                                          (
                                                            refl,
                                                            (refl, (refl, (refl, (refl, tt)))),
                                                          ),
                                                        ),
                                                      ),
                                                    ),
                                                  ),
                                                ),
                                              ),
                                            ),
                                          ),
                                        ),
                                      ),
                                    ),
                                  ),
                                ),
                              ),
                            ),
                          ),
                        ),
                      ),
                    ),
                  ),
                ),
              ),
            ),
          ),
        ),
      ),
    ),
  ),
)

-- A name, under any spelling, is one of `writeCommands` just where its case in `handleCommands` is one
-- of SET, INCR, RPUSH, LPUSH, LPOP, BLPOP, XADD and ZADD.
pub has_name-is_logged :
    (word : Bytes) → has_name write_commands (to_upper word) ≡ is_logged (command_of word)
unfolding command_of
has_name-is_logged word = elim (lookup_cases command_table (to_upper word) command_table-Agrees) [
  | inl found ↦ found
  | inr (misses, none_there) ↦
      has_name-Misses (to_upper word) misses ∙ sym (ap is_logged none_there)
]
