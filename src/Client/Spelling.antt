-- ===== src/Client/Spelling.antt =====
-- A name that `strings.EqualFold` takes for REPLCONF is REPLCONF in capitals, and so none of
-- `writeCommands`.
use redis_go.Base.{
  not, ℕ, ◌-◌, ◌≡◌, refl, ap, ◌∙◌, sym, Bool, true, false, List, [], ◌∷◌, arith, leb, ◌==◌, ◌&&◌,
  Bytes, codes, bytes_eq, bytes_eq_iff, All, Bool-cases, inl, inr,
}
use redis_go.Replication.{fold, equal_fold, is_get_ack}
use redis_go.Commands.Reply.{to_upper}
use redis_go.Client.{write_commands}
use redis_go.Client.State.{has_name}
use redis_go.Client.Logged.{is_write}

-- A letter in lower case whose folding class has no letter outside ASCII.
abbrev is_plain_letter : ℕ → Bool
is_plain_letter l = leb 97 l && leb l 122 && not (l == b's') && not (l == b'k')

abbrev Begins : ℕ → Bytes → Bytes → Type 0
Begins l s t = (s' : Bytes) × (fold s' ≡ t) × (to_upper s ≡ (l - 32) ∷ to_upper s')

fold-letter : (l : ℕ) (s t : Bytes) → is_plain_letter l ≡ true → fold s ≡ l ∷ t → Begins l s t
unfolding fold to_upper
fold-letter l [] t letter h = absurd (ground (arith, h))
fold-letter l (c ∷ []) t letter h = ([], ground arith, ground arith)
fold-letter l (c ∷ d ∷ []) t letter h = (d ∷ [], ground arith, ground arith)
fold-letter l (c ∷ d ∷ e ∷ s) t letter h = (d ∷ e ∷ s, ground arith, ground arith)

fold-nil : (s : Bytes) → fold s ≡ [] → s ≡ []
unfolding fold
fold-nil [] h = refl
fold-nil (c ∷ []) h = ground (arith, h)
fold-nil (c ∷ d ∷ []) h = ground (arith, h)
fold-nil (c ∷ d ∷ e ∷ s) h = ground (arith, h)

upper_all : Bytes → Bytes
upper_all [] = []
upper_all (l ∷ t) = (l - 32) ∷ upper_all t

fold-to_upper :
    (s t : Bytes) → All (λ l. is_plain_letter l ≡ true) t → fold s ≡ t → to_upper s ≡ upper_all t
unfolding to_upper upper_all
fold-to_upper s [] letters h = rw (fold-nil s h) refl
fold-to_upper s (l ∷ t) (letter, letters) h =
    let (s', rest, upper) = fold-letter l s t letter h in
    upper ∙ ap (λ u. (l - 32) ∷ u) (fold-to_upper s' t letters rest)

replconf-to_upper :
    (s : Bytes) → equal_fold s (codes "REPLCONF") ≡ true → to_upper s ≡ codes "REPLCONF"
unfolding fold upper_all
replconf-to_upper s h =
    fold-to_upper s (codes "replconf")
      (refl, (refl, (refl, (refl, (refl, (refl, (refl, (refl, tt))))))))
      ((bytes_eq_iff (fold s) (codes "replconf")).0 h)

first_true : (a b : Bool) → (a && b) ≡ true → a ≡ true
first_true a b h = ground (arith, h)

-- A write command is no request for an acknowledgement.
pub is_get_ack-is_write : (cmd : List Bytes) → is_write cmd ≡ true → is_get_ack cmd ≡ false
unfolding is_get_ack has_name bytes_eq
is_get_ack-is_write [] h = refl
is_get_ack-is_write (a ∷ []) h = refl
is_get_ack-is_write (a ∷ b ∷ rest) h = elim (Bool-cases (is_get_ack (a ∷ b ∷ rest))) [
  | inr other ↦ other
  | inl ack ↦
      let name = replconf-to_upper a (first_true _ _ ack) in
      let e : true ≡ false = sym h ∙ ap (has_name write_commands) name in absurd (ground (arith, e))
]
