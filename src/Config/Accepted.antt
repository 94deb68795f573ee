-- ===== src/Config/Accepted.antt =====
-- What is true of a configuration that `parseFlags` accepts.
use redis_go.Base.{
  ◌≡◌, refl, ◌∙◌, sym, Bool, false, true, ◌||◌, [], ◌∷◌, ◌++◌, Option, some, arith, ◌==◌, Bytes,
  codes, bytes_eq, Bool-cases, Option-cases, inl, inr, ◌⊎◌, ◌≢◌,
}
use redis_go.Config.{
  Flags, Config, Parsed, parsed, refused, FlagError, cut_space, with_master, check_fsync,
  start_config, parse_flags,
}

abbrev pub is_given : Bytes → Bool
is_given [] = false
is_given (c ∷ s) = true

-- One of the three policies of the append-only file.
abbrev pub is_policy : Bytes → Bool
is_policy s =
    bytes_eq s (codes "always") || (bytes_eq s (codes "everysec") || bytes_eq s (codes "no"))

cut_space-append : (s a b : Bytes) → cut_space s ≡ some (a, b) → s ≡ a ++ b' ' ∷ b
unfolding cut_space
cut_space-append [] a b h = absurd (ground (arith, h))
cut_space-append (c ∷ s) a b h = elim (Bool-cases (c == b' ')) [
  | inl space ↦ ground (arith, space, h)
  | inr other ↦ elim (Option-cases (cut_space s)) [
    | inl missing ↦ absurd (ground (arith, other, missing, h))
    | inr ((a', b'), found) ↦
        let whole : ◌≡◌ {A = Option (Bytes × Bytes)} (some (c ∷ a', b')) (some (a, b)) =
          ground (arith, other, found, h) in
        let tail = cut_space-append s a' b' found in ground (arith, whole, tail)
  ]
]

-- What the master's address has to do with the flag.
pub record Follows (flag : Bytes) (cfg : Config) : Type 0 where
  pub is_replica : cfg.is_replica ≡ is_given flag
  pub address : is_given flag ≡ true → flag ≡ cfg.master_host ++ b' ' ∷ cfg.master_port

parsed-injective : {a b : Config} → parsed a ≡ parsed b → a ≡ b
parsed-injective h = cc

with_master_found :
    (flag host port : Bytes) (cfg : Config)
    → cut_space flag ≡ some (host, port)
    → with_master flag cfg
      ≡ parsed (record cfg { is_replica = true; master_host = host; master_port = port })
unfolding with_master
with_master_found [] host port cfg found = absurd (unfold cut_space in ground (arith, found))
with_master_found (c ∷ s) host port cfg found = ground (arith, found)

with_master-Follows :
    (flag : Bytes) (cfg cfg' : Config)
    → cfg.is_replica ≡ false
    → with_master flag cfg ≡ parsed cfg'
    → Follows flag cfg' × (cfg'.append_fsync ≡ cfg.append_fsync)
unfolding with_master
with_master-Follows [] cfg cfg' leader h =
    let same : cfg ≡ cfg' = parsed-injective h in
    rw⁻¹ same
      (record { is_replica = leader; address = λ given. absurd (ground (arith, given)) }, refl)
with_master-Follows (c ∷ s) cfg cfg' leader h = elim (Option-cases (cut_space (c ∷ s))) [
  | inl missing ↦ absurd (ground (arith, missing, h))
  | inr ((host, port), found) ↦
      let same : record cfg { is_replica = true; master_host = host; master_port = port } ≡ cfg' =
        parsed-injective (sym (with_master_found (c ∷ s) host port cfg found) ∙ h) in
      rw⁻¹ same (
        record { is_replica = refl; address = λ given. cut_space-append (c ∷ s) host port found },
        refl,
      )
]

check_fsync_good : (cfg : Config) → is_policy cfg.append_fsync ≡ true → check_fsync cfg ≡ parsed cfg
unfolding check_fsync
check_fsync_good cfg good = rw good refl

check_fsync-parsed :
    (cfg cfg' : Config)
    → check_fsync cfg ≡ parsed cfg'
    → (cfg' ≡ cfg) × (is_policy cfg.append_fsync ≡ true)
unfolding check_fsync
check_fsync-parsed cfg cfg' h = elim (Bool-cases (is_policy cfg.append_fsync)) [
  | inl good ↦ (sym (parsed-injective (sym (check_fsync_good cfg good) ∙ h)), good)
  | inr bad ↦ absurd (ground (arith, bad, h))
]

Parsed-cases :
    (r : Parsed) → ((e : FlagError) × (r ≡ refused e)) ⊎ ((cfg : Config) × (r ≡ parsed cfg))
Parsed-cases (refused e) = inl (e, refl)
Parsed-cases (parsed cfg) = inr (cfg, refl)

parse_flags_refused :
    (join : Bytes → Bytes → Bytes) (f : Flags) (e : FlagError) (cfg : Config)
    → with_master f.replica_of (start_config join f) ≡ refused e
    → parse_flags join f ≢ parsed cfg
unfolding parse_flags
parse_flags_refused join f e cfg bad h = ground (arith, bad, h)

parse_flags-check_fsync :
    (join : Bytes → Bytes → Bytes) (f : Flags) (mid : Config)
    → with_master f.replica_of (start_config join f) ≡ parsed mid
    → parse_flags join f ≡ check_fsync mid
unfolding parse_flags
parse_flags-check_fsync join f mid good = ground (arith, good)

-- A configuration that `parseFlags` accepts has the policy that was asked for, which is one of the three;
-- it is a replica's just where an address of a master was given, and then its host and its port are the
-- parts of that address around a space.
pub parse_flags-Follows :
    (join : Bytes → Bytes → Bytes) (f : Flags) (cfg : Config)
    → parse_flags join f ≡ parsed cfg
    → Follows f.replica_of cfg
      × (cfg.append_fsync ≡ f.append_fsync)
      × (is_policy cfg.append_fsync ≡ true)
unfolding start_config
parse_flags-Follows join f cfg h =
    elim (Parsed-cases (with_master f.replica_of (start_config join f))) [
      | inl (e, bad) ↦ absurd (parse_flags_refused join f e cfg bad h)
      | inr (mid, good) ↦
          let (same, policy) =
            check_fsync-parsed mid cfg (sym (parse_flags-check_fsync join f mid good) ∙ h) in
          let (follows, kept) =
            with_master-Follows f.replica_of (start_config join f) mid refl good in
          rw same (follows, kept, policy)
    ]
