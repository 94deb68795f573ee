-- ===== src/Aof/Replay.antt =====
-- What was appended is replayed.
use redis_go.Base.{
  ℕ, zero, suc, ◌≤◌, ◌<◌, ◌≡◌, ◌≢◌, refl, ap, ◌∙◌, Option, some, List, [], ◌∷◌, ◌++◌, append_assoc,
  append-nil, arith, Bytes, All, length, length-append,
}
use redis_go.Resp.Write.{encode_raw, array_header, bulks_onto-bulks}
use redis_go.Resp.Reader.{eof, out_of_fuel, Result, ok, err, read_command}
use redis_go.Resp.Reader.RoundTrip.{IsSendable, read_command-encode_raw, read_command-nil}
use redis_go.Resp.Reader.Total.{read_command-consumes, read_command-terminates}
use redis_go.Aof.{append, Ending, finished, failed, replay_loop, replay}

-- The file after the commands were appended, each as `EncodeRaw` wrote it.
unfoldable pub append_all : List (List Bytes) → Option Bytes → Option Bytes
append_all [] aof = aof
append_all (cmd ∷ cmds) aof = append_all cmds (append (encode_raw cmd) aof)

unfoldable pub encoded : List (List Bytes) → Bytes
encoded [] = []
encoded (cmd ∷ cmds) = encode_raw cmd ++ encoded cmds

pub append_all-encoded :
    (cmds : List (List Bytes)) (file : Bytes)
    → append_all cmds (some file) ≡ some (file ++ encoded cmds)
unfolding append_all append encoded
append_all-encoded [] file = rw append-nil
append_all-encoded (cmd ∷ cmds) file =
    append_all-encoded cmds (file ++ encode_raw cmd)
    ∙ ap some (append_assoc file (encode_raw cmd) (encoded cmds))

length-encode_raw : (cmd : List Bytes) → 0 < length (encode_raw cmd)
unfolding encode_raw array_header
length-encode_raw cmd = rw bulks_onto-bulks (omega arith)

pub length-encoded : (cmds : List (List Bytes)) → length cmds ≤ length (encoded cmds)
unfolding encoded
length-encoded [] = omega arith
length-encoded (cmd ∷ cmds) = omega (
  arith,
  length-append (encode_raw cmd) (encoded cmds),
  length-encode_raw cmd,
  length-encoded cmds,
)

module _ {S : Type 0} (apply : List Bytes → S → S) where
  unfoldable pub apply_all : List (List Bytes) → S → S
  apply_all [] s = s
  apply_all (cmd ∷ cmds) s = apply_all cmds (apply cmd s)

  replay_loop-encoded :
      (cmds : List (List Bytes)) (fuel : ℕ) (s : S)
      → length cmds < fuel
      → All IsSendable cmds
      → replay_loop apply fuel (encoded cmds) s ≡ (apply_all cmds s, finished)
  unfolding replay_loop encoded apply_all
  replay_loop-encoded cmds zero s h fit = absurd (omega arith)
  replay_loop-encoded [] (suc fuel) s h fit = rw (read_command-nil, replay_loop)
  replay_loop-encoded (cmd ∷ cmds) (suc fuel) s h (fit, more) =
      rw (read_command-encode_raw cmd (encoded cmds) fit, replay_loop)
        (replay_loop-encoded cmds fuel (apply cmd s) (omega arith) more)

  -- A restart applies the commands that were appended to an empty file, all of them and in their order,
  -- and comes to the end of the file without an error, where each is within the protocol's limits.
  pub replay-append_all :
      (cmds : List (List Bytes)) (s : S)
      → All IsSendable cmds
      → replay apply (append_all cmds (some [])) s ≡ (apply_all cmds s, finished)
  unfolding replay
  replay-append_all cmds s fit = rw append_all-encoded (
      replay_loop-encoded cmds (suc (length (encoded cmds))) s (omega (arith, length-encoded cmds))
        fit)

  abbrev after_read : ℕ → S → Result (List Bytes × Bytes) → S × Ending
  after_read fuel s r = elim r [
    | err e ↦ elim e [ eof ↦ (s, finished) | other ↦ (s, failed other) ]
    | ok (cmd, rest) ↦ replay_loop apply fuel rest (apply cmd s)
  ]

  after_read-ends :
      (fuel : ℕ) (file : Bytes) (s : S) (r : Result (List Bytes × Bytes))
      → r ≢ err out_of_fuel
      → ((cmd : List Bytes) (rest : Bytes) → r ≡ ok (cmd, rest) → length rest < length file)
      → ((rest : Bytes) (t : S)
          → length rest < length file
          → (replay_loop apply fuel rest t).1 ≢ failed out_of_fuel)
      → (after_read fuel s r).1 ≢ failed out_of_fuel
  after_read-ends fuel file s (err eof) h c k = λ q. cc
  after_read-ends fuel file s (err out_of_fuel) h c k = absurd (h refl)
  after_read-ends fuel file s (err e) h c k = λ q. cc
  after_read-ends fuel file s (ok (cmd, rest)) h c k = k rest (apply cmd s) (c cmd rest refl)

  replay_loop-ends :
      (fuel : ℕ) (file : Bytes) (s : S)
      → length file < fuel
      → (replay_loop apply fuel file s).1 ≢ failed out_of_fuel
  unfolding replay_loop
  replay_loop-ends zero file s h = absurd (omega arith)
  replay_loop-ends (suc fuel) file s h =
      after_read-ends fuel file s (read_command file) (read_command-terminates file)
        (λ cmd rest e. read_command-consumes file rest cmd e)
        λ rest t lt. replay_loop-ends fuel rest t (omega arith)

  -- A replay of any file comes to an end: the rounds that the file's length allows are enough.
  pub replay-terminates :
      (file : Bytes) (s : S) → (replay apply (some file) s).1 ≢ failed out_of_fuel
  unfolding replay
  replay-terminates file s = replay_loop-ends (suc (length file)) file s (omega arith)
