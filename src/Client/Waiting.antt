-- ===== src/Client/Waiting.antt =====
-- WAIT, and the acknowledgements that it waits for.
use redis_go.Base.{
  ℕ, ◌+◌, ◌≡◌, refl, ap, ◌∙◌, true, false, List, [], ◌∷◌, Option, none, some, arith, leb, ◌==◌,
  if◌then◌else◌, Bytes, codes, Bool-cases, inl, inr,
}
use redis_go.Base.Int.{ℤ, ltb_ℤ}
use redis_go.Decimal.{parse_int}
use redis_go.Resp.Write.{integer}
use redis_go.Replication as replicas
use redis_go.Replication.{Replica, ReplicaSet, count_acked, wait_round, ack, equal_fold}
use redis_go.Client.State.{Client, Node, ready, Counting, counting}
use redis_go.Client.Replicas.{replconf, acknowledge, wait_step, wait_woken}

-- The offset that a connection acknowledged last.
abbrev pub offset_of : ℕ → List Replica → Option ℤ
offset_of conn [] = none
offset_of conn (r ∷ rest) = if r.conn == conn then some r.acc_offset else offset_of conn rest

acknowledge-offset_of :
    (conn : ℕ) (offset target old : ℤ) (rs : List Replica)
    → offset_of conn rs ≡ some old
    → ltb_ℤ old target ≡ true
    → ltb_ℤ offset target ≡ false
    → (rs' : List Replica) × (replicas.acknowledge conn offset rs ≡ some rs')
      × (count_acked target rs' ≡ count_acked target rs + 1)
unfolding replicas.acknowledge count_acked
acknowledge-offset_of conn offset target old [] at low high = absurd (ground (arith, at))
acknowledge-offset_of conn offset target old (r ∷ rest) at low high =
    elim (Bool-cases (r.conn == conn)) [
      | inl here ↦
          let now : r.acc_offset ≡ old = ground (arith, here, at) in
          (
            (record r { acc_offset = offset }) ∷ rest,
            rw here refl,
            rw (now, low, high) (omega arith),
          )
      | inr there ↦
          let (rs', found, counted) =
            acknowledge-offset_of conn offset target old rest (ground (arith, there, at)) low
              high in
          (r ∷ rs', rw (there, found) refl, rw counted (omega arith))
    ]

ack-acknowledge :
    (conn : ℕ) (offset : ℤ) (r : ReplicaSet) (rs : List Replica)
    → replicas.acknowledge conn offset r.replicas ≡ some rs
    → ack conn offset r ≡ record r { replicas = rs; ack_ch = r.ack_ch + 1 }
unfolding ack
ack-acknowledge conn offset r rs h = ground (arith, h)

acknowledge_number :
    (raw : Bytes) (offset : ℤ) (a : Client) (n : Node)
    → parse_int raw ≡ some offset
    → acknowledge raw a n ≡ ready [] a (record n { replicas = ack a.conn offset n.replicas })
unfolding acknowledge
acknowledge_number raw offset a n number = ground (arith, number)

replconf-ack :
    (sub raw : Bytes) (rest : List Bytes) (offset : ℤ) (a : Client) (n : Node)
    → equal_fold sub (codes "ACK") ≡ true
    → parse_int raw ≡ some offset
    → replconf (sub ∷ raw ∷ rest) a n
      ≡ ready [] a (record n { replicas = ack a.conn offset n.replicas })
unfolding replconf
replconf-ack sub raw rest offset a n is_ack number =
    rw is_ack (acknowledge_number raw offset a n number)

wait_woken_next :
    (w : Counting) (c : Client) (n : Node)
    → n.replicas.ack_ch ≡ w.ack_ch + 1
    → wait_woken w c n ≡ some (wait_step w.wanted w.target c n)
unfolding wait_woken
wait_woken_next w c n h = ground (arith, h)

wait_round-count_acked :
    (wanted k : ℕ) (target : ℤ) (r : ReplicaSet)
    → count_acked target r.replicas ≡ k
    → wait_round wanted target r ≡ (if leb wanted k then some k else none)
unfolding wait_round
wait_round-count_acked wanted k target r h = rw h refl

wait_step-count_acked :
    (wanted k : ℕ) (target : ℤ) (c : Client) (n : Node)
    → count_acked target n.replicas.replicas ≡ k
    → wait_step wanted target c n ≡ (
        if leb wanted k
        then ready (integer k) c n
        else counting
            (record { wanted = wanted; target = target; count = k; ack_ch = n.replicas.ack_ch })
            c
            n)
unfolding wait_step
wait_step-count_acked wanted k target c n h = elim (Bool-cases (leb wanted k)) [
  | inl reached ↦
      rw reached (ground (arith, wait_round-count_acked wanted k target n.replicas h, reached))
  | inr missing ↦
      rw missing (ground (arith, wait_round-count_acked wanted k target n.replicas h, missing, h))
]

-- A WAIT that waits, and a replica whose last offset is below the one that WAIT asks for. WAIT cannot go on
-- by itself. When the replica sends REPLCONF ACK with an offset that is not below it, WAIT is woken, and
-- counts one replica more than there were before: it replies that number where it is enough, and waits for
-- the next acknowledgement where it is not.
pub wait_woken-replconf :
    (sub raw : Bytes) (rest : List Bytes) (offset old : ℤ) (a c : Client) (n : Node) (w : Counting)
    → equal_fold sub (codes "ACK") ≡ true
    → parse_int raw ≡ some offset
    → offset_of a.conn n.replicas.replicas ≡ some old
    → ltb_ℤ old w.target ≡ true
    → ltb_ℤ offset w.target ≡ false
    → n.replicas.ack_ch ≡ w.ack_ch
    → (n' : Node) × (replconf (sub ∷ raw ∷ rest) a n ≡ ready [] a n')
      × (wait_woken w c n ≡ none)
      × (wait_woken w c n'
          ≡ some (
              let k = count_acked w.target n.replicas.replicas + 1 in
              if leb w.wanted k
              then ready (integer k) c n'
              else counting (record w { count = k; ack_ch = w.ack_ch + 1 }) c n'))
unfolding wait_woken
wait_woken-replconf sub raw rest offset old a c n w is_ack number at low high waits =
    let (rs, found, counted) =
      acknowledge-offset_of a.conn offset w.target old n.replicas.replicas at low high in
    let n' : Node = record n {
      replicas = record n.replicas { replicas = rs; ack_ch = n.replicas.ack_ch + 1 };
    } in
    (
      n',
      replconf-ack sub raw rest offset a n is_ack number
          ∙ ap (λ (r : ReplicaSet). ready [] a (record n { replicas = r }))
              (ack-acknowledge a.conn offset n.replicas rs found),
      ground (arith, waits),
      wait_woken_next w c n' (ap (λ (k : ℕ). k + 1) waits)
          ∙ (ap some (
                wait_step-count_acked w.wanted (count_acked w.target n.replicas.replicas + 1)
                  w.target c n' counted)
              ∙ rw waits refl),
    )
