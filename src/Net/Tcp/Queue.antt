-- ===== src/Net/Tcp/Queue.antt =====
-- Queues of packets: what `tcp_queue_packet` keeps of them.
use gloworm.Prelude.{
  ℕ, ◌+◌, ◌<◌, ◌≤◌, ◌≡◌, refl, List, [], ◌∷◌, length, inl, inr, ltb, Bool-cases, ltb→lt, arith, ◌⊎◌,
}
use gloworm.Net.Tcp.Slice.{slice}
use gloworm.Net.Tcp.{Packet, tcp_queue_packet}

-- The packet has the bytes of the stream at its sequence number, fewer than 2 ^ 15 of them, and ends
-- below 2 ^ 32.
pub record Carries (stream : ℕ → ℕ) (pack : Packet) : Type 0 where
  pub bytes : pack.payload ≡ slice stream pack.seqnum (length pack.payload)
  pub short : length pack.payload < 32768
  pub bounded : pack.seqnum + length pack.payload < 4294967296

abbrev pub All : (Packet → Type 0) → List Packet → Type 0
All P [] = Unit
All P (pack ∷ queue) = P pack × All P queue

-- The packets stand in the order of their sequence numbers.
abbrev pub Sorted : List Packet → Type 0
Sorted [] = Unit
Sorted (pack ∷ queue) = All (λ p. pack.seqnum ≤ p.seqnum) queue × Sorted queue

abbrev pub Waits : Packet → List Packet → Type 0
Waits pack [] = ⊥
Waits pack (cur ∷ queue) = (cur ≡ pack) ⊎ Waits pack queue

pub All-mono :
    (P Q : Packet → Type 0) (queue : List Packet)
    → ((p : Packet) → P p → Q p)
    → All P queue
    → All Q queue
All-mono P Q [] h a = tt
All-mono P Q (p ∷ queue) h (x, a) = (h p x, All-mono P Q queue h a)

pub All-Waits : (queue : List Packet) → All (λ p. Waits p queue) queue
All-Waits [] = tt
All-Waits (p ∷ queue) = (
  inl refl,
  All-mono (λ q. Waits q queue) (λ q. Waits q (p ∷ queue)) queue (λ q w. inr w) (All-Waits queue),
)

pub tcp_queue_packet-All :
    (P : Packet → Type 0) (pack : Packet) (queue : List Packet)
    → P pack
    → All P queue
    → All P (tcp_queue_packet pack queue)
unfolding tcp_queue_packet
tcp_queue_packet-All P pack [] c cs = (c, tt)
tcp_queue_packet-All P pack (cur ∷ queue) c (d, cs) =
    elim (Bool-cases (ltb pack.seqnum cur.seqnum)) [
      | inl e ↦ rw e (c, (d, cs))
      | inr e ↦ rw e (d, tcp_queue_packet-All P pack queue c cs)
    ]

pub All-tcp_queue_packet :
    (P : Packet → Type 0) (pack : Packet) (queue : List Packet)
    → All P (tcp_queue_packet pack queue)
    → All P (pack ∷ queue)
unfolding tcp_queue_packet
All-tcp_queue_packet P pack [] = λ a. a
All-tcp_queue_packet P pack (cur ∷ queue) = elim (Bool-cases (ltb pack.seqnum cur.seqnum)) [
  | inl e ↦ rw e (λ a. a)
  | inr e ↦
      let rest = All-tcp_queue_packet P pack queue in
      rw e (λ (d, a). let (c, cs) = rest a in (c, (d, cs)))
]

pub tcp_queue_packet-Sorted :
    (pack : Packet) (queue : List Packet) → Sorted queue → Sorted (tcp_queue_packet pack queue)
unfolding tcp_queue_packet
tcp_queue_packet-Sorted pack [] s = (tt, tt)
tcp_queue_packet-Sorted pack (cur ∷ queue) (first, s) =
    elim (Bool-cases (ltb pack.seqnum cur.seqnum)) [
      | inl e ↦
          let l = ltb→lt _ _ e in
          rw e (
            (
              omega (arith, l),
              All-mono (λ p. cur.seqnum ≤ p.seqnum) (λ p. pack.seqnum ≤ p.seqnum) queue
                  (λ p h. omega (arith, l, h)) first,
            ),
            (first, s),
          )
      | inr e ↦ rw e (
        tcp_queue_packet-All (λ p. cur.seqnum ≤ p.seqnum) pack queue (ground (arith, e)) first,
        tcp_queue_packet-Sorted pack queue s,
      )
    ]
