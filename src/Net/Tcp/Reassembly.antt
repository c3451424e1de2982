-- ===== src/Net/Tcp/Reassembly.antt =====
-- The bytes that an endpoint receives are those of the sender's stream, in order.
use gloworm.Prelude.{
  ℕ, ◌+◌, ◌-◌, ◌<◌, ◌≤◌, ◌≡◌, refl, sym, ap, ◌∙◌, Bool, true, false, some, List, [], ◌∷◌, ◌++◌,
  length, drop, take, min, inl, inr, ltb, Bool-cases, ltb→lt, lt→ltb, arith, subst, ◌⊎◌,
}
use mathlib.Core.List.{append_assoc, append-nil}
use gloworm.Utils.RingBuffer.{Ring, put, free_space}
use gloworm.Utils.RingBuffer.Inv.{IsValid}
use gloworm.Utils.RingBuffer.Window.{contents}
use gloworm.Utils.RingBuffer.Refine.{put_refines, put-fills}
use gloworm.Net.Tcp.Slice.{slice, slice-++, length-slice, take-slice, drop-slice}
use gloworm.Net.Tcp.{
  Packet, TcpEndpoint, Step, Received, add_seq, short_length, check_waiting, is_set, flag_rst,
  flag_fin, flag_ack, dropped, tcp_queue_packet, tcp_check_waiting_packet,
}
use gloworm.Net.Tcp.Forward.{handle_ack, handle_payload, tcp_forward_established}
use gloworm.Net.Tcp.Queue.{
  Carries, All, Sorted, Waits, All-mono, All-Waits, tcp_queue_packet-All, All-tcp_queue_packet,
  tcp_queue_packet-Sorted,
}
use gloworm.Net.Tcp.Receiving.{
  receiving, not_closing, send-receiving, handle_ack-receiving, payload_delivered,
}

-- The packet has been received to its end, or waits.
abbrev pub TakenCareOf : Received → Packet → Type 0
TakenCareOf r pack = (pack.seqnum + length pack.payload ≤ r.rx_last_seq) ⊎ Waits pack r.waiting

-- A ring has got the bytes of the stream from `last` on, up to a later sequence number, of the packets
-- of a queue: those that still wait are ahead of it, if the ring is not full.
pub record Advanced (stream : ℕ → ℕ) (rx : Ring) (last : ℕ) (queue : List Packet) (r : Received)
    : Type 0 where
  pub valid : IsValid r.rx
  pub forward : last ≤ r.rx_last_seq
  pub bounded : r.rx_last_seq < 4294967296
  pub bytes : contents r.rx ≡ contents rx ++ slice stream last (r.rx_last_seq - last)
  pub waiting : All (Carries stream) r.waiting
  pub sorted : Sorted r.waiting
  pub progress : (free_space r.rx ≡ 0) ⊎ All (λ p. r.rx_last_seq < p.seqnum) r.waiting
  pub taken : All (TakenCareOf r) queue

-- The packets of a queue of which nothing is received.
Advanced-nothing :
    (stream : ℕ → ℕ) (rx : Ring) (last : ℕ) (fit : Bool) (queue : List Packet)
    → IsValid rx
    → last < 4294967296
    → All (Carries stream) queue
    → Sorted queue
    → (free_space rx ≡ 0) ⊎ All (λ p. last < p.seqnum) queue
    → Advanced stream rx last queue
        (record { all_fit = fit; rx = rx; rx_last_seq = last; waiting = queue })
Advanced-nothing stream rx last fit queue v b c sorted progress = record {
  valid = v;
  forward = omega arith;
  bounded = b;
  bytes =
      sym (append-nil (contents rx))
      ∙ ap (λ x. contents rx ++ slice stream last x) {x = 0} {y = last - last} (omega arith);
  waiting = c;
  sorted = sorted;
  progress = progress;
  taken = All-mono (λ p. Waits p queue) _ queue (λ p w. inr w) (All-Waits queue);
}

-- A step of `n` bytes and what follows it.
Advanced-trans :
    (stream : ℕ → ℕ) (rx rx' : Ring) (last n : ℕ) (queue : List Packet) (r : Received)
    → contents rx' ≡ contents rx ++ slice stream last n
    → Advanced stream rx' (last + n) queue r
    → Advanced stream rx last queue r
Advanced-trans stream rx rx' last n queue r e a = record {
  valid = a.valid;
  forward = omega (arith, a.forward);
  bounded = a.bounded;
  bytes =
      a.bytes
      ∙ ap (λ l. l ++ slice stream (last + n) (r.rx_last_seq - (last + n))) e
      ∙ append_assoc (contents rx) (slice stream last n)
          (slice stream (last + n) (r.rx_last_seq - (last + n)))
      ∙ ap (λ l. contents rx ++ l)
          (slice-++ stream last n (r.rx_last_seq - (last + n)) (last + n) refl)
      ∙ ap (λ x. contents rx ++ slice stream last x) {x = n + (r.rx_last_seq - (last + n))}
          {y = r.rx_last_seq - last} (omega (arith, a.forward));
  waiting = a.waiting;
  sorted = a.sorted;
  progress = a.progress;
  taken = a.taken;
}

-- A packet in front of the queue that has been received to its end.
Advanced-done :
    (stream : ℕ → ℕ) (rx : Ring) (last : ℕ) (cur : Packet) (queue : List Packet) (r : Received)
    → cur.seqnum + length cur.payload ≤ last
    → Advanced stream rx last queue r
    → Advanced stream rx last (cur ∷ queue) r
Advanced-done stream rx last cur queue r end a = record {
  valid = a.valid;
  forward = a.forward;
  bounded = a.bounded;
  bytes = a.bytes;
  waiting = a.waiting;
  sorted = a.sorted;
  progress = a.progress;
  taken = (inl (omega (arith, end, a.forward)), a.taken);
}

short_length_lem : (left : ℕ) → left < 32768 → short_length left ≡ left
unfolding short_length
short_length_lem left small = ground arith

-- The part of a packet that comes next in the stream.
chunk_of :
    (stream : ℕ → ℕ) (last : ℕ) (cur : Packet)
    → Carries stream cur
    → cur.seqnum ≤ last
    → let left = length cur.payload - (last - cur.seqnum) in
      take (short_length left) (drop (last - cur.seqnum) cur.payload) ≡ slice stream last left
chunk_of stream last cur c l =
    let left = length cur.payload - (last - cur.seqnum) in
    ap (λ n. take n (drop (last - cur.seqnum) cur.payload))
      (short_length_lem left (omega (arith, c.short)))
    ∙ ap (λ p. take left (drop (last - cur.seqnum) p)) c.bytes
    ∙ ap (take left) (
        drop-slice stream (last - cur.seqnum) cur.seqnum (length cur.payload) last
          (omega (arith, l)))
    ∙ take-slice stream left last left
    ∙ ap (λ x. slice stream last x) {x = min left left} {y = left} (omega arith)

put-slice :
    (stream : ℕ → ℕ) (last left : ℕ) (rx : Ring)
    → IsValid rx
    → let (n, rx') = put rx (slice stream last left) in
      (n ≤ left)
      × (contents rx' ≡ contents rx ++ slice stream last n)
      × IsValid rx'
      × (n < left → free_space rx' ≡ 0)
put-slice stream last left rx v =
    let (count, bytes, valid) = put_refines (slice stream last left) v in
    let size = length-slice stream last left in
    (
      omega (arith, count, size),
      bytes
          ∙ ap (λ l. contents rx ++ l)
              (take-slice stream (free_space rx) last left
                ∙ ap (λ x. slice stream last x) {x = min left (free_space rx)}
                    {y = (put rx (slice stream last left)).0} (omega (arith, count, size))),
      valid,
      λ few. put-fills (slice stream last left) v (omega (arith, few, size)),
    )

check_waiting-Advanced :
    (stream : ℕ → ℕ) (rx : Ring) (last : ℕ) (queue : List Packet)
    → IsValid rx
    → last < 4294967296
    → All (Carries stream) queue
    → Sorted queue
    → Advanced stream rx last queue (check_waiting rx last queue)
unfolding check_waiting
check_waiting-Advanced stream rx last [] v b c s =
    Advanced-nothing stream rx last true [] v b c s (inr tt)
check_waiting-Advanced stream rx last (cur ∷ next) v b (c, cs) (first, s) =
    elim (Bool-cases (ltb last cur.seqnum)) [
      | inl ahead ↦
          let l = ltb→lt _ _ ahead in
          rw ahead (
            Advanced-nothing stream rx last true (cur ∷ next) v b (c, cs) (first, s)
              (inr (
                l,
                All-mono (λ p. cur.seqnum ≤ p.seqnum) _ next (λ p h. omega (arith, l, h)) first,
              )))
      | inr e ↦
          let l : cur.seqnum ≤ last = ground (arith, e) in
          let end : add_seq cur.seqnum (length cur.payload) ≡ cur.seqnum + length cur.payload =
            omega (arith, c.bounded) in
          elim (Bool-cases (ltb last (cur.seqnum + length cur.payload))) [
            | inr old ↦
                rw (e, end, old)
                  (Advanced-done stream rx last cur next _ (ground (arith, old))
                    (check_waiting-Advanced stream rx last next v b cs s))
            | inl new ↦
                let left = length cur.payload - (last - cur.seqnum) in
                let bytes = slice stream last left in
                let (few, held, valid, full) = put-slice stream last left rx v in
                let fresh = ltb→lt _ _ new in
                let sum : add_seq last (put rx bytes).0 ≡ last + (put rx bytes).0 =
                  omega (arith, few, l, c.bounded, fresh) in
                let bound : last + (put rx bytes).0 < 4294967296 =
                  omega (arith, few, l, c.bounded, fresh) in
                elim (Bool-cases (ltb (put rx bytes).0 left)) [
                  | inl part ↦
                      rw (e, end, new, chunk_of stream last cur c l, part, sum)
                        (Advanced-trans stream rx (put rx bytes).1 last (put rx bytes).0
                          (cur ∷ next) _ held
                          (Advanced-nothing stream (put rx bytes).1 (last + (put rx bytes).0) false
                            (cur ∷ next) valid bound (c, cs) (first, s)
                            (inl (full (ltb→lt _ _ part)))))
                  | inr all ↦
                      rw (e, end, new, chunk_of stream last cur c l, all, sum)
                        (Advanced-trans stream rx (put rx bytes).1 last (put rx bytes).0
                          (cur ∷ next) _ held
                          (Advanced-done stream (put rx bytes).1 (last + (put rx bytes).0) cur next
                            _ (ground (arith, all, l, fresh))
                            (check_waiting-Advanced stream (put rx bytes).1
                              (last + (put rx bytes).0) next valid bound cs s)))
                ]
          ]
    ]

handle_payload-Advanced :
    (stream : ℕ → ℕ) (s : Step) (pack : Packet)
    → IsValid s.endpoint.rx
    → s.endpoint.rx_last_seq < 4294967296
    → All (Carries stream) s.endpoint.recv_queue
    → Sorted s.endpoint.recv_queue
    → Carries stream pack
    → Advanced stream s.endpoint.rx s.endpoint.rx_last_seq
        (pack ∷ s.endpoint.recv_queue)
        (receiving (handle_payload s pack).endpoint)
unfolding handle_payload tcp_check_waiting_packet
handle_payload-Advanced stream s pack v b cs sorted c =
    let queue = tcp_queue_packet pack s.endpoint.recv_queue in
    let r = check_waiting s.endpoint.rx s.endpoint.rx_last_seq queue in
    let a =
      check_waiting-Advanced stream s.endpoint.rx s.endpoint.rx_last_seq queue v b
        (tcp_queue_packet-All (Carries stream) pack s.endpoint.recv_queue c cs)
        (tcp_queue_packet-Sorted pack s.endpoint.recv_queue sorted) in
    let a' : Advanced stream s.endpoint.rx s.endpoint.rx_last_seq (pack ∷ s.endpoint.recv_queue)
        (record r { all_fit = true }) =
      record {
        valid = a.valid;
        forward = a.forward;
        bounded = a.bounded;
        bytes = a.bytes;
        waiting = a.waiting;
        sorted = a.sorted;
        progress = a.progress;
        taken = All-tcp_queue_packet (TakenCareOf r) pack s.endpoint.recv_queue a.taken;
      } in
    elim (Bool-cases r.all_fit) [
      | inr e ↦ rw e a'
      | inl e ↦
          rw
            (
              e,
              send-receiving
                  (record (s.endpoint) {
                    rx = r.rx;
                    rx_last_seq = r.rx_last_seq;
                    recv_queue = r.waiting;
                  })
                  flag_ack (some 0) a.bounded,
            )
            a'
    ]

-- `tcp_forward_established` of a packet with at least one byte, no FIN and no RST, at an endpoint that
-- has sent no FIN, with a valid ring, a last sequence number below 2 ^ 32, and waiting packets in the
-- order of their sequence numbers. The packet and those that wait have the bytes of the sender's
-- stream at their sequence numbers, fewer than 2 ^ 15 each, and end below 2 ^ 32. Whatever the order
-- of the packets and their overlaps, the packet is delivered; the ring is valid and has got the bytes
-- of the stream from the last sequence number on, up to a new one, behind those it held; the packet
-- and each that waited has been received to its end or waits; those that wait are in order and of the
-- stream again; and each of them begins behind the new sequence number, unless the ring is full.
pub tcp_forward_established-Advanced :
    (stream : ℕ → ℕ) (tep : TcpEndpoint) (pack : Packet)
    → IsValid tep.rx
    → tep.rx_last_seq < 4294967296
    → All (Carries stream) tep.recv_queue
    → Sorted tep.recv_queue
    → tep.fin_sent ≡ false
    → is_set pack.flags flag_rst ≡ false
    → is_set pack.flags flag_fin ≡ false
    → 0 < length pack.payload
    → Carries stream pack
    → let s = tcp_forward_established tep pack in
      (s.delivered ≡ true)
      × Advanced stream tep.rx tep.rx_last_seq (pack ∷ tep.recv_queue) (receiving s.endpoint)
unfolding tcp_forward_established
tcp_forward_established-Advanced stream tep pack v b cs sorted sent r f some_bytes c =
    let s' = handle_ack (dropped tep) pack in
    let same = handle_ack-receiving (dropped tep) pack b in
    rw
      (
        tcp_forward_established,
        not_closing tep pack r f sent,
        lt→ltb 0 (length pack.payload) some_bytes,
      )
      (
        payload_delivered s' pack,
        subst
            (λ x.
              Advanced stream x.rx x.rx_last_seq (pack ∷ x.waiting)
                (receiving (handle_payload s' pack).endpoint))
            same
            (handle_payload-Advanced stream s' pack (subst (λ x. IsValid x.rx) (sym same) v)
              (subst (λ x. x.rx_last_seq < 4294967296) (sym same) b)
              (subst (λ x. All (Carries stream) x.waiting) (sym same) cs)
              (subst (λ x. Sorted x.waiting) (sym same) sorted) c),
      )
