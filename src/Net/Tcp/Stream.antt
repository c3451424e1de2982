-- ===== src/Net/Tcp/Stream.antt =====
-- What arrives at an endpoint packet by packet, in any order.
use gloworm.Prelude.{
  ℕ, ◌+◌, ◌-◌, ◌<◌, ◌≡◌, refl, sym, ap, ◌∙◌, Bool, false, Option, none, some, List, [], ◌∷◌, ◌++◌,
  length, inl, inr, ltb, leb, Bool-cases, lt→ltb, arith, subst, reverse_aux,
}
use mathlib.Core.List.{append_assoc}
use Prim.Native.Nat.{bit_or}
use gloworm.Utils.RingBuffer.{Ring}
use gloworm.Utils.RingBuffer.Inv.{IsValid}
use gloworm.Utils.RingBuffer.Window.{contents}
use gloworm.Net.Tcp.Slice.{slice, slice-++}
use gloworm.Net.Tcp.{
  Packet, TcpEndpoint, TcpState, established, Step, Received, is_set, flag_rst, flag_fin, flag_ack,
  flag_psh, dropped, tcp_send_packet, tcp_queue_packet, tcp_check_waiting_packet,
}
use gloworm.Net.Tcp.Forward.{
  handle_ack, handle_payload, retransmit, discard_acked, last_acked, tcp_forward_established,
  forward_in, tcp_forward_packet,
}
use gloworm.Net.Tcp.Queue.{Carries, All, Sorted, Waits, All-mono}
use gloworm.Net.Tcp.Receiving.{receiving, not_closing}
use gloworm.Net.Tcp.Reassembly.{TakenCareOf, Advanced, tcp_forward_established-Advanced}

-- The packets arrive one behind the other.
unfoldable pub forward_all : TcpEndpoint → List Packet → TcpEndpoint
forward_all tep [] = tep
forward_all tep (pack ∷ packs) = forward_all (tcp_forward_packet tep pack).endpoint packs

-- Whether an endpoint takes bytes.
abbrev pub opened : TcpEndpoint → TcpState × Bool
opened tep = (tep.state, tep.fin_sent)

send-opened :
    (tep : TcpEndpoint) (flags : ℕ) (n : Option ℕ) (ack : ℕ)
    → opened (tcp_send_packet tep flags n ack).0 ≡ opened tep
unfolding tcp_send_packet
send-opened tep flags n ack = elim (Bool-cases (is_set flags flag_psh)) [
  | inl p ↦ rw p refl
  | inr p ↦ rw p refl
]

retransmit-opened :
    (acked : ℕ) (s : Step) → opened (retransmit acked s).endpoint ≡ opened s.endpoint
unfolding retransmit
retransmit-opened acked s = elim (Bool-cases (ltb acked s.endpoint.tx_last_seq)) [
  | inr e ↦ rw e refl
  | inl e ↦ elim (Bool-cases (leb 3 (s.endpoint.tx_acks_repeated + 1))) [
    | inr f ↦ rw (e, f) refl
    | inl f ↦
        rw (e, f)
          (send-opened (record (s.endpoint) { tx_acks_repeated = 0 }) (bit_or flag_psh flag_ack)
            none 0)
  ]
]

discard_acked-opened :
    (s : Step) (pack : Packet) → opened (discard_acked s pack).endpoint ≡ opened s.endpoint
unfolding discard_acked
discard_acked-opened s pack = elim (Bool-cases (ltb (last_acked s.endpoint) pack.acknum)) [
  | inl e ↦ rw e refl
  | inr e ↦ rw e refl
]

handle_ack-opened :
    (s : Step) (pack : Packet) → opened (handle_ack s pack).endpoint ≡ opened s.endpoint
unfolding handle_ack
handle_ack-opened s pack = elim (Bool-cases (is_set pack.flags flag_ack)) [
  | inr e ↦ rw e refl
  | inl e ↦ rw e (retransmit-opened _ (discard_acked s pack) ∙ discard_acked-opened s pack)
]

handle_payload-opened :
    (s : Step) (pack : Packet) → opened (handle_payload s pack).endpoint ≡ opened s.endpoint
unfolding handle_payload tcp_check_waiting_packet
handle_payload-opened s pack =
    let queued : TcpEndpoint = record (s.endpoint) {
      recv_queue = tcp_queue_packet pack s.endpoint.recv_queue;
    } in
    let (fit, tep1) = tcp_check_waiting_packet queued in
    elim (Bool-cases fit) [
      | inr e ↦ rw e refl
      | inl e ↦ rw e (send-opened tep1 flag_ack (some 0) 0)
    ]

-- A packet of bytes of the stream.
pub record Arrives (stream : ℕ → ℕ) (pack : Packet) : Type 0 where
  pub carries : Carries stream pack
  pub no_rst : is_set pack.flags flag_rst ≡ false
  pub no_fin : is_set pack.flags flag_fin ≡ false
  pub some_bytes : 0 < length pack.payload

forward-opened :
    (stream : ℕ → ℕ) (tep : TcpEndpoint) (pack : Packet)
    → tep.fin_sent ≡ false
    → Arrives stream pack
    → opened (tcp_forward_established tep pack).endpoint ≡ opened tep
unfolding tcp_forward_established
forward-opened stream tep pack sent p =
    rw
      (
        tcp_forward_established,
        not_closing tep pack p.no_rst p.no_fin sent,
        lt→ltb 0 (length pack.payload) p.some_bytes,
      )
      (handle_payload-opened (handle_ack (dropped tep) pack) pack
        ∙ handle_ack-opened (dropped tep) pack)

lookup :
    (P : Packet → Type 0) (pack : Packet) (queue : List Packet)
    → Waits pack queue
    → All P queue
    → P pack
lookup P pack [] w a = absurd w
lookup P pack (cur ∷ queue) (inl e) (p, a) = subst P e p
lookup P pack (cur ∷ queue) (inr w) (p, a) = lookup P pack queue w a

-- One more packet.
Advanced-then :
    (stream : ℕ → ℕ) (rx : Ring) (last : ℕ) (queue : List Packet) (pack : Packet) (r r' : Received)
    → Advanced stream rx last queue r
    → Advanced stream r.rx r.rx_last_seq (pack ∷ r.waiting) r'
    → Advanced stream rx last (pack ∷ queue) r'
Advanced-then stream rx last queue pack r r' a b =
    let n = r.rx_last_seq - last in
    let m = r'.rx_last_seq - r.rx_last_seq in
    let mid : r.rx_last_seq ≡ last + n = omega (arith, a.forward) in
    let sum : n + m ≡ r'.rx_last_seq - last = omega (arith, a.forward, b.forward) in
    record {
      valid = b.valid;
      forward = omega (arith, a.forward, b.forward);
      bounded = b.bounded;
      bytes =
          b.bytes
          ∙ ap (λ l. l ++ slice stream r.rx_last_seq m) a.bytes
          ∙ append_assoc (contents rx) (slice stream last n) (slice stream r.rx_last_seq m)
          ∙ ap (λ l. contents rx ++ l) (slice-++ stream last n m r.rx_last_seq mid)
          ∙ ap (λ x. contents rx ++ slice stream last x) sum;
      waiting = b.waiting;
      sorted = b.sorted;
      progress = b.progress;
      taken = (b.taken.0, All-mono (TakenCareOf r) (TakenCareOf r') queue (λ p. still p) a.taken);
    }
  where
    still : (p : Packet) → TakenCareOf r p → TakenCareOf r' p
    still p (inl h) = inl (omega (arith, h, b.forward))
    still p (inr w) = lookup (TakenCareOf r') p r.waiting w b.taken.1

-- An established endpoint that has sent no FIN, whose waiting packets are of the stream and in order.
pub record Ready (stream : ℕ → ℕ) (tep : TcpEndpoint) : Type 0 where
  pub valid : IsValid tep.rx
  pub bounded : tep.rx_last_seq < 4294967296
  pub waiting : All (Carries stream) tep.recv_queue
  pub sorted : Sorted tep.recv_queue
  pub opened : opened tep ≡ (established, false)

forward-Advanced :
    (stream : ℕ → ℕ) (tep : TcpEndpoint) (pack : Packet)
    → Ready stream tep
    → Arrives stream pack
    → let tep' = (tcp_forward_packet tep pack).endpoint in
      Advanced stream tep.rx tep.rx_last_seq (pack ∷ tep.recv_queue) (receiving tep')
      × Ready stream tep'
unfolding tcp_forward_packet
forward-Advanced stream tep pack r p =
    let state : tep.state ≡ established = ap (λ o. o.0) r.opened in
    let sent : tep.fin_sent ≡ false = ap (λ o. o.1) r.opened in
    let same : tcp_forward_packet tep pack ≡ tcp_forward_established tep pack =
      ap (λ s. forward_in s tep pack) state in
    let (_, a) =
      tcp_forward_established-Advanced stream tep pack r.valid r.bounded r.waiting r.sorted sent
        p.no_rst p.no_fin p.some_bytes p.carries in
    subst
      (λ s.
        Advanced stream tep.rx tep.rx_last_seq (pack ∷ tep.recv_queue) (receiving s.endpoint)
        × Ready stream s.endpoint)
      (sym same)
      (
        a,
        record {
          valid = a.valid;
          bounded = a.bounded;
          waiting = a.waiting;
          sorted = a.sorted;
          opened = forward-opened stream tep pack sent p ∙ r.opened;
        },
      )

forward_all_from :
    (stream : ℕ → ℕ) (rx : Ring) (last : ℕ) (queue : List Packet) (tep : TcpEndpoint)
    (packs : List Packet)
    → Ready stream tep
    → Advanced stream rx last queue (receiving tep)
    → All (Arrives stream) packs
    → let tep' = forward_all tep packs in
      Advanced stream rx last (reverse_aux packs queue) (receiving tep') × Ready stream tep'
unfolding forward_all
forward_all_from stream rx last queue tep [] r a ps = (a, r)
forward_all_from stream rx last queue tep (pack ∷ packs) r a (p, ps) =
    let (b, r') = forward-Advanced stream tep pack r p in
    forward_all_from stream rx last (pack ∷ queue) (tcp_forward_packet tep pack).endpoint packs r'
      (Advanced-then stream rx last queue pack (receiving tep) _ a b) ps

-- An established endpoint, that has sent no FIN, with a valid ring, a last sequence number below
-- 2 ^ 32, and waiting packets in the order of their sequence numbers, gets one or more packets by
-- `tcp_forward_packet`, each with at least one byte, no FIN and no RST. They and those that wait have
-- the bytes of the sender's stream at their sequence numbers, fewer than 2 ^ 15 each, and end below
-- 2 ^ 32. In whatever order they come, with whatever overlaps and repetitions, in the end the ring has
-- got the bytes of the stream from the last sequence number on, up to a new one, behind those it
-- held; each packet that came or waited has been received to its end or waits; those that wait begin
-- behind the new sequence number, unless the ring is full; and all that was said of the endpoint
-- holds of it again.
pub forward_all-Advanced :
    (stream : ℕ → ℕ) (tep : TcpEndpoint) (pack : Packet) (packs : List Packet)
    → Ready stream tep
    → All (Arrives stream) (pack ∷ packs)
    → let tep' = forward_all tep (pack ∷ packs) in
      Advanced stream tep.rx tep.rx_last_seq
        (reverse_aux (pack ∷ packs) tep.recv_queue)
        (receiving tep')
      × Ready stream tep'
unfolding forward_all
forward_all-Advanced stream tep pack packs r (p, ps) =
    let (a, r') = forward-Advanced stream tep pack r p in
    forward_all_from stream tep.rx tep.rx_last_seq (pack ∷ tep.recv_queue)
      (tcp_forward_packet tep pack).endpoint packs r' a ps
