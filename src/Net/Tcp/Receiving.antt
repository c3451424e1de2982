-- ===== src/Net/Tcp/Receiving.antt =====
-- What the steps before the bytes of a packet leave of the endpoint that receives them.
use gloworm.Prelude.{
  ℕ, ◌+◌, ◌<◌, ◌≡◌, refl, sym, ◌∙◌, true, false, Option, none, inl, inr, ltb, leb, Bool-cases,
  arith, subst,
}
use Prim.Native.Nat.{bit_or}
use gloworm.Net.Tcp.{
  Packet, TcpEndpoint, Step, Received, add_seq, is_set, flag_rst, flag_fin, flag_ack, flag_psh,
  dropped, tcp_send_packet,
}
use gloworm.Net.Tcp.Forward.{
  tcp_check_close, check_reset, handle_ack, handle_payload, retransmit, discard_acked, last_acked,
}

-- What of an endpoint belongs to the stream that it receives.
abbrev pub receiving : TcpEndpoint → Received
receiving tep = record {
  all_fit = true;
  rx = tep.rx;
  rx_last_seq = tep.rx_last_seq;
  waiting = tep.recv_queue;
}

pub not_closing :
    (tep : TcpEndpoint) (pack : Packet)
    → is_set pack.flags flag_rst ≡ false
    → is_set pack.flags flag_fin ≡ false
    → tep.fin_sent ≡ false
    → tcp_check_close tep pack ≡ dropped tep
unfolding tcp_check_close check_reset
not_closing tep pack r f s = rw (r, f, s) refl

pub send-receiving :
    (tep : TcpEndpoint) (flags : ℕ) (n : Option ℕ)
    → tep.rx_last_seq < 4294967296
    → receiving (tcp_send_packet tep flags n 0).0 ≡ receiving tep
unfolding tcp_send_packet
send-receiving tep flags n b =
    let same : add_seq tep.rx_last_seq 0 ≡ tep.rx_last_seq = omega (arith, b) in
    elim (Bool-cases (is_set flags flag_psh)) [
      | inl p ↦ elim (Bool-cases (is_set flags flag_ack)) [
        | inl a ↦ rw (p, a, same) refl
        | inr a ↦ rw (p, a) refl
      ]
      | inr p ↦ elim (Bool-cases (is_set flags flag_ack)) [
        | inl a ↦ rw (p, a, same) refl
        | inr a ↦ rw (p, a) refl
      ]
    ]

pub discard_acked-receiving :
    (s : Step) (pack : Packet) → receiving (discard_acked s pack).endpoint ≡ receiving s.endpoint
unfolding discard_acked
discard_acked-receiving s pack = elim (Bool-cases (ltb (last_acked s.endpoint) pack.acknum)) [
  | inl e ↦ rw e refl
  | inr e ↦ rw e refl
]

pub retransmit-receiving :
    (acked : ℕ) (s : Step)
    → s.endpoint.rx_last_seq < 4294967296
    → receiving (retransmit acked s).endpoint ≡ receiving s.endpoint
unfolding retransmit
retransmit-receiving acked s b = elim (Bool-cases (ltb acked s.endpoint.tx_last_seq)) [
  | inr e ↦ rw e refl
  | inl e ↦ elim (Bool-cases (leb 3 (s.endpoint.tx_acks_repeated + 1))) [
    | inr f ↦ rw (e, f) refl
    | inl f ↦
        rw (e, f)
          (send-receiving (record (s.endpoint) { tx_acks_repeated = 0 }) (bit_or flag_psh flag_ack)
            none b)
  ]
]

pub handle_ack-receiving :
    (s : Step) (pack : Packet)
    → s.endpoint.rx_last_seq < 4294967296
    → receiving (handle_ack s pack).endpoint ≡ receiving s.endpoint
unfolding handle_ack
handle_ack-receiving s pack b = elim (Bool-cases (is_set pack.flags flag_ack)) [
  | inr e ↦ rw e refl
  | inl e ↦
      let same = discard_acked-receiving s pack in
      let bound : (discard_acked s pack).endpoint.rx_last_seq < 4294967296 =
        subst (λ r. r.rx_last_seq < 4294967296) (sym same) b in
      rw e (retransmit-receiving _ (discard_acked s pack) bound ∙ same)
]

pub payload_delivered : (s : Step) (pack : Packet) → (handle_payload s pack).delivered ≡ true
unfolding handle_payload
payload_delivered s pack = refl
