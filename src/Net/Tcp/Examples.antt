-- ===== src/Net/Tcp/Examples.antt =====
-- The theorems on a connection that waits for the byte 1003 and has the bytes from 1005 on.
use gloworm.Prelude.{ℕ, ◌+◌, ◌%◌, ◌≡◌, refl, true, false, [], ◌∷◌, length, arith}
use Prim.Native.Nat.{bit_or}
use gloworm.Utils.RingBuffer.{Ring}
use gloworm.Utils.RingBuffer.Inv.{IsValid}
use gloworm.Net.Tcp.{Packet, TcpEndpoint, established, flag_ack, flag_psh, flag_rst}
use gloworm.Net.Tcp.Forward.{tcp_forward_established, tcp_forward_syn_sent, tcp_forward_syn_recv}
use gloworm.Net.Tcp.Receiving.{receiving}
use gloworm.Net.Tcp.Reassembly.{Advanced, tcp_forward_established-Advanced}
use gloworm.Net.Tcp.Stream.{Ready, forward_all, forward_all-Advanced}
use gloworm.Net.Tcp.Calls.{
  tcp_alloc_endpoint, tcp_create_client_endpoint, tcp_endpoint_connect, handshake_agrees,
}
use gloworm.Net.Tcp.Reset.{exchange, resets_go_on}

-- The byte at each number.
abbrev stream : ℕ → ℕ
stream n = n % 256

abbrev ring : Ring
ring = record { max = 100; in_at = 3; out = 0; buffer = λ i. stream (1000 + i) }

abbrev early : Packet
early = record {
  flags = bit_or flag_psh flag_ack;
  seqnum = 1005;
  acknum = 500;
  payload = stream 1005 ∷ stream 1006 ∷ [];
}

abbrev connection : TcpEndpoint
connection = record {
  has_sock = true;
  queue_size = 0;
  recv_queue = early ∷ [];
  state = established;
  fin_sent = false;
  fin_recv = false;
  listen_queue_max = 0;
  connect_return = 1;
  tx_last_seq = 500;
  rx_last_seq = 1003;
  tx_acks_repeated = 0;
  rx = ring;
  tx = record { max = 100; in_at = 0; out = 0; buffer = λ i. 0 };
}

-- The two bytes that are missing, and one that is there already.
abbrev late : Packet
late = record {
  flags = bit_or flag_psh flag_ack;
  seqnum = 1003;
  acknum = 500;
  payload = stream 1003 ∷ stream 1004 ∷ stream 1005 ∷ [];
}

ring-IsValid : IsValid ring
ring-IsValid = record { small = omega arith; in_range = omega arith; out_range = omega arith }

tcp_forward_established-Advanced_example :
    let s = tcp_forward_established connection late in
    (s.delivered ≡ true) × Advanced stream ring 1003 (late ∷ early ∷ []) (receiving s.endpoint)
tcp_forward_established-Advanced_example =
    tcp_forward_established-Advanced stream connection late ring-IsValid (omega arith)
      (record { bytes = refl; short = omega arith; bounded = omega arith }, tt) (tt, tt) refl refl
      refl (omega arith) (record { bytes = refl; short = omega arith; bounded = omega arith })

-- It overlaps the one that waits.
abbrev ahead : Packet
ahead = record {
  flags = bit_or flag_psh flag_ack;
  seqnum = 1006;
  acknum = 500;
  payload = stream 1006 ∷ stream 1007 ∷ [];
}

forward_all-Advanced_example :
    let tep = forward_all connection (ahead ∷ late ∷ []) in
    Advanced stream ring 1003 (late ∷ ahead ∷ early ∷ []) (receiving tep) × Ready stream tep
forward_all-Advanced_example =
    forward_all-Advanced stream connection ahead (late ∷ [])
      (record {
        valid = ring-IsValid;
        bounded = omega arith;
        waiting = (record { bytes = refl; short = omega arith; bounded = omega arith }, tt);
        sorted = (tt, tt);
        opened = refl;
      })
      (
        record {
          carries = record { bytes = refl; short = omega arith; bounded = omega arith };
          no_rst = refl;
          no_fin = refl;
          some_bytes = omega arith;
        },
        (
          record {
            carries = record { bytes = refl; short = omega arith; bounded = omega arith };
            no_rst = refl;
            no_fin = refl;
            some_bytes = omega arith;
          },
          tt,
        ),
      )

abbrev reset : Packet
reset = record { flags = bit_or flag_rst flag_ack; seqnum = 1003; acknum = 500; payload = [] }

resets_go_on_example : length (exchange 1000 connection connection reset) ≡ 1000
resets_go_on_example = resets_go_on 1000 connection connection reset refl refl refl refl refl refl

handshake_agrees_example :
    let new = tcp_alloc_endpoint true (λ i. 0) (λ i. 0) in
    (syn answer reply : Packet) × ((tcp_endpoint_connect new 4294967295).sent ≡ syn ∷ [])
    × ((tcp_create_client_endpoint syn 77 (λ i. 0) (λ i. 0)).1 ≡ answer)
    × (let client = tcp_forward_syn_sent (tcp_endpoint_connect new 4294967295).endpoint answer in
        let server =
          tcp_forward_syn_recv (tcp_create_client_endpoint syn 77 (λ i. 0) (λ i. 0)).0 reply in
        (client.sent ≡ reply ∷ [])
        × (server.sent ≡ [])
        × (client.endpoint.state ≡ established)
        × (server.endpoint.state ≡ established)
        × (client.endpoint.rx_last_seq ≡ server.endpoint.tx_last_seq)
        × (server.endpoint.rx_last_seq ≡ client.endpoint.tx_last_seq))
handshake_agrees_example = handshake_agrees 4294967295 77 (λ i. 0)
