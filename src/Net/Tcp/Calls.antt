-- ===== src/Net/Tcp/Calls.antt =====
-- src/kernel/net/protocol/tcp.c: the calls that a socket makes on an endpoint of TCP, with the
-- packets that they send. The random sequence number is an argument, and so is what lies in the
-- memory of the two rings of a new endpoint.
use gloworm.Prelude.{
  ℕ, ◌≡◌, refl, Bool, true, false, not, ◌&&◌, Option, none, some, List, [], ◌∷◌, ltb, ◌==◌,
  if◌then◌else◌, ==_refl,
}
use Prim.Native.Nat.{bit_or}
use gloworm.Utils.RingBuffer.{init, is_empty, is_full}
use gloworm.Fs.Pipe.{vfs_poll_read, vfs_poll_write}
use gloworm.Net.Tcp.{
  Packet, TcpEndpoint, TcpState, closed, listen, syn_sent, syn_recv, established, fin_wait1,
  close_wait, last_ack, add_seq, flag_syn, flag_ack, flag_fin, is_set, tcp_send_packet,
}
use gloworm.Net.Tcp.Forward.{
  check_reset, tcp_check_close, tcp_forward_syn_sent, tcp_forward_syn_recv,
}

abbrev pub tcp_rx_buffer : ℕ
tcp_rx_buffer = 1024

abbrev pub tcp_tx_buffer : ℕ
tcp_tx_buffer = 1024

unfoldable pub tcp_alloc_endpoint : (has_sock : Bool) → (rx_memory tx_memory : ℕ → ℕ) → TcpEndpoint
tcp_alloc_endpoint has_sock rx_memory tx_memory = record {
  has_sock = has_sock;
  queue_size = 0;
  recv_queue = [];
  state = closed;
  fin_sent = false;
  fin_recv = false;
  listen_queue_max = 0;
  connect_return = 0;
  tx_last_seq = 0;
  rx_last_seq = 0;
  tx_acks_repeated = 0;
  rx = init rx_memory tcp_rx_buffer;
  tx = init tx_memory tcp_tx_buffer;
}

-- The endpoint for a SYN that has waited at a listening one, and its answer.
unfoldable pub tcp_create_client_endpoint :
    Packet → (rand : ℕ) → (rx_memory tx_memory : ℕ → ℕ) → TcpEndpoint × Packet
tcp_create_client_endpoint pack rand rx_memory tx_memory =
    tcp_send_packet
      (record (tcp_alloc_endpoint false rx_memory tx_memory) {
        state = syn_recv;
        rx_last_seq = pack.seqnum;
        tx_last_seq = rand;
      })
      (bit_or flag_syn flag_ack) (some 0) 1

-- The errors of the calls, which the source has as negative numbers.
pub data CallError : Type 0 where
  eisconn ewouldblock : CallError

pub record Called : Type 0 where
  pub error : Option CallError
  pub endpoint : TcpEndpoint
  pub sent : List Packet

abbrev is_closed : TcpState → Bool
is_closed closed = true
is_closed _ = false

abbrev is_established : TcpState → Bool
is_established established = true
is_established _ = false

unfoldable pub tcp_endpoint_listen : TcpEndpoint → (queue : ℕ) → Called
tcp_endpoint_listen tep queue =
    if not (is_closed (tep.state))
    then record { error = some eisconn; endpoint = tep; sent = [] }
    else record {
      error = none;
      endpoint = record tep {
        listen_queue_max = if ltb queue 10 then queue else 10;
        state = listen;
      };
      sent = [];
    }

-- `connect_return` is never negative.
unfoldable pub tcp_endpoint_connect : TcpEndpoint → (rand : ℕ) → Called
tcp_endpoint_connect tep rand =
    let (tep', pack) =
      tcp_send_packet (record tep { tx_last_seq = rand; tx_acks_repeated = 0 }) flag_syn (some 0)
        1 in
    if is_established (tep.state) && not (tep.connect_return == 0)
    then record { error = none; endpoint = tep; sent = [] }
    else if not (is_closed (tep.state))
    then record { error = some eisconn; endpoint = tep; sent = [] }
    else record {
      error = some ewouldblock;
      endpoint = record tep' { state = syn_sent };
      sent = pack ∷ [];
    }

-- The state behind a FIN, where `tcp_endpoint_shutdown` sends one.
abbrev state_after_shutdown : TcpState → Option TcpState
state_after_shutdown syn_recv = some fin_wait1
state_after_shutdown established = some fin_wait1
state_after_shutdown close_wait = some last_ack
state_after_shutdown _ = none

unfoldable pub tcp_endpoint_shutdown : TcpEndpoint → Called
tcp_endpoint_shutdown tep = elim (state_after_shutdown (tep.state)) [
  | none ↦ record { error = none; endpoint = tep; sent = [] }
  | some st ↦
      let (tep', pack) =
        tcp_send_packet (record tep { fin_sent = true }) (bit_or flag_fin flag_ack) (some 0) 0 in
      record { error = none; endpoint = record tep' { state = st }; sent = pack ∷ [] }
]

abbrev ready_to_read : TcpState → TcpEndpoint → Bool
ready_to_read established tep = not (is_empty tep.rx)
ready_to_read listen tep = elim (tep.recv_queue) [ [] ↦ false | pack ∷ queue ↦ true ]
ready_to_read syn_sent tep = false
ready_to_read syn_recv tep = false
ready_to_read _ tep = true

unfoldable pub tcp_endpoint_poll : TcpEndpoint → (events : ℕ) → ℕ
tcp_endpoint_poll tep events =
    let readable =
      if is_set events vfs_poll_read && ready_to_read (tep.state) tep then vfs_poll_read else 0 in
    if is_set events vfs_poll_write && not (is_full tep.tx)
    then bit_or readable vfs_poll_write
    else readable

-- `tcp_endpoint_connect` of a new endpoint, the SYN of which goes to `tcp_create_client_endpoint`, its
-- answer to `tcp_forward_syn_sent` at the first endpoint and the answer of that to
-- `tcp_forward_syn_recv` at the second, for any two random sequence numbers: both are
-- ESTABLISHED in the end, each expects the sequence number that the other one sends next, and no
-- more packets are sent.
pub handshake_agrees :
    (rand1 rand2 : ℕ) (memory : ℕ → ℕ)
    → let new = tcp_alloc_endpoint true memory memory in
      (syn answer reply : Packet) × ((tcp_endpoint_connect new rand1).sent ≡ syn ∷ [])
      × ((tcp_create_client_endpoint syn rand2 memory memory).1 ≡ answer)
      × (let client = tcp_forward_syn_sent (tcp_endpoint_connect new rand1).endpoint answer in
          let server =
            tcp_forward_syn_recv (tcp_create_client_endpoint syn rand2 memory memory).0 reply in
          (client.sent ≡ reply ∷ [])
          × (server.sent ≡ [])
          × (client.endpoint.state ≡ established)
          × (server.endpoint.state ≡ established)
          × (client.endpoint.rx_last_seq ≡ server.endpoint.tx_last_seq)
          × (server.endpoint.rx_last_seq ≡ client.endpoint.tx_last_seq))
unfolding tcp_alloc_endpoint tcp_create_client_endpoint tcp_endpoint_connect tcp_send_packet
    tcp_check_close check_reset tcp_forward_syn_sent tcp_forward_syn_recv
handshake_agrees rand1 rand2 memory = (
  record { flags = flag_syn; seqnum = rand1; acknum = 0; payload = [] },
  record {
    flags = bit_or flag_syn flag_ack;
    seqnum = rand2;
    acknum = add_seq rand1 1;
    payload = [];
  },
  record { flags = flag_ack; seqnum = add_seq rand1 1; acknum = add_seq rand2 1; payload = [] },
  refl,
  refl,
  rw (==_refl (add_seq rand1 1)) (refl, refl, refl, refl, refl, refl),
)
