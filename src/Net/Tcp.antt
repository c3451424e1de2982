-- ===== src/Net/Tcp.antt =====
-- src/kernel/net/protocol/tcp.c and tcp.h: an endpoint of TCP, what it does with a packet that
-- arrives and what it sends. A packet is its decoded header with the bytes behind it; that one can
-- always be allocated, and the addresses in it, are left out. A sequence number has 32 bits.
pub mod Forward
pub mod Slice
pub mod Queue
pub mod Receiving
pub mod Reassembly
pub mod Stream
pub mod Reset
pub mod Calls
mod Examples
use gloworm.Prelude.{
  ℕ, zero, suc, ◌+◌, ◌-◌, ◌%◌, ◌^◌, Bool, true, false, not, ◌&&◌, ◌||◌, Option, none, some, List,
  [], ◌∷◌, ◌++◌, length, drop, take, ltb, leb, ◌==◌, if◌then◌else◌,
}
use Prim.Native.Nat.{bit_and, bit_or}
use gloworm.Utils.RingBuffer.{Ring, used_space, is_empty, is_full, peek, put, drop_bytes}
use gloworm.Fs.Pipe.{vfs_poll_read, vfs_poll_write}

-- `enum tcp_flag_t`.
abbrev pub flag_ack : ℕ
flag_ack = 0x010

abbrev pub flag_psh : ℕ
flag_psh = 0x008

abbrev pub flag_rst : ℕ
flag_rst = 0x004

abbrev pub flag_syn : ℕ
flag_syn = 0x002

abbrev pub flag_fin : ℕ
flag_fin = 0x001

abbrev pub is_set : (flags bit : ℕ) → Bool
is_set flags bit = not (bit_and flags bit == 0)

-- `enum tcp_state_t`.
pub data TcpState : Type 0 where
  closed listen syn_sent syn_recv established fin_wait1 : TcpState
  fin_wait2 close_wait closing last_ack time_wait : TcpState

-- The fields of `struct tcp_header` that are used, and the bytes of the packet.
pub record Packet : Type 0 where
  pub flags : ℕ
  pub seqnum : ℕ
  pub acknum : ℕ
  pub payload : List ℕ

-- `struct tcp_endpoint` without its addresses, and whether it has a socket.
pub record TcpEndpoint : Type 0 where
  pub has_sock : Bool
  pub queue_size : ℕ
  pub recv_queue : List Packet
  pub state : TcpState
  pub fin_sent : Bool
  pub fin_recv : Bool
  pub listen_queue_max : ℕ
  pub connect_return : ℕ
  pub tx_last_seq : ℕ
  pub rx_last_seq : ℕ
  pub tx_acks_repeated : ℕ
  pub rx : Ring
  pub tx : Ring

abbrev pub add_seq : ℕ → ℕ → ℕ
add_seq a b = (a + b) % 4294967296

abbrev pub sub_seq : ℕ → ℕ → ℕ
sub_seq a b = (a + (4294967296 - b)) % 4294967296

-- `tcp_send_packet`: the endpoint and the packet that goes to the interface; the number of bytes
-- none stands for -1, all that are in `tx`.
unfoldable pub tcp_send_packet :
    TcpEndpoint → (flags : ℕ) → (nbytes : Option ℕ) → (ackbytes : ℕ) → TcpEndpoint × Packet
tcp_send_packet tep flags nbytes ackbytes =
    let used = used_space tep.tx in
    let n : ℕ = elim nbytes [ none ↦ used | some k ↦ k ] in
    let rx_last =
      if is_set flags flag_ack then add_seq tep.rx_last_seq ackbytes else tep.rx_last_seq in
    let acknum = if is_set flags flag_ack then rx_last else 0 in
    if is_set flags flag_psh
    then (
      record tep { rx_last_seq = rx_last },
      record {
        flags = flags;
        seqnum = sub_seq tep.tx_last_seq n;
        acknum = acknum;
        payload = peek tep.tx (used - n) n;
      },
    )
    else (
      record tep {
        rx_last_seq = rx_last;
        tx_last_seq =
            if flags == flag_syn || is_set flags flag_fin
            then add_seq tep.tx_last_seq 1
            else tep.tx_last_seq;
      },
      record { flags = flags; seqnum = tep.tx_last_seq; acknum = acknum; payload = [] },
    )

-- What became of a packet: whether it was delivered, the endpoint, the packets that were sent and
-- the events that the socket was woken for, the first one first.
pub record Step : Type 0 where
  pub delivered : Bool
  pub endpoint : TcpEndpoint
  pub sent : List Packet
  pub woken : List ℕ

abbrev pub dropped : TcpEndpoint → Step
dropped tep = record { delivered = false; endpoint = tep; sent = []; woken = [] }

-- The packet is sent and the event signalled, at the end of a step.
abbrev pub send_and_wake : Step → (flags ackbytes event : ℕ) → Step
send_and_wake s flags ackbytes event =
    let (tep, pack) = tcp_send_packet s.endpoint flags (some 0) ackbytes in
    record {
      delivered = true;
      endpoint = tep;
      sent = s.sent ++ (pack ∷ []);
      woken = s.woken ++ (event ∷ []);
    }

-- `tcp_queue_packet`: in front of the first packet with a higher sequence number.
unfoldable pub tcp_queue_packet : Packet → List Packet → List Packet
tcp_queue_packet pack [] = pack ∷ []
tcp_queue_packet pack (cur ∷ queue) =
    let rest = tcp_queue_packet pack queue in
    if ltb pack.seqnum cur.seqnum then pack ∷ cur ∷ queue else cur ∷ rest

-- The end of `tcp_check_waiting_packet`: whether all bytes that came next found room.
pub record Received : Type 0 where
  pub all_fit : Bool
  pub rx : Ring
  pub rx_last_seq : ℕ
  pub waiting : List Packet

-- The length that `_buf_put` is called with, a short: it puts nothing for a negative one.
unfoldable pub short_length : (left : ℕ) → ℕ
short_length left = if ltb (left % 65536) 32768 then left % 65536 else 0

unfoldable pub check_waiting : Ring → (rx_last_seq : ℕ) → List Packet → Received
check_waiting rx last [] = record { all_fit = true; rx = rx; rx_last_seq = last; waiting = [] }
check_waiting rx last (cur ∷ next) =
    let index = last - cur.seqnum in
    let left = length cur.payload - index in
    let (n, rx') = put rx (take (short_length left) (drop index cur.payload)) in
    let skipped = check_waiting rx last next in
    let taken = check_waiting rx' (add_seq last n) next in
    if ltb last cur.seqnum
    then record { all_fit = true; rx = rx; rx_last_seq = last; waiting = cur ∷ next }
    else if ltb last (add_seq cur.seqnum (length cur.payload))
    then (if ltb n left
        then record {
          all_fit = false;
          rx = rx';
          rx_last_seq = add_seq last n;
          waiting = cur ∷ next;
        }
        else taken)
    else skipped

unfoldable pub tcp_check_waiting_packet : TcpEndpoint → Bool × TcpEndpoint
tcp_check_waiting_packet tep =
    let r = check_waiting tep.rx tep.rx_last_seq tep.recv_queue in
    (r.all_fit, record tep { rx = r.rx; rx_last_seq = r.rx_last_seq; recv_queue = r.waiting })
