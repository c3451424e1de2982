-- ===== src/Net/Tcp/Forward.antt =====
-- src/kernel/net/protocol/tcp.c: what an endpoint does with a packet in each of its states.
use gloworm.Prelude.{
  ℕ, ◌+◌, ◌-◌, ◌%◌, ◌^◌, true, false, not, ◌&&◌, none, some, [], ◌∷◌, ◌++◌, length, ltb, leb, ◌==◌,
  if◌then◌else◌,
}
use Prim.Native.Nat.{bit_or}
use gloworm.Utils.RingBuffer.{Ring, used_space, is_empty, drop_bytes}
use gloworm.Fs.Pipe.{vfs_poll_read, vfs_poll_write}
use gloworm.Net.Tcp.{
  flag_ack, flag_psh, flag_rst, flag_syn, flag_fin, is_set, TcpState, Packet, TcpEndpoint, sub_seq,
  tcp_send_packet, Step, dropped, send_and_wake, tcp_queue_packet, tcp_check_waiting_packet, closed,
  listen, syn_sent, syn_recv, established, close_wait, closing,
}

-- The first part of `tcp_check_close`, for a reset.
unfoldable pub check_reset : TcpEndpoint → Packet → Step
check_reset tep pack =
    if is_set pack.flags flag_rst
    then send_and_wake (dropped (record tep { fin_recv = true; state = closing }))
        (bit_or flag_rst flag_ack) 1 vfs_poll_read
    else dropped tep

abbrev pub state_after_fin : TcpState → TcpState
state_after_fin established = close_wait
state_after_fin _ = closing

-- The last part of `tcp_check_close`, for the acknowledgment of a FIN.
abbrev pub check_fin_acked : Step → Packet → Step
check_fin_acked s pack =
    if s.endpoint.fin_sent && is_set pack.flags flag_ack && pack.acknum == s.endpoint.tx_last_seq
    then record s { delivered = true; endpoint = record (s.endpoint) { state = closed } }
    else s

unfoldable pub tcp_check_close : TcpEndpoint → Packet → Step
tcp_check_close tep pack =
    let s = check_reset tep pack in
    let noted = record (s.endpoint) { fin_recv = true } in
    let moved = record noted { state = state_after_fin noted.state } in
    if is_set pack.flags flag_fin
    then (if not (pack.seqnum == s.endpoint.rx_last_seq)
        then record s { delivered = false; endpoint = noted }
        else check_fin_acked
            (send_and_wake (record s { endpoint = moved }) flag_ack 1 vfs_poll_read) pack)
    else check_fin_acked s pack

unfoldable pub tcp_forward_listen : TcpEndpoint → Packet → Step
tcp_forward_listen tep pack =
    if not (pack.flags == flag_syn)
    then dropped tep
    else if leb tep.listen_queue_max tep.queue_size
    then dropped tep
    else record {
      delivered = true;
      endpoint = record tep {
        recv_queue = tep.recv_queue ++ (pack ∷ []);
        queue_size = tep.queue_size + 1;
      };
      sent = [];
      woken = vfs_poll_read ∷ [];
    }

unfoldable pub tcp_forward_syn_recv : TcpEndpoint → Packet → Step
tcp_forward_syn_recv tep pack =
    let s = tcp_check_close tep pack in
    if s.delivered
    then s
    else if not (pack.flags == flag_ack)
    then s
    else if not (pack.seqnum == s.endpoint.rx_last_seq)
    then s
    else record {
      delivered = true;
      endpoint = record (s.endpoint) {
        tx_last_seq = pack.acknum;
        tx_acks_repeated = 0;
        state = established;
      };
      sent = s.sent;
      woken = s.woken ++ (vfs_poll_read ∷ []);
    }

unfoldable pub tcp_forward_syn_sent : TcpEndpoint → Packet → Step
tcp_forward_syn_sent tep pack =
    let s = tcp_check_close tep pack in
    let open_tep = record (s.endpoint) { rx_last_seq = pack.seqnum; state = established } in
    let done = send_and_wake (record s { endpoint = open_tep }) flag_ack 1 vfs_poll_read in
    if s.delivered
    then s
    else if not (pack.flags == bit_or flag_syn flag_ack)
    then s
    else if not (pack.acknum == s.endpoint.tx_last_seq)
    then s
    else record done { endpoint = record (done.endpoint) { connect_return = 1 } }

-- `_buf_drop` of a number that is cut to a short: a negative one moves `out` backwards.
abbrev pub drop_acked : Ring → ℕ → Ring
drop_acked tx size =
    let short = size % 2 ^ 16 in
    if ltb short (2 ^ 15)
    then (drop_bytes tx short).1
    else record tx { out = (tx.out + short) % 2 ^ 16 }

abbrev pub last_acked : TcpEndpoint → ℕ
last_acked tep = sub_seq tep.tx_last_seq (used_space tep.tx)

-- The bytes that have been acknowledged leave `tx`.
unfoldable pub discard_acked : Step → Packet → Step
discard_acked s pack =
    let tep = s.endpoint in
    if ltb (last_acked tep) pack.acknum
    then record s {
      endpoint = record tep {
        tx_acks_repeated = 0;
        tx = drop_acked tep.tx (pack.acknum - last_acked tep);
      };
      woken = s.woken ++ (vfs_poll_write ∷ []);
    }
    else s

-- The rest is sent again when the same acknowledgment comes for the third time.
unfoldable pub retransmit : (acked : ℕ) → Step → Step
retransmit acked s =
    let tep = s.endpoint in
    let repeated = tep.tx_acks_repeated + 1 in
    let (tep', pack) =
      tcp_send_packet (record tep { tx_acks_repeated = 0 }) (bit_or flag_psh flag_ack) none 0 in
    if ltb acked tep.tx_last_seq
    then (if leb 3 repeated
        then record s { endpoint = tep'; sent = s.sent ++ (pack ∷ []) }
        else record s { endpoint = record tep { tx_acks_repeated = repeated } })
    else s

unfoldable pub handle_ack : Step → Packet → Step
handle_ack s pack =
    let acked =
      if ltb (last_acked s.endpoint) pack.acknum then pack.acknum else last_acked s.endpoint in
    if is_set pack.flags flag_ack then retransmit acked (discard_acked s pack) else s

-- The bytes of a packet are queued, and those that come next go to `rx`.
unfoldable pub handle_payload : Step → Packet → Step
handle_payload s pack =
    let tep = s.endpoint in
    let (fit, tep1) =
      tcp_check_waiting_packet (record tep { recv_queue = tcp_queue_packet pack tep.recv_queue }) in
    let (tep2, reply) = tcp_send_packet tep1 flag_ack (some 0) 0 in
    record {
      delivered = true;
      endpoint = if fit then tep2 else tep1;
      sent = if fit then s.sent ++ (reply ∷ []) else s.sent;
      woken =
          if tep1.has_sock && not (is_empty tep1.rx)
          then s.woken ++ (vfs_poll_read ∷ [])
          else s.woken;
    }

unfoldable pub tcp_forward_established : TcpEndpoint → Packet → Step
tcp_forward_established tep pack =
    let s = tcp_check_close tep pack in
    let s' = handle_ack s pack in
    if s.delivered
    then s
    else if ltb 0 (length pack.payload)
    then handle_payload s' pack
    else record s' { delivered = true }

unfoldable pub tcp_forward_closing : TcpEndpoint → Packet → Step
tcp_forward_closing tep pack = tcp_check_close tep pack

-- The switch of `tcp_forward_packet` on the state of the endpoint that the packet is for.
abbrev pub forward_in : TcpState → TcpEndpoint → Packet → Step
forward_in closed tep pack = dropped tep
forward_in listen tep pack = tcp_forward_listen tep pack
forward_in syn_sent tep pack = tcp_forward_syn_sent tep pack
forward_in syn_recv tep pack = tcp_forward_syn_recv tep pack
forward_in established tep pack = tcp_forward_established tep pack
forward_in _ tep pack = tcp_forward_closing tep pack

unfoldable pub tcp_forward_packet : TcpEndpoint → Packet → Step
tcp_forward_packet tep pack = forward_in (tep.state) tep pack
