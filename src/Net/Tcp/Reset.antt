-- ===== src/Net/Tcp/Reset.antt =====
-- What a reset does to the endpoints of a connection.
use gloworm.Prelude.{
  ℕ, zero, suc, ◌≡◌, refl, ap, Bool, true, false, List, [], ◌∷◌, length, if◌then◌else◌,
}
use gloworm.Net.Tcp.{
  Packet, TcpEndpoint, TcpState, closed, listen, syn_sent, syn_recv, established, fin_wait1,
  fin_wait2, close_wait, closing, last_ack, time_wait, Step, is_set, flag_rst, flag_fin,
  tcp_send_packet,
}
use gloworm.Net.Tcp.Forward.{
  tcp_check_close, check_reset, tcp_forward_syn_sent, tcp_forward_syn_recv, tcp_forward_established,
  tcp_forward_closing, forward_in, tcp_forward_packet,
}

-- A connection that is neither closed nor waits for others.
abbrev pub is_open : TcpState → Bool
is_open closed = false
is_open listen = false
is_open _ = true

-- The answer to a reset is a reset, and the endpoint is open for the next one.
pub record Answered (s : Step) : Type 0 where
  pub answer : Packet
  pub sent : s.sent ≡ answer ∷ []
  pub is_reset : is_set answer.flags flag_rst ≡ true
  pub no_fin : is_set answer.flags flag_fin ≡ false
  pub open_still : is_open s.endpoint.state ≡ true
  pub fin_sent : s.endpoint.fin_sent ≡ false

check_close-delivered :
    (tep : TcpEndpoint) (pack : Packet)
    → tep.fin_sent ≡ false
    → is_set pack.flags flag_rst ≡ true
    → is_set pack.flags flag_fin ≡ false
    → ((tcp_check_close tep pack).delivered ≡ true) × Answered (tcp_check_close tep pack)
unfolding tcp_check_close check_reset tcp_send_packet
check_close-delivered tep pack s r f =
    rw (r, f, s)
      (
        refl,
        record {
          answer = _;
          sent = refl;
          is_reset = refl;
          no_fin = refl;
          open_still = refl;
          fin_sent = refl;
        },
      )

chosen : {A : Type 0} (b : Bool) (x y : A) → b ≡ true → (if b then x else y) ≡ x
chosen b x y e = rw e refl

-- In each state of an open connection the packet goes to `tcp_check_close` first.
forward-reset :
    (tep : TcpEndpoint) (pack : Packet)
    → is_open tep.state ≡ true
    → tep.fin_sent ≡ false
    → is_set pack.flags flag_rst ≡ true
    → is_set pack.flags flag_fin ≡ false
    → tcp_forward_packet tep pack ≡ tcp_check_close tep pack
unfolding tcp_forward_packet tcp_forward_syn_sent tcp_forward_syn_recv tcp_forward_established
    tcp_forward_closing
forward-reset tep pack o s r f = by_state (tep.state) o
  where
    delivered : (tcp_check_close tep pack).delivered ≡ true
    delivered = (check_close-delivered tep pack s r f).0

    by_state :
        (st : TcpState) → is_open st ≡ true → forward_in st tep pack ≡ tcp_check_close tep pack
    by_state closed e = absurd (cc)
    by_state listen e = absurd (cc)
    by_state syn_sent e = chosen _ _ _ delivered
    by_state syn_recv e = chosen _ _ _ delivered
    by_state established e = chosen _ _ _ delivered
    by_state fin_wait1 e = refl
    by_state fin_wait2 e = refl
    by_state close_wait e = refl
    by_state closing e = refl
    by_state last_ack e = refl
    by_state time_wait e = refl

-- The packets that two endpoints send when each gets what the other one has sent, for a number of
-- rounds, the first packet of a round at the first endpoint.
unfoldable pub exchange : (rounds : ℕ) → (tep peer : TcpEndpoint) → Packet → List Packet
exchange zero tep peer pack = []
exchange (suc n) tep peer pack =
    let s = tcp_forward_packet tep pack in
    elim (s.sent) [ [] ↦ [] | answer ∷ _ ↦ answer ∷ exchange n peer s.endpoint answer ]

-- Two open endpoints that have sent no FIN answer a reset with a reset for ever: after any number of
-- rounds as many packets have been sent.
pub resets_go_on :
    (n : ℕ) (tep peer : TcpEndpoint) (pack : Packet)
    → is_open tep.state ≡ true
    → is_open peer.state ≡ true
    → tep.fin_sent ≡ false
    → peer.fin_sent ≡ false
    → is_set pack.flags flag_rst ≡ true
    → is_set pack.flags flag_fin ≡ false
    → length (exchange n tep peer pack) ≡ n
unfolding exchange
resets_go_on zero tep peer pack o p s t r f = refl
resets_go_on (suc n) tep peer pack o p s t r f =
    let a = (check_close-delivered tep pack s r f).1 in
    let next =
      resets_go_on n peer (tcp_check_close tep pack).endpoint a.answer p a.open_still t a.fin_sent
        a.is_reset a.no_fin in
    rw (exchange, forward-reset tep pack o s r f, a.sent, forward-reset tep pack o s r f)
      (ap suc next)
