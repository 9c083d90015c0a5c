-- ===== src/Net/Tcp/Calls.antt =====
-- kernel/net/tcp.c: the calls of a program and of the timer on a control block, up to the point
-- where they wait. `intr` of a wait is the argument `signal`.
use project_lariat.Prelude.{
  Bool, List, [], drop, false, if◌then◌else◌, length, ltb, min, take, true, ℕ, ◌%◌, ◌&&◌, ◌++◌, ◌+◌,
  ◌-◌, ◌==◌, ◌^◌, ◌||◌, ◌∷◌,
}
use project_lariat.Net.Tcp.{
  Segment, TcpPcb, TcpState, flag_ack, flag_fin, flag_psh, flag_syn, seq_lt, sub32, tcp_close_wait,
  tcp_closed, tcp_established, tcp_fin_wait_1, tcp_last_ack, tcp_listening, tcp_max_retries,
  tcp_mss, tcp_send_seg, tcp_sndbuf, tcp_syn_rcvd, tcp_syn_sent,
}
use project_lariat.Net.Tcp.Output.{tcp_output_data}
use project_lariat.Net.Tcp.Input.{is_established}

-- `tcp_bind`: the port, the block and `tcp_ephemeral`.
unfoldable pub tcp_bind : TcpPcb → ℕ → ℕ → ℕ → ℕ × TcpPcb × ℕ
tcp_bind pcb ip port ephemeral =
    let chosen = if port == 0 then ephemeral else port in
    (
      chosen,
      record pcb { local_ip = ip; local_port = chosen },
      if port == 0 then (ephemeral + 1) % 2 ^ 16 else ephemeral,
    )

unfoldable pub tcp_listen : TcpPcb → ℕ → TcpPcb × ℕ
tcp_listen pcb ephemeral =
    let (port, bound, next) = tcp_bind pcb 0 0 ephemeral in
    if pcb.local_port == 0
    then (record bound { state = tcp_listening }, next)
    else (record pcb { state = tcp_listening }, ephemeral)

-- The block after the SYN, with `tcp_ephemeral` and `tcp_iss`; `src_ip` is the address of the
-- interface of the route.
unfoldable pub tcp_connect : TcpPcb → ℕ → ℕ → ℕ → ℕ → ℕ → (TcpPcb × Segment) × ℕ × ℕ
tcp_connect pcb ip port src_ip ephemeral iss =
    let started = record pcb {
      local_port = if pcb.local_port == 0 then ephemeral else pcb.local_port;
      local_ip = src_ip;
      remote_ip = ip;
      remote_port = port;
      snd_una = iss;
      snd_nxt = (iss + 1) % 2 ^ 32;
      state = tcp_syn_sent;
      retries = 0;
      rto = true;
    } in
    (
      (started, tcp_send_seg started flag_syn iss []),
      if pcb.local_port == 0 then (ephemeral + 1) % 2 ^ 16 else ephemeral,
      (iss + 64000) % 2 ^ 32,
    )

-- What a connect, a send or a receive finds at its wait.
pub data Wait : Type 0 where
  waits interrupted goes : Wait

abbrev pub woken : Bool → Bool → Wait
woken ready signal = if ready then goes else if signal then interrupted else waits

abbrev pub is_closed : TcpState → Bool
is_closed tcp_closed = true
is_closed state = false

-- `pcb->reset || pcb->state == TCP_CLOSED`
abbrev pub is_over : TcpPcb → Bool
is_over pcb = pcb.reset || is_closed pcb.state

-- The wait of `tcp_connect`.
unfoldable pub connect_wait : TcpPcb → Bool → Wait
connect_wait pcb signal = woken (is_established pcb.state || is_over pcb) signal

-- A round of `tcp_send` behind its wait: the bytes that fit go to the buffer, and what the window
-- allows is sent. The timer runs where something is outstanding.
unfoldable pub send_round : List ℕ → TcpPcb → (TcpPcb × List Segment) × List ℕ
send_round body pcb =
    let space = tcp_sndbuf - length pcb.snd_buf in
    let queued = record pcb { snd_buf = pcb.snd_buf ++ take space body } in
    let (after, segs) = tcp_output_data queued in
    if min space (length body) == 0 then ((pcb, []), body) else (
      (record after { rto = if seq_lt after.snd_una after.snd_nxt then true else after.rto }, segs),
      drop space body,
    )

-- What a round of `tcp_send` does.
pub data SendRound : Type 0 where
  send_waits : SendRound
  send_interrupted : SendRound
  send_fails : SendRound
  send_goes : (TcpPcb × List Segment) × List ℕ → SendRound

unfoldable pub tcp_send : List ℕ → Bool → TcpPcb → SendRound
tcp_send body signal pcb =
    elim (woken (ltb (length pcb.snd_buf) tcp_sndbuf || is_over pcb) signal) [
      | waits ↦ send_waits
      | interrupted ↦ send_interrupted
      | goes ↦ if is_over pcb then send_fails else send_goes (send_round body pcb)
    ]

abbrev pub is_close_wait : TcpState → Bool
is_close_wait tcp_close_wait = true
is_close_wait state = false

-- What a receive gives: the oldest bytes, the end of the stream, an error, or a wait.
pub data Received : Type 0 where
  recv_waits : Received
  recv_interrupted : Received
  recv_ends : Received
  recv_fails : Received
  recv_bytes : List ℕ → TcpPcb → Received

unfoldable pub recv_ready : ℕ → TcpPcb → Received
recv_ready len pcb =
    let n = min (length pcb.rcv_buf) len in
    if n == 0
    then (if is_close_wait pcb.state || is_closed pcb.state then recv_ends else recv_fails)
    else recv_bytes (take n pcb.rcv_buf) (record pcb { rcv_buf = drop n pcb.rcv_buf })

unfoldable pub tcp_recv : ℕ → Bool → TcpPcb → Received
tcp_recv len signal pcb =
    elim (woken (ltb 0 (length pcb.rcv_buf) || (is_close_wait pcb.state || is_over pcb)) signal) [
      | waits ↦ recv_waits
      | interrupted ↦ recv_interrupted
      | goes ↦ recv_ready len pcb
    ]

-- The FIN of `tcp_close`, and the state behind it.
unfoldable pub sends_fin : TcpState → TcpPcb → TcpPcb × List Segment
sends_fin state pcb = (
  record pcb { snd_nxt = (pcb.snd_nxt + 1) % 2 ^ 32; fin_sent = true; state = state; rto = true },
  tcp_send_seg pcb (flag_ack + flag_fin) pcb.snd_nxt [] ∷ [],
)

-- The block, the segments, and whether the block is freed.
unfoldable pub close_in : TcpState → TcpPcb → (TcpPcb × List Segment) × Bool
close_in tcp_established pcb = (sends_fin tcp_fin_wait_1 pcb, false)
close_in tcp_close_wait pcb = (sends_fin tcp_last_ack pcb, false)
close_in tcp_listening pcb = ((record pcb { state = tcp_closed; rto = false }, []), true)
close_in tcp_syn_sent pcb = ((record pcb { state = tcp_closed; rto = false }, []), true)
close_in state pcb = ((pcb, []), false)

unfoldable pub tcp_close : TcpPcb → (TcpPcb × List Segment) × Bool
tcp_close pcb = close_in pcb.state pcb

-- What the timer sends again.
unfoldable pub resent_data : TcpPcb → List Segment
resent_data pcb =
    if ltb 0 (length pcb.snd_buf) && seq_lt pcb.snd_una pcb.snd_nxt
    then tcp_send_seg pcb (flag_ack + flag_psh) pcb.snd_una (take tcp_mss pcb.snd_buf) ∷ []
    else if pcb.fin_sent
    then tcp_send_seg pcb (flag_ack + flag_fin) (sub32 pcb.snd_nxt 1) [] ∷ []
    else []

unfoldable pub resent : TcpState → TcpPcb → List Segment
resent tcp_syn_sent pcb = tcp_send_seg pcb flag_syn pcb.snd_una [] ∷ []
resent tcp_syn_rcvd pcb = tcp_send_seg pcb (flag_syn + flag_ack) pcb.snd_una [] ∷ []
resent state pcb = resent_data pcb

-- The timer's callback, `rto` being inactive when it is called: the block, the segments, and
-- whether the wait queue is woken.
unfoldable pub tcp_rto_cb : TcpPcb → (TcpPcb × List Segment) × Bool
tcp_rto_cb pcb =
    let tried = record pcb { retries = pcb.retries + 1 } in
    if is_closed pcb.state
    then ((pcb, []), false)
    else if ltb tcp_max_retries tried.retries
    then ((record tried { state = tcp_closed; reset = true }, []), true)
    else ((record tried { rto = true }, resent pcb.state tried), false)
