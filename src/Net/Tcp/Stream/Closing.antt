-- ===== src/Net/Tcp/Stream/Closing.antt =====
-- kernel/net/tcp.c: the two streams of a connection over its end and its timer.
use project_lariat.Prelude.{
  All, Bool, List, ap, arith, false, if-both, length, ltb, refl, subst, take, true, ℕ, ◌&&◌, ◌+◌,
  ◌||◌, ◌≡◌,
}
use project_lariat.Net.Tcp.{
  Segment, TcpPcb, TcpState, flag_ack, flag_fin, flag_psh, seq_lt, sub32, tcp_close_wait,
  tcp_closed, tcp_closing, tcp_established, tcp_fin_wait_1, tcp_fin_wait_2, tcp_last_ack,
  tcp_listening, tcp_max_retries, tcp_mss, tcp_send_seg, tcp_syn_rcvd, tcp_syn_sent, tcp_time_wait,
}
use project_lariat.Net.Tcp.Calls.{
  close_in, is_close_wait, is_closed, resent, resent_data, sends_fin, tcp_close, tcp_rto_cb,
}
use project_lariat.Net.Tcp.Stream.{Carries, Flow, Keeps, Phase, Sound, is_joining}
use project_lariat.Net.Tcp.Stream.Sending.{bare-Carries, data-Carries}
use project_lariat.Net.Tcp.Input.{is_established, is_receiving}

fin-Sound :
    (going coming : Flow) {read : List ℕ} (s : TcpState) (p : TcpPcb)
    → p.fin_sent ≡ false
    → Phase s true
    → (is_receiving s ≡ true → is_receiving p.state ≡ true)
    → Keeps going coming read p
    → Sound going coming read (sends_fin s p)
unfolding sends_fin
fin-Sound going coming s p live phase still k = (
  record {
    window = record {
      una = k.window.una;
      out = k.window.out + 1;
      una_at = k.window.una_at;
      nxt_at = omega (arith, k.window.nxt_at);
      held = k.window.held;
      within = ground (arith, k.window.within);
    };
    phase = phase;
    inbox = record {
      got = k.inbox.got;
      got_fits = k.inbox.got_fits;
      stream = k.inbox.stream;
      nxt_fits = k.inbox.nxt_fits;
      nxt_is = λ h. k.inbox.nxt_is (still h);
    };
  },
  (bare-Carries k (flag_ack + flag_fin) p.snd_nxt, tt),
)

-- A state that is neither a beginning nor open.
quiet-Phase :
    (s : TcpState)
    → is_joining s || (is_established s || is_close_wait s) ≡ false
    → (fin : Bool) → Phase s fin
quiet-Phase s h fin = record {
  joined = ground arith;
  open_before = λ e. absurd (ground arith);
  half_before = λ e. absurd (ground arith);
}

closed-Keeps :
    (going coming : Flow) {read : List ℕ} (p : TcpPcb)
    → Keeps going coming read p
    → Keeps going coming read (record p { state = tcp_closed })
unfolding is_receiving
closed-Keeps going coming p k = record {
  window = k.window;
  phase = quiet-Phase tcp_closed refl p.fin_sent;
  inbox = record {
    got = k.inbox.got;
    got_fits = k.inbox.got_fits;
    stream = k.inbox.stream;
    nxt_fits = k.inbox.nxt_fits;
    nxt_is = λ h. absurd (ground arith);
  };
}

close_in-Sound :
    (going coming : Flow) {read : List ℕ} (s : TcpState) (p : TcpPcb)
    → p.state ≡ s
    → Keeps going coming read p
    → Sound going coming read (close_in s p).0
unfolding close_in is_receiving
close_in-Sound going coming tcp_established p e k =
    fin-Sound going coming tcp_fin_wait_1 p (k.phase.open_before (ap is_established e))
      (quiet-Phase tcp_fin_wait_1 refl true) (λ h. ap is_receiving e) k
close_in-Sound going coming tcp_close_wait p e k =
    fin-Sound going coming tcp_last_ack p (k.phase.half_before (ap is_close_wait e))
      (quiet-Phase tcp_last_ack refl true) (λ h. absurd (ground arith)) k
close_in-Sound going coming tcp_listening p e k =
    let c = closed-Keeps going coming p k in
    (record { window = c.window; phase = c.phase; inbox = c.inbox }, tt)
close_in-Sound going coming tcp_syn_sent p e k =
    let c = closed-Keeps going coming p k in
    (record { window = c.window; phase = c.phase; inbox = c.inbox }, tt)
close_in-Sound going coming tcp_closed p e k = (k, tt)
close_in-Sound going coming tcp_syn_rcvd p e k = (k, tt)
close_in-Sound going coming tcp_fin_wait_1 p e k = (k, tt)
close_in-Sound going coming tcp_fin_wait_2 p e k = (k, tt)
close_in-Sound going coming tcp_closing p e k = (k, tt)
close_in-Sound going coming tcp_last_ack p e k = (k, tt)
close_in-Sound going coming tcp_time_wait p e k = (k, tt)

pub tcp_close-Sound :
    (going coming : Flow) {read : List ℕ} (p : TcpPcb)
    → Keeps going coming read p
    → Sound going coming read (tcp_close p).0
unfolding tcp_close
tcp_close-Sound going coming p k = close_in-Sound going coming p.state p refl k

-- The oldest bytes, sent again.
resent_data-Carries :
    (going coming : Flow) {read : List ℕ} (p : TcpPcb)
    → Keeps going coming read p
    → All (Carries going.base going.bytes) (resent_data p)
unfolding resent_data
resent_data-Carries going coming p k =
    if-both (All (Carries going.base going.bytes))
      (ltb 0 (length p.snd_buf) && seq_lt p.snd_una p.snd_nxt)
      (λ e. (
        subst
            (λ q.
              Carries going.base going.bytes
                (tcp_send_seg p (flag_ack + flag_psh) q (take tcp_mss p.snd_buf)))
            (omega (arith, k.window.una_at)) (data-Carries k (flag_ack + flag_psh) 0 tcp_mss),
        tt,
      ))
      (λ e.
        if-both (All (Carries going.base going.bytes)) p.fin_sent
          (λ f. (bare-Carries k (flag_ack + flag_fin) (sub32 p.snd_nxt 1), tt)) (λ f. tt))

resent-Carries :
    (going coming : Flow) {read : List ℕ} (s : TcpState) (p : TcpPcb)
    → is_joining s ≡ false
    → Keeps going coming read p
    → All (Carries going.base going.bytes) (resent s p)
unfolding resent
resent-Carries going coming tcp_syn_sent p j k = absurd (ground arith)
resent-Carries going coming tcp_syn_rcvd p j k = absurd (ground arith)
resent-Carries going coming tcp_closed p j k = resent_data-Carries going coming p k
resent-Carries going coming tcp_listening p j k = resent_data-Carries going coming p k
resent-Carries going coming tcp_established p j k = resent_data-Carries going coming p k
resent-Carries going coming tcp_fin_wait_1 p j k = resent_data-Carries going coming p k
resent-Carries going coming tcp_fin_wait_2 p j k = resent_data-Carries going coming p k
resent-Carries going coming tcp_close_wait p j k = resent_data-Carries going coming p k
resent-Carries going coming tcp_closing p j k = resent_data-Carries going coming p k
resent-Carries going coming tcp_last_ack p j k = resent_data-Carries going coming p k
resent-Carries going coming tcp_time_wait p j k = resent_data-Carries going coming p k

pub tcp_rto_cb-Sound :
    (going coming : Flow) {read : List ℕ} (p : TcpPcb)
    → Keeps going coming read p
    → Sound going coming read (tcp_rto_cb p).0
unfolding tcp_rto_cb
tcp_rto_cb-Sound going coming {read} p k =
    let Q : (TcpPcb × List Segment) × Bool → Type 0 = λ r. Sound going coming read r.0 in
    let tried : Keeps going coming read (record p { retries = p.retries + 1 }) = record {
      window = k.window;
      phase = k.phase;
      inbox = k.inbox;
    } in
    let ended = closed-Keeps going coming _ tried in
    if-both Q (is_closed p.state) (λ e. (k, tt))
      (λ e.
        if-both Q (ltb tcp_max_retries (p.retries + 1))
          (λ f. (record { window = ended.window; phase = ended.phase; inbox = ended.inbox }, tt))
          (λ f. (
            record { window = k.window; phase = k.phase; inbox = k.inbox },
            resent-Carries going coming p.state _ k.phase.joined tried,
          )))
