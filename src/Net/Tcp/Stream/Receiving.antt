-- ===== src/Net/Tcp/Stream/Receiving.antt =====
-- kernel/net/tcp.c: the two streams of a connection over a segment that comes in.
use project_lariat.Prelude.{
  All-append, Bool, List, ap, append_assoc, ap₂, arith, drop, false, if-both, length, length-take,
  ltb, min, refl, sym, take, true, ℕ, ◌%◌, ◌&&◌, ◌++◌, ◌+◌, ◌-◌, ◌<◌, ◌==◌, ◌^◌, ◌∙◌, ◌≡◌,
}
use project_lariat.Net.Tcp.{
  Segment, TcpPcb, TcpState, flag_ack, has_fin, has_rst, seq_lt, tcp_close_wait, tcp_closed,
  tcp_closing, tcp_established, tcp_fin_wait_1, tcp_fin_wait_2, tcp_last_ack, tcp_listening,
  tcp_rcvbuf, tcp_send_seg, tcp_syn_rcvd, tcp_syn_sent, tcp_time_wait,
}
use project_lariat.Net.Tcp.Input.{
  Reply, after_fin, in_connection, in_state, is_established, is_receiving, push_data, take_ack,
  take_data, take_fin, tcp_deliver_data, tcp_receive,
}
use project_lariat.Net.Tcp.Stream.{Carries, Flow, Keeps, Phase, Slice, is_joining}
use project_lariat.Net.Tcp.Stream.Sending.{bare-Carries, tcp_output_data-Sound}
use project_lariat.Net.Tcp.Stream.Lists.{take_next, take-take}
use project_lariat.Net.Tcp.Stream.Acking.{Replies, take_ack-Replies}

-- What a FIN does to the state.
after_fin-Phase : (s : TcpState) (fin : Bool) → Phase s fin → Phase (after_fin s) fin
unfolding after_fin
after_fin-Phase s fin h = record {
  joined = ground (arith, h.joined);
  open_before = λ e. ground (arith, h.open_before);
  half_before = λ e. ground (arith, h.open_before, h.half_before);
}

is_receiving-after_fin : (s : TcpState) → is_receiving (after_fin s) ≡ false
unfolding after_fin is_receiving
is_receiving-after_fin s = ground arith

-- The bytes that are next.
same_start :
    (base start got n : ℕ)
    → start + n < 2 ^ 31
    → got < 2 ^ 31
    → (base + start) % 2 ^ 32 ≡ (base + got) % 2 ^ 32
    → start ≡ got
same_start base start got n h k e = omega arith

module _ (going coming : Flow) (few : length going.bytes + 1 < 2 ^ 31)
    (less : length coming.bytes + 1 < 2 ^ 31) (read : List ℕ) where
  -- The bytes that come next are added to the receive buffer.
  deliver-Keeps :
      (seg : Segment) (p : TcpPcb)
      → Slice coming.base coming.bytes seg.seq seg.body
      → seg.seq ≡ p.rcv_nxt
      → is_receiving p.state ≡ true
      → Keeps going coming read p
      → Keeps going coming read (tcp_deliver_data seg.body p)
  unfolding tcp_deliver_data
  deliver-Keeps seg p s next taking k =
      let space = tcp_rcvbuf - length p.rcv_buf in
      let n = min space (length seg.body) in
      let all = coming.bytes in
      let at : s.start ≡ k.inbox.got =
        same_start coming.base s.start k.inbox.got (length seg.body) (omega (arith, s.inside))
          (omega (arith, k.inbox.got_fits)) (sym s.seq_at ∙ next ∙ k.inbox.nxt_is taking) in
      let taken : take space seg.body ≡ take n (drop k.inbox.got all) =
        ap (take space) s.bytes
        ∙ take-take space (length seg.body) (drop s.start all)
        ∙ ap (λ o. take n (drop o all)) at in
      record {
        window = k.window;
        phase = k.phase;
        inbox = record {
          got = k.inbox.got + n;
          got_fits = omega (arith, s.inside, at);
          stream =
              sym (append_assoc read p.rcv_buf (take space seg.body))
              ∙ ap₂ (◌++◌) k.inbox.stream taken
              ∙ take_next k.inbox.got n all;
          nxt_fits = omega arith;
          nxt_is = λ h. omega (arith, k.inbox.nxt_is taking, length-take space seg.body);
        };
      }

  take_data-Replies :
      (seg : Segment) (r : Reply)
      → Carries coming.base coming.bytes seg
      → Replies going coming read r
      → Replies going coming read (take_data seg r)
  unfolding take_data
  take_data-Replies seg r c h =
      let delivered = tcp_deliver_data seg.body r.pcb in
      if-both (Replies going coming read) (length seg.body == 0) (λ e. h)
        (λ e.
          if-both (Replies going coming read) (seg.seq == r.pcb.rcv_nxt && is_receiving r.pcb.state)
            (λ t.
              let k : Keeps going coming read delivered =
                deliver-Keeps seg r.pcb (c.slice (ground (arith, e))) (ground arith) (ground arith)
                  h.0 in
              (k, All-append _ r.segs _ h.1 (bare-Carries k flag_ack delivered.snd_nxt, tt)))
            (λ f.
              if-both (Replies going coming read) (seq_lt seg.seq ((r.pcb.rcv_nxt + 1) % 2 ^ 32))
                (λ t.
                  (h.0, All-append _ r.segs _ h.1 (bare-Carries h.0 flag_ack r.pcb.snd_nxt, tt)))
                (λ f. h)))

  take_fin-Replies :
      (seg : Segment) (r : Reply)
      → Replies going coming read r
      → Replies going coming read (take_fin seg r)
  unfolding take_fin tcp_send_seg
  take_fin-Replies seg r h =
      let k = h.0 in
      let next : Keeps going coming read
          (record r.pcb { rcv_nxt = (r.pcb.rcv_nxt + 1) % 2 ^ 32; state = after_fin r.pcb.state }) =
        record {
          window = k.window;
          phase = after_fin-Phase r.pcb.state r.pcb.fin_sent k.phase;
          inbox = record {
            got = k.inbox.got;
            got_fits = k.inbox.got_fits;
            stream = k.inbox.stream;
            nxt_fits = omega arith;
            nxt_is = λ t. absurd (ground (arith, is_receiving-after_fin r.pcb.state));
          };
        } in
      if-both (Replies going coming read)
        (has_fin seg && (seg.seq + length seg.body) % 2 ^ 32 == r.pcb.rcv_nxt)
        (λ e. (
          record { window = next.window; phase = next.phase; inbox = next.inbox },
          All-append _ r.segs _ h.1 (bare-Carries next flag_ack r.pcb.snd_nxt, tt),
        ))
        (λ e. h)

  push_data-Replies :
      (r : Reply) → Replies going coming read r → Replies going coming read (push_data r)
  unfolding push_data
  push_data-Replies r h =
      let sent = tcp_output_data-Sound r.pcb few h.0 in
      if-both (Replies going coming read)
        (is_established r.pcb.state && ltb 0 (length r.pcb.snd_buf))
        (λ e. (sent.0, All-append _ r.segs _ h.1 sent.1)) (λ e. h)

  in_connection-Replies :
      (seg : Segment) (p : TcpPcb)
      → Carries coming.base coming.bytes seg
      → Keeps going coming read p
      → Replies going coming read (in_connection seg p)
  unfolding in_connection
  in_connection-Replies seg p c k =
      let r = take_ack-Replies going coming few less read seg p c.ack_fits k in
      if-both (Replies going coming read) (take_ack seg p).freed (λ e. r)
        (λ e. push_data-Replies _ (take_fin-Replies seg _ (take_data-Replies seg _ c r)))

  in_state-Replies :
      (s : TcpState) (seg : Segment) (p : TcpPcb)
      → is_joining s ≡ false
      → Carries coming.base coming.bytes seg
      → Keeps going coming read p
      → Replies going coming read (in_state s seg p)
  unfolding in_state
  in_state-Replies tcp_syn_sent seg p j c k = absurd (ground arith)
  in_state-Replies tcp_syn_rcvd seg p j c k = absurd (ground arith)
  in_state-Replies tcp_closed seg p j c k = (k, tt)
  in_state-Replies tcp_listening seg p j c k = (k, tt)
  in_state-Replies tcp_time_wait seg p j c k = (k, tt)
  in_state-Replies tcp_established seg p j c k = in_connection-Replies seg p c k
  in_state-Replies tcp_fin_wait_1 seg p j c k = in_connection-Replies seg p c k
  in_state-Replies tcp_fin_wait_2 seg p j c k = in_connection-Replies seg p c k
  in_state-Replies tcp_close_wait seg p j c k = in_connection-Replies seg p c k
  in_state-Replies tcp_last_ack seg p j c k = in_connection-Replies seg p c k
  in_state-Replies tcp_closing seg p j c k = in_connection-Replies seg p c k

  pub tcp_receive-Replies :
      (seg : Segment) (p : TcpPcb)
      → Carries coming.base coming.bytes seg
      → Keeps going coming read p
      → Replies going coming read (tcp_receive seg p)
  unfolding tcp_receive is_receiving
  tcp_receive-Replies seg p c k =
      if-both (Replies going coming read) (has_rst seg)
        (λ e. (
          record {
            window = k.window;
            phase = record {
              joined = refl;
              open_before = λ h. absurd (ground arith);
              half_before = λ h. absurd (ground arith);
            };
            inbox = record {
              got = k.inbox.got;
              got_fits = k.inbox.got_fits;
              stream = k.inbox.stream;
              nxt_fits = k.inbox.nxt_fits;
              nxt_is = λ h. absurd (ground arith);
            };
          },
          tt,
        ))
        (λ e. in_state-Replies p.state seg p k.phase.joined c k)
