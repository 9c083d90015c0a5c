-- ===== src/Net/Tcp/Exchange.antt =====
-- kernel/net/tcp.c: a call of `tcp_send`, its segment and the answer, on an idle connection.
use project_lariat.Prelude.{
  List, [], ap, ap₂, arith, bit_at, drop, false, if-both, if◌then◌else◌, length, min, refl, subst,
  sym, take, true, ℕ, ◌%◌, ◌++◌, ◌+◌, ◌-◌, ◌<◌, ◌==◌, ◌^◌, ◌∙◌, ◌∷◌, ◌≡◌, ◌≤◌,
}
use project_lariat.Net.Tcp.{
  Segment, TcpPcb, seq_gt, seq_le, seq_lt, sub32, tcp_mss, tcp_rcvbuf, tcp_send_seg, tcp_sndbuf,
}
use project_lariat.Net.Tcp.Output.{tcp_output_data, window}
use project_lariat.Net.Tcp.Stream.Lists.{drop-all, take-all}
use project_lariat.Net.Tcp.Input.{
  Reply, acks, advance, all_acked, is_receiving, take_ack, take_data, tcp_deliver_data, tcp_receive,
  unchanged, window_or,
}
use project_lariat.Net.Tcp.Calls.{send_goes, send_round, tcp_send}
use project_lariat.Net.Tcp.Delivery.{
  Delivered, Idle, output-one, queued, seg_of, tcp_receive-plain, under_way,
}

module _ (body : List ℕ) (p q : TcpPcb) (i : Idle p q) (some_bytes : 0 < length body)
    (short : length body ≤ tcp_mss) (covers : length body ≤ window p)
    (room : length q.rcv_buf + length body ≤ tcp_rcvbuf) where
  behind_round : TcpPcb × List Segment → (TcpPcb × List Segment) × List ℕ
  behind_round (after, segs) = (
    (record after { rto = if seq_lt after.snd_una after.snd_nxt then true else after.rto }, segs),
    drop (tcp_sndbuf - length p.snd_buf) body,
  )

  rto-on : (if seq_lt p.snd_una ((p.snd_nxt + length body) % 2 ^ 32) then true else p.rto) ≡ true
  unfolding seq_lt
  rto-on = ground (arith, i.p_acked, i.p_fits)

  send_round-one : send_round body p ≡ ((under_way p body, seg_of p body ∷ []), [])
  unfolding send_round behind_round tcp_send_seg
  send_round-one =
      let space = tcp_sndbuf - length p.snd_buf in
      let none_held : length p.snd_buf ≡ 0 = omega (arith, ap length i.p_empty) in
      let whole : p.snd_buf ++ take space body ≡ body =
        ap (λ xs. xs ++ take space body) i.p_empty ∙ take-all space body (omega arith) in
      let out =
        output-one (queued p body) i.p_acked (omega (arith, i.p_fits, i.p_acked)) some_bytes short
          covers in
      if-both
        (λ (r : (TcpPcb × List Segment) × List ℕ). r ≡ ((under_way p body, seg_of p body ∷ []), []))
        (min space (length body) == 0) (λ e. absurd (ground arith))
        (λ e.
          ap (λ b. behind_round (tcp_output_data (queued p b))) whole
          ∙ ap behind_round out
          ∙ ap₂ (λ t d. ((record (under_way p body) { rto = t }, seg_of p body ∷ []), d)) rto-on
              (drop-all space body (omega arith)))

  tcp_send-one : tcp_send body false p ≡ send_goes ((under_way p body, seg_of p body ∷ []), [])
  unfolding tcp_send
  tcp_send-one = ground (arith, i.p_open, i.p_live, ap length i.p_empty, send_round-one)

  abbrev opened : TcpPcb
  opened = record q { snd_wnd = window_or (seg_of p body).win q.snd_wnd }

  take_ack-same : take_ack (seg_of p body) q ≡ unchanged opened
  unfolding take_ack all_acked advance seq_gt tcp_send_seg bit_at
  take_ack-same = ground (arith, i.q_open, i.q_acked, i.q_to_p)

  abbrev delivered : TcpPcb
  delivered = record opened {
    rcv_buf = q.rcv_buf ++ body;
    rcv_nxt = (q.rcv_nxt + length body) % 2 ^ 32;
  }

  abbrev answered : Reply
  answered = record {
    pcb = delivered;
    segs = acks delivered ∷ [];
    wake = true;
    freed = false;
    accepted = false;
  }

  tcp_deliver_data-whole : tcp_deliver_data body opened ≡ delivered
  unfolding tcp_deliver_data
  tcp_deliver_data-whole =
      ap
        (λ xs. record opened {
          rcv_buf = q.rcv_buf ++ xs;
          rcv_nxt = (q.rcv_nxt + length xs) % 2 ^ 32;
        })
        (take-all (tcp_rcvbuf - length q.rcv_buf) body (omega arith))

  take_data-next : take_data (seg_of p body) (unchanged opened) ≡ answered
  unfolding take_data tcp_send_seg is_receiving
  take_data-next = ground (arith, i.q_open, i.p_to_q, tcp_deliver_data-whole)

  receive-data : tcp_receive (seg_of p body) q ≡ answered
  unfolding tcp_send_seg bit_at
  receive-data =
      tcp_receive-plain (seg_of p body) q (unchanged opened) answered i.q_open refl refl
        take_ack-same refl take_data-next i.q_empty

  abbrev ack_of : Segment
  ack_of = acks delivered

  abbrev cleared : TcpPcb
  cleared = record (under_way p body) {
    snd_buf = [];
    snd_una = ack_of.ack;
    snd_wnd = window_or ack_of.win p.snd_wnd;
    retries = 0;
    rto = false;
  }

  advance-all : advance ack_of.ack (under_way p body) ≡ (
    record (under_way p body) { snd_buf = []; snd_una = ack_of.ack; retries = 0; rto = false },
    true,
  )
  unfolding advance seq_gt seq_le tcp_send_seg
  advance-all =
      let gone : drop (sub32 ack_of.ack p.snd_una) body ≡ [] =
        drop-all (sub32 ack_of.ack p.snd_una) body (omega (arith, i.p_acked, i.p_to_q, i.p_fits)) in
      ground (arith, i.p_acked, i.p_to_q, i.p_fits, gone)

  take_ack-all : take_ack ack_of (under_way p body) ≡ record (unchanged cleared) { wake = true }
  unfolding take_ack all_acked tcp_send_seg bit_at
  take_ack-all = ground (arith, i.p_open, advance-all, i.p_to_q)

  receive-ack : tcp_receive ack_of (under_way p body) ≡ record (unchanged cleared) { wake = true }
  unfolding tcp_send_seg bit_at take_data
  receive-ack =
      tcp_receive-plain ack_of (under_way p body) _ (record (unchanged cleared) { wake = true })
        i.p_open refl refl take_ack-all refl refl refl

  cleared-Idle : Idle cleared delivered
  unfolding tcp_send_seg
  cleared-Idle = record {
    p_open = i.p_open;
    q_open = i.q_open;
    p_live = i.p_live;
    p_empty = refl;
    q_empty = i.q_empty;
    p_acked = omega (arith, i.p_to_q);
    q_acked = i.q_acked;
    p_to_q = omega (arith, i.p_to_q);
    q_to_p = i.q_to_p;
    p_fits = omega arith;
    q_fits = i.q_fits;
  }

  -- A call of `tcp_send` on an idle connection, with between 1 and 1400 bytes that the window of the
  -- sender and the buffer of the receiver have room for, takes them all and sends one segment. With
  -- that segment the receiver's program has the bytes and is woken, and one segment answers; that
  -- answer empties the send buffer and stops the timer of the sender, and the connection is idle.
  pub tcp_send-Delivered : Delivered body p q
  tcp_send-Delivered = record {
    waiting = under_way p body;
    seg = seg_of p body;
    ack = ack_of;
    sends = tcp_send-one;
    arrives = ap (λ (r : Reply). r.pcb.rcv_buf) receive-data;
    wakes = ap (λ (r : Reply). r.wake) receive-data;
    answers = ap (λ (r : Reply). r.segs) receive-data;
    clears = ap (λ (r : Reply). r.pcb.snd_buf) receive-ack;
    stops = ap (λ (r : Reply). r.pcb.rto) receive-ack;
    idle =
        subst (λ (r : Reply). Idle r.pcb (tcp_receive (seg_of p body) q).pcb) (sym receive-ack)
          (subst (λ (r : Reply). Idle cleared r.pcb) (sym receive-data) cleared-Idle);
  }
