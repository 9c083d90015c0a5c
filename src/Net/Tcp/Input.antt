-- ===== src/Net/Tcp/Input.antt =====
-- kernel/net/tcp.c: what a segment does to the control block that it is for.
use project_lariat.Prelude.{
  Bool, List, [], drop, false, if◌then◌else◌, length, ltb, take, true, ℕ, ◌%◌, ◌&&◌, ◌++◌, ◌+◌, ◌-◌,
  ◌==◌, ◌^◌, ◌∷◌,
}
use project_lariat.Net.Tcp.{
  Segment, TcpPcb, TcpState, flag_ack, has_ack, has_fin, has_rst, has_syn, seq_gt, seq_le, seq_lt,
  sub32, tcp_close_wait, tcp_closed, tcp_closing, tcp_established, tcp_fin_wait_1, tcp_fin_wait_2,
  tcp_last_ack, tcp_listening, tcp_mss, tcp_rcvbuf, tcp_send_seg, tcp_syn_rcvd, tcp_syn_sent,
  tcp_time_wait,
}
use project_lariat.Net.Tcp.Output.{tcp_output_data}

-- The block with the segments sent; `wake` says that its wait queue is woken, `freed` that
-- `tcp_free` was called, `accepted` that the block goes to the queue of its listener.
pub record Reply : Type 0 where
  pub pcb : TcpPcb
  pub segs : List Segment
  pub wake : Bool
  pub freed : Bool
  pub accepted : Bool

abbrev pub unchanged : TcpPcb → Reply
unchanged pcb = record { pcb = pcb; segs = []; wake = false; freed = false; accepted = false }

-- `win ? win : other`
abbrev pub window_or : ℕ → ℕ → ℕ
window_or win other = if win == 0 then other else win

-- An acknowledgement of something that is outstanding: the bytes leave the send buffer.
unfoldable pub advance : ℕ → TcpPcb → TcpPcb × Bool
advance seg_ack pcb =
    if seq_gt seg_ack pcb.snd_una && seq_le seg_ack pcb.snd_nxt
    then (
      record pcb {
        snd_buf = drop (sub32 seg_ack pcb.snd_una) pcb.snd_buf;
        snd_una = seg_ack;
        retries = 0;
        rto = if seg_ack == pcb.snd_nxt then false else pcb.rto;
      },
      true,
    )
    else (pcb, false)

-- The state after an acknowledgement of all that was sent, and whether the block is freed.
unfoldable pub all_acked : TcpState → TcpState × Bool
all_acked tcp_fin_wait_1 = (tcp_fin_wait_2, false)
all_acked tcp_last_ack = (tcp_closed, true)
all_acked tcp_closing = (tcp_closed, true)
all_acked state = (state, false)

unfoldable pub take_ack : Segment → TcpPcb → Reply
take_ack seg pcb =
    let (moved, wake) = advance seg.ack pcb in
    let opened = record moved { snd_wnd = window_or seg.win moved.snd_wnd } in
    let (state, freed) = all_acked moved.state in
    if has_ack seg
    then (if moved.snd_una == moved.snd_nxt
        then record {
          pcb = record opened { state = state; rto = if freed then false else moved.rto };
          segs = [];
          wake = if freed then false else wake;
          freed = freed;
          accepted = false;
        }
        else record { pcb = opened; segs = []; wake = wake; freed = false; accepted = false })
    else unchanged pcb

-- The states in which bytes are taken.
unfoldable pub is_receiving : TcpState → Bool
is_receiving tcp_established = true
is_receiving tcp_fin_wait_1 = true
is_receiving tcp_fin_wait_2 = true
is_receiving state = false

-- What has no room is left out.
unfoldable pub tcp_deliver_data : List ℕ → TcpPcb → TcpPcb
tcp_deliver_data body pcb =
    let taken = take (tcp_rcvbuf - length pcb.rcv_buf) body in
    record pcb { rcv_buf = pcb.rcv_buf ++ taken; rcv_nxt = (pcb.rcv_nxt + length taken) % 2 ^ 32 }

abbrev pub acks : TcpPcb → Segment
acks pcb = tcp_send_seg pcb flag_ack pcb.snd_nxt []

unfoldable pub take_data : Segment → Reply → Reply
take_data seg r =
    let delivered = tcp_deliver_data seg.body r.pcb in
    if length seg.body == 0
    then r
    else if seg.seq == r.pcb.rcv_nxt && is_receiving r.pcb.state
    then record r { pcb = delivered; segs = r.segs ++ acks delivered ∷ []; wake = true }
    else if seq_lt seg.seq ((r.pcb.rcv_nxt + 1) % 2 ^ 32)
    then record r { segs = r.segs ++ acks r.pcb ∷ [] }
    else r

unfoldable pub after_fin : TcpState → TcpState
after_fin tcp_established = tcp_close_wait
after_fin tcp_fin_wait_2 = tcp_closed
after_fin tcp_fin_wait_1 = tcp_closing
after_fin state = state

abbrev pub is_fin_wait_2 : TcpState → Bool
is_fin_wait_2 tcp_fin_wait_2 = true
is_fin_wait_2 state = false

unfoldable pub take_fin : Segment → Reply → Reply
take_fin seg r =
    let next = record r.pcb { rcv_nxt = (r.pcb.rcv_nxt + 1) % 2 ^ 32 } in
    if has_fin seg && (seg.seq + length seg.body) % 2 ^ 32 == r.pcb.rcv_nxt
    then record r {
      pcb = record next {
        state = after_fin r.pcb.state;
        rto = if is_fin_wait_2 r.pcb.state then false else r.pcb.rto;
      };
      segs = r.segs ++ acks next ∷ [];
      wake = true;
    }
    else r

abbrev pub is_established : TcpState → Bool
is_established tcp_established = true
is_established state = false

unfoldable pub push_data : Reply → Reply
push_data r =
    let (after, segs) = tcp_output_data r.pcb in
    if is_established r.pcb.state && ltb 0 (length r.pcb.snd_buf)
    then record r { pcb = after; segs = r.segs ++ segs }
    else r

-- The states from `tcp_established` on.
unfoldable pub in_connection : Segment → TcpPcb → Reply
in_connection seg pcb =
    let r = take_ack seg pcb in if r.freed then r else push_data (take_fin seg (take_data seg r))

-- The answer to a SYN that was sent.
unfoldable pub in_syn_sent : Segment → TcpPcb → Reply
in_syn_sent seg pcb =
    let joined = record pcb {
      rcv_nxt = (seg.seq + 1) % 2 ^ 32;
      snd_una = seg.ack;
      snd_wnd = window_or seg.win tcp_mss;
      state = tcp_established;
      retries = 0;
      rto = false;
    } in
    if has_syn seg && (has_ack seg && seg.ack == pcb.snd_nxt)
    then record {
      pcb = joined;
      segs = acks joined ∷ [];
      wake = true;
      freed = false;
      accepted = false;
    }
    else unchanged pcb

-- The acknowledgement of a SYN that was answered.
unfoldable pub in_syn_rcvd : Segment → TcpPcb → Reply
in_syn_rcvd seg pcb =
    if has_ack seg && seg.ack == pcb.snd_nxt
    then record {
      pcb = record pcb {
        snd_una = seg.ack;
        snd_wnd = window_or seg.win tcp_mss;
        state = tcp_established;
        retries = 0;
        rto = false;
      };
      segs = [];
      wake = false;
      freed = false;
      accepted = true;
    }
    else unchanged pcb

-- The switch on the state.
unfoldable pub in_state : TcpState → Segment → TcpPcb → Reply
in_state tcp_syn_sent seg pcb = in_syn_sent seg pcb
in_state tcp_syn_rcvd seg pcb = in_syn_rcvd seg pcb
in_state tcp_established seg pcb = in_connection seg pcb
in_state tcp_fin_wait_1 seg pcb = in_connection seg pcb
in_state tcp_fin_wait_2 seg pcb = in_connection seg pcb
in_state tcp_close_wait seg pcb = in_connection seg pcb
in_state tcp_last_ack seg pcb = in_connection seg pcb
in_state tcp_closing seg pcb = in_connection seg pcb
in_state tcp_closed seg pcb = unchanged pcb
in_state tcp_listening seg pcb = unchanged pcb
in_state tcp_time_wait seg pcb = unchanged pcb

-- `tcp_input` from the control block on.
unfoldable pub tcp_receive : Segment → TcpPcb → Reply
tcp_receive seg pcb =
    if has_rst seg
    then record {
      pcb = record pcb { reset = true; state = tcp_closed; rto = false };
      segs = [];
      wake = true;
      freed = false;
      accepted = false;
    }
    else in_state pcb.state seg pcb
