-- ===== src/Net/Tcp/Delivery.antt =====
-- kernel/net/tcp.c: a segment of bytes, from the call that sends it to its acknowledgement.
use project_lariat.Prelude.{
  List, [], ap, arith, drop, false, if-both, length, refl, suc, take, true, zero, ℕ, ◌%◌, ◌++◌, ◌+◌,
  ◌<◌, ◌==◌, ◌^◌, ◌∙◌, ◌∷◌, ◌≡◌, ◌≤◌,
}
use project_lariat.Net.Tcp.{
  Segment, TcpPcb, flag_ack, flag_psh, has_fin, has_rst, sub32, tcp_established, tcp_mss,
  tcp_send_seg,
}
use project_lariat.Net.Tcp.Output.{chunk_size, output_from, tcp_output_data, window}
use project_lariat.Net.Tcp.Stream.Lists.{take_length}
use project_lariat.Net.Tcp.Input.{
  Reply, in_connection, in_state, push_data, take_ack, take_data, take_fin, tcp_receive,
}
use project_lariat.Net.Tcp.Calls.{send_goes, tcp_send}

abbrev chunk_of : TcpPcb → ℕ → ℕ → Segment
chunk_of p offset n =
    tcp_send_seg p (flag_ack + flag_psh) p.snd_nxt (take n (drop offset p.snd_buf))

abbrev moved : TcpPcb → ℕ → TcpPcb
moved p n = record p { snd_nxt = (p.snd_nxt + n) % 2 ^ 32 }

abbrev a_round : ℕ → ℕ → TcpPcb → ℕ → TcpPcb × List Segment
a_round fuel offset p n =
    let r = output_from fuel (offset + n) (moved p n) in (r.0, chunk_of p offset n ∷ r.1)

output_from-last :
    (fuel offset : ℕ) (p : TcpPcb) → chunk_size p offset ≡ 0 → output_from fuel offset p ≡ (p, [])
unfolding output_from
output_from-last zero offset p h = refl
output_from-last (suc fuel) offset p h =
    if-both (λ (r : TcpPcb × List Segment). r ≡ (p, [])) (chunk_size p offset == 0) (λ e. refl)
      (λ e. absurd (ground (arith, h)))

output_from-more :
    (fuel offset : ℕ) (p : TcpPcb)
    → 0 < chunk_size p offset
    → output_from (suc fuel) offset p ≡ a_round fuel offset p (chunk_size p offset)
unfolding output_from
output_from-more fuel offset p h =
    if-both (λ (r : TcpPcb × List Segment). r ≡ a_round fuel offset p (chunk_size p offset))
      (chunk_size p offset == 0) (λ e. absurd (ground (arith, h))) (λ e. refl)

-- Where nothing is outstanding, bytes that one segment and the window can take are all sent.
pub output-one :
    (p : TcpPcb)
    → p.snd_nxt ≡ p.snd_una
    → p.snd_una < 2 ^ 32
    → 0 < length p.snd_buf
    → length p.snd_buf ≤ tcp_mss
    → length p.snd_buf ≤ window p
    → tcp_output_data p ≡ (
      record p { snd_nxt = (p.snd_nxt + length p.snd_buf) % 2 ^ 32 },
      tcp_send_seg p (flag_ack + flag_psh) p.snd_nxt p.snd_buf ∷ [],
    )
unfolding tcp_output_data chunk_size
output-one p same fits some_bytes short covers =
    let all = length p.snd_buf in
    let off : sub32 p.snd_nxt p.snd_una ≡ 0 = omega arith in
    let n : chunk_size p 0 ≡ all = omega arith in
    let over : chunk_size (moved p all) (0 + all) ≡ 0 = omega arith in
    ap (λ o. output_from (suc all) o p) off
    ∙ output_from-more all 0 p (omega arith)
    ∙ ap (a_round all 0 p) n
    ∙ ap (λ (r : TcpPcb × List Segment). (r.0, chunk_of p 0 all ∷ r.1))
        (output_from-last all (0 + all) (moved p all) over)
    ∙ ap (λ xs. (moved p all, tcp_send_seg p (flag_ack + flag_psh) p.snd_nxt xs ∷ []))
        (take_length p.snd_buf)

-- Two ends with nothing under way from one to the other, and nothing from the other that waits.
pub record Idle (p q : TcpPcb) : Type 0 where
  pub p_open : p.state ≡ tcp_established
  pub q_open : q.state ≡ tcp_established
  pub p_live : p.reset ≡ false
  pub p_empty : p.snd_buf ≡ []
  pub q_empty : q.snd_buf ≡ []
  pub p_acked : p.snd_nxt ≡ p.snd_una
  pub q_acked : q.snd_nxt ≡ q.snd_una
  pub p_to_q : q.rcv_nxt ≡ p.snd_nxt
  pub q_to_p : p.rcv_nxt ≡ q.snd_nxt
  pub p_fits : p.snd_nxt < 2 ^ 32
  pub q_fits : q.snd_nxt < 2 ^ 32

-- What comes of a call of `tcp_send`: the segment reaches the receiver and its answer the sender.
pub record Delivered (body : List ℕ) (p q : TcpPcb) : Type 0 where
  pub waiting : TcpPcb
  pub seg : Segment
  pub ack : Segment
  pub sends : tcp_send body false p ≡ send_goes ((waiting, seg ∷ []), [])
  pub arrives : (tcp_receive seg q).pcb.rcv_buf ≡ q.rcv_buf ++ body
  pub wakes : (tcp_receive seg q).wake ≡ true
  pub answers : (tcp_receive seg q).segs ≡ ack ∷ []
  pub clears : (tcp_receive ack waiting).pcb.snd_buf ≡ []
  pub stops : (tcp_receive ack waiting).pcb.rto ≡ false
  pub idle : Idle (tcp_receive ack waiting).pcb (tcp_receive seg q).pcb

abbrev pub queued : TcpPcb → List ℕ → TcpPcb
queued p body = record p { snd_buf = body }

abbrev pub under_way : TcpPcb → List ℕ → TcpPcb
under_way p body = record p {
  snd_buf = body;
  snd_nxt = (p.snd_nxt + length body) % 2 ^ 32;
  rto = true;
}

abbrev pub seg_of : TcpPcb → List ℕ → Segment
seg_of p body = tcp_send_seg p (flag_ack + flag_psh) p.snd_nxt body

-- A segment with no SYN, FIN or RST, where nothing waits to be sent afterwards.
pub tcp_receive-plain :
    (seg : Segment) (p : TcpPcb) (r1 r2 : Reply)
    → p.state ≡ tcp_established
    → has_rst seg ≡ false
    → has_fin seg ≡ false
    → take_ack seg p ≡ r1
    → r1.freed ≡ false
    → take_data seg r1 ≡ r2
    → r2.pcb.snd_buf ≡ []
    → tcp_receive seg p ≡ r2
unfolding tcp_receive in_state in_connection take_fin push_data
tcp_receive-plain seg p r1 r2 joined no_rst no_fin acked kept took none_waits =
    ground (arith, ap length none_waits)
