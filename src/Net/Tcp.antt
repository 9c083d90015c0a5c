-- ===== src/Net/Tcp.antt =====
-- kernel/net/tcp.c and include/netpcb.h: connections. The buffers of a control block are lists of
-- bytes with `snd_len` and `rcv_len` as their lengths, the queue from `accept_head` to `accept_tail`
-- a list of blocks, and `rto` says whether the retransmit timer is active. The functions run under
-- `tcp_lock`; the segments that they pass to `tcp_send_seg` are results, in order.
pub mod Output
pub mod Input
pub mod Calls
pub mod Blocks
pub mod Stream
mod Tests
pub mod Packet
pub mod Delivery
pub mod Exchange
pub mod Rounds
pub mod Accept
pub mod Opening
use project_lariat.Prelude.{
  Bool, List, Option, [], bit_at, false, leb, length, ltb, min, none, ℕ, ◌%◌, ◌&&◌, ◌+◌, ◌-◌, ◌==◌,
  ◌^◌, ◌||◌,
}

pub data TcpState : Type 0 where
  tcp_closed tcp_listening tcp_syn_sent tcp_syn_rcvd tcp_established tcp_fin_wait_1 tcp_fin_wait_2 :
      TcpState
  tcp_close_wait tcp_closing tcp_last_ack tcp_time_wait : TcpState

abbrev pub tcp_sndbuf : ℕ
tcp_sndbuf = 16384

abbrev pub tcp_rcvbuf : ℕ
tcp_rcvbuf = 16384

abbrev pub tcp_mss : ℕ
tcp_mss = 1400

abbrev pub tcp_max_retries : ℕ
tcp_max_retries = 6

-- `tcp_pcb_t`; `id` stands for its address.
pub record TcpPcb : Type 0 where
  pub id : ℕ
  pub state : TcpState
  pub local_ip : ℕ
  pub remote_ip : ℕ
  pub local_port : ℕ
  pub remote_port : ℕ
  pub snd_una : ℕ
  pub snd_nxt : ℕ
  pub rcv_nxt : ℕ
  pub snd_wnd : ℕ
  pub snd_buf : List ℕ
  pub rcv_buf : List ℕ
  pub rto : Bool
  pub retries : ℕ
  pub fin_sent : Bool
  pub reset : Bool
  pub accept_queue : List ℕ
  pub parent : Option ℕ

-- A segment: the fields of `struct tcp_hdr` that the code sets or reads, in host order, and the
-- bytes.
pub record Segment : Type 0 where
  pub src : ℕ
  pub dst : ℕ
  pub seq : ℕ
  pub ack : ℕ
  pub flags : ℕ
  pub win : ℕ
  pub body : List ℕ

abbrev pub flag_fin : ℕ
flag_fin = 1

abbrev pub flag_syn : ℕ
flag_syn = 2

abbrev pub flag_psh : ℕ
flag_psh = 8

abbrev pub flag_ack : ℕ
flag_ack = 16

-- `flags & TCP_FIN` and the others.
abbrev pub has_fin : Segment → Bool
has_fin seg = bit_at seg.flags 0

abbrev pub has_syn : Segment → Bool
has_syn seg = bit_at seg.flags 1

abbrev pub has_rst : Segment → Bool
has_rst seg = bit_at seg.flags 2

abbrev pub has_ack : Segment → Bool
has_ack seg = bit_at seg.flags 4

-- `a - b` of two `uint32_t`, and the tests on its sign as an `int32_t`.
abbrev pub sub32 : ℕ → ℕ → ℕ
sub32 a b = (a + 2 ^ 32 - b) % 2 ^ 32

unfoldable pub seq_lt : ℕ → ℕ → Bool
seq_lt a b = leb (2 ^ 31) (sub32 a b)

unfoldable pub seq_le : ℕ → ℕ → Bool
seq_le a b = sub32 a b == 0 || leb (2 ^ 31) (sub32 a b)

unfoldable pub seq_gt : ℕ → ℕ → Bool
seq_gt a b = ltb 0 (sub32 a b) && ltb (sub32 a b) (2 ^ 31)

-- The segment that `tcp_send_seg` builds.
unfoldable pub tcp_send_seg : TcpPcb → ℕ → ℕ → List ℕ → Segment
tcp_send_seg pcb flags seq body = record {
  src = pcb.local_port;
  dst = pcb.remote_port;
  seq = seq;
  ack = pcb.rcv_nxt;
  flags = flags;
  win = min 0xFFFF (tcp_rcvbuf - length pcb.rcv_buf);
  body = body;
}

-- `tcp_pcb_t` of zeros.
abbrev pub zero_pcb : ℕ → TcpPcb
zero_pcb id = record {
  id = id;
  state = tcp_closed;
  local_ip = 0;
  remote_ip = 0;
  local_port = 0;
  remote_port = 0;
  snd_una = 0;
  snd_nxt = 0;
  rcv_nxt = 0;
  snd_wnd = 0;
  snd_buf = [];
  rcv_buf = [];
  rto = false;
  retries = 0;
  fin_sent = false;
  reset = false;
  accept_queue = [];
  parent = none;
}
