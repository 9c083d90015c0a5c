-- ===== src/Net/Tcp/Blocks.antt =====
-- kernel/net/tcp.c: the list of control blocks, and the way from a packet to its block.
use project_lariat.Prelude.{
  Bool, List, Option, [], false, if◌then◌else◌, ltb, none, not, some, true, ℕ, ◌%◌, ◌&&◌, ◌*◌, ◌++◌,
  ◌+◌, ◌-◌, ◌/◌, ◌==◌, ◌^◌, ◌||◌, ◌∷◌,
}
use project_lariat.Net.{Pbuf, htonl, htons, load16, load32, read_at}
use project_lariat.Net.Tcp.{
  Segment, TcpPcb, TcpState, flag_ack, flag_syn, has_syn, tcp_listening, tcp_mss, tcp_send_seg,
  tcp_syn_rcvd, zero_pcb,
}
use project_lariat.Net.Tcp.Input.{Reply, tcp_receive, window_or}

-- `tcp_list` and `tcp_iss`.
pub record Tcp : Type 0 where
  pub blocks : List TcpPcb
  pub iss : ℕ

abbrev pub is_listening : TcpState → Bool
is_listening tcp_listening = true
is_listening state = false

unfoldable pub tcp_init : Tcp → Tcp
tcp_init s = record s { blocks = [] }

-- A new block has the default window.
unfoldable pub tcp_new : ℕ → Tcp → Tcp
tcp_new id s = record s { blocks = record (zero_pcb id) { snd_wnd = tcp_mss } ∷ s.blocks }

unfoldable pub first_block : (TcpPcb → Bool) → List TcpPcb → Option TcpPcb
first_block test [] = none
first_block test (p ∷ ps) = elim (test p) [ true ↦ some p | false ↦ first_block test ps ]

abbrev pub serves : ℕ → ℕ → ℕ → ℕ → TcpPcb → Bool
serves lip lport rip rport p =
    not (is_listening p.state)
    && (p.local_port == lport
        && (p.remote_port == rport
            && (p.remote_ip == rip && (p.local_ip == 0 || p.local_ip == lip))))

unfoldable pub tcp_find : ℕ → ℕ → ℕ → ℕ → List TcpPcb → Option TcpPcb
tcp_find lip lport rip rport ps = first_block (serves lip lport rip rport) ps

unfoldable pub tcp_find_listener : ℕ → List TcpPcb → Option TcpPcb
tcp_find_listener lport ps = first_block (λ p. is_listening p.state && p.local_port == lport) ps

-- The block of the same address is replaced.
unfoldable pub put_block : TcpPcb → List TcpPcb → List TcpPcb
put_block p [] = []
put_block p (q ∷ qs) = if q.id == p.id then p ∷ qs else q ∷ put_block p qs

-- `tcp_free`
unfoldable pub tcp_free : ℕ → List TcpPcb → List TcpPcb
tcp_free id [] = []
tcp_free id (q ∷ qs) = if q.id == id then qs else q ∷ tcp_free id qs

-- The block goes to the end of the accept queue of its listener.
unfoldable pub queue_accepted : ℕ → Option ℕ → List TcpPcb → List TcpPcb
queue_accepted id none ps = ps
queue_accepted id (some listener) [] = []
queue_accepted id (some listener) (q ∷ qs) =
    if q.id == listener
    then record q { accept_queue = q.accept_queue ++ id ∷ [] } ∷ qs
    else q ∷ queue_accepted id (some listener) qs

-- The oldest connection of a listener.
unfoldable pub tcp_accept : TcpPcb → Option ℕ × TcpPcb
tcp_accept pcb = elim pcb.accept_queue [
  | [] ↦ (none, pcb)
  | id ∷ ids ↦ (some id, record pcb { accept_queue = ids })
]

unfoldable pub settled : Reply → List TcpPcb → List TcpPcb
settled r ps =
    if r.freed
    then tcp_free r.pcb.id ps
    else if r.accepted
    then queue_accepted r.pcb.id r.pcb.parent (put_block r.pcb ps)
    else put_block r.pcb ps

-- The block that answers a SYN to a listener.
unfoldable pub answering : ℕ → ℕ → ℕ → Segment → ℕ → ℕ → TcpPcb
answering id src_ip dst_ip seg listener iss = record (zero_pcb id) {
  state = tcp_syn_rcvd;
  local_ip = dst_ip;
  local_port = seg.dst;
  remote_ip = src_ip;
  remote_port = seg.src;
  rcv_nxt = (seg.seq + 1) % 2 ^ 32;
  snd_wnd = window_or seg.win tcp_mss;
  snd_una = iss;
  snd_nxt = (iss + 1) % 2 ^ 32;
  parent = some listener;
  rto = true;
}

-- A segment that no block is for; `memory` is the address of a new block.
unfoldable pub tcp_unknown : Option ℕ → ℕ → ℕ → Segment → Tcp → Tcp × List Segment
tcp_unknown memory src_ip dst_ip seg s =
    elim (if has_syn seg then tcp_find_listener seg.dst s.blocks else none) [
      | none ↦ (s, [])
      | some listener ↦ elim memory [
        | none ↦ (s, [])
        | some id ↦
            let c = answering id src_ip dst_ip seg listener.id s.iss in
            (
              record { blocks = c ∷ s.blocks; iss = (s.iss + 64000) % 2 ^ 32 },
              tcp_send_seg c (flag_syn + flag_ack) s.iss [] ∷ [],
            )
      ]
    ]

-- `tcp_input` on the fields of the header.
unfoldable pub tcp_demux : Option ℕ → ℕ → ℕ → Segment → Tcp → Tcp × List Segment
tcp_demux memory src_ip dst_ip seg s = elim (tcp_find dst_ip seg.dst src_ip seg.src s.blocks) [
  | none ↦ tcp_unknown memory src_ip dst_ip seg s
  | some pcb ↦ let r = tcp_receive seg pcb in (record s { blocks = settled r s.blocks }, r.segs)
]

abbrev pub tcp_hdrlen : ℕ
tcp_hdrlen = 20

-- The segment in a buffer; `none` for a header that is not whole.
unfoldable pub parse_segment : Pbuf → Option Segment
parse_segment p =
    let hdrlen = p.store (p.off + 12) / 16 * 4 in
    if ltb p.len tcp_hdrlen
    then none
    else if ltb hdrlen tcp_hdrlen || ltb p.len hdrlen
    then none
    else some (record {
      src = htons (load16 p.store p.off);
      dst = htons (load16 p.store (p.off + 2));
      seq = htonl (load32 p.store (p.off + 4));
      ack = htonl (load32 p.store (p.off + 8));
      flags = p.store (p.off + 13);
      win = htons (load16 p.store (p.off + 14));
      body = read_at (p.off + hdrlen) (p.len - hdrlen) p.store;
    })

unfoldable pub tcp_input : Option ℕ → Pbuf → ℕ → ℕ → Tcp → Tcp × List Segment
tcp_input memory p src_ip dst_ip s = elim (parse_segment p) [
  | none ↦ (s, [])
  | some seg ↦ tcp_demux memory src_ip dst_ip seg s
]
