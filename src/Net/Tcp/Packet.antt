-- ===== src/Net/Tcp/Packet.antt =====
-- kernel/net/tcp.c and include/net.h: a segment in a buffer.
use project_lariat.Prelude.{
  List, Option, [], ap, arith, false, length, ltb, none, refl, some, ℕ, ◌%◌, ◌*◌, ◌++◌, ◌+◌, ◌-◌,
  ◌/◌, ◌<◌, ◌^◌, ◌∙◌, ◌∷◌, ◌≡◌,
}
use project_lariat.Net.{
  Memory, Pbuf, bytes16, bytes32, htonl, htons, load16, load32, pbuf_alloc, pbuf_headroom,
  pbuf_push, read_at, with_header, write_at,
}
use project_lariat.Net.Layers.{pbuf_push-Wraps}
use project_lariat.Net.Checksum.{inet_fold, inet_sum}
use project_lariat.Net.Eth.{Interfaces, netif_route}
use project_lariat.Net.Arp.{ArpCache}
use project_lariat.Net.Ipv4.{IpResult, ip_proto_tcp, ipv4_output}
use project_lariat.Net.Udp.{ip_of}
use project_lariat.Net.Tcp.{Segment, TcpPcb}
use project_lariat.Net.Tcp.Blocks.{parse_segment, tcp_hdrlen}
use project_lariat.Net.Bytes.{
  htons-load16, load16_carried, load32_carried, load8_carried, read_at-write_at,
}

-- `struct tcp_hdr` in memory, with the length of the header in its words and no urgent pointer.
abbrev pub tcp_header : Segment → ℕ → List ℕ
tcp_header seg csum =
    bytes16 (htons seg.src)
    ++ bytes16 (htons seg.dst)
    ++ bytes32 (htonl seg.seq)
    ++ bytes32 (htonl seg.ack)
    ++ (80 ∷ seg.flags ∷ [])
    ++ bytes16 (htons seg.win)
    ++ bytes16 csum
    ++ bytes16 0

-- The checksum over the pseudo header, the header and the bytes.
unfoldable pub tcp_csum : ℕ → ℕ → Segment → ℕ
tcp_csum src_ip ip seg =
    let seglen = (tcp_hdrlen + length seg.body) % 2 ^ 16 in
    let pseudo =
      bytes32 src_ip ++ bytes32 ip ++ (0 ∷ ip_proto_tcp ∷ seglen / 256 ∷ seglen % 256 ∷ []) in
    inet_fold (inet_sum (tcp_header seg 0 ++ seg.body) (inet_sum pseudo 0))

-- The buffer that `tcp_send_seg` fills: the bytes are copied before the header is put in front.
unfoldable pub tcp_packet : Segment → ℕ → ℕ → Pbuf → Pbuf
tcp_packet seg src_ip ip p =
    let filled = record (with_header seg.body p) { len = length seg.body } in
    elim (pbuf_push tcp_hdrlen filled) [
      | none ↦ filled
      | some q ↦ with_header (tcp_header seg (tcp_csum src_ip ip seg)) q
    ]

-- The way of a segment to the network layer; nothing where no buffer is free.
unfoldable pub tcp_transmit :
    Interfaces → TcpPcb → Segment → ℕ → ℕ → Memory → Memory → ArpCache → Option IpResult
tcp_transmit ifs pcb seg id now memory arp_memory cache = elim (pbuf_alloc memory) [
  | none ↦ none
  | some p ↦ some (
      ipv4_output ifs pcb.remote_ip ip_proto_tcp
        (tcp_packet seg (ip_of (netif_route pcb.remote_ip ifs)) pcb.remote_ip p) id now arp_memory
        cache)
]

-- The fields have the widths of the header's.
pub record IsWide (seg : Segment) : Type 0 where
  pub src_fits : seg.src < 2 ^ 16
  pub dst_fits : seg.dst < 2 ^ 16
  pub seq_fits : seg.seq < 2 ^ 32
  pub ack_fits : seg.ack < 2 ^ 32
  pub win_fits : seg.win < 2 ^ 16

htonl-load32 :
    (x : ℕ)
    → x < 2 ^ 32
    → let y = htonl x in
      htonl (y % 256 + y / 256 % 256 * 256 + y / 2 ^ 16 % 256 * 2 ^ 16 + y / 2 ^ 24 % 256 * 2 ^ 24)
      ≡ x
unfolding htonl
htonl-load32 x h = omega arith

-- The buffer begins with the header and goes on with the bytes.
record IsSegment (seg : Segment) (csum : ℕ) (p : Pbuf) : Type 0 where
  len_whole : p.len ≡ tcp_hdrlen + length seg.body
  header : read_at p.off tcp_hdrlen p.store ≡ tcp_header seg csum
  contents : read_at (p.off + tcp_hdrlen) (length seg.body) p.store ≡ seg.body

parse_segment_carried :
    (seg : Segment) (csum : ℕ) (p : Pbuf)
    → IsWide seg
    → IsSegment seg csum p
    → parse_segment p ≡ some seg
unfolding parse_segment
parse_segment_carried seg csum p w h =
    let hdr = tcp_header seg csum in
    let front : load16 p.store p.off ≡ load16 p.store (p.off + 0) =
      ap (load16 p.store) (omega arith) in
    let a : htons (load16 p.store p.off) ≡ seg.src =
      ap htons (front ∙ load16_carried p.off p.store hdr 20 h.header 0 (omega arith))
      ∙ htons-load16 seg.src w.src_fits in
    let b : htons (load16 p.store (p.off + 2)) ≡ seg.dst =
      ap htons (load16_carried p.off p.store hdr 20 h.header 2 (omega arith))
      ∙ htons-load16 seg.dst w.dst_fits in
    let c : htonl (load32 p.store (p.off + 4)) ≡ seg.seq =
      ap htonl (load32_carried p.off p.store hdr 20 h.header 4 (omega arith))
      ∙ htonl-load32 seg.seq w.seq_fits in
    let d : htonl (load32 p.store (p.off + 8)) ≡ seg.ack =
      ap htonl (load32_carried p.off p.store hdr 20 h.header 8 (omega arith))
      ∙ htonl-load32 seg.ack w.ack_fits in
    let e : p.store (p.off + 13) ≡ seg.flags =
      load8_carried p.off p.store hdr 20 h.header 13 (omega arith) in
    let f : htons (load16 p.store (p.off + 14)) ≡ seg.win =
      ap htons (load16_carried p.off p.store hdr 20 h.header 14 (omega arith))
      ∙ htons-load16 seg.win w.win_fits in
    let words : p.store (p.off + 12) ≡ 80 =
      load8_carried p.off p.store hdr 20 h.header 12 (omega arith) in
    let t1 : ltb p.len tcp_hdrlen ≡ false = ground (arith, h.len_whole) in
    let left : p.len - 20 ≡ length seg.body = omega (arith, h.len_whole) in
    rw (words, t1) (rw (a, b, c, d, e, f, left, h.contents) refl)

-- The segment that `tcp_input` reads from the buffer that `tcp_send_seg` fills is the one that was
-- sent, where its fields have their widths and the bytes and all headers fit the buffer.
pub parse_segment-tcp_packet :
    (seg : Segment) (src_ip ip : ℕ) (old : Pbuf)
    → IsWide seg
    → old.off ≡ pbuf_headroom
    → length seg.body + 40 < 2 ^ 15
    → parse_segment (tcp_packet seg src_ip ip old) ≡ some seg
unfolding tcp_packet
parse_segment-tcp_packet seg src_ip ip old w headroom small =
    let csum = tcp_csum src_ip ip seg in
    let hdr = tcp_header seg csum in
    let filled = record (with_header seg.body old) { len = length seg.body } in
    let (q, pushed, grown, wraps) =
      pbuf_push-Wraps tcp_hdrlen hdr filled (omega (arith, headroom)) (omega (arith, small)) refl in
    let place : q.off + 20 ≡ old.off = wraps.off_moved in
    rw (pushed, tcp_packet)
      (parse_segment_carried seg csum (with_header hdr q) w (record {
        len_whole = omega (arith, grown);
        header = wraps.header;
        contents =
            ap (λ o. read_at o (length seg.body) (write_at q.off hdr q.store)) place
            ∙ wraps.behind old.off (length seg.body) (omega arith)
            ∙ read_at-write_at seg.body old.off old.store;
      }))
