-- ===== src/Net/Udp/Loopback.antt =====
-- kernel/net: a datagram over the loopback interface.
use project_lariat.Prelude.{
  List, Option, ap, arith, false, length, ltb, refl, some, sym, ℕ, ◌%◌, ◌+◌, ◌-◌, ◌/◌, ◌<◌, ◌^◌,
  ◌∙◌, ◌≡◌, ◌≤◌,
}
use project_lariat.Net.{
  Memory, Netif, Pbuf, htonl, htons, load16, pbuf_alloc, pbuf_headroom, pbuf_size, read_at,
  with_header, write_at,
}
use project_lariat.Net.Bytes.{htons-load16, load16_carried, read_at-write_at}
use project_lariat.Net.Layers.{pbuf_push-Wraps, pulled-front}
use project_lariat.Net.Udp.{
  UdpPcb, accept_udp, accepted, bound_pcb, deliver, udp_csum, udp_hdrlen, udp_header, udp_input,
  udp_packet, udp_sendto,
}
use project_lariat.Net.Udp.Stack.{eth_to_udp, frame_to_udp, ip_to_udp}
use project_lariat.Net.Arp.{ArpCache}
use project_lariat.Net.Ipv4.{ip_proto_udp, ipv4_output, sent}
use project_lariat.Net.Ipv4.Header.{Fields}
use project_lariat.Net.Ipv4.Loopback.{
  Arrives, ipv4_output-Arrives, netif_route-loopback, with_loopback,
}
use project_lariat.Net.Eth.{loopback}

-- The buffer begins with a header of UDP and goes on with the bytes.
record IsDatagram (sport dport csum : ℕ) (body : List ℕ) (p : Pbuf) : Type 0 where
  pub len_whole : p.len ≡ udp_hdrlen + length body
  pub header : read_at p.off udp_hdrlen p.store ≡ udp_header sport dport p.len csum
  pub contents : read_at (p.off + udp_hdrlen) (length body) p.store ≡ body

udp_input_datagram :
    (sport dport csum src dst : ℕ) (body : List ℕ) (p : Pbuf) (pcbs : List UdpPcb)
    → IsDatagram sport dport csum body p
    → sport < 2 ^ 16
    → dport < 2 ^ 16
    → length body < 2 ^ 15
    → p.off + udp_hdrlen < 2 ^ 16
    → udp_input p src dst pcbs
      ≡ deliver dst dport
          (record p { off = p.off + udp_hdrlen; len = length body; saddr = src; sport = sport })
          pcbs
unfolding udp_input accept_udp
udp_input_datagram sport dport csum src dst body p pcbs h sp dp small room =
    let hdr = udp_header sport dport p.len csum in
    let front : load16 p.store p.off ≡ load16 p.store (p.off + 0) =
      ap (load16 p.store) (omega arith) in
    let a : htons (load16 p.store p.off) ≡ sport =
      ap htons (front ∙ load16_carried p.off p.store hdr 8 h.header 0 (omega arith))
      ∙ htons-load16 sport sp in
    let b : htons (load16 p.store (p.off + 2)) ≡ dport =
      ap htons (load16_carried p.off p.store hdr 8 h.header 2 (omega arith))
      ∙ htons-load16 dport dp in
    let c : htons (load16 p.store (p.off + 4)) ≡ p.len =
      ap htons (load16_carried p.off p.store hdr 8 h.header 4 (omega arith))
      ∙ htons-load16 p.len (omega (arith, h.len_whole, small)) in
    let whole = pulled-front udp_hdrlen p (omega (arith, h.len_whole)) room in
    let t1 : ltb p.len udp_hdrlen ≡ false = ground (arith, h.len_whole) in
    let t2 : ltb p.len p.len ≡ false = ground arith in
    let left : p.len - udp_hdrlen ≡ length body = omega (arith, h.len_whole) in
    rw (a, b, c)
      (rw (t1, t2)
        (ap
            (λ (q : Pbuf).
              deliver dst dport (record q { len = p.len - udp_hdrlen; saddr = src; sport = sport })
                pcbs)
            whole
          ∙ ap
              (λ n.
                deliver dst dport
                  (record p { off = p.off + udp_hdrlen; len = n; saddr = src; sport = sport }) pcbs)
              left))

-- The buffer that `udp_sendto` makes, where the bytes and all headers fit.
udp_packet-IsDatagram :
    (pcb : UdpPcb) (src_ip ip port : ℕ) (body : List ℕ) (old : Pbuf)
    → old.off ≡ pbuf_headroom
    → length body + 28 < 2 ^ 15
    → let p = udp_packet pcb src_ip ip port body old in
      (csum : ℕ) × IsDatagram pcb.local_port port csum body p × (p.off ≡ 120)
unfolding udp_packet
udp_packet-IsDatagram pcb src_ip ip port body old headroom small =
    let ulen = (udp_hdrlen + length body) % 2 ^ 16 in
    let csum = udp_csum src_ip ip (udp_header pcb.local_port port ulen 0) ulen body in
    let hdr = udp_header pcb.local_port port ulen csum in
    let filled = record (with_header body old) { len = length body } in
    let (q, pushed, grown, w) =
      pbuf_push-Wraps udp_hdrlen hdr filled (omega (arith, headroom)) (omega (arith, small)) refl in
    let exact : ulen ≡ q.len = omega (arith, small, grown) in
    let place : q.off + 8 ≡ old.off = w.off_moved in
    rw (pushed, udp_packet)
      (
        csum,
        record {
          len_whole = omega (arith, grown);
          header = w.header ∙ ap (λ n. udp_header pcb.local_port port n csum) exact;
          contents =
              ap (λ o. read_at o (length body) (write_at q.off hdr q.store)) place
              ∙ (w.behind old.off (length body) (omega arith)
                  ∙ read_at-write_at body old.off old.store);
        },
        omega (arith, place, headroom),
      )

IsDatagram-moved :
    (sport dport csum : ℕ) (body : List ℕ) (p q : Pbuf)
    → IsDatagram sport dport csum body p
    → q.off ≡ p.off
    → q.len ≡ p.len
    → ((i n : ℕ) → p.off ≤ i → read_at i n q.store ≡ read_at i n p.store)
    → IsDatagram sport dport csum body q
IsDatagram-moved sport dport csum body p q h off len same = record {
  len_whole = len ∙ h.len_whole;
  header =
      ap (λ o. read_at o udp_hdrlen q.store) off
      ∙ (same p.off udp_hdrlen (omega arith)
          ∙ (h.header ∙ ap (λ n. udp_header sport dport n csum) (sym len)));
  contents =
      ap (λ o. read_at (o + udp_hdrlen) (length body) q.store) off
      ∙ (same (p.off + udp_hdrlen) (length body) (omega arith) ∙ h.contents);
}

frame_to_udp_datagram :
    (sport dport csum src dst : ℕ) (body : List ℕ) (p w : Pbuf) (pcbs : List UdpPcb)
    → IsDatagram sport dport csum body p
    → p.off ≡ 120
    → sport < 2 ^ 16
    → dport < 2 ^ 16
    → length body < 2 ^ 15
    → Arrives ip_proto_udp src dst p w
    → (r : Pbuf) × (frame_to_udp w pcbs ≡ deliver dst dport r pcbs)
      × (read_at r.off r.len r.store ≡ body)
      × (r.saddr ≡ src)
      × (r.sport ≡ sport)
unfolding frame_to_udp
frame_to_udp_datagram sport dport csum src dst body p w pcbs h place sp dp small a =
    let q = a.inner in
    let d = IsDatagram-moved sport dport csum body p q h a.off_same a.len_same a.bytes_same in
    (
      record q { off = q.off + udp_hdrlen; len = length body; saddr = src; sport = sport },
      ap (λ e. eth_to_udp e pcbs) a.eth
          ∙ (ap (λ e. ip_to_udp e pcbs) a.ip
              ∙ udp_input_datagram sport dport csum src dst body q pcbs d sp dp small
                  (omega (arith, a.off_same, place))),
      d.contents,
      refl,
      refl,
    )

udp_sendto_accepted :
    (lo ip port ephemeral id now : ℕ) (l : List Netif) (d : Option Netif) (pcb : UdpPcb)
    (body : List ℕ) (old : ℕ → ℕ) (memory : Memory) (cache : ArpCache)
    → htonl ip / 2 ^ 24 ≡ 0x7F
    → length body ≤ 1920
    → (udp_sendto
        (with_loopback lo l d)
        pcb
        ip
        port
        body
        ephemeral
        id
        now
        (some old)
        memory
        cache).0
      ≡ accepted (length body) (
          ipv4_output
            (with_loopback lo l d)
            ip
            ip_proto_udp
            (udp_packet
              (bound_pcb pcb ephemeral).0
              0x0100007F
              ip
              port
              body
              (record { off = pbuf_headroom; len = 0; saddr = old 0; sport = old 1; store = old }))
            id
            now
            memory
            cache)
unfolding udp_sendto pbuf_alloc
udp_sendto_accepted lo ip port ephemeral id now l d pcb body old memory cache local small =
    let route = netif_route-loopback lo ip l d local in
    let fits : ltb (pbuf_size - 64) (length body) ≡ false = ground (arith, small) in
    rw (fits, udp_sendto) (rw (route, udp_sendto) refl)

-- A datagram that `udp_sendto` sends to an address 127.x.y.z, with at most 1,920 bytes and memory
-- for its buffer, leaves as one frame on the loopback interface, and that frame, taken through
-- `eth_input`, `ipv4_input` and `udp_input`, is delivered to that address and port with the same
-- bytes, from 127.0.0.1 and the port of the sender.
pub udp_sendto-frame_to_udp :
    (lo ip port ephemeral id now : ℕ) (l : List Netif) (d : Option Netif) (pcb : UdpPcb)
    (body : List ℕ) (old : ℕ → ℕ) (memory : Memory) (cache : ArpCache) (pcbs : List UdpPcb)
    → htonl ip / 2 ^ 24 ≡ 0x7F
    → ip < 2 ^ 32
    → port < 2 ^ 16
    → id < 2 ^ 16
    → (bound_pcb pcb ephemeral).0.local_port < 2 ^ 16
    → length body ≤ 1920
    → (w : Pbuf) × (r : Pbuf) × ((udp_sendto
          (with_loopback lo l d)
          pcb
          ip
          port
          body
          ephemeral
          id
          now
          (some old)
          memory
          cache).0
        ≡ accepted (length body) (record {
          output = sent (some (record { nif = loopback lo; pbuf = w }));
          ip_id_counter = (id + 1) % 2 ^ 16;
        }))
      × (frame_to_udp w pcbs ≡ deliver ip port r pcbs)
      × (read_at r.off r.len r.store ≡ body)
      × (r.saddr ≡ 0x0100007F)
      × (r.sport ≡ (bound_pcb pcb ephemeral).0.local_port)
udp_sendto-frame_to_udp lo ip port ephemeral id now l d pcb body old memory cache pcbs local ip_fits
      dp id_fits sp small =
    let own = (bound_pcb pcb ephemeral).0 in
    let fresh : Pbuf = record {
      off = pbuf_headroom;
      len = 0;
      saddr = old 0;
      sport = old 1;
      store = old;
    } in
    let p = udp_packet own 0x0100007F ip port body fresh in
    let (csum, h, place) =
      udp_packet-IsDatagram own 0x0100007F ip port body fresh refl (omega arith) in
    let fields : Fields (p.len + 20) id ip_proto_udp 0x0100007F ip = record {
      tot_fits = omega (arith, h.len_whole, small);
      id_fits = id_fits;
      proto_fits = omega arith;
      src_fits = omega arith;
      dst_fits = ip_fits;
    } in
    let (w, out, arrives) =
      ipv4_output-Arrives id lo ip_proto_udp ip now l d p memory cache local fields
        (omega (arith, place)) (omega (arith, place)) (omega (arith, h.len_whole, small)) in
    let (r, delivered, same, src, port_same) =
      frame_to_udp_datagram own.local_port port csum 0x0100007F ip body p w pcbs h place sp dp
        (omega arith) arrives in
    (
      w,
      r,
      udp_sendto_accepted lo ip port ephemeral id now l d pcb body old memory cache local small
          ∙ ap (accepted (length body)) out,
      delivered,
      same,
      src,
      port_same,
    )
