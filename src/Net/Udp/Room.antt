-- ===== src/Net/Udp/Room.antt =====
-- kernel/net/udp.c: the room of a buffer for the bytes of a datagram and the headers.
use project_lariat.Prelude.{
  List, ap, arith, false, get_or, length, ltb, refl, some, sym, ℕ, ◌%◌, ◌+◌, ◌-◌, ◌<◌, ◌^◌, ◌∙◌,
  ◌≡◌, ◌≤◌,
}
use project_lariat.Net.{Memory, Pbuf, pbuf_alloc, pbuf_headroom, pbuf_push, pbuf_size, write_at}
use project_lariat.Net.Bytes.{get_or-read_at, read_at-write_at, write_at_after}
use project_lariat.Net.Eth.{Interfaces, netif_route}
use project_lariat.Net.Ipv4.{ip_proto_udp, ipv4_output}
use project_lariat.Net.Arp.{ArpCache}
use project_lariat.Net.Udp.{
  UdpPcb, accepted, bound_pcb, ip_of, udp_csum, udp_hdrlen, udp_header, udp_packet, udp_sendto,
}

-- What `pbuf_alloc` gives for a memory.
abbrev pub fresh : (ℕ → ℕ) → Pbuf
fresh old = record { off = pbuf_headroom; len = 0; saddr = old 0; sport = old 1; store = old }

-- The header is written before the bytes.
udp_packet_store :
    (pcb : UdpPcb) (src_ip ip port : ℕ) (body : List ℕ) (old : ℕ → ℕ)
    → (csum : ℕ) × ((udp_packet pcb src_ip ip port body (fresh old)).store
        ≡ write_at 120
            (udp_header pcb.local_port port ((udp_hdrlen + length body) % 2 ^ 16) csum)
            (write_at pbuf_headroom body old))
unfolding udp_packet pbuf_push
udp_packet_store pcb src_ip ip port body old =
    let ulen = (udp_hdrlen + length body) % 2 ^ 16 in
    (udp_csum src_ip ip (udp_header pcb.local_port port ulen 0) ulen body, refl)

-- With at most 1,920 bytes the packet is written inside `store`: what lies behind the array stays
-- as it was.
pub udp_packet_room :
    (pcb : UdpPcb) (src_ip ip port : ℕ) (body : List ℕ) (old : ℕ → ℕ) (i : ℕ)
    → length body ≤ 1920
    → pbuf_size ≤ i
    → (udp_packet pcb src_ip ip port body (fresh old)).store i ≡ old i
udp_packet_room pcb src_ip ip port body old i small behind =
    let (csum, e) = udp_packet_store pcb src_ip ip port body old in
    ap (λ m. m i) e
    ∙ (write_at_after (udp_header pcb.local_port port ((udp_hdrlen + length body) % 2 ^ 16) csum)
          120 i (write_at pbuf_headroom body old) (omega arith)
        ∙ write_at_after body pbuf_headroom i old (omega arith))

-- With 1,921 to 1,984 bytes `udp_sendto` does not refuse the datagram, and the byte at index
-- 1,920 of it is written behind the end of `store`.
pub udp_sendto_overflow :
    (ifs : Interfaces) (pcb : UdpPcb) (ip port ephemeral id now : ℕ) (body : List ℕ) (old : ℕ → ℕ)
    (memory : Memory) (cache : ArpCache)
    → 1920 < length body
    → length body ≤ 1984
    → let own = (bound_pcb pcb ephemeral).0 in
      let p = udp_packet own (ip_of (netif_route ip ifs)) ip port body (fresh old) in
      ((udp_sendto ifs pcb ip port body ephemeral id now (some old) memory cache).0
        ≡ accepted (length body) (ipv4_output ifs ip ip_proto_udp p id now memory cache))
      × (p.store pbuf_size ≡ get_or body 1920 0)
unfolding udp_sendto pbuf_alloc
udp_sendto_overflow ifs pcb ip port ephemeral id now body old memory cache large fits =
    let own = (bound_pcb pcb ephemeral).0 in
    let (csum, e) = udp_packet_store own (ip_of (netif_route ip ifs)) ip port body old in
    let allowed : ltb (pbuf_size - 64) (length body) ≡ false = ground (arith, fits) in
    (
      rw (allowed, udp_sendto) refl,
      ap (λ m. m pbuf_size) e
          ∙ (write_at_after
                (udp_header own.local_port port ((udp_hdrlen + length body) % 2 ^ 16) csum) 120
                pbuf_size (write_at pbuf_headroom body old) (omega arith)
              ∙ (sym (
                    get_or-read_at (length body) pbuf_headroom 1920
                      (write_at pbuf_headroom body old) large)
                  ∙ ap (λ ys. get_or ys 1920 0) (read_at-write_at body pbuf_headroom old))),
    )
