-- ===== src/Net/Udp.antt =====
-- kernel/net/udp.c and include/netpcb.h: datagrams between ports. The list `udp_list` is a list of
-- control blocks, and the queue from `rx_head` to `rx_tail` the list of its buffers.
pub mod Stack
pub mod Loopback
pub mod Room
use project_lariat.Prelude.{
  Bool, List, Option, [], false, if◌then◌else◌, length, ltb, min, none, some, true, ℕ, ◌%◌, ◌&&◌,
  ◌++◌, ◌+◌, ◌-◌, ◌/◌, ◌==◌, ◌^◌, ◌||◌, ◌∷◌,
}
use project_lariat.Net.{
  Memory, Netif, Pbuf, bytes16, bytes32, htons, load16, pbuf_alloc, pbuf_push, pbuf_size, pulled,
  read_at, with_header,
}
use project_lariat.Net.Checksum.{inet_fold, inet_sum}
use project_lariat.Net.Eth.{Interfaces, netif_route}
use project_lariat.Net.Arp.{ArpCache}
use project_lariat.Net.Ipv4.{IpResult, ip_proto_udp, ipv4_output}

-- `udp_pcb_t`; `id` stands for its address.
pub record UdpPcb : Type 0 where
  pub id : ℕ
  pub local_ip : ℕ
  pub local_port : ℕ
  pub remote_ip : ℕ
  pub remote_port : ℕ
  pub bound : Bool
  pub rx : List Pbuf

abbrev pub udp_hdrlen : ℕ
udp_hdrlen = 8

-- A control block of zeros at the front of the list.
unfoldable pub udp_new : ℕ → List UdpPcb → List UdpPcb
udp_new id pcbs =
    record {
      id = id;
      local_ip = 0;
      local_port = 0;
      remote_ip = 0;
      remote_port = 0;
      bound = false;
      rx = [];
    }
    ∷ pcbs

-- The port, the control block and `udp_ephemeral`.
unfoldable pub udp_bind : UdpPcb → ℕ → ℕ → ℕ → ℕ × UdpPcb × ℕ
udp_bind pcb ip port ephemeral =
    let chosen = if port == 0 then ephemeral else port in
    (
      chosen,
      record pcb { local_ip = ip; local_port = chosen; bound = true },
      if port == 0 then (ephemeral + 1) % 2 ^ 16 else ephemeral,
    )

-- `if (!pcb->bound) udp_bind(pcb, 0, 0);`
abbrev pub bound_pcb : UdpPcb → ℕ → UdpPcb × ℕ
bound_pcb pcb ephemeral =
    let (port, pcb', next) = udp_bind pcb 0 0 ephemeral in
    if pcb.bound then (pcb, ephemeral) else (pcb', next)

unfoldable pub udp_connect : UdpPcb → ℕ → ℕ → ℕ → UdpPcb × ℕ
udp_connect pcb ip port ephemeral =
    bound_pcb (record pcb { remote_ip = ip; remote_port = port }) ephemeral

-- `struct udp_hdr` in memory.
abbrev pub udp_header : ℕ → ℕ → ℕ → ℕ → List ℕ
udp_header src dst len csum =
    bytes16 (htons src) ++ bytes16 (htons dst) ++ bytes16 (htons len) ++ bytes16 csum

-- The checksum over the pseudo header, the header and the bytes; 0 is replaced.
unfoldable pub udp_csum : ℕ → ℕ → List ℕ → ℕ → List ℕ → ℕ
udp_csum src dst header ulen body =
    let pseudo = bytes32 src ++ bytes32 dst ++ (0 ∷ ip_proto_udp ∷ ulen / 256 ∷ ulen % 256 ∷ []) in
    let c = inet_fold (inet_sum body (inet_sum header (inet_sum pseudo 0))) in
    if c == 0 then 0xFFFF else c

-- The buffer that `udp_sendto` fills: the bytes are copied before the header is put in front.
unfoldable pub udp_packet : UdpPcb → ℕ → ℕ → ℕ → List ℕ → Pbuf → Pbuf
udp_packet pcb src_ip ip port body p =
    let ulen = (udp_hdrlen + length body) % 2 ^ 16 in
    let filled = record (with_header body p) { len = length body } in
    let csum = udp_csum src_ip ip (udp_header pcb.local_port port ulen 0) ulen body in
    elim (pbuf_push udp_hdrlen filled) [
      | none ↦ filled
      | some q ↦ with_header (udp_header pcb.local_port port ulen csum) q
    ]

abbrev pub ip_of : Option Netif → ℕ
ip_of none = 0
ip_of (some nif) = nif.ip

-- What `udp_sendto` answers: -1, or the length with what the network layer did.
pub data SendTo : Type 0 where
  refused : SendTo
  accepted : ℕ → IpResult → SendTo

unfoldable pub udp_sendto :
    Interfaces
    → UdpPcb
    → ℕ
    → ℕ
    → List ℕ
    → ℕ
    → ℕ
    → ℕ
    → Memory
    → Memory
    → ArpCache
    → SendTo × UdpPcb × ℕ
udp_sendto ifs pcb ip port body ephemeral id now memory arp_memory cache =
    let (own, next) = bound_pcb pcb ephemeral in
    let src_ip = ip_of (netif_route ip ifs) in
    if ltb (pbuf_size - 64) (length body) then (refused, own, next) else elim (pbuf_alloc memory) [
      | none ↦ (refused, own, next)
      | some p ↦ (
        accepted (length body) (
            ipv4_output ifs ip ip_proto_udp (udp_packet own src_ip ip port body p) id now arp_memory
              cache),
        own,
        next,
      )
    ]

-- The bytes, the source and its port; `none` where no datagram waits.
pub record Datagram : Type 0 where
  pub body : List ℕ
  pub src_ip : ℕ
  pub src_port : ℕ

unfoldable pub udp_recv : UdpPcb → ℕ → Option Datagram × UdpPcb
udp_recv pcb len = elim pcb.rx [
  | [] ↦ (none, pcb)
  | p ∷ rest ↦ (
    some (record {
      body = read_at p.off (min p.len len) p.store;
      src_ip = p.saddr;
      src_port = p.sport;
    }),
    record pcb { rx = rest },
  )
]

unfoldable pub udp_close : ℕ → List UdpPcb → List UdpPcb
udp_close id [] = []
udp_close id (pcb ∷ pcbs) = if pcb.id == id then pcbs else pcb ∷ udp_close id pcbs

abbrev pub accepts : ℕ → ℕ → UdpPcb → Bool
accepts dst_ip dport pcb =
    pcb.bound && (pcb.local_port == dport && (pcb.local_ip == 0 || pcb.local_ip == dst_ip))

-- The buffer goes to the first control block that accepts it; the result names the block whose
-- wait queue is woken.
unfoldable pub deliver : ℕ → ℕ → Pbuf → List UdpPcb → Option ℕ × List UdpPcb
deliver dst_ip dport p [] = (none, [])
deliver dst_ip dport p (pcb ∷ pcbs) =
    let (woken, rest) = deliver dst_ip dport p pcbs in
    if accepts dst_ip dport pcb
    then (some pcb.id, record pcb { rx = pcb.rx ++ p ∷ [] } ∷ pcbs)
    else (woken, pcb ∷ rest)

-- The buffer without its header, as `udp_input` queues it.
abbrev pub stripped : Pbuf → ℕ → ℕ → ℕ → Pbuf
stripped p src_ip sport ulen = record (pulled udp_hdrlen p) {
  len = ulen - udp_hdrlen;
  saddr = src_ip;
  sport = sport;
}

-- `udp_input` on the fields of the header.
unfoldable pub accept_udp : ℕ → ℕ → ℕ → Pbuf → ℕ → ℕ → List UdpPcb → Option ℕ × List UdpPcb
accept_udp sport dport ulen p src_ip dst_ip pcbs =
    if ltb p.len udp_hdrlen
    then (none, pcbs)
    else if ltb ulen udp_hdrlen || ltb p.len ulen
    then (none, pcbs)
    else deliver dst_ip dport (stripped p src_ip sport ulen) pcbs

unfoldable pub udp_input : Pbuf → ℕ → ℕ → List UdpPcb → Option ℕ × List UdpPcb
udp_input p src_ip dst_ip pcbs =
    accept_udp (htons (load16 p.store p.off)) (htons (load16 p.store (p.off + 2)))
      (htons (load16 p.store (p.off + 4))) p src_ip dst_ip pcbs
