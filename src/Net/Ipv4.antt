-- ===== src/Net/Ipv4.antt =====
-- kernel/net/ipv4.c and kernel/net/icmp.c.
pub mod Header
pub mod Loopback
use project_lariat.Prelude.{
  Bool, List, Option, [], bit_and, if◌then◌else◌, ltb, none, not, some, ℕ, ◌%◌, ◌*◌, ◌++◌, ◌+◌, ◌/◌,
  ◌==◌, ◌^◌, ◌||◌, ◌∷◌,
}
use project_lariat.Net.{
  Memory, Netif, Pbuf, bytes16, bytes32, content, htons, load16, load32, pbuf_push, pulled,
  with_header,
}
use project_lariat.Net.Checksum.{inet_checksum}
use project_lariat.Net.Eth.{Frame, Interfaces, eth_output, eth_p_ip, netif_route}
use project_lariat.Net.Arp.{ArpCache, arp_resolve, asks, known}

abbrev pub ip_proto_icmp : ℕ
ip_proto_icmp = 1

abbrev pub ip_proto_tcp : ℕ
ip_proto_tcp = 6

abbrev pub ip_proto_udp : ℕ
ip_proto_udp = 17

abbrev pub ip_hdrlen : ℕ
ip_hdrlen = 20

-- Where `ipv4_input` hands a packet on, with its source and its destination.
pub data Ipv4Step : Type 0 where
  drops : Ipv4Step
  to_icmp : Pbuf → ℕ → Ipv4Step
  to_udp : Pbuf → ℕ → ℕ → Ipv4Step
  to_tcp : Pbuf → ℕ → ℕ → Ipv4Step

-- The switch on `proto`.
abbrev pub demux : ℕ → Pbuf → ℕ → ℕ → Ipv4Step
demux proto p src dst =
    if proto == ip_proto_icmp
    then to_icmp p src
    else if proto == ip_proto_udp
    then to_udp p src dst
    else if proto == ip_proto_tcp
    then to_tcp p src dst
    else drops

-- `ipv4_input` on the fields of the header.
unfoldable pub accept_ip : ℕ → ℕ → ℕ → ℕ → ℕ → Pbuf → Ipv4Step
accept_ip ver_ihl tot proto src dst p =
    let ihl = ver_ihl % 16 * 4 in
    if ltb p.len ip_hdrlen
    then drops
    else if not (ver_ihl / 16 == 4) || ltb ihl 20
    then drops
    else if ltb p.len tot
    then drops
    else demux proto (pulled ihl (record p { len = tot })) src dst

unfoldable pub ipv4_input : Pbuf → Ipv4Step
ipv4_input p =
    accept_ip (p.store p.off) (htons (load16 p.store (p.off + 2))) (p.store (p.off + 9))
      (load32 p.store (p.off + 12)) (load32 p.store (p.off + 16)) p

-- `struct ip_hdr` in memory.
abbrev pub ip_header : ℕ → ℕ → ℕ → ℕ → ℕ → ℕ → List ℕ
ip_header tot id proto csum src dst =
    (69 ∷ 0 ∷ [])
    ++ bytes16 (htons tot)
    ++ bytes16 (htons id)
    ++ (0 ∷ 0 ∷ 64 ∷ proto ∷ [])
    ++ bytes16 csum
    ++ bytes32 src
    ++ bytes32 dst

-- The header with its checksum.
unfoldable pub summed_header : ℕ → ℕ → ℕ → ℕ → ℕ → List ℕ
summed_header tot id proto src dst =
    ip_header tot id proto (inet_checksum (ip_header tot id proto 0 src dst)) src dst

-- `dst_ip & netmask` for the 32 bits.
abbrev pub same_net : ℕ → Netif → Bool
same_net dst_ip nif = bit_and dst_ip nif.netmask == bit_and nif.ip nif.netmask

-- What `ipv4_output` did: it failed, sent the packet, or left it with the ARP cache.
pub data Output : Type 0 where
  unsent : Output
  sent : Option Frame → Output
  queued : ArpCache → Option Frame → Output

pub record IpResult : Type 0 where
  pub output : Output
  pub ip_id_counter : ℕ

-- The packet goes to the next hop when its address is resolved.
unfoldable pub send_resolved : Netif → ℕ → Pbuf → ℕ → Memory → ArpCache → Output
send_resolved nif nexthop p now memory cache =
    elim (arp_resolve nif nexthop (some p) now memory cache) [
      | known mac ↦ sent (eth_output nif p mac eth_p_ip)
      | asks cache' request ↦ queued cache' request
    ]

-- The packet with its header goes out on an interface.
unfoldable pub send_on : Interfaces → Netif → ℕ → Pbuf → ℕ → Memory → ArpCache → Output
send_on ifs nif dst_ip p now memory cache =
    let nexthop = if same_net dst_ip nif then dst_ip else nif.gateway in
    if nif.id == ifs.loopback_if.id
    then sent (eth_output nif p (0 ∷ 0 ∷ 0 ∷ 0 ∷ 0 ∷ 0 ∷ []) eth_p_ip)
    else send_resolved nif nexthop p now memory cache

unfoldable pub ipv4_output : Interfaces → ℕ → ℕ → Pbuf → ℕ → ℕ → Memory → ArpCache → IpResult
ipv4_output ifs dst_ip proto p id now memory cache = elim (netif_route dst_ip ifs) [
  | none ↦ record { output = unsent; ip_id_counter = id }
  | some nif ↦ elim (pbuf_push ip_hdrlen p) [
    | none ↦ record { output = unsent; ip_id_counter = id }
    | some q ↦ record {
      output =
          send_on ifs nif dst_ip (with_header (summed_header q.len id proto nif.ip dst_ip) q) now
            memory cache;
      ip_id_counter = (id + 1) % 2 ^ 16;
    }
  ]
]

abbrev pub icmp_hdrlen : ℕ
icmp_hdrlen = 8

-- The reply that `icmp_input` makes of an echo request in place: type, code and checksum are
-- written over.
unfoldable pub echo_reply : Pbuf → Pbuf
echo_reply p =
    let cleared = with_header (0 ∷ 0 ∷ 0 ∷ 0 ∷ []) p in
    with_header (0 ∷ 0 ∷ bytes16 (inet_checksum (content cleared))) p

-- The packet to send back to the source, if it is an echo request.
unfoldable pub icmp_input : Pbuf → Option Pbuf
icmp_input p =
    if ltb p.len icmp_hdrlen then none else if p.store p.off == 8 then some (echo_reply p) else none
