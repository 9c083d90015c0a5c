-- ===== src/Net/Eth.antt =====
-- kernel/net/eth.c and the interfaces of kernel/net/net.c. A driver's `transmit` is an effect: the
-- frame that it is called with is a result, and what it returns is left out.
use project_lariat.Prelude.{
  List, Option, [], if◌then◌else◌, ltb, none, some, ℕ, ◌++◌, ◌+◌, ◌/◌, ◌==◌, ◌^◌, ◌∷◌,
}
use project_lariat.Net.{Netif, Pbuf, bytes16, htonl, htons, load16, pbuf_push, pulled, with_header}

abbrev pub eth_hdrlen : ℕ
eth_hdrlen = 14

abbrev pub eth_p_ip : ℕ
eth_p_ip = 0x0800

abbrev pub eth_p_arp : ℕ
eth_p_arp = 0x0806

-- A call of `nif->transmit`.
pub record Frame : Type 0 where
  pub nif : Netif
  pub pbuf : Pbuf

-- `struct eth_hdr` in memory.
abbrev pub eth_header : List ℕ → List ℕ → ℕ → List ℕ
eth_header dst src ethertype = dst ++ src ++ bytes16 (htons ethertype)

-- `none` where there is no room for the header: -1, and nothing is sent.
unfoldable pub eth_output : Netif → Pbuf → List ℕ → ℕ → Option Frame
eth_output nif p dst_mac ethertype = elim (pbuf_push eth_hdrlen p) [
  | none ↦ none
  | some q ↦
      some (record { nif = nif; pbuf = with_header (eth_header dst_mac nif.mac ethertype) q })
]

-- Where `eth_input` hands a frame on.
pub data EthStep : Type 0 where
  eth_drops : EthStep
  to_arp : Pbuf → EthStep
  to_ip : Pbuf → EthStep

unfoldable pub eth_input : Pbuf → EthStep
eth_input p =
    let type = htons (load16 p.store (p.off + 12)) in
    let q = pulled eth_hdrlen p in
    if ltb p.len eth_hdrlen
    then eth_drops
    else if type == eth_p_arp
    then to_arp q
    else if type == eth_p_ip
    then to_ip q
    else eth_drops

-- The registered interfaces.
pub record Interfaces : Type 0 where
  pub netif_list : List Netif
  pub default_netif : Option Netif
  pub loopback_if : Netif

-- The loopback interface that `net_init` sets up: 127.0.0.1 with the mask 255.0.0.0.
abbrev pub loopback : ℕ → Netif
loopback id = record {
  id = id;
  mac = 0 ∷ 0 ∷ 0 ∷ 0 ∷ 0 ∷ 0 ∷ [];
  ip = 0x0100007F;
  netmask = 0x000000FF;
  gateway = 0;
}

unfoldable pub netif_register : Netif → Interfaces → Interfaces
netif_register nif s = record s {
  netif_list = nif ∷ s.netif_list;
  default_netif = elim s.default_netif [
    | some d ↦ some d
    | none ↦ if nif.id == s.loopback_if.id then none else some nif
  ];
}

-- 127.0.0.0/8 goes to the loopback interface; the mask leaves the highest byte.
unfoldable pub netif_route : ℕ → Interfaces → Option Netif
netif_route dst_ip s = if htonl dst_ip / 2 ^ 24 == 0x7F then some s.loopback_if else s.default_netif

-- The queue of received frames, `rx_head` to `rx_tail`, each with its interface.
unfoldable pub net_rx_enqueue : Netif → Pbuf → List Frame → List Frame
net_rx_enqueue nif p rx = rx ++ record { nif = nif; pbuf = p } ∷ []

unfoldable pub net_rx_dequeue : List Frame → Option Frame × List Frame
net_rx_dequeue [] = (none, [])
net_rx_dequeue (f ∷ rx) = (some f, rx)

-- The interfaces after `net_init`.
unfoldable pub net_init : ℕ → Interfaces
unfolding netif_register
net_init id =
    netif_register (loopback id)
      (record { netif_list = []; default_netif = none; loopback_if = loopback id })
