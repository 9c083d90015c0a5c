-- ===== src/Net/Udp/Stack.antt =====
-- kernel/net: what a frame does to the control blocks of UDP, through `eth_input`, `ipv4_input` and
-- `udp_input` as they call one another. A frame for another protocol leaves the blocks as they are.
use project_lariat.Prelude.{List, Option, none, ℕ}
use project_lariat.Net.{Pbuf}
use project_lariat.Net.Eth.{EthStep, eth_drops, eth_input, to_arp, to_ip}
use project_lariat.Net.Ipv4.{Ipv4Step, drops, ipv4_input, to_icmp, to_tcp, to_udp}
use project_lariat.Net.Udp.{UdpPcb, udp_input}

abbrev pub ip_to_udp : Ipv4Step → List UdpPcb → Option ℕ × List UdpPcb
ip_to_udp drops pcbs = (none, pcbs)
ip_to_udp (to_icmp p src) pcbs = (none, pcbs)
ip_to_udp (to_tcp p src dst) pcbs = (none, pcbs)
ip_to_udp (to_udp p src dst) pcbs = udp_input p src dst pcbs

abbrev pub eth_to_udp : EthStep → List UdpPcb → Option ℕ × List UdpPcb
eth_to_udp eth_drops pcbs = (none, pcbs)
eth_to_udp (to_arp p) pcbs = (none, pcbs)
eth_to_udp (to_ip p) pcbs = ip_to_udp (ipv4_input p) pcbs

unfoldable pub frame_to_udp : Pbuf → List UdpPcb → Option ℕ × List UdpPcb
frame_to_udp p pcbs = eth_to_udp (eth_input p) pcbs
