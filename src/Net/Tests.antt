-- ===== src/Net/Tests.antt =====
-- kernel/net: one packet at each layer.
use project_lariat.Prelude.{
  List, [], arith, false, get_or, length, length-replicate, none, refl, replicate, some, true, ℕ,
  ◌%◌, ◌++◌, ◌+◌, ◌/◌, ◌<◌, ◌^◌, ◌∷◌, ◌≡◌,
}
use project_lariat.Net.{Netif, Pbuf, htonl, pbuf_size, read_at}
use project_lariat.Net.Checksum.{fold_from, inet_checksum}
use project_lariat.Net.Checksum.Fold.{Folds, fold_from-Folds}
use project_lariat.Net.Checksum.Verify.{inet_checksum_verifies}
use project_lariat.Net.Eth.{loopback, netif_route}
use project_lariat.Net.Arp.{arp_cache_insert, arp_find, arp_init, first_entry, is_unused}
use project_lariat.Net.Arp.Learn.{StaysKnown, arp_cache_insert-arp_resolve}
use project_lariat.Net.Ipv4.{ip_proto_udp, ipv4_output, sent}
use project_lariat.Net.Ipv4.Loopback.{Arrives, ipv4_output-Arrives, with_loopback}
use project_lariat.Net.Udp.{
  UdpPcb, accepted, bound_pcb, deliver, ip_of, udp_bind, udp_packet, udp_sendto,
}
use project_lariat.Net.Udp.Stack.{frame_to_udp}
use project_lariat.Net.Udp.Loopback.{udp_sendto-frame_to_udp}
use project_lariat.Net.Udp.Room.{fresh, udp_sendto_overflow}

fold_from-Folds_example : (r : ℕ) × (fold_from 3 0xFFFFFFFF ≡ some r) × Folds 0xFFFFFFFF r
fold_from-Folds_example = fold_from-Folds 0xFFFFFFFF (omega arith)

abbrev before_field : List ℕ
before_field = 69 ∷ 0 ∷ []

abbrev behind_field : List ℕ
behind_field = 127 ∷ 0 ∷ 1 ∷ []

inet_checksum_verifies_example :
    let c = inet_checksum (before_field ++ 0 ∷ 0 ∷ behind_field) in
    (c < 2 ^ 16) × (inet_checksum (before_field ++ c % 256 ∷ c / 256 ∷ behind_field) ≡ 0)
inet_checksum_verifies_example =
    inet_checksum_verifies before_field behind_field refl (omega arith)
      (omega arith, (omega arith, tt)) (omega arith, (omega arith, (omega arith, tt)))

abbrev sample_mac : List ℕ
sample_mac = 2 ∷ 4 ∷ 6 ∷ 8 ∷ 10 ∷ 12 ∷ []

abbrev card : Netif
card = record {
  id = 2;
  mac = sample_mac;
  ip = 0x0F02000A;
  netmask = 0xFFFFFF;
  gateway = 0x0202000A;
}

abbrev waiting_packet : Pbuf
waiting_packet = record { off = 100; len = 28; saddr = 0; sport = 0; store = λ i. i % 256 }

arp_cache_insert-arp_resolve_example :
    StaysKnown card 0x0202000A sample_mac 500
      (arp_cache_insert card 0x0202000A sample_mac 500 arp_init).0
arp_cache_insert-arp_resolve_example =
    arp_cache_insert-arp_resolve card 0x0202000A sample_mac 500 arp_init

absent : arp_find 0x0202000A arp_init ≡ none
unfolding arp_find first_entry arp_init
absent = refl

unused : (i : ℕ) → is_unused (arp_init i) ≡ true
unfolding arp_init
unused i = refl

abbrev three_bytes : List ℕ
three_bytes = 65 ∷ 66 ∷ 67 ∷ []

abbrev clean : ℕ → ℕ
clean i = 0

abbrev client : UdpPcb
client = record {
  id = 1;
  local_ip = 0;
  local_port = 0;
  remote_ip = 0;
  remote_port = 0;
  bound = false;
  rx = [];
}

abbrev server : UdpPcb
server = record {
  id = 2;
  local_ip = 0;
  local_port = 53;
  remote_ip = 0;
  remote_port = 0;
  bound = true;
  rx = [];
}

own_port : (bound_pcb client 49152).0.local_port < 2 ^ 16
unfolding udp_bind
own_port = omega arith

to_loopback : htonl 0x0100007F / 2 ^ 24 ≡ 0x7F
unfolding htonl
to_loopback = refl

ipv4_output-Arrives_example :
    (w : Pbuf) × (ipv4_output
        (with_loopback 1 [] none)
        0x0100007F
        1
        waiting_packet
        7
        500
        none
        arp_init
      ≡ record {
        output = sent (some (record { nif = loopback 1; pbuf = w }));
        ip_id_counter = (7 + 1) % 2 ^ 16;
      })
    × Arrives 1 0x0100007F 0x0100007F waiting_packet w
ipv4_output-Arrives_example =
    ipv4_output-Arrives 7 1 1 0x0100007F 500 [] none waiting_packet none arp_init to_loopback
      (record {
        tot_fits = omega arith;
        id_fits = omega arith;
        proto_fits = omega arith;
        src_fits = omega arith;
        dst_fits = omega arith;
      })
      (omega arith) (omega arith) (omega arith)

udp_sendto-frame_to_udp_example :
    (w : Pbuf) × (r : Pbuf) × ((udp_sendto
        (with_loopback 1 [] none)
        client
        0x0100007F
        53
        three_bytes
        49152
        7
        500
        (some clean)
        none
        arp_init).0
      ≡ accepted 3 (record {
        output = sent (some (record { nif = loopback 1; pbuf = w }));
        ip_id_counter = (7 + 1) % 2 ^ 16;
      }))
    × (frame_to_udp w (server ∷ []) ≡ deliver 0x0100007F 53 r (server ∷ []))
    × (read_at r.off r.len r.store ≡ three_bytes)
    × (r.saddr ≡ 0x0100007F)
    × (r.sport ≡ (bound_pcb client 49152).0.local_port)
udp_sendto-frame_to_udp_example =
    udp_sendto-frame_to_udp 1 0x0100007F 53 49152 7 500 [] none client three_bytes clean none
      arp_init (server ∷ []) to_loopback (omega arith) (omega arith) (omega arith) own_port
      (omega arith)

abbrev long_body : List ℕ
long_body = replicate 1984 65

long : length long_body ≡ 1984
long = length-replicate {A = ℕ} 1984 65

udp_sendto_overflow_example :
    let own = (bound_pcb client 49152).0 in
    let p =
      udp_packet own
        (ip_of (netif_route 0x0100007F (with_loopback 1 [] none)))
        0x0100007F
        53
        long_body
        (fresh clean) in
    ((udp_sendto
        (with_loopback 1 [] none)
        client
        0x0100007F
        53
        long_body
        49152
        7
        500
        (some clean)
        none
        arp_init).0
      ≡ accepted
          (length long_body)
          (ipv4_output (with_loopback 1 [] none) 0x0100007F ip_proto_udp p 7 500 none arp_init))
    × (p.store pbuf_size ≡ get_or long_body 1920 0)
udp_sendto_overflow_example =
    udp_sendto_overflow (with_loopback 1 [] none) client 0x0100007F 53 49152 7 500 long_body clean
      none arp_init (omega (arith, long)) (omega (arith, long))
