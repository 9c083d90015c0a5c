-- ===== src/Net/Ipv4/Loopback.antt =====
-- kernel/net: a packet of `ipv4_output` on the loopback interface, back through `eth_input` and
-- `ipv4_input`.
use project_lariat.Prelude.{
  List, Option, [], ap, arith, false, length, ltb, refl, some, subst, sym, true, ℕ, ◌%◌, ◌+◌, ◌-◌,
  ◌/◌, ◌<◌, ◌==◌, ◌^◌, ◌∙◌, ◌∷◌, ◌≡◌, ◌≤◌,
}
use project_lariat.Net.{
  Memory, Netif, Pbuf, htonl, htons, load16, pbuf_push, read_at, with_header, write_at,
}
use project_lariat.Net.Bytes.{load16_carried}
use project_lariat.Net.Layers.{pbuf_push-Wraps, pulled-front}
use project_lariat.Net.Eth.{
  Interfaces, eth_hdrlen, eth_header, eth_input, eth_output, eth_p_ip, loopback, netif_route, to_ip,
}
use project_lariat.Net.Ipv4.{
  demux, ip_hdrlen, ipv4_input, ipv4_output, send_on, sent, summed_header,
}
use project_lariat.Net.Ipv4.Header.{Fields, HasHeader, ipv4_input_packet, payload}
use project_lariat.Net.Arp.{ArpCache}

abbrev no_mac : List ℕ
no_mac = 0 ∷ 0 ∷ 0 ∷ 0 ∷ 0 ∷ 0 ∷ []

-- A frame of the loopback interface.
eth_input_frame :
    (w : Pbuf)
    → read_at w.off eth_hdrlen w.store ≡ eth_header no_mac no_mac eth_p_ip
    → eth_hdrlen ≤ w.len
    → w.off + eth_hdrlen < 2 ^ 16
    → eth_input w ≡ to_ip (record w { off = w.off + eth_hdrlen; len = w.len - eth_hdrlen })
unfolding eth_input htons
eth_input_frame w h long room =
    let hdr = eth_header no_mac no_mac eth_p_ip in
    let type : htons (load16 w.store (w.off + 12)) ≡ eth_p_ip =
      ap htons (load16_carried w.off w.store hdr eth_hdrlen h 12 (omega arith)) in
    let whole : ltb w.len eth_hdrlen ≡ false = ground (arith, long) in
    rw (type, whole) (ap to_ip (pulled-front eth_hdrlen w long room))

-- The frame `f` comes through `eth_input` and `ipv4_input` as the bytes of `p`.
pub record Arrives (proto src dst : ℕ) (p f : Pbuf) : Type 0 where
  pub packet : Pbuf
  pub inner : Pbuf
  pub eth : eth_input f ≡ to_ip packet
  pub ip : ipv4_input packet ≡ demux proto inner src dst
  pub off_same : inner.off ≡ p.off
  pub len_same : inner.len ≡ p.len
  pub bytes_same : (i n : ℕ) → p.off ≤ i → read_at i n inner.store ≡ read_at i n p.store

eth_output_pushed :
    (nif : Netif) (dst : List ℕ) (type : ℕ) (p q : Pbuf)
    → pbuf_push eth_hdrlen p ≡ some q
    → eth_output nif p dst type
      ≡ some (record { nif = nif; pbuf = with_header (eth_header dst nif.mac type) q })
unfolding eth_output
eth_output_pushed nif dst type p q pushed = rw (pushed, eth_output) refl

length-summed_header : (tot id proto src dst : ℕ) → length (summed_header tot id proto src dst) ≡ 20
unfolding summed_header
length-summed_header tot id proto src dst = refl

-- The frame of a packet that has its header.
eth_output-Arrives :
    (id lo proto dst : ℕ) (p q : Pbuf)
    → Fields q.len id proto 0x0100007F dst
    → HasHeader id proto 0x0100007F dst q
    → 14 ≤ q.off
    → q.off < 2 ^ 15
    → q.len + 14 < 2 ^ 16
    → q.off + 20 ≡ p.off
    → q.len ≡ p.len + 20
    → ((i n : ℕ) → p.off ≤ i → read_at i n q.store ≡ read_at i n p.store)
    → (w : Pbuf) × (eth_output (loopback lo) q no_mac eth_p_ip
        ≡ some (record { nif = loopback lo; pbuf = w }))
      × Arrives proto 0x0100007F dst p w
eth_output-Arrives id lo proto dst p q f h room low short place grown same =
    let hdr = eth_header no_mac no_mac eth_p_ip in
    let (q', pushed, longer, a) = pbuf_push-Wraps eth_hdrlen hdr q room short refl in
    let w = with_header hdr q' in
    let packet : Pbuf = record w { off = w.off + eth_hdrlen; len = w.len - eth_hdrlen } in
    let off_back : q.off ≡ packet.off = sym a.off_moved in
    let len_back : packet.len ≡ q.len = omega (arith, longer) in
    let carried : HasHeader id proto 0x0100007F dst packet =
      ap (λ o. read_at o ip_hdrlen w.store) (sym off_back)
      ∙ (a.behind q.off ip_hdrlen (omega arith)
          ∙ (h ∙ ap (λ n. summed_header n id proto 0x0100007F dst) (sym len_back))) in
    let fields : Fields packet.len id proto 0x0100007F dst =
      subst (λ n. Fields n id proto 0x0100007F dst) (sym len_back) f in
    (
      w,
      eth_output_pushed (loopback lo) no_mac eth_p_ip q q' pushed,
      record {
        packet = packet;
        inner = payload packet;
        eth = eth_input_frame w a.header (omega (arith, longer)) (omega (arith, a.off_moved, low));
        ip =
            (ipv4_input_packet id proto 0x0100007F dst packet fields carried
              (omega (arith, len_back, grown)) (omega (arith, off_back, low))).0;
        off_same = omega (arith, off_back, place);
        len_same = omega (arith, len_back, grown);
        bytes_same = λ i n le. a.behind i n (omega (arith, place, le)) ∙ same i n le;
      },
    )

-- The interfaces of `net_init`, with whatever was registered since.
abbrev pub with_loopback : ℕ → List Netif → Option Netif → Interfaces
with_loopback lo l d = record { netif_list = l; default_netif = d; loopback_if = loopback lo }

send_on-loopback :
    (lo dst now : ℕ) (l : List Netif) (d : Option Netif) (q w : Pbuf) (memory : Memory)
    (cache : ArpCache)
    → eth_output (loopback lo) q no_mac eth_p_ip ≡ some (record { nif = loopback lo; pbuf = w })
    → send_on (with_loopback lo l d) (loopback lo) dst q now memory cache
      ≡ sent (some (record { nif = loopback lo; pbuf = w }))
unfolding send_on
send_on-loopback lo dst now l d q w memory cache e =
    let same : (lo == lo) ≡ true = ground arith in rw (same, e) refl

pub netif_route-loopback :
    (lo dst : ℕ) (l : List Netif) (d : Option Netif)
    → htonl dst / 2 ^ 24 ≡ 0x7F
    → netif_route dst (with_loopback lo l d) ≡ some (loopback lo)
unfolding netif_route
netif_route-loopback lo dst l d local = rw (local, netif_route) refl

ipv4_output_pushed :
    (id lo proto dst now : ℕ) (l : List Netif) (d : Option Netif) (p q : Pbuf) (memory : Memory)
    (cache : ArpCache)
    → htonl dst / 2 ^ 24 ≡ 0x7F
    → pbuf_push ip_hdrlen p ≡ some q
    → ipv4_output (with_loopback lo l d) dst proto p id now memory cache ≡ record {
      output =
          send_on
            (with_loopback lo l d)
            (loopback lo)
            dst
            (with_header (summed_header q.len id proto 0x0100007F dst) q)
            now
            memory
            cache;
      ip_id_counter = (id + 1) % 2 ^ 16;
    }
unfolding ipv4_output
ipv4_output_pushed id lo proto dst now l d p q memory cache local pushed =
    let route = netif_route-loopback lo dst l d local in
    rw (route, ipv4_output) (rw (pushed, ipv4_output) refl)

-- A packet for 127.0.0.0/8 that has room for the headers: `ipv4_output` sends one frame, and
-- `eth_input` and `ipv4_input` hand its bytes on to the same protocol, from 127.0.0.1.
pub ipv4_output-Arrives :
    (id lo proto dst now : ℕ) (l : List Netif) (d : Option Netif) (p : Pbuf) (memory : Memory)
    (cache : ArpCache)
    → htonl dst / 2 ^ 24 ≡ 0x7F
    → Fields (p.len + 20) id proto 0x0100007F dst
    → 34 ≤ p.off
    → p.off < 2 ^ 15
    → p.len + 34 < 2 ^ 16
    → (w : Pbuf) × (ipv4_output (with_loopback lo l d) dst proto p id now memory cache ≡ record {
      output = sent (some (record { nif = loopback lo; pbuf = w }));
      ip_id_counter = (id + 1) % 2 ^ 16;
    })
      × Arrives proto 0x0100007F dst p w
ipv4_output-Arrives id lo proto dst now l d p memory cache local f room low short =
    let hdr = summed_header (p.len + 20) id proto 0x0100007F dst in
    let size = length-summed_header (p.len + 20) id proto 0x0100007F dst in
    let (q, pushed, longer, a) = pbuf_push-Wraps ip_hdrlen hdr p (omega arith) (omega arith) size in
    let written : ℕ → Pbuf = λ n. with_header (summed_header n id proto 0x0100007F dst) q in
    let carried : HasHeader id proto 0x0100007F dst (written (p.len + 20)) =
      ap (λ n. read_at q.off n (write_at q.off hdr q.store)) (sym size)
      ∙ (a.header ∙ ap (λ n. summed_header n id proto 0x0100007F dst) (sym longer)) in
    let fields : Fields q.len id proto 0x0100007F dst =
      subst (λ n. Fields n id proto 0x0100007F dst) (sym longer) f in
    let place : q.off + 20 ≡ p.off = omega (arith, size, a.off_moved) in
    let (w, out, arrives) =
      eth_output-Arrives id lo proto dst p (written (p.len + 20)) fields carried
        (omega (arith, place)) (omega (arith, place)) (omega (arith, longer)) place longer
        a.behind in
    (
      w,
      ipv4_output_pushed id lo proto dst now l d p q memory cache local pushed
          ∙ ap (λ o. record { output = o; ip_id_counter = (id + 1) % 2 ^ 16 })
              (ap
                  (λ n.
                    send_on (with_loopback lo l d) (loopback lo) dst (written n) now memory cache)
                  longer
                ∙ send_on-loopback lo dst now l d (written (p.len + 20)) w memory cache out),
      arrives,
    )
