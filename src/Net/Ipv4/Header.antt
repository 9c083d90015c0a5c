-- ===== src/Net/Ipv4/Header.antt =====
-- kernel/net/ipv4.c: the header that `ipv4_output` writes, as `ipv4_input` reads it.
use project_lariat.Prelude.{
  [], ap, ap₂, arith, false, ltb, refl, ℕ, ◌%◌, ◌++◌, ◌+◌, ◌-◌, ◌/◌, ◌<◌, ◌^◌, ◌∙◌, ◌∷◌, ◌≡◌, ◌≤◌,
}
use project_lariat.Net.{Pbuf, bytes16, bytes32, htons, load16, load32, pbuf_pull, pulled, read_at}
use project_lariat.Net.Checksum.{inet_checksum}
use project_lariat.Net.Checksum.Verify.{inet_checksum_verifies}
use project_lariat.Net.Ipv4.{accept_ip, demux, ip_hdrlen, ip_header, ipv4_input, summed_header}
use project_lariat.Net.Bytes.{
  htons-load16, load16_carried, load32-bytes32, load32_carried, load8_carried,
}

-- The fields of the header, within their widths.
pub record Fields (tot id proto src dst : ℕ) : Type 0 where
  pub tot_fits : tot < 2 ^ 16
  pub id_fits : id < 2 ^ 16
  pub proto_fits : proto < 2 ^ 8
  pub src_fits : src < 2 ^ 32
  pub dst_fits : dst < 2 ^ 32

header_sum :
    (tot id proto src dst : ℕ)
    → Fields tot id proto src dst
    → (inet_checksum (ip_header tot id proto 0 src dst) < 2 ^ 16)
      × (inet_checksum (summed_header tot id proto src dst) ≡ 0)
unfolding summed_header htons
header_sum tot id proto src dst f =
    let pre =
      (69 ∷ 0 ∷ []) ++ bytes16 (htons tot) ++ bytes16 (htons id) ++ (0 ∷ 0 ∷ 64 ∷ proto ∷ []) in
    let post = bytes32 src ++ bytes32 dst in
    let (small, zero_sum) =
      inet_checksum_verifies pre post refl (omega arith) (omega arith) (omega arith) in
    let high : inet_checksum (pre ++ 0 ∷ 0 ∷ post) / 256 % 256
        ≡ inet_checksum (pre ++ 0 ∷ 0 ∷ post) / 256 =
      omega (arith, small) in
    (
      small,
      ap (λ hi. inet_checksum (pre ++ inet_checksum (pre ++ 0 ∷ 0 ∷ post) % 256 ∷ hi ∷ post)) high
          ∙ zero_sum,
    )

-- The packet begins with the header of `ipv4_output` for its length.
abbrev pub HasHeader : ℕ → ℕ → ℕ → ℕ → Pbuf → Type 0
HasHeader id proto src dst p =
    read_at p.off ip_hdrlen p.store ≡ summed_header p.len id proto src dst

ipv4_input-Fields :
    (id proto src dst : ℕ) (p : Pbuf)
    → Fields p.len id proto src dst
    → HasHeader id proto src dst p
    → (p.store (p.off + 0) ≡ 69)
      × (htons (load16 p.store (p.off + 2)) ≡ p.len)
      × (p.store (p.off + 9) ≡ proto)
      × (load32 p.store (p.off + 12) ≡ src)
      × (load32 p.store (p.off + 16) ≡ dst)
unfolding summed_header
ipv4_input-Fields id proto src dst p f h =
    let hdr = summed_header p.len id proto src dst in
    (
      load8_carried p.off p.store hdr ip_hdrlen h 0 (omega arith),
      ap htons (load16_carried p.off p.store hdr ip_hdrlen h 2 (omega arith))
          ∙ htons-load16 p.len f.tot_fits,
      load8_carried p.off p.store hdr ip_hdrlen h 9 (omega arith),
      load32_carried p.off p.store hdr ip_hdrlen h 12 (omega arith) ∙ load32-bytes32 src f.src_fits,
      load32_carried p.off p.store hdr ip_hdrlen h 16 (omega arith) ∙ load32-bytes32 dst f.dst_fits,
    )

-- The packet behind the header.
abbrev pub payload : Pbuf → Pbuf
payload p = record p { off = p.off + ip_hdrlen; len = p.len - ip_hdrlen }

accept_written :
    (p : Pbuf) (proto src dst : ℕ)
    → ip_hdrlen ≤ p.len
    → p.off + ip_hdrlen < 2 ^ 16
    → accept_ip 69 p.len proto src dst p ≡ demux proto (payload p) src dst
unfolding accept_ip pbuf_pull
accept_written p proto src dst long room =
    let stripped : pulled 20 (record p { len = p.len }) ≡ payload p = ground (arith, long, room) in
    let whole : ltb p.len ip_hdrlen ≡ false = ground (arith, long) in
    let all : ltb p.len p.len ≡ false = ground arith in
    rw (whole, all) (ap (λ q. demux proto q src dst) stripped)

-- `ipv4_input` accepts a packet that carries the header of `ipv4_output`, and hands on what is
-- behind the header with the addresses; the checksum of the header comes out right.
pub ipv4_input_packet :
    (id proto src dst : ℕ) (p : Pbuf)
    → Fields p.len id proto src dst
    → HasHeader id proto src dst p
    → ip_hdrlen ≤ p.len
    → p.off + ip_hdrlen < 2 ^ 16
    → (ipv4_input p ≡ demux proto (payload p) src dst)
      × (inet_checksum (read_at p.off ip_hdrlen p.store) ≡ 0)
unfolding ipv4_input
ipv4_input_packet id proto src dst p f h long room =
    let (a, b, c, d, e) = ipv4_input-Fields id proto src dst p f h in
    let front : p.store p.off ≡ 69 = ap p.store (omega arith) ∙ a in
    (
      ap
            (λ v.
              accept_ip v (htons (load16 p.store (p.off + 2))) (p.store (p.off + 9))
                (load32 p.store (p.off + 12)) (load32 p.store (p.off + 16)) p)
            front
          ∙ (ap
                (λ t.
                  accept_ip 69 t (p.store (p.off + 9)) (load32 p.store (p.off + 12))
                    (load32 p.store (p.off + 16)) p)
                b
              ∙ (ap
                    (λ o.
                      accept_ip 69 p.len o (load32 p.store (p.off + 12))
                        (load32 p.store (p.off + 16)) p)
                    c
                  ∙ (ap₂ (λ s t. accept_ip 69 p.len proto s t p) d e
                      ∙ accept_written p proto src dst long room))),
      ap inet_checksum h ∙ (header_sum p.len id proto src dst f).1,
    )
