-- ===== src/Net.antt =====
-- include/net.h and kernel/net/pbuf.c: packet buffers, byte order and interfaces. The array `store`
-- of a buffer is a function of the index below `pbuf_size`. Buffers are values: a function that
-- consumes a buffer takes it, and `kfree` has no result.
pub mod Bytes
pub mod Layers
pub mod Checksum
pub mod Eth
pub mod Arp
pub mod Ipv4
pub mod Udp
pub mod Tcp
mod Tests
use project_lariat.Prelude.{
  List, Option, [], if◌then◌else◌, ltb, none, some, suc, zero, ℕ, ◌%◌, ◌*◌, ◌+◌, ◌-◌, ◌/◌, ◌^◌, ◌∷◌,
}
use project_lariat.ThreadQueue.{update}

abbrev pub pbuf_size : ℕ
pbuf_size = 2048

abbrev pub pbuf_headroom : ℕ
pbuf_headroom = 128

-- `struct pbuf`; the links and the interface of a queued buffer are those of its queue.
pub record Pbuf : Type 0 where
  pub off : ℕ
  pub len : ℕ
  pub saddr : ℕ
  pub sport : ℕ
  pub store : ℕ → ℕ

-- `struct netif`; `id` stands for its address. Addresses are in network byte order, as they lie in
-- memory.
pub record Netif : Type 0 where
  pub id : ℕ
  pub mac : List ℕ
  pub ip : ℕ
  pub netmask : ℕ
  pub gateway : ℕ

-- What `kmalloc` gives: no memory, or memory with some content.
abbrev pub Memory : Type 0
Memory = Option (ℕ → ℕ)

unfoldable pub pbuf_alloc : Memory → Option Pbuf
pbuf_alloc none = none
pbuf_alloc (some old) =
    some (record { off = pbuf_headroom; len = 0; saddr = old 0; sport = old 1; store = old })

-- `none` is the null pointer: there is no room for the header.
unfoldable pub pbuf_push : ℕ → Pbuf → Option Pbuf
pbuf_push n p =
    if ltb p.off n then none else some (record p { off = p.off - n; len = (p.len + n) % 2 ^ 16 })

-- `none` leaves the buffer as it is.
unfoldable pub pbuf_pull : ℕ → Pbuf → Option Pbuf
pbuf_pull n p =
    if ltb p.len n then none else some (record p { off = (p.off + n) % 2 ^ 16; len = p.len - n })

-- The callers of `pbuf_pull` do not look at its result.
abbrev pub pulled : ℕ → Pbuf → Pbuf
pulled n p = elim (pbuf_pull n p) [ none ↦ p | some q ↦ q ]

-- `htons` and `ntohs` of a `uint16_t`, `htonl` and `ntohl` of a `uint32_t`.
unfoldable pub htons : ℕ → ℕ
htons x = x % 256 * 256 + x / 256

unfoldable pub htonl : ℕ → ℕ
htonl x = x % 256 * 2 ^ 24 + x / 256 % 256 * 2 ^ 16 + x / 2 ^ 16 % 256 * 256 + x / 2 ^ 24

-- The bytes of a number in memory, lowest first.
abbrev pub bytes16 : ℕ → List ℕ
bytes16 x = x % 256 ∷ x / 256 % 256 ∷ []

abbrev pub bytes32 : ℕ → List ℕ
bytes32 x = x % 256 ∷ x / 256 % 256 ∷ x / 2 ^ 16 % 256 ∷ x / 2 ^ 24 % 256 ∷ []

-- The number at an index of a memory.
abbrev pub load16 : (ℕ → ℕ) → ℕ → ℕ
load16 m i = m i + m (i + 1) * 256

abbrev pub load32 : (ℕ → ℕ) → ℕ → ℕ
load32 m i = m i + m (i + 1) * 256 + m (i + 2) * 2 ^ 16 + m (i + 3) * 2 ^ 24

-- Bytes written from an index on, and the `n` bytes from an index on.
unfoldable pub write_at : ℕ → List ℕ → (ℕ → ℕ) → ℕ → ℕ
write_at o [] m = m
write_at o (x ∷ xs) m = write_at (o + 1) xs (update m o x)

unfoldable pub read_at : ℕ → ℕ → (ℕ → ℕ) → List ℕ
read_at o zero m = []
read_at o (suc n) m = m o ∷ read_at (o + 1) n m

-- The valid data of a buffer.
abbrev pub content : Pbuf → List ℕ
content p = read_at p.off p.len p.store

-- Bytes written to the front of the valid data.
abbrev pub with_header : List ℕ → Pbuf → Pbuf
with_header xs p = record p { store = write_at p.off xs p.store }
