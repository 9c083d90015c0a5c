-- ===== src/Net/Arp.antt =====
-- kernel/net/arp.c: the cache of link addresses. The array `cache` is a function of the index below
-- `arp_cache_size`. Each function runs under `arp_lock` up to what it sends.
pub mod Slots
pub mod Pending
pub mod Learn
use project_lariat.Prelude.{
  Bool, List, Option, [], false, if◌then◌else◌, ltb, none, not, some, suc, true, zero, ℕ, ◌%◌, ◌&&◌,
  ◌++◌, ◌+◌, ◌==◌, ◌^◌, ◌∷◌,
}
use project_lariat.ThreadQueue.{update}
use project_lariat.Net.{
  Memory, Netif, Pbuf, bytes16, bytes32, htons, load16, load32, pbuf_alloc, read_at, with_header,
}
use project_lariat.Net.Eth.{Frame, eth_output, eth_p_arp, eth_p_ip}

abbrev pub arp_cache_size : ℕ
arp_cache_size = 16

-- 120 seconds of 100 ticks
abbrev pub arp_ttl_ticks : ℕ
arp_ttl_ticks = 12000

pub record ArpEntry : Type 0 where
  pub ip : ℕ
  pub mac : List ℕ
  pub valid : Bool
  pub expire : ℕ
  pub pending : Option Pbuf
  pub nif : Option Netif

abbrev pub ArpCache : Type 0
ArpCache = ℕ → ArpEntry

abbrev pub empty_entry : ArpEntry
empty_entry = record {
  ip = 0;
  mac = 0 ∷ 0 ∷ 0 ∷ 0 ∷ 0 ∷ 0 ∷ [];
  valid = false;
  expire = 0;
  pending = none;
  nif = none;
}

unfoldable pub arp_init : ArpCache
arp_init i = empty_entry

abbrev pub is_none {ℓ} : {A : Type ℓ} → Option A → Bool
is_none none = true
is_none (some a) = false

-- The loops over the cache: the first entry that passes, with the rounds left and the index.
unfoldable pub first_entry : (ArpEntry → Bool) → ℕ → ℕ → ArpCache → Option ℕ
first_entry test zero i cache = none
first_entry test (suc n) i cache =
    let rest = first_entry test n (i + 1) cache in if test (cache i) then some i else rest

abbrev pub holds_ip : ℕ → ArpEntry → Bool
holds_ip ip e = e.valid && e.ip == ip

abbrev pub is_unused : ArpEntry → Bool
is_unused e = not e.valid && is_none e.pending

abbrev pub is_expired : ℕ → ArpEntry → Bool
is_expired now e = e.valid && (ltb e.expire now && is_none e.pending)

abbrev pub is_idle : ArpEntry → Bool
is_idle e = is_none e.pending

unfoldable pub arp_find : ℕ → ArpCache → Option ℕ
arp_find ip cache = first_entry (holds_ip ip) arp_cache_size 0 cache

abbrev pub or_else : Option ℕ → Option ℕ → Option ℕ
or_else none b = b
or_else (some i) b = some i

abbrev pub slot_or_first : Option ℕ → ℕ
slot_or_first none = 0
slot_or_first (some i) = i

-- `now` is `timer_get_ticks()`.
unfoldable pub arp_alloc_slot : ℕ → ArpCache → ℕ
arp_alloc_slot now cache = slot_or_first (
    or_else (first_entry is_unused arp_cache_size 0 cache) (
      or_else (first_entry (is_expired now) arp_cache_size 0 cache)
        (first_entry is_idle arp_cache_size 0 cache)))

-- `struct arp_hdr` in memory.
abbrev pub arp_header : ℕ → List ℕ → ℕ → List ℕ → ℕ → List ℕ
arp_header op sha spa tha tpa =
    bytes16 (htons 1)
    ++ bytes16 (htons eth_p_ip)
    ++ (6 ∷ 4 ∷ [])
    ++ bytes16 (htons op)
    ++ sha
    ++ bytes32 spa
    ++ tha
    ++ bytes32 tpa

abbrev pub arp_hdrlen : ℕ
arp_hdrlen = 28

-- An ARP packet in a new buffer, sent to `dst_mac`.
unfoldable pub arp_send : Netif → List ℕ → List ℕ → Memory → Option Frame
arp_send nif header dst_mac memory = elim (pbuf_alloc memory) [
  | none ↦ none
  | some p ↦ eth_output nif (record (with_header header p) { len = arp_hdrlen }) dst_mac eth_p_arp
]

unfoldable pub arp_send_request : Netif → ℕ → Memory → Option Frame
arp_send_request nif target_ip memory =
    arp_send nif (arp_header 1 nif.mac nif.ip (0 ∷ 0 ∷ 0 ∷ 0 ∷ 0 ∷ 0 ∷ []) target_ip)
      (0xFF ∷ 0xFF ∷ 0xFF ∷ 0xFF ∷ 0xFF ∷ 0xFF ∷ []) memory

-- The entry that waits for the answer: the slot is new, so a packet that waited there is freed.
abbrev pub waiting_entry : Netif → ℕ → Option Pbuf → ArpEntry → ArpEntry
waiting_entry nif dst_ip pending e = record e {
  ip = dst_ip;
  valid = false;
  pending = pending;
  nif = some nif;
}

-- The address if it is known; or else the new cache and the request that is sent. `e->valid` of an
-- entry that was found is not 0.
pub data Resolved : Type 0 where
  known : List ℕ → Resolved
  asks : ArpCache → Option Frame → Resolved

unfoldable pub arp_resolve : Netif → ℕ → Option Pbuf → ℕ → Memory → ArpCache → Resolved
arp_resolve nif dst_ip pending now memory cache = elim (arp_find dst_ip cache) [
  | some i ↦ known (cache i).mac
  | none ↦
      let slot = arp_alloc_slot now cache in
      asks (update cache slot (waiting_entry nif dst_ip pending (cache slot)))
        (arp_send_request nif dst_ip memory)
]

abbrev pub slot_of_ip : ℕ → ℕ → ArpCache → ℕ
slot_of_ip ip now cache = elim (arp_find ip cache) [ none ↦ arp_alloc_slot now cache | some i ↦ i ]

abbrev pub sends_pending : Netif → List ℕ → Option Pbuf → Option Frame
sends_pending nif mac none = none
sends_pending nif mac (some p) = eth_output nif p mac eth_p_ip

unfoldable pub arp_cache_insert : Netif → ℕ → List ℕ → ℕ → ArpCache → ArpCache × Option Frame
arp_cache_insert nif ip mac now cache =
    let i = slot_of_ip ip now cache in
    (
      update cache i (record {
        ip = ip;
        mac = mac;
        valid = true;
        expire = (now + arp_ttl_ticks) % 2 ^ 64;
        pending = none;
        nif = some nif;
      }),
      sends_pending nif mac (cache i).pending,
    )

-- The new cache, the packet that waited for the sender, and the reply.
pub record ArpResult : Type 0 where
  pub cache : ArpCache
  pub flushed : Option Frame
  pub reply : Option Frame

unfoldable pub arp_input : Netif → Pbuf → ℕ → Memory → ArpCache → ArpResult
arp_input nif p now memory cache =
    let op = htons (load16 p.store (p.off + 6)) in
    let sha = read_at (p.off + 8) 6 p.store in
    let spa = load32 p.store (p.off + 14) in
    let tpa = load32 p.store (p.off + 24) in
    let (learned, sent) = arp_cache_insert nif spa sha now cache in
    let answer = arp_send nif (arp_header 2 nif.mac nif.ip sha spa) sha memory in
    if ltb p.len arp_hdrlen
    then record { cache = cache; flushed = none; reply = none }
    else record {
      cache = learned;
      flushed = sent;
      reply = if op == 1 && tpa == nif.ip then answer else none;
    }
