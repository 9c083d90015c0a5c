-- ===== src/Net/Arp/Learn.antt =====
-- kernel/net/arp.c: an address that was learnt is known.
use project_lariat.Prelude.{
  List, Option, ap, arith, false, none, refl, some, ℕ, ◌%◌, ◌+◌, ◌<◌, ◌^◌, ◌∙◌, ◌≡◌,
}
use project_lariat.Net.{Memory, Netif, Pbuf}
use project_lariat.Net.Arp.{
  ArpCache, arp_alloc_slot, arp_cache_insert, arp_cache_size, arp_find, arp_resolve, arp_ttl_ticks,
  first_entry, holds_ip, known, slot_of_ip,
}
use project_lariat.Net.Arp.Slots.{
  arp_alloc_slot-lt, first_entry-at, first_entry-first, first_entry-none, first_entry-some,
}

-- The slot of an address lies in the cache, and no entry before it is for the address.
slot_of_ip-first :
    (ip now : ℕ) (cache : ArpCache)
    → let i = slot_of_ip ip now cache in
      (i < arp_cache_size) × ((j : ℕ) → j < i → holds_ip ip (cache j) ≡ false)
unfolding arp_find
slot_of_ip-first ip now cache = by_cases (arp_find ip cache) refl
  where
    by_cases :
        (o : Option ℕ)
        → first_entry (holds_ip ip) arp_cache_size 0 cache ≡ o
        → let i = elim o as (λ _. ℕ) [ none ↦ arp_alloc_slot now cache | some i ↦ i ] in
          (i < arp_cache_size) × ((j : ℕ) → j < i → holds_ip ip (cache j) ≡ false)
    by_cases none e = (
      arp_alloc_slot-lt now cache,
      λ j lt.
          first_entry-none (holds_ip ip) cache arp_cache_size 0 j e (omega arith)
            (omega (arith, lt, arp_alloc_slot-lt now cache)),
    )
    by_cases (some i) e = (
      (first_entry-some (holds_ip ip) cache arp_cache_size 0 i e).1,
      λ j lt. first_entry-first (holds_ip ip) cache arp_cache_size 0 i j e (omega arith) lt,
    )

pub resolve_found :
    (nif : Netif) (ip now i : ℕ) (cache : ArpCache) (pending : Option Pbuf) (memory : Memory)
    → arp_find ip cache ≡ some i
    → arp_resolve nif ip pending now memory cache ≡ known (cache i).mac
unfolding arp_resolve
resolve_found nif ip now i cache pending memory e = rw (e, arp_resolve) refl

-- An entry with its time of expiry, and what `arp_resolve` answers, at whatever time.
pub record StaysKnown (nif : Netif) (ip : ℕ) (mac : List ℕ) (now : ℕ) (cache : ArpCache)
    : Type 0 where
  pub slot : ℕ
  pub found : arp_find ip cache ≡ some slot
  pub expires : (cache slot).expire ≡ (now + arp_ttl_ticks) % 2 ^ 64
  pub at_any_time :
      (later : ℕ) (pending : Option Pbuf) (memory : Memory)
      → arp_resolve nif ip pending later memory cache ≡ known mac

-- Whatever the cache held, an address that was learnt has an entry, the one that `arp_find` finds,
-- with the mark that it expires two minutes later. `arp_resolve` knows the address and sends nothing,
-- and not only until then: it does so at every later time, also when the mark has passed, since
-- `arp_find` does not test it.
pub arp_cache_insert-arp_resolve :
    (nif : Netif) (ip : ℕ) (mac : List ℕ) (now : ℕ) (cache : ArpCache)
    → StaysKnown nif ip mac now (arp_cache_insert nif ip mac now cache).0
unfolding arp_cache_insert arp_find
arp_cache_insert-arp_resolve nif ip mac now cache =
    let i = slot_of_ip ip now cache in
    let learned = (arp_cache_insert nif ip mac now cache).0 in
    let (inside, before) = slot_of_ip-first ip now cache in
    let found : arp_find ip learned ≡ some i =
      first_entry-at (holds_ip ip) learned arp_cache_size 0 i (omega arith) inside (ground arith)
        (λ j a lt. ground (arith, lt, before j)) in
    record {
      slot = i;
      found = found;
      expires = ground arith;
      at_any_time = λ later pending memory.
          resolve_found nif ip later i learned pending memory found ∙ ap known (ground arith);
    }
