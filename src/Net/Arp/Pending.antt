-- ===== src/Net/Arp/Pending.antt =====
-- kernel/net/arp.c: the packet that waits for an answer.
use project_lariat.Prelude.{
  List, Option, Option-cases, ap, arith, false, inl, inr, none, refl, some, subst, sym, true, ℕ,
  ℕ_discrete, ◌<◌, ◌∙◌, ◌≡◌, ◌≢◌,
}
use project_lariat.ThreadQueue.{update}
use project_lariat.Net.{Memory, Netif, Pbuf}
use project_lariat.Net.Eth.{Frame}
use project_lariat.Net.Arp.{
  ArpCache, ArpEntry, arp_alloc_slot, arp_cache_insert, arp_cache_size, arp_find, arp_resolve,
  arp_send_request, asks, holds_ip, is_unused, sends_pending, slot_of_ip, waiting_entry,
}
use project_lariat.Net.Arp.Slots.{
  first_entry-absent, first_entry-exists, first_entry-none, first_entry-some,
}

abbrev IsUnusedAt : ArpCache → ℕ → Type 0
IsUnusedAt cache i = (i < arp_cache_size) × (is_unused (cache i) ≡ true)

alloc_unused :
    (now i : ℕ) (cache : ArpCache)
    → IsUnusedAt cache i
    → IsUnusedAt cache (arp_alloc_slot now cache)
unfolding arp_alloc_slot
alloc_unused now i cache u =
    let (k, e) = first_entry-exists is_unused cache arp_cache_size 0 i (omega arith) u.0 u.1 in
    let (a, b, hit) = first_entry-some is_unused cache arp_cache_size 0 k e in rw e (b, hit)

find_absent :
    (ip k : ℕ) (cache : ArpCache) (e : ArpEntry)
    → arp_find ip cache ≡ none
    → e.valid ≡ false
    → arp_find ip (update cache k e) ≡ none
unfolding arp_find
find_absent ip k cache e absent invalid =
    first_entry-absent (holds_ip ip) (update cache k e) arp_cache_size 0 (λ j a b. ground (
      arith,
      invalid,
      first_entry-none (holds_ip ip) cache arp_cache_size 0 j absent (omega arith) b,
    ))

resolve_asks :
    (nif : Netif) (ip now : ℕ) (cache : ArpCache) (pending : Option Pbuf) (memory : Memory)
    → arp_find ip cache ≡ none
    → let slot = arp_alloc_slot now cache in
      arp_resolve nif ip pending now memory cache
      ≡ asks
          (update cache slot (waiting_entry nif ip pending (cache slot)))
          (arp_send_request nif ip memory)
unfolding arp_resolve
resolve_asks nif ip now cache pending memory e = rw (e, arp_resolve) refl

no_pending : (e : ArpEntry) → is_unused e ≡ true → e.pending ≡ none
no_pending e u = elim (Option-cases e.pending) [
  | inl idle ↦ idle
  | inr (p, waits) ↦ absurd (ground (arith, u, waits))
]

insert_keeps :
    (nif : Netif) (ip now k : ℕ) (mac : List ℕ) (cache : ArpCache)
    → arp_find ip cache ≡ none
    → k ≢ arp_alloc_slot now cache
    → is_unused (cache (arp_alloc_slot now cache)) ≡ true
    → let (after, sent) = arp_cache_insert nif ip mac now cache in
      (sent ≡ none) × (after k ≡ cache k)
unfolding arp_cache_insert
insert_keeps nif ip now k mac cache absent other unused =
    let fresh = arp_alloc_slot now cache in
    let slot : slot_of_ip ip now cache ≡ fresh = rw (absent, slot_of_ip) refl in
    let idle = no_pending (cache fresh) unused in
    (
      ap (λ i. sends_pending nif mac (cache i).pending) slot ∙ ap (sends_pending nif mac) idle,
      ground (arith, slot, other),
    )

-- A packet waits for an address that the cache does not have. If two entries are unused, the answer
-- is put into another entry than the one where the packet waits: the packet is not sent, and waits
-- on.
pub arp_pending_lost :
    (nif : Netif) (ip now later i j : ℕ) (mac : List ℕ) (p : Pbuf) (memory : Memory)
    (cache : ArpCache)
    → arp_find ip cache ≡ none
    → i ≢ j
    → IsUnusedAt cache i
    → IsUnusedAt cache j
    → (k : ℕ) × (waiting : ArpCache) × (request : Option Frame) × (arp_resolve nif ip
          (some p)
          now
          memory
          cache
        ≡ asks waiting request)
      × ((waiting k).pending ≡ some p)
      × (let (after, sent) = arp_cache_insert nif ip mac later waiting in
          (sent ≡ none) × ((after k).pending ≡ some p))
arp_pending_lost nif ip now later i j mac p memory cache absent ne ui uj =
    let k = arp_alloc_slot now cache in
    let waiting = update cache k (waiting_entry nif ip (some p) (cache k)) in
    let here : waiting k ≡ waiting_entry nif ip (some p) (cache k) = ground arith in
    let stays : (m : ℕ) → IsUnusedAt cache m → m ≢ k → IsUnusedAt waiting m =
      λ m u other. (u.0, ground (arith, u.1)) in
    let left : (m : ℕ) × IsUnusedAt waiting m = elim (ℕ_discrete i k) [
      | yes e ↦ (j, stays j uj (λ e2. ne (e ∙ sym e2)))
      | no e ↦ (i, stays i ui e)
    ] in
    let (inside, unused) = alloc_unused later left.0 waiting left.1 in
    let slot = arp_alloc_slot later waiting in
    let other : k ≢ slot =
      λ e. cc (subst (λ m. is_unused (waiting m) ≡ true) (sym e) unused, ap is_unused here) in
    let (quiet, kept) =
      insert_keeps nif ip later k mac waiting
        (find_absent ip k cache (waiting_entry nif ip (some p) (cache k)) absent refl) other
        unused in
    (
      k,
      waiting,
      arp_send_request nif ip memory,
      resolve_asks nif ip now cache (some p) memory absent,
      ap (λ (e : ArpEntry). e.pending) here,
      (quiet, ap (λ (e : ArpEntry). e.pending) (kept ∙ here)),
    )
