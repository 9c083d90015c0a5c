-- ===== src/Net/Layers.antt =====
-- kernel/net/pbuf.c: a header in front of a packet.
use project_lariat.Prelude.{List, arith, length, refl, some, ℕ, ◌+◌, ◌-◌, ◌<◌, ◌^◌, ◌≡◌, ◌≤◌}
use project_lariat.Net.{Pbuf, pbuf_pull, pbuf_push, pulled, read_at, with_header}
use project_lariat.Net.Bytes.{read_at-write_at, read_at_behind}

-- `q` is `p` with the header in front.
pub record Wraps (hdr : List ℕ) (p q : Pbuf) : Type 0 where
  pub off_moved : q.off + length hdr ≡ p.off
  pub len_grown : q.len ≡ p.len + length hdr
  pub header : read_at q.off (length hdr) q.store ≡ hdr
  pub behind : (i n : ℕ) → p.off ≤ i → read_at i n q.store ≡ read_at i n p.store

pub pbuf_push-Wraps :
    (n : ℕ) (hdr : List ℕ) (p : Pbuf)
    → n ≤ p.off
    → p.len + n < 2 ^ 16
    → length hdr ≡ n
    → (q : Pbuf) × (pbuf_push n p ≡ some q) × (q.len ≡ p.len + n) × Wraps hdr p (with_header hdr q)
unfolding pbuf_push
pbuf_push-Wraps n hdr p room short e = (
  record p { off = p.off - n; len = p.len + n },
  ground (arith, room, short),
  refl,
  record {
    off_moved = omega (arith, room, e);
    len_grown = omega (arith, e);
    header = read_at-write_at hdr (p.off - n) p.store;
    behind = λ i k le. read_at_behind k hdr (p.off - n) i p.store (omega (arith, room, e, le));
  },
)

-- The front of the buffer that `pbuf_pull` leaves.
pub pulled-front :
    (n : ℕ) (p : Pbuf)
    → n ≤ p.len
    → p.off + n < 2 ^ 16
    → pulled n p ≡ record p { off = p.off + n; len = p.len - n }
unfolding pbuf_pull
pulled-front n p long room = ground (arith, long, room)
