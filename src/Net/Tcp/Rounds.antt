-- ===== src/Net/Tcp/Rounds.antt =====
-- kernel/net/tcp.c: what the loop of `tcp_output_data` sends, and where it ends.
use project_lariat.Prelude.{
  All, List, [], ap, arith, drop, drop-drop, if-both, inl, inr, length, length-drop, length-take,
  refl, suc, sym, take, zero, ℕ, ◌%◌, ◌++◌, ◌+◌, ◌<◌, ◌==◌, ◌^◌, ◌∙◌, ◌∷◌, ◌≡◌, ◌≤◌, ◌⊎◌,
}
use project_lariat.Net.Tcp.{Segment, TcpPcb, sub32, tcp_mss, tcp_send_seg}
use project_lariat.Net.Tcp.Output.{chunk_size, output_from, tcp_output_data}
use project_lariat.Net.Tcp.Stream.Lists.{take_next}

abbrev pub bodies : List Segment → List ℕ
bodies [] = []
bodies (seg ∷ segs) = seg.body ++ bodies segs

abbrev pub FitsMss : Segment → Type 0
FitsMss seg = 0 < length seg.body × length seg.body ≤ tcp_mss

abbrev pub further : TcpPcb → ℕ → TcpPcb
further p n = record p { snd_nxt = (p.snd_nxt + n) % 2 ^ 32 }

-- Each segment has the number of its first byte; the numbers go on from `n`, modulo 2 ^ 32.
abbrev pub InSequence : ℕ → List Segment → Type 0
InSequence n [] = Unit
InSequence n (seg ∷ segs) = (seg.seq ≡ n) × InSequence ((n + length seg.body) % 2 ^ 32) segs

-- The window of the other end lets the first `n` bytes be outstanding; one byte probes a closed one.
abbrev pub IsInWindow : TcpPcb → ℕ → Type 0
IsInWindow p n = (n ≤ p.snd_wnd) ⊎ ((p.snd_wnd ≡ 0) × (n ≤ 1))

-- From an index on: only `snd_nxt` moves, over the bytes that the segments carry in order with their
-- numbers, none of them empty or longer than the limit, within the buffer and the window, until no
-- byte is left or the window is used up.
pub record Sent (offset : ℕ) (p : TcpPcb) (r : TcpPcb × List Segment) : Type 0 where
  pub sent : ℕ
  pub moves : r.0 ≡ further p sent
  pub bytes : bodies r.1 ≡ take sent (drop offset p.snd_buf)
  pub sizes : All FitsMss r.1
  pub numbers : InSequence p.snd_nxt r.1
  pub within : (sent ≡ 0) ⊎ ((offset + sent ≤ length p.snd_buf) × IsInWindow p (offset + sent))
  pub ends :
      (length p.snd_buf ≤ offset + sent) ⊎ ((p.snd_wnd ≤ offset + sent) × (0 < offset + sent))

length_chunk :
    (p : TcpPcb) (offset : ℕ)
    → length (take (chunk_size p offset) (drop offset p.snd_buf)) ≡ chunk_size p offset
unfolding chunk_size
length_chunk p offset =
    omega (
      arith,
      length-take (chunk_size p offset) (drop offset p.snd_buf),
      length-drop offset p.snd_buf,
    )

output_from-Sent :
    (fuel offset : ℕ) (p : TcpPcb)
    → p.snd_nxt < 2 ^ 32
    → length p.snd_buf < fuel + offset
    → Sent offset p (output_from fuel offset p)
unfolding output_from chunk_size tcp_send_seg
output_from-Sent zero offset p fits enough = record {
  sent = 0;
  moves = ap (λ n. record p { snd_nxt = n }) (omega arith);
  bytes = refl;
  sizes = tt;
  numbers = tt;
  within = inl refl;
  ends = inl (omega arith);
}
output_from-Sent (suc fuel) offset p fits enough =
    let n = chunk_size p offset in
    if-both (Sent offset p) (n == 0)
      (λ e. record {
        sent = 0;
        moves = ap (λ n. record p { snd_nxt = n }) (omega arith);
        bytes = refl;
        sizes = tt;
        numbers = tt;
        within = inl refl;
        ends = ground (arith, e);
      })
      (λ e.
        let some_bytes : 0 < n = ground (arith, e) in
        let h = output_from-Sent fuel (offset + n) (further p n) (omega arith) (omega arith) in
        record {
          sent = n + h.sent;
          moves = h.moves ∙ ap (λ n. record p { snd_nxt = n }) (omega arith);
          bytes =
              ap (λ xs. take n (drop offset p.snd_buf) ++ xs)
                (h.bytes ∙ ap (take h.sent) (sym (drop-drop offset n p.snd_buf)))
              ∙ take_next n h.sent (drop offset p.snd_buf);
          sizes = (
            (
              omega (arith, length-take n (drop offset p.snd_buf), length-drop offset p.snd_buf),
              omega (arith, length-take n (drop offset p.snd_buf)),
            ),
            h.sizes,
          );
          numbers = (refl, rw (length_chunk p offset) h.numbers);
          within = inr (ground (arith, some_bytes, h.within));
          ends = ground (arith, h.ends);
        })

-- `tcp_output_data` always ends, within one more round than the buffer has bytes. It changes only
-- `snd_nxt`; its segments carry, in order, the bytes of the send buffer from the first one that is
-- not outstanding on, with their sequence numbers, and each has between 1 and 1400. What it
-- sends stays within the window, where a closed window counts as one byte, and the loop ends
-- only when no byte is left or this window is used up.
pub tcp_output_data-Sent :
    (p : TcpPcb) → p.snd_nxt < 2 ^ 32 → Sent (sub32 p.snd_nxt p.snd_una) p (tcp_output_data p)
unfolding tcp_output_data
tcp_output_data-Sent p fits =
    output_from-Sent (suc (length p.snd_buf)) (sub32 p.snd_nxt p.snd_una) p fits (omega arith)
