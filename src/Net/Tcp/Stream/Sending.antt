-- ===== src/Net/Tcp/Stream/Sending.antt =====
-- kernel/net/tcp.c: the send buffer and its numbers, over acknowledgements and new bytes.
use project_lariat.Prelude.{
  List, [], ap, ap₂, arith, drop, drop-drop, if-both, length, length-drop, length-take, refl, subst,
  suc, sym, take, true, zero, ℕ, ◌%◌, ◌&&◌, ◌+◌, ◌-◌, ◌<◌, ◌==◌, ◌^◌, ◌∙◌, ◌≡◌, ◌≤◌,
}
use project_lariat.Net.Tcp.{TcpPcb, flag_ack, flag_psh, seq_gt, seq_le, sub32, tcp_send_seg}
use project_lariat.Net.Tcp.Output.{chunk_size, output_from, tcp_output_data}
use project_lariat.Net.Tcp.Stream.{Carries, Flow, Keeps, Slice, Sound, count}
use project_lariat.Net.Tcp.Stream.Lists.{take_own}

-- The numbers of a window: `a` is the first outstanding one.
pub sub32-add : (a out : ℕ) → out < 2 ^ 32 → sub32 ((a + out) % 2 ^ 32) (a % 2 ^ 32) ≡ out
sub32-add a out few = omega arith

-- An acknowledgement in the window is that of some outstanding bytes.
pub acked_within :
    (a out seg_ack snd_una snd_nxt : ℕ)
    → snd_una ≡ a % 2 ^ 32
    → snd_nxt ≡ (a + out) % 2 ^ 32
    → seg_ack < 2 ^ 32
    → out < 2 ^ 31
    → seq_gt seg_ack snd_una && seq_le seg_ack snd_nxt ≡ true
    → sub32 seg_ack snd_una ≤ out
unfolding seq_gt seq_le
acked_within a out seg_ack snd_una snd_nxt at nxt fits few passes = ground arith

pub take-Slice :
    (base una off n : ℕ) (all buf : List ℕ)
    → buf ≡ drop una all
    → 0 < length (take n (drop off buf))
    → Slice base all ((base + una + off) % 2 ^ 32) (take n (drop off buf))
take-Slice base una off n all buf held some_bytes =
    let same : take n (drop off buf) ≡ take n (drop (una + off) all) =
      ap (λ xs. take n (drop off xs)) held ∙ ap (take n) (drop-drop una off all) in
    record {
      start = una + off;
      seq_at = omega arith;
      inside = omega (
        arith,
        ap length same,
        length-take n (drop (una + off) all),
        length-drop (una + off) all,
      );
      bytes =
          same
          ∙ take_own n (drop (una + off) all)
          ∙ ap (λ xs. take (length xs) (drop (una + off) all)) (sym same);
    }

module _ {going coming : Flow} {read : List ℕ} {p : TcpPcb} (k : Keeps going coming read p) where
  -- A segment of bytes from the send buffer.
  pub data-Carries :
      (flags off n : ℕ)
      → Carries going.base going.bytes (
          tcp_send_seg p flags
            ((going.base + k.window.una + off) % 2 ^ 32)
            (take n (drop off p.snd_buf)))
  unfolding tcp_send_seg
  data-Carries flags off n = record {
    ack_fits = k.inbox.nxt_fits;
    slice = λ some_bytes.
        take-Slice going.base k.window.una off n going.bytes p.snd_buf k.window.held some_bytes;
  }

  -- A segment with no bytes.
  pub bare-Carries : (flags seq : ℕ) → Carries going.base going.bytes (tcp_send_seg p flags seq [])
  unfolding tcp_send_seg
  bare-Carries flags seq = record { ack_fits = k.inbox.nxt_fits; slice = λ h. absurd (omega arith) }

-- The same block with more numbers outstanding, of bytes that the buffer holds.
sent-Keeps :
    {going coming : Flow} {read : List ℕ} (p : TcpPcb) (n : ℕ) (k : Keeps going coming read p)
    → n ≤ length p.snd_buf - k.window.out
    → (after : Keeps going coming read (record p { snd_nxt = (p.snd_nxt + n) % 2 ^ 32 }))
      × after.window.out ≡ k.window.out + n
sent-Keeps {going} p n k h = (
  record {
    window = record {
      una = k.window.una;
      out = k.window.out + n;
      una_at = k.window.una_at;
      nxt_at = omega (arith, k.window.nxt_at);
      held = k.window.held;
      within =
          omega
            (arith, k.window.within, ap length k.window.held, length-drop k.window.una going.bytes);
    };
    phase = k.phase;
    inbox = k.inbox;
  },
  refl,
)

output_from-Sound :
    {going coming : Flow} {read : List ℕ} (fuel offset : ℕ) (p : TcpPcb)
    (k : Keeps going coming read p)
    → k.window.out ≡ offset
    → Sound going coming read (output_from fuel offset p)
unfolding output_from chunk_size
output_from-Sound zero offset p k at = (k, tt)
output_from-Sound {going} {coming} {read} (suc fuel) offset p k at =
    let n = chunk_size p offset in
    let bytes = take n (drop offset p.snd_buf) in
    let h : n ≤ length p.snd_buf - k.window.out = omega (arith, at) in
    let at_nxt : (going.base + k.window.una + offset) % 2 ^ 32 ≡ p.snd_nxt =
      omega (arith, at, k.window.nxt_at) in
    let here : Carries going.base going.bytes
        (tcp_send_seg p (flag_ack + flag_psh) p.snd_nxt bytes) =
      subst (λ s. Carries going.base going.bytes (tcp_send_seg p (flag_ack + flag_psh) s bytes))
        at_nxt (data-Carries k (flag_ack + flag_psh) offset n) in
    let (after, moved) = sent-Keeps p n k h in
    let rest = output_from-Sound fuel (offset + n) _ after (omega (arith, moved, at)) in
    if-both (Sound going coming read) (n == 0) (λ e. (k, tt)) (λ e. (rest.0, (here, rest.1)))

-- `tcp_output_data` keeps the two streams.
pub tcp_output_data-Sound :
    {going coming : Flow} {read : List ℕ} (p : TcpPcb)
    → length going.bytes + 1 < 2 ^ 31
    → Keeps going coming read p
    → Sound going coming read (tcp_output_data p)
unfolding tcp_output_data
tcp_output_data-Sound {going} {coming} {read} p few k =
    let one : count p.fin_sent ≤ 1 = ground arith in
    let off : k.window.out ≡ sub32 p.snd_nxt p.snd_una =
      sym (sub32-add (going.base + k.window.una) k.window.out (omega (arith, k.window.within)))
      ∙ ap₂ sub32 (sym k.window.nxt_at) (sym k.window.una_at) in
    subst (λ o. Sound going coming read (output_from (suc (length p.snd_buf)) o p)) off
      (output_from-Sound (suc (length p.snd_buf)) _ p k refl)
