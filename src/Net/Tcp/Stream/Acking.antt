-- ===== src/Net/Tcp/Stream/Acking.antt =====
-- kernel/net/tcp.c: the two streams of a connection over an acknowledgement.
use project_lariat.Prelude.{
  Bool, List, ap, arith, drop, drop-drop, if-both, length, true, ℕ, ◌&&◌, ◌+◌, ◌-◌, ◌<◌, ◌==◌, ◌^◌,
  ◌∙◌, ◌≡◌, ◌≤◌,
}
use project_lariat.Net.Tcp.{Segment, TcpPcb, TcpState, has_ack, seq_gt, seq_le, sub32}
use project_lariat.Net.Tcp.Input.{Reply, advance, all_acked, is_receiving, take_ack}
use project_lariat.Net.Tcp.Stream.{Flow, Keeps, Phase, Sound, count}
use project_lariat.Net.Tcp.Stream.Sending.{acked_within}

-- What a segment does to the state.
all_acked-Phase : (s : TcpState) (fin : Bool) → Phase s fin → Phase (all_acked s).0 fin
unfolding all_acked
all_acked-Phase s fin h = record {
  joined = ground (arith, h.joined);
  open_before = λ e. ground (arith, h.open_before);
  half_before = λ e. ground (arith, h.half_before);
}

is_receiving-all_acked :
    (s : TcpState) → is_receiving (all_acked s).0 ≡ true → is_receiving s ≡ true
unfolding all_acked is_receiving
is_receiving-all_acked s h = ground arith

abbrev pub Replies : Flow → Flow → List ℕ → Reply → Type 0
Replies going coming read r = Sound going coming read (r.pcb, r.segs)

module _ (going coming : Flow) (few : length going.bytes + 1 < 2 ^ 31)
    (less : length coming.bytes + 1 < 2 ^ 31) (read : List ℕ) where
  advance-Keeps :
      (seg_ack : ℕ) (p : TcpPcb)
      → seg_ack < 2 ^ 32
      → Keeps going coming read p
      → Keeps going coming read (advance seg_ack p).0
  unfolding advance
  advance-Keeps seg_ack p fits k =
      if-both (λ (q : TcpPcb × Bool). Keeps going coming read q.0)
        (seq_gt seg_ack p.snd_una && seq_le seg_ack p.snd_nxt)
        (λ e.
          let w = k.window in
          let n = sub32 seg_ack p.snd_una in
          let one : count p.fin_sent ≤ 1 = ground arith in
          let h : n ≤ w.out =
            acked_within (going.base + w.una) w.out seg_ack p.snd_una p.snd_nxt w.una_at w.nxt_at
              fits (omega (arith, w.within)) e in
          record {
            window = record {
              una = w.una + n;
              out = w.out - n;
              una_at = omega (arith, w.una_at);
              nxt_at = omega (arith, w.nxt_at);
              held = ap (drop n) w.held ∙ drop-drop w.una n going.bytes;
              within = omega (arith, w.within);
            };
            phase = k.phase;
            inbox = k.inbox;
          })
        (λ e. k)

  pub take_ack-Replies :
      (seg : Segment) (p : TcpPcb)
      → seg.ack < 2 ^ 32
      → Keeps going coming read p
      → Replies going coming read (take_ack seg p)
  unfolding take_ack
  take_ack-Replies seg p fits k =
      let moved = (advance seg.ack p).0 in
      let m : Keeps going coming read moved = advance-Keeps seg.ack p fits k in
      if-both (Replies going coming read) (has_ack seg)
        (λ e.
          if-both (Replies going coming read) (moved.snd_una == moved.snd_nxt)
            (λ all. (
              record {
                window = m.window;
                phase = all_acked-Phase moved.state moved.fin_sent m.phase;
                inbox = record {
                  got = m.inbox.got;
                  got_fits = m.inbox.got_fits;
                  stream = m.inbox.stream;
                  nxt_fits = m.inbox.nxt_fits;
                  nxt_is = λ h. m.inbox.nxt_is (is_receiving-all_acked moved.state h);
                };
              },
              tt,
            ))
            (λ some. (record { window = m.window; phase = m.phase; inbox = m.inbox }, tt)))
        (λ e. (k, tt))
