-- ===== src/Net/Tcp/Stream/Calling.antt =====
-- kernel/net/tcp.c: the two streams of a connection over the calls of the program and of the timer.
use project_lariat.Prelude.{
  Bool, List, [], ap, append-nil, append_assoc, arith, drop, false, if-both, inl, inr, length,
  length-append, min, subst, sym, take, take-append-drop, ℕ, ◌++◌, ◌+◌, ◌-◌, ◌<◌, ◌==◌, ◌^◌, ◌∙◌,
  ◌≡◌, ◌≤◌, ◌⊎◌,
}
use project_lariat.Net.Tcp.{Segment, TcpPcb, tcp_sndbuf}
use project_lariat.Net.Tcp.Calls.{
  Received, SendRound, recv_bytes, recv_ends, recv_fails, recv_interrupted, recv_ready, recv_waits,
  send_fails, send_goes, send_interrupted, send_round, send_waits, tcp_recv, tcp_send,
}
use project_lariat.Net.Tcp.Stream.{Carries, Flow, Keeps, Sound}
use project_lariat.Net.Tcp.Stream.Lists.{drop-append, part-append, take-append, take-none}
use project_lariat.Net.Tcp.Stream.Sending.{tcp_output_data-Sound}

-- The stream with bytes that were added.
abbrev pub longer : Flow → List ℕ → Flow
longer f xs = record { base = f.base; bytes = f.bytes ++ xs }

pub Carries-longer :
    (f : Flow) (xs : List ℕ) (seg : Segment)
    → Carries f.base f.bytes seg
    → Carries f.base (f.bytes ++ xs) seg
Carries-longer f xs seg c = record {
  ack_fits = c.ack_fits;
  slice = λ h.
      let s = c.slice h in
      record {
        start = s.start;
        seq_at = s.seq_at;
        inside = omega (arith, s.inside, length-append f.bytes xs);
        bytes = s.bytes ∙ sym (part-append s.start (length seg.body) f.bytes xs s.inside);
      };
}

-- More bytes from the other side change nothing here.
pub coming-longer :
    {going : Flow} (coming : Flow) {read : List ℕ} (xs : List ℕ) (p : TcpPcb)
    → Keeps going coming read p
    → Keeps going (longer coming xs) read p
coming-longer coming xs p k = record {
  window = k.window;
  phase = k.phase;
  inbox = record {
    got = k.inbox.got;
    got_fits = omega (arith, k.inbox.got_fits, length-append coming.bytes xs);
    stream = k.inbox.stream ∙ sym (take-append k.inbox.got coming.bytes xs k.inbox.got_fits);
    nxt_fits = k.inbox.nxt_fits;
    nxt_is = k.inbox.nxt_is;
  };
}

same-bytes : (f : Flow) (xs : List ℕ) → xs ≡ [] → f.bytes ≡ f.bytes ++ xs
same-bytes f xs e = sym (append-nil f.bytes) ∙ ap (λ ys. f.bytes ++ ys) (sym e)

-- The bytes that a round of `tcp_send` takes.
abbrev pub taken : List ℕ → TcpPcb → List ℕ
taken body p = take (tcp_sndbuf - length p.snd_buf) body

pub send_round-Sound :
    (going coming : Flow) {read : List ℕ} (body : List ℕ) (p : TcpPcb)
    → length (going.bytes ++ taken body p) + 1 < 2 ^ 31
    → p.fin_sent ≡ false
    → Keeps going coming read p
    → Sound (longer going (taken body p)) coming read (send_round body p).0
unfolding send_round
send_round-Sound going coming {read} body p few live k =
    let space = tcp_sndbuf - length p.snd_buf in
    let now = longer going (take space body) in
    let w = k.window in
    let whole : w.una + w.out ≤ length going.bytes = ground (arith, w.within) in
    let queued : Keeps now coming read (record p { snd_buf = p.snd_buf ++ take space body }) =
      record {
        window = record {
          una = w.una;
          out = w.out;
          una_at = w.una_at;
          nxt_at = w.nxt_at;
          held =
              ap (λ xs. xs ++ take space body) w.held
              ∙ sym (drop-append w.una going.bytes (take space body) (omega arith));
          within = omega (arith, w.within, length-append going.bytes (take space body));
        };
        phase = k.phase;
        inbox = k.inbox;
      } in
    let sent = tcp_output_data-Sound _ few queued in
    if-both (λ (r : (TcpPcb × List Segment) × List ℕ). Sound now coming read r.0)
      (min space (length body) == 0)
      (λ e.
        subst (λ b. Sound (record { base = going.base; bytes = b }) coming read (p, []))
          (same-bytes going (take space body) (take-none space body (ground (arith, e)))) (k, tt))
      (λ e. (record { window = sent.0.window; phase = sent.0.phase; inbox = sent.0.inbox }, sent.1))

-- What a call of `tcp_send` takes from the program, and the block and the segments behind it.
abbrev pub takes : SendRound → List ℕ → TcpPcb → List ℕ
takes (send_goes r) body p = taken body p
takes send_waits body p = []
takes send_interrupted body p = []
takes send_fails body p = []

abbrev pub leaves : SendRound → TcpPcb → TcpPcb × List Segment
leaves (send_goes r) p = r.0
leaves send_waits p = (p, [])
leaves send_interrupted p = (p, [])
leaves send_fails p = (p, [])

-- A call either runs a round or leaves everything as it is.
tcp_send-cases :
    (body : List ℕ) (signal : Bool) (p : TcpPcb)
    → (tcp_send body signal p ≡ send_goes (send_round body p))
      ⊎ (takes (tcp_send body signal p) body p ≡ []) × (leaves (tcp_send body signal p) p ≡ (p, []))
unfolding tcp_send
tcp_send-cases body signal p = ground arith

pub tcp_send-Sound :
    (going coming : Flow) {read : List ℕ} (body : List ℕ) (signal : Bool) (p : TcpPcb)
    → length (going.bytes ++ takes (tcp_send body signal p) body p) + 1 < 2 ^ 31
    → p.fin_sent ≡ false
    → Keeps going coming read p
    → Sound
        (longer going (takes (tcp_send body signal p) body p))
        coming
        read
        (leaves (tcp_send body signal p) p)
unfolding tcp_send
tcp_send-Sound going coming {read} body signal p few live k =
    let P : SendRound → Type 0 =
      λ r. Sound (longer going (takes r body p)) coming read (leaves r p) in
    let bytes = takes (tcp_send body signal p) body p in
    elim (tcp_send-cases body signal p) [
      | inl e ↦ subst P (sym e) (
          send_round-Sound going coming body p
            (subst (λ r. length (going.bytes ++ takes r body p) + 1 < 2 ^ 31) e few) live k)
      | inr (nothing, same) ↦
          subst
            (λ b.
              Sound (record { base = going.base; bytes = b }) coming read
                (leaves (tcp_send body signal p) p))
            (same-bytes going bytes nothing) (subst (Sound going coming read) (sym same) (k, tt))
    ]

-- What a call of `tcp_recv` gives to the program, and the block behind it.
abbrev pub given : Received → List ℕ
given (recv_bytes xs q) = xs
given recv_waits = []
given recv_interrupted = []
given recv_ends = []
given recv_fails = []

abbrev pub behind : Received → TcpPcb → TcpPcb
behind (recv_bytes xs q) p = q
behind recv_waits p = p
behind recv_interrupted p = p
behind recv_ends p = p
behind recv_fails p = p

tcp_recv-cases :
    (len : ℕ) (signal : Bool) (p : TcpPcb)
    → let n = min (length p.rcv_buf) len in
      (tcp_recv len signal p
        ≡ recv_bytes (take n p.rcv_buf) (record p { rcv_buf = drop n p.rcv_buf }))
      ⊎ (given (tcp_recv len signal p) ≡ []) × (behind (tcp_recv len signal p) p ≡ p)
unfolding tcp_recv recv_ready
tcp_recv-cases len signal p = ground arith

pub tcp_recv-Keeps :
    (going coming : Flow) (read : List ℕ) (len : ℕ) (signal : Bool) (p : TcpPcb)
    → Keeps going coming read p
    → Keeps going coming (read ++ given (tcp_recv len signal p)) (behind (tcp_recv len signal p) p)
unfolding tcp_recv
tcp_recv-Keeps going coming read len signal p k =
    let n = min (length p.rcv_buf) len in
    let P : Received → Type 0 = λ r. Keeps going coming (read ++ given r) (behind r p) in
    elim (tcp_recv-cases len signal p) [
      | inl e ↦ subst P (sym e) (record {
        window = k.window;
        phase = k.phase;
        inbox = record {
          got = k.inbox.got;
          got_fits = k.inbox.got_fits;
          stream =
              append_assoc read (take n p.rcv_buf) (drop n p.rcv_buf)
              ∙ ap (λ xs. read ++ xs) (take-append-drop n p.rcv_buf)
              ∙ k.inbox.stream;
          nxt_fits = k.inbox.nxt_fits;
          nxt_is = k.inbox.nxt_is;
        };
      })
      | inr (nothing, same) ↦
          subst (λ xs. Keeps going coming (read ++ xs) (behind (tcp_recv len signal p) p))
            (sym nothing)
            (subst (λ xs. Keeps going coming xs (behind (tcp_recv len signal p) p))
              (sym (append-nil read)) (subst (Keeps going coming read) (sym same) k))
    ]
