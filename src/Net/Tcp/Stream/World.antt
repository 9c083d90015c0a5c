-- ===== src/Net/Tcp/Stream/World.antt =====
-- kernel/net/tcp.c: two control blocks over a network that loses, repeats and reorders segments.
use project_lariat.Prelude.{
  All, Bool, List, [], false, get_elem?, some, ℕ, ◌%◌, ◌++◌, ◌<◌, ◌^◌, ◌≡◌,
}
use project_lariat.Net.Tcp.{Segment, TcpPcb, tcp_established}
use project_lariat.Net.Tcp.Input.{tcp_receive}
use project_lariat.Net.Tcp.Calls.{tcp_close, tcp_recv, tcp_rto_cb, tcp_send}
use project_lariat.Net.Tcp.Stream.{Flow}
use project_lariat.Net.Tcp.Stream.Calling.{behind, given, leaves, takes}

-- One end: its block, the bytes that `tcp_send` took from its program and those that `tcp_recv` gave
-- to it, and all segments that it ever sent.
pub record Side : Type 0 where
  pub pcb : TcpPcb
  pub submitted : List ℕ
  pub read : List ℕ
  pub sent : List Segment

-- The end behind a call that gives a block and segments.
abbrev pub behind_call : Side → TcpPcb × List Segment → Side
behind_call s r = record s { pcb = r.0; sent = s.sent ++ r.1 }

-- What happens at one end. Any segment that the other end ever sent may come in, at any time and any
-- number of times; a program sends nothing after `tcp_close`.
pub data Local (other_sent : List Segment) : Side → Side → Type 0 where
  submits :
      (s : Side) (body : List ℕ) (signal : Bool)
      → s.pcb.fin_sent ≡ false
      → Local other_sent s (record (behind_call s (leaves (tcp_send body signal s.pcb) s.pcb)) {
        submitted = s.submitted ++ takes (tcp_send body signal s.pcb) body s.pcb;
      })
  receives :
      (s : Side) (i : ℕ) (seg : Segment)
      → get_elem? other_sent i ≡ some seg
      → Local other_sent s
          (behind_call s ((tcp_receive seg s.pcb).pcb, (tcp_receive seg s.pcb).segs))
  reads :
      (s : Side) (len : ℕ) (signal : Bool)
      → Local other_sent s (record s {
        pcb = behind (tcp_recv len signal s.pcb) s.pcb;
        read = s.read ++ given (tcp_recv len signal s.pcb);
      })
  times_out : (s : Side) → Local other_sent s (behind_call s (tcp_rto_cb s.pcb).0)
  closes : (s : Side) → Local other_sent s (behind_call s (tcp_close s.pcb).0)

pub record World : Type 0 where
  pub left : Side
  pub right : Side

pub data Step : World → World → Type 0 where
  on_left :
      (l r l' : Side)
      → Local r.sent l l'
      → Step (record { left = l; right = r }) (record { left = l'; right = r })
  on_right :
      (l r r' : Side)
      → Local l.sent r r'
      → Step (record { left = l; right = r }) (record { left = l; right = r' })

pub data Reach (start : World) : World → Type 0 where
  here : Reach start start
  then : (v w : World) → Reach start v → Step v w → Reach start w

abbrev pub flow : ℕ → Side → Flow
flow base s = record { base = base; bytes = s.submitted }

-- The segments of the set-up have no bytes.
abbrev pub IsBare : Segment → Type 0
IsBare seg = seg.ack < 2 ^ 32 × seg.body ≡ []

-- An end of a connection that is set up: the next number that it sends is `base`, the next that it
-- takes is `other_base`.
pub record Fresh (base other_base : ℕ) (s : Side) : Type 0 where
  pub joined : s.pcb.state ≡ tcp_established
  pub unfinished : s.pcb.fin_sent ≡ false
  pub una_at : s.pcb.snd_una ≡ base % 2 ^ 32
  pub nxt_at : s.pcb.snd_nxt ≡ base % 2 ^ 32
  pub rcv_at : s.pcb.rcv_nxt ≡ other_base % 2 ^ 32
  pub unsent : s.pcb.snd_buf ≡ []
  pub unread : s.pcb.rcv_buf ≡ []
  pub no_submitted : s.submitted ≡ []
  pub no_read : s.read ≡ []
  pub only_bare : All IsBare s.sent
