-- ===== src/Net/Tcp/Stream.antt =====
-- kernel/net/tcp.c: what the control blocks and the segments of a connection hold of the bytes that
-- were given to `tcp_send`. Offsets count from the first byte, which has the sequence number `base`.
pub mod Lists
pub mod Sending
pub mod Acking
pub mod Receiving
pub mod Calling
pub mod Closing
pub mod World
pub mod Safety
use project_lariat.Prelude.{
  All, Bool, List, drop, false, if◌then◌else◌, length, take, true, ℕ, ◌%◌, ◌++◌, ◌+◌, ◌<◌, ◌^◌, ◌≡◌,
  ◌≤◌,
}
use project_lariat.Net.Tcp.{Segment, TcpPcb, TcpState, tcp_syn_rcvd, tcp_syn_sent}
use project_lariat.Net.Tcp.Input.{is_established, is_receiving}
use project_lariat.Net.Tcp.Calls.{is_close_wait}

abbrev pub count : Bool → ℕ
count b = if b then 1 else 0

-- The send buffer holds the bytes from `una` on; `out` numbers are outstanding, one of them the FIN
-- where that was sent.
pub record Window (base : ℕ) (all : List ℕ) (snd_una snd_nxt : ℕ) (buf : List ℕ) (fin : Bool)
    : Type 0 where
  pub una : ℕ
  pub out : ℕ
  pub una_at : snd_una ≡ (base + una) % 2 ^ 32
  pub nxt_at : snd_nxt ≡ (base + una + out) % 2 ^ 32
  pub held : buf ≡ drop una all
  pub within : una + out ≤ length all + count fin

abbrev pub is_joining : TcpState → Bool
is_joining tcp_syn_sent = true
is_joining tcp_syn_rcvd = true
is_joining state = false

-- The states of a connection, with the FIN sent in no state that takes bytes from the program.
pub record Phase (state : TcpState) (fin : Bool) : Type 0 where
  pub joined : is_joining state ≡ false
  pub open_before : is_established state ≡ true → fin ≡ false
  pub half_before : is_close_wait state ≡ true → fin ≡ false

-- What was read and the receive buffer are the first `got` bytes; a block that still takes bytes
-- waits for the next one.
pub record Inbox (base : ℕ) (all read buf : List ℕ) (rcv_nxt : ℕ) (state : TcpState) : Type 0 where
  pub got : ℕ
  pub got_fits : got ≤ length all
  pub stream : read ++ buf ≡ take got all
  pub nxt_fits : rcv_nxt < 2 ^ 32
  pub nxt_is : is_receiving state ≡ true → rcv_nxt ≡ (base + got) % 2 ^ 32

-- The bytes of a segment are those from an offset on.
pub record Slice (base : ℕ) (all : List ℕ) (seq : ℕ) (body : List ℕ) : Type 0 where
  pub start : ℕ
  pub seq_at : seq ≡ (base + start) % 2 ^ 32
  pub inside : start + length body ≤ length all
  pub bytes : body ≡ take (length body) (drop start all)

pub record Carries (base : ℕ) (all : List ℕ) (seg : Segment) : Type 0 where
  pub ack_fits : seg.ack < 2 ^ 32
  pub slice : 0 < length seg.body → Slice base all seg.seq seg.body

-- A stream in one direction: the number of its first byte and its bytes.
pub record Flow : Type 0 where
  pub base : ℕ
  pub bytes : List ℕ

-- A block between the stream that goes out and the one that comes in, of which the program has
-- `read`.
pub record Keeps (going coming : Flow) (read : List ℕ) (p : TcpPcb) : Type 0 where
  pub window : Window going.base going.bytes p.snd_una p.snd_nxt p.snd_buf p.fin_sent
  pub phase : Phase p.state p.fin_sent
  pub inbox : Inbox coming.base coming.bytes read p.rcv_buf p.rcv_nxt p.state

-- With the segments that it sends.
abbrev pub Sound : Flow → Flow → List ℕ → TcpPcb × List Segment → Type 0
Sound going coming read r = Keeps going coming read r.0 × All (Carries going.base going.bytes) r.1
