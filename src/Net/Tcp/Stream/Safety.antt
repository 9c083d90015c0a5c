-- ===== src/Net/Tcp/Stream/Safety.antt =====
-- kernel/net/tcp.c: over any run of a connection, each program reads what the other one sent.
use project_lariat.Prelude.{
  All, All-append, All-get, All-map, List, [], ap, append-nil, append_assoc, ap₂, arith, drop,
  length, length-append, refl, subst, sym, take-append-drop, ℕ, ◌++◌, ◌+◌, ◌<◌, ◌^◌, ◌∙◌, ◌≡◌,
}
use project_lariat.Net.Tcp.{Segment, TcpState}
use project_lariat.Net.Tcp.Input.{is_receiving}
use project_lariat.Net.Tcp.Calls.{tcp_send}
use project_lariat.Net.Tcp.Stream.{Carries, Inbox, Keeps, Phase}
use project_lariat.Net.Tcp.Stream.Receiving.{tcp_receive-Replies}
use project_lariat.Net.Tcp.Stream.Closing.{tcp_close-Sound, tcp_rto_cb-Sound}
use project_lariat.Net.Tcp.Stream.Calling.{
  Carries-longer, coming-longer, takes, tcp_recv-Keeps, tcp_send-Sound,
}
use project_lariat.Net.Tcp.Stream.World.{
  Fresh, IsBare, Local, Reach, Side, Step, World, closes, flow, here, on_left, on_right, reads,
  receives, submits, then, times_out,
}

abbrev pub IsPrefix : List ℕ → List ℕ → Type 0
IsPrefix xs ys = (rest : List ℕ) × xs ++ rest ≡ ys

record Runs (left_base right_base : ℕ) (w : World) : Type 0 where
  left_keeps : Keeps (flow left_base w.left) (flow right_base w.right) w.left.read w.left.pcb
  right_keeps : Keeps (flow right_base w.right) (flow left_base w.left) w.right.read w.right.pcb
  left_carries : All (Carries left_base w.left.submitted) w.left.sent
  right_carries : All (Carries right_base w.right.submitted) w.right.sent

-- Fewer bytes than half of the sequence numbers, with the FIN.
abbrev pub IsSmall : Side → Type 0
IsSmall s = length s.submitted + 1 < 2 ^ 31

-- What a step at one end keeps.
record Moves (base other_base : ℕ) (other s s' : Side) : Type 0 where
  keeps : Keeps (flow base s') (flow other_base other) s'.read s'.pcb
  carries : All (Carries base s'.submitted) s'.sent

Local-grown :
    {other_sent : List Segment} (s s' : Side)
    → Local other_sent s s'
    → (more : List ℕ) × s'.submitted ≡ s.submitted ++ more
Local-grown _ _ (submits s body signal live) = (takes (tcp_send body signal s.pcb) body s.pcb, refl)
Local-grown _ _ (receives s i seg at) = ([], sym (append-nil s.submitted))
Local-grown _ _ (reads s len signal) = ([], sym (append-nil s.submitted))
Local-grown _ _ (times_out s) = ([], sym (append-nil s.submitted))
Local-grown _ _ (closes s) = ([], sym (append-nil s.submitted))

Local-Moves :
    (base other_base : ℕ) (other s s' : Side)
    → Local other.sent s s'
    → IsSmall s'
    → IsSmall other
    → Keeps (flow base s) (flow other_base other) s.read s.pcb
    → All (Carries base s.submitted) s.sent
    → All (Carries other_base other.submitted) other.sent
    → Moves base other_base other s s'
Local-Moves base other_base other _ _ (submits s body signal live) few less k c d =
    let r = tcp_send-Sound (flow base s) (flow other_base other) body signal s.pcb few live k in
    let new = takes (tcp_send body signal s.pcb) body s.pcb in
    record {
      keeps = r.0;
      carries = All-append _ s.sent _ (All-map (Carries-longer (flow base s) new) s.sent c) r.1;
    }
Local-Moves base other_base other _ _ (receives s i seg at) few less k c d =
    let r =
      tcp_receive-Replies (flow base s) (flow other_base other) few less s.read seg s.pcb
        (All-get (Carries other_base other.submitted) other.sent i seg d at) k in
    record { keeps = r.0; carries = All-append _ s.sent _ c r.1 }
Local-Moves base other_base other _ _ (reads s len signal) few less k c d = record {
  keeps = tcp_recv-Keeps (flow base s) (flow other_base other) s.read len signal s.pcb k;
  carries = c;
}
Local-Moves base other_base other _ _ (times_out s) few less k c d =
    let r = tcp_rto_cb-Sound (flow base s) (flow other_base other) s.pcb k in
    record { keeps = r.0; carries = All-append _ s.sent _ c r.1 }
Local-Moves base other_base other _ _ (closes s) few less k c d =
    let r = tcp_close-Sound (flow base s) (flow other_base other) s.pcb k in
    record { keeps = r.0; carries = All-append _ s.sent _ c r.1 }

-- The other end over a step here.
other-Keeps :
    (base other_base : ℕ) (other s s' : Side) (more : List ℕ)
    → s'.submitted ≡ s.submitted ++ more
    → Keeps (flow other_base other) (flow base s) other.read other.pcb
    → Keeps (flow other_base other) (flow base s') other.read other.pcb
other-Keeps base other_base other s s' more e k =
    subst
      (λ b. Keeps (flow other_base other) (record { base = base; bytes = b }) other.read other.pcb)
      (sym e) (coming-longer (flow base s) more other.pcb k)

IsSmall-before :
    (s s' : Side) (more : List ℕ) → s'.submitted ≡ s.submitted ++ more → IsSmall s' → IsSmall s
IsSmall-before s s' more e h = omega (arith, ap length e, length-append s.submitted more)

Fresh-Keeps :
    (base other_base : ℕ) (s other : Side)
    → Fresh base other_base s
    → other.submitted ≡ []
    → Keeps (flow base s) (flow other_base other) s.read s.pcb
unfolding is_receiving
Fresh-Keeps base other_base s other f nothing = record {
  window = record {
    una = 0;
    out = 0;
    una_at = omega (arith, f.una_at);
    nxt_at = omega (arith, f.nxt_at);
    held = f.unsent ∙ sym f.no_submitted;
    within = omega arith;
  };
  phase =
      subst (λ x. Phase x s.pcb.fin_sent) (sym f.joined)
        (record {
          joined = refl;
          open_before = λ e. f.unfinished;
          half_before = λ e. f.unfinished;
        });
  inbox = record {
    got = 0;
    got_fits = omega arith;
    stream = ap₂ (◌++◌) f.no_read f.unread;
    nxt_fits = omega (arith, f.rcv_at);
    nxt_is = λ h. omega (arith, f.rcv_at);
  };
}

Step-Runs :
    (left_base right_base : ℕ) (v w : World)
    → Step v w
    → IsSmall w.left
    → IsSmall w.right
    → (IsSmall v.left → IsSmall v.right → Runs left_base right_base v)
    → Runs left_base right_base w
Step-Runs a b _ _ (on_left l r l' step) few less before =
    let grown = Local-grown l l' step in
    let h = before (IsSmall-before l l' grown.0 grown.1 few) less in
    let m = Local-Moves a b r l l' step few less h.left_keeps h.left_carries h.right_carries in
    record {
      left_keeps = m.keeps;
      right_keeps = other-Keeps a b r l l' grown.0 grown.1 h.right_keeps;
      left_carries = m.carries;
      right_carries = h.right_carries;
    }
Step-Runs a b _ _ (on_right l r r' step) few less before =
    let grown = Local-grown r r' step in
    let h = before few (IsSmall-before r r' grown.0 grown.1 less) in
    let m = Local-Moves b a l r r' step less few h.right_keeps h.right_carries h.left_carries in
    record {
      left_keeps = other-Keeps b a l r r' grown.0 grown.1 h.left_keeps;
      right_keeps = m.keeps;
      left_carries = h.left_carries;
      right_carries = m.carries;
    }

IsBare-Carries : (base : ℕ) (all : List ℕ) (seg : Segment) → IsBare seg → Carries base all seg
IsBare-Carries base all seg h = record {
  ack_fits = h.0;
  slice = λ k. absurd (omega (arith, ap length h.1));
}

Reach-Runs :
    (left_base right_base : ℕ) (start w : World)
    → Fresh left_base right_base start.left
    → Fresh right_base left_base start.right
    → Reach start w
    → IsSmall w.left
    → IsSmall w.right
    → Runs left_base right_base w
Reach-Runs a b start _ f g here few less = record {
  left_keeps = Fresh-Keeps a b start.left start.right f g.no_submitted;
  right_keeps = Fresh-Keeps b a start.right start.left g f.no_submitted;
  left_carries = All-map (IsBare-Carries a start.left.submitted) start.left.sent f.only_bare;
  right_carries = All-map (IsBare-Carries b start.right.submitted) start.right.sent g.only_bare;
}
Reach-Runs a b start _ f g (then v w reach step) few less =
    Step-Runs a b v w step few less (Reach-Runs a b start v f g reach)

prefix_of :
    {base : ℕ} {all read buf : List ℕ} {rcv_nxt : ℕ} {state : TcpState}
    → Inbox base all read buf rcv_nxt state
    → IsPrefix read all
prefix_of {all} {read} {buf} i = (
  buf ++ drop i.got all,
  sym (append_assoc read buf (drop i.got all))
      ∙ ap (λ xs. xs ++ drop i.got all) i.stream
      ∙ take-append-drop i.got all,
)

-- Two ends are connected, each with the numbers that the other one expects. Then whatever the
-- programs call, but for a send after their close, whenever the timers run out, and whichever
-- segments the network loses, repeats or reorders, the bytes that each program has read are the first
-- bytes of those that `tcp_send` took from the other one, as long as each has sent fewer than
-- 2^31 - 1 bytes.
pub read-IsPrefix :
    (left_base right_base : ℕ) (start w : World)
    → Fresh left_base right_base start.left
    → Fresh right_base left_base start.right
    → Reach start w
    → IsSmall w.left
    → IsSmall w.right
    → IsPrefix w.right.read w.left.submitted × IsPrefix w.left.read w.right.submitted
read-IsPrefix a b start w f g reach few less =
    let h = Reach-Runs a b start w f g reach few less in
    (prefix_of h.right_keeps.inbox, prefix_of h.left_keeps.inbox)
