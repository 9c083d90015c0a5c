-- ===== src/Ipc/Calls.antt =====
-- kernel/ipc/port.c: sequences of sends to a port and receives from it, and what one of them does.
use project_lariat.Prelude.{
  All, Bool, Bool-cases, Errno, List, Option-cases, Result, [], ap, arith, e2big, einval, enomem,
  err, false, inl, inr, length, length-append, ltb, max, ok, pos, refl, subst, suc, sym, take, true,
  ℕ, ◌++◌, ◌+◌, ◌-◌, ◌<◌, ◌∙◌, ◌∷◌, ◌≡◌, ◌≤◌, ◌⊎◌,
}
use project_lariat.Ipc.{
  Ipc, Msg, Port, Received, blocks, fails, got, ipc_port_recv, ipc_port_send, max_ports, msg_max,
  recv_empty, recv_from, send_to,
}
use project_lariat.ThreadQueue.{update}
use project_lariat.Sched.{sched_wait_locked, sched_wq_wake_n}

pub data Call : Type 0 where
  sends : List ℕ → ℕ → Bool → Call
  receives : ℕ → Bool → Bool → Call

-- The buffers that were accepted and the messages that were returned, oldest first, and the state.
pub record History : Type 0 where
  pub sent : List (List ℕ)
  pub received : List (List ℕ)
  pub ipc : Ipc

abbrev pub sent_by : List ℕ → Result ℕ → List (List ℕ)
sent_by buf (ok n) = buf ∷ []
sent_by buf (err e) = []

abbrev pub received_by : Received → List (List ℕ)
received_by (got xs) = xs ∷ []
received_by (fails e) = []
received_by blocks = []

abbrev pub behind : List (List ℕ) → List (List ℕ) → History → History
behind xs ys h = record { sent = xs ++ h.sent; received = ys ++ h.received; ipc = h.ipc }

unfoldable pub run : ℕ → List Call → Ipc → History
run i [] s = record { sent = []; received = []; ipc = s }
run i (sends buf sender allocated ∷ cs) s =
    let (r, s') = ipc_port_send (pos i) buf sender allocated s in
    behind (sent_by buf r) [] (run i cs s')
run i (receives max nonblock signalled ∷ cs) s =
    let (r, s') = ipc_port_recv (pos i) max nonblock signalled s in
    behind [] (received_by r) (run i cs s')

unfoldable pub bodies : List Msg → List (List ℕ)
bodies [] = []
bodies (m ∷ ms) = m.bytes ∷ bodies ms

abbrev pub Fits : Msg → Type 0
Fits m = length m.bytes ≤ msg_max

-- The port is open, its messages are no longer than `msg_max`, and `count` counts them.
pub record Serves (p : Port) : Type 0 where
  pub opened : p.is_open ≡ true
  pub fitting : All Fits p.queue
  pub counted : p.count ≡ length p.queue

abbrev pub IsServing : ℕ → Ipc → Type 0
IsServing i s = (i < max_ports) × Serves (s.ports i)

-- Every receiver has room for a whole message.
abbrev pub Roomy : List Call → Type 0
Roomy [] = Unit {0}
Roomy (sends buf sender allocated ∷ cs) = Roomy cs
Roomy (receives max nonblock signalled ∷ cs) = (msg_max ≤ max) × Roomy cs

bodies-append_one : (ms : List Msg) (m : Msg) → bodies (ms ++ m ∷ []) ≡ bodies ms ++ m.bytes ∷ []
unfolding bodies
bodies-append_one [] m = refl
bodies-append_one (x ∷ ms) m = ap (◌∷◌ x.bytes) (bodies-append_one ms m)

pub All-append_one : (ms : List Msg) (m : Msg) → All Fits ms → Fits m → All Fits (ms ++ m ∷ [])
All-append_one [] m h f = (f, tt)
All-append_one (x ∷ ms) m h f = (h.0, All-append_one ms m h.1 f)

-- The state after a send that is accepted, and after a receive that takes the first message.
abbrev pub delivered : ℕ → Msg → Ipc → Ipc
delivered i m s = record {
  ports =
      update s.ports i
        (record (s.ports i) { queue = (s.ports i).queue ++ m ∷ []; count = (s.ports i).count + 1 });
  sched = (sched_wq_wake_n i 1 s.sched).1;
}

abbrev pub taken : ℕ → List Msg → Ipc → Ipc
taken i rest s = record s {
  ports = update s.ports i (record (s.ports i) { queue = rest; count = (s.ports i).count - 1 });
}

pub send_result :
    (i : ℕ) (buf : List ℕ) (sender : ℕ) (allocated : Bool) (s : Ipc)
    → i < max_ports
    → ((e : Errno) × (ipc_port_send (pos i) buf sender allocated s ≡ (err e, s)))
      ⊎ ((length buf ≤ msg_max)
          × (ipc_port_send (pos i) buf sender allocated s
              ≡ (ok (length buf), delivered i (record { sender = sender; bytes = buf }) s)))
unfolding ipc_port_send send_to
send_result i buf sender allocated s h = elim (Bool-cases (ltb msg_max (length buf))) [
  | inl long ↦ inl (e2big, ground (arith, long))
  | inr fits ↦ elim (Bool-cases allocated) [
    | inr no_memory ↦ inl (enomem, ground (arith, fits, no_memory))
    | inl memory ↦ elim (Bool-cases (s.ports i).is_open) [
      | inr shut ↦ inl (einval, ground (arith, fits, memory, shut))
      | inl opened ↦ inr (ground (arith, fits), ground (arith, fits, memory, opened))
    ]
  ]
]

update_at {ℓ} : {A : Type ℓ} (f : ℕ → A) (i : ℕ) (v : A) → update f i v i ≡ v
update_at f i v = ground arith

pub delivered-Serves :
    (i : ℕ) (m : Msg) (s : Ipc)
    → Serves (s.ports i)
    → Fits m
    → Serves ((delivered i m s).ports i)
      × (bodies ((delivered i m s).ports i).queue ≡ bodies (s.ports i).queue ++ m.bytes ∷ [])
delivered-Serves i m s v f =
    let q = (s.ports i).queue in
    subst (λ p. Serves p × (bodies p.queue ≡ bodies q ++ m.bytes ∷ []))
      (sym (update_at s.ports i _))
      (
        record {
          opened = v.opened;
          fitting = All-append_one q m v.fitting f;
          counted = omega (arith, v.counted, length-append q (m ∷ []));
        },
        bodies-append_one q m,
      )

pub taken-Serves :
    (i : ℕ) (m : Msg) (rest : List Msg) (s : Ipc)
    → Serves (s.ports i)
    → (s.ports i).queue ≡ m ∷ rest
    → Fits m × Serves ((taken i rest s).ports i) × (((taken i rest s).ports i).queue ≡ rest)
taken-Serves i m rest s v e =
    let fitting : All Fits (m ∷ rest) = subst (All Fits) e v.fitting in
    let more : (s.ports i).count ≡ suc (length rest) = v.counted ∙ ap length e in
    (
      fitting.0,
      subst (λ p. Serves p) (sym (update_at s.ports i _))
          (record { opened = v.opened; fitting = fitting.1; counted = omega (arith, more) }),
      ap (λ (p : Port). p.queue) (update_at s.ports i _),
    )

pub recv_empty_keeps :
    (i : ℕ) (nonblock signalled : Bool) (s : Ipc)
    → let (r, s') = recv_empty i nonblock signalled s in (received_by r ≡ []) × (s'.ports ≡ s.ports)
unfolding recv_empty
recv_empty_keeps i true signalled s = (refl, refl)
recv_empty_keeps i false true s = (refl, refl)
recv_empty_keeps i false false s = elim (Option-cases (sched_wait_locked 1 i s.sched)) [
  | inl e ↦ rw (e, recv_empty) (refl, refl)
  | inr (after, e) ↦ rw (e, recv_empty) (refl, refl)
]

pub recv_nothing :
    (i max : ℕ) (nonblock signalled : Bool) (s : Ipc)
    → i < max_ports
    → (s.ports i).is_open ≡ true
    → (s.ports i).queue ≡ []
    → ipc_port_recv (pos i) max nonblock signalled s ≡ recv_empty i nonblock signalled s
unfolding ipc_port_recv recv_from
recv_nothing i max nonblock signalled s h opened e = ground (arith, opened, e)

pub recv_first :
    (i max : ℕ) (nonblock signalled : Bool) (s : Ipc) (m : Msg) (rest : List Msg)
    → i < max_ports
    → (s.ports i).is_open ≡ true
    → (s.ports i).queue ≡ m ∷ rest
    → ipc_port_recv (pos i) max nonblock signalled s ≡ (got (take max m.bytes), taken i rest s)
unfolding ipc_port_recv recv_from
recv_first i max nonblock signalled s m rest h opened e = ground (arith, opened, e)
