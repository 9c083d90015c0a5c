-- ===== src/Ipc/Fifo.antt =====
-- kernel/ipc/port.c: an open port as a FIFO of messages.
use project_lariat.Prelude.{
  Bool, List, [], ap, append-nil, append_assoc, arith, inl, inr, refl, subst, sym, ℕ, ◌++◌, ◌<◌,
  ◌∙◌, ◌∷◌, ◌≡◌, ◌≤◌,
}
use project_lariat.Ipc.{Ipc, Msg, Port, max_ports, msg_max, recv_empty}
use project_lariat.Ipc.Calls.{
  Call, Fits, History, IsServing, Roomy, Serves, behind, bodies, delivered, delivered-Serves,
  receives, recv_empty_keeps, recv_first, recv_nothing, run, send_result, sends, taken,
  taken-Serves,
}
use project_lariat.Ipc.Find.{take_all}

-- What was received and what still waits is what waited and what was sent.
abbrev Flows : ℕ → Ipc → History → Type 0
Flows i s h =
    (h.received ++ bodies (h.ipc.ports i).queue ≡ bodies (s.ports i).queue ++ h.sent)
    × Serves (h.ipc.ports i)

Flows-send :
    (i : ℕ) (m : Msg) (s : Ipc) (h : History)
    → Serves (s.ports i)
    → Fits m
    → Flows i (delivered i m s) h
    → Flows i s (behind (m.bytes ∷ []) [] h)
Flows-send i m s h v f w =
    let q = bodies (s.ports i).queue in
    (
      w.0
          ∙ (ap (λ xs. xs ++ h.sent) (delivered-Serves i m s v f).1
              ∙ append_assoc q (m.bytes ∷ []) h.sent),
      w.1,
    )

Flows-receive :
    (i : ℕ) (m : Msg) (rest : List Msg) (s : Ipc) (h : History)
    → Serves (s.ports i)
    → (s.ports i).queue ≡ m ∷ rest
    → Flows i (taken i rest s) h
    → Flows i s (behind [] (m.bytes ∷ []) h)
unfolding bodies
Flows-receive i m rest s h v e w =
    let left = (taken-Serves i m rest s v e).2 in
    (
      ap (◌∷◌ m.bytes) (w.0 ∙ ap (λ q. bodies q ++ h.sent) left)
          ∙ ap (λ q. bodies q ++ h.sent) (sym e),
      w.1,
    )

-- Where a receiver finds no message, only the scheduler has changed.
Flows-same : (i : ℕ) (s s' : Ipc) (h : History) → s'.ports ≡ s.ports → Flows i s' h → Flows i s h
Flows-same i s s' h e w = (
  subst
      (λ (ports : ℕ → Port).
        h.received ++ bodies (h.ipc.ports i).queue ≡ bodies (ports i).queue ++ h.sent)
      e w.0,
  w.1,
)

receive-Flows :
    (i room : ℕ) (nonblock signalled : Bool) (cs : List Call) (s : Ipc)
    → i < max_ports
    → Serves (s.ports i)
    → msg_max ≤ room
    → ((s' : Ipc) → Serves (s'.ports i) → Flows i s' (run i cs s'))
    → (q : List Msg) → (s.ports i).queue ≡ q
    → Flows i s (run i (receives room nonblock signalled ∷ cs) s)
unfolding run
receive-Flows i room nonblock signalled cs s b v h go [] e =
    let (none_got, kept) = recv_empty_keeps i nonblock signalled s in
    let s' = (recv_empty i nonblock signalled s).1 in
    rw (recv_nothing i room nonblock signalled s b v.opened e, none_got)
      (Flows-same i s s' (run i cs s') kept
        (go s' (subst (λ (ports : ℕ → Port). Serves (ports i)) (sym kept) v)))
receive-Flows i room nonblock signalled cs s b v h go (m ∷ rest) e =
    let (fits, served, left) = taken-Serves i m rest s v e in
    rw (recv_first i room nonblock signalled s m rest b v.opened e) (
      rw (take_all room m.bytes (omega (arith, fits, h)))
        (Flows-receive i m rest s (run i cs (taken i rest s)) v e (go (taken i rest s) served)))

run-Flows :
    (i : ℕ) (cs : List Call) (s : Ipc)
    → i < max_ports
    → Serves (s.ports i)
    → Roomy cs
    → Flows i s (run i cs s)
unfolding run
run-Flows i [] s b v roomy = (sym (append-nil (bodies (s.ports i).queue)), v)
run-Flows i (sends buf sender allocated ∷ cs) s b v roomy =
    elim (send_result i buf sender allocated s b) [
      | inl (e, same) ↦ rw (same, run) (run-Flows i cs s b v roomy)
      | inr (fits, same) ↦
          let m : Msg = record { sender = sender; bytes = buf } in
          rw (same, run)
            (Flows-send i m s (run i cs (delivered i m s)) v fits
              (run-Flows i cs (delivered i m s) b (delivered-Serves i m s v fits).0 roomy))
    ]
run-Flows i (receives room nonblock signalled ∷ cs) s b v roomy =
    receive-Flows i room nonblock signalled cs s b v roomy.0
      (λ s' v'. run-Flows i cs s' b v' roomy.1) (s.ports i).queue refl

-- In any sequence of sends to and receives from a port that is open, where each receiver has room
-- for a whole message, the messages received and then those that still wait are those that waited
-- and then those whose send was accepted: each once, whole and in order. The port stays open, with
-- its count right and no message longer than `msg_max`.
pub port_delivers :
    (i : ℕ) (cs : List Call) (s : Ipc)
    → IsServing i s
    → Roomy cs
    → let h = run i cs s in
      (h.received ++ bodies (h.ipc.ports i).queue ≡ bodies (s.ports i).queue ++ h.sent)
      × IsServing i h.ipc
port_delivers i cs s v roomy =
    let (flow, served) = run-Flows i cs s v.0 v.1 roomy in (flow, (v.0, served))
