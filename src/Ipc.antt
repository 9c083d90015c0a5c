-- ===== src/Ipc.antt =====
-- kernel/ipc/port.c and include/ipc.h: named message ports. The static table `ports` is a function
-- of the index below `max_ports`; the queue from `head` through `next` to `tail` is the list of its
-- messages. The address of the wait queue `ports[i].recvq` is `i`. Each function is one step under
-- the scheduler lock; a C string is the list of its bytes without the NUL, none of them 0.
pub mod Find
pub mod Names
pub mod LongNames
pub mod Calls
pub mod Fifo
mod Tests
use project_lariat.Prelude.{
  Bool, Errno, List, Option, Result, [], e2big, eagain, eexist, eintr, einval, enoent, enomem,
  enospc, err, false, if◌then◌else◌, length, ltb, max, negsuc, none, not, ok, pos, some, suc, take,
  true, zero, ℕ, ℤ, ◌&&◌, ◌++◌, ◌+◌, ◌-◌, ◌==◌, ◌∷◌,
}
use project_lariat.ThreadQueue.{empty_queue, update}
use project_lariat.Sched.{Sched, sched_wait_locked, sched_wq_wake_n}

abbrev pub name_max : ℕ
name_max = 32

abbrev pub msg_max : ℕ
msg_max = 4096

abbrev pub max_ports : ℕ
max_ports = 128

-- `struct ipc_msg`; its `len` is the number of its bytes.
pub record Msg : Type 0 where
  pub sender : ℕ
  pub bytes : List ℕ

pub record Port : Type 0 where
  pub is_open : Bool
  pub name : List ℕ
  pub owner : ℕ
  pub queue : List Msg
  pub count : ℕ

pub record Ipc : Type 0 where
  pub ports : ℕ → Port
  pub sched : Sched

-- `ipc_init`; the wait queues of the ports are those at the addresses of their indices.
unfoldable pub ipc_init : Ipc → Ipc
ipc_init s = record {
  ports = λ i.
      if ltb i max_ports
      then record (s.ports i) { is_open = false; queue = []; count = 0 }
      else s.ports i;
  sched = record s.sched {
    queues = λ wq. if ltb wq max_ports then empty_queue else s.sched.queues wq;
  };
}

-- `strcmp(a, b) == 0`
abbrev pub same_name : List ℕ → List ℕ → Bool
same_name [] [] = true
same_name [] (y ∷ ys) = false
same_name (x ∷ xs) [] = false
same_name (x ∷ xs) (y ∷ ys) = x == y && same_name xs ys

abbrev pub is_named : List ℕ → Port → Bool
is_named name p = p.is_open && same_name p.name name

-- The loops over the table, with the rounds left and the index.
unfoldable pub find_named : ℕ → ℕ → List ℕ → (ℕ → Port) → Option ℕ
find_named zero i name ports = none
find_named (suc n) i name ports =
    let rest = find_named n (i + 1) name ports in if is_named name (ports i) then some i else rest

unfoldable pub find_unused : ℕ → ℕ → (ℕ → Port) → Option ℕ
find_unused zero i ports = none
find_unused (suc n) i ports =
    let rest = find_unused n (i + 1) ports in if (ports i).is_open then rest else some i

-- The port that `ipc_port_register` makes; at most `name_max - 1` bytes of the name are kept.
abbrev pub new_port : List ℕ → ℕ → Port
new_port name owner = record {
  is_open = true;
  name = take (name_max - 1) name;
  owner = owner;
  queue = [];
  count = 0;
}

-- `ports[i].recvq = WAIT_QUEUE_INIT` beside the new port.
unfoldable pub install : ℕ → List ℕ → ℕ → Ipc → Ipc
install i name owner s = record {
  ports = update s.ports i (new_port name owner);
  sched = record s.sched { queues = update s.sched.queues i empty_queue };
}

unfoldable pub register_named : List ℕ → ℕ → Ipc → Result ℕ × Ipc
register_named name owner s = elim (find_named max_ports 0 name s.ports) [
  | some i ↦ (err eexist, s)
  | none ↦ elim (find_unused max_ports 0 s.ports) [
    | some i ↦ (ok i, install i name owner s)
    | none ↦ (err enospc, s)
  ]
]

-- The argument is `none` for a null pointer.
unfoldable pub ipc_port_register : Option (List ℕ) → ℕ → Ipc → Result ℕ × Ipc
unfolding register_named
ipc_port_register none owner s = (err einval, s)
ipc_port_register (some []) owner s = (err einval, s)
ipc_port_register (some (c ∷ cs)) owner s = register_named (c ∷ cs) owner s

unfoldable pub ipc_port_lookup : Option (List ℕ) → Ipc → Result ℕ
ipc_port_lookup none s = err einval
ipc_port_lookup (some name) s = elim (find_named max_ports 0 name s.ports) [
  | some i ↦ ok i
  | none ↦ err enoent
]

-- `id < 0 || id >= IPC_MAX_PORTS` leaves no index.
abbrev pub index_of : ℤ → Option ℕ
index_of (pos i) = if ltb i max_ports then some i else none
index_of (negsuc i) = none

-- `allocated` is whether `kmalloc` finds memory for the message.
unfoldable pub send_to : ℕ → List ℕ → ℕ → Bool → Ipc → Result ℕ × Ipc
send_to i buf sender allocated s =
    let p = s.ports i in
    let msg : Msg = record { sender = sender; bytes = buf } in
    if ltb msg_max (length buf)
    then (err e2big, s)
    else if not allocated
    then (err enomem, s)
    else if not p.is_open
    then (err einval, s)
    else (
      ok (length buf),
      record {
        ports = update s.ports i (record p { queue = p.queue ++ msg ∷ []; count = p.count + 1 });
        sched = (sched_wq_wake_n i 1 s.sched).1;
      },
    )

unfoldable pub ipc_port_send : ℤ → List ℕ → ℕ → Bool → Ipc → Result ℕ × Ipc
ipc_port_send id buf sender allocated s = elim (index_of id) [
  | none ↦ (err einval, s)
  | some i ↦ send_to i buf sender allocated s
]

-- One pass of the loop of `ipc_port_recv`: it returns, or the thread has blocked and comes back to
-- the head of the loop when it is woken.
pub data Received : Type 0 where
  got : List ℕ → Received
  fails : Errno → Received
  blocks : Received

-- `signalled` is `sched_signal_pending`. The fuel of `sched_wait_locked` is for a branch that a
-- thread outside the ready queue does not take.
unfoldable pub recv_empty : ℕ → Bool → Bool → Ipc → Received × Ipc
recv_empty i nonblock signalled s =
    if nonblock
    then (fails eagain, s)
    else if signalled
    then (fails eintr, s)
    else elim (sched_wait_locked 1 i s.sched) [
      | none ↦ (blocks, s)
      | some sched ↦ (blocks, record s { sched = sched })
    ]

unfoldable pub recv_from : ℕ → ℕ → Bool → Bool → Ipc → Received × Ipc
recv_from i max nonblock signalled s =
    let p = s.ports i in
    if not p.is_open then (fails einval, s) else elim p.queue [
      | [] ↦ recv_empty i nonblock signalled s
      | m ∷ rest ↦ (
        got (take max m.bytes),
        record s { ports = update s.ports i (record p { queue = rest; count = p.count - 1 }) },
      )
    ]

unfoldable pub ipc_port_recv : ℤ → ℕ → Bool → Bool → Ipc → Received × Ipc
ipc_port_recv id max nonblock signalled s = elim (index_of id) [
  | none ↦ (fails einval, s)
  | some i ↦ recv_from i max nonblock signalled s
]

unfoldable pub close_at : ℕ → Ipc → Ipc
close_at i s =
    let p = s.ports i in
    if p.is_open
    then record s { ports = update s.ports i (record p { is_open = false; queue = []; count = 0 }) }
    else s

unfoldable pub ipc_port_close : ℤ → Ipc → Ipc
ipc_port_close id s = elim (index_of id) [ none ↦ s | some i ↦ close_at i s ]
