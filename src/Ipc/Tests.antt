-- ===== src/Ipc/Tests.antt =====
-- kernel/ipc/port.c: a table with one open port.
use project_lariat.Prelude.{
  List, [], arith, eexist, enoent, err, false, none, ok, refl, some, true, ℕ, ◌++◌, ◌∷◌, ◌≡◌, ◌≢◌,
}
use project_lariat.ThreadQueue.{empty_queue, update}
use project_lariat.Sched.{Sched, running}
use project_lariat.Ipc.{
  Ipc, Msg, Port, find_named, find_unused, install, ipc_port_lookup, ipc_port_register,
  register_named,
}
use project_lariat.Ipc.Names.{HasUniqueNames, register-lookup}
use project_lariat.Ipc.LongNames.{HasShortNames, long_name_lost}
use project_lariat.Ipc.Calls.{Call, IsServing, bodies, receives, run, sends}
use project_lariat.Ipc.Fifo.{port_delivers}

abbrev lone : Sched
lone = record {
  next = λ t. none;
  state = λ t. running;
  wait_q = λ t. none;
  wakeup_tick = λ t. 0;
  ready_queue = empty_queue;
  queues = λ wq. empty_queue;
  sleep_list = none;
  current = 1;
  idle = 0;
}

abbrev shut : Port
shut = record { is_open = false; name = []; owner = 0; queue = []; count = 0 }

abbrev none_open : Ipc
none_open = record { ports = λ i. shut; sched = lone }

abbrev msg : ℕ → Msg
msg b = record { sender = 5; bytes = b ∷ [] }

-- The port 0, named `a`, with one message.
abbrev one_open : Ipc
one_open = record {
  ports =
      update (λ i. shut) 0
        (record { is_open = true; name = 97 ∷ []; owner = 5; queue = msg 1 ∷ []; count = 1 });
  sched = lone;
}

abbrev long_name : List ℕ
long_name =
    1 ∷ 2 ∷ 3 ∷ 4 ∷ 5 ∷ 6 ∷ 7 ∷ 8 ∷ 9 ∷ 10 ∷ 11 ∷ 12 ∷ 13 ∷ 14 ∷ 15 ∷ 16 ∷ 1 ∷ 2 ∷ 3 ∷ 4 ∷ 5 ∷ 6 ∷ 7
    ∷ 8 ∷ 9 ∷ 10 ∷ 11 ∷ 12 ∷ 13 ∷ 14 ∷ 15 ∷ 16 ∷ []

none_open_unique : HasUniqueNames none_open
none_open_unique i j name a b e f = absurd (ground arith)

none_open-short : HasShortNames none_open
none_open-short i h = omega arith

register_first :
    ipc_port_register (some (97 ∷ [])) 5 none_open ≡ (ok 0, install 0 (97 ∷ []) 5 none_open)
unfolding ipc_port_register register_named find_named find_unused
register_first = refl

register-lookup_example :
    (ipc_port_lookup (some (97 ∷ [])) (install 0 (97 ∷ []) 5 none_open) ≡ ok 0)
    × HasUniqueNames (install 0 (97 ∷ []) 5 none_open)
register-lookup_example =
    register-lookup (97 ∷ []) 5 none_open (install 0 (97 ∷ []) 5 none_open) 0 (omega arith)
      none_open_unique register_first

long_name_lost_example :
    let (r, s') = ipc_port_register (some long_name) 5 none_open in
    (r ≢ err eexist) × HasShortNames s' × (ipc_port_lookup (some long_name) s' ≡ err enoent)
long_name_lost_example = long_name_lost long_name 5 none_open (omega arith) none_open-short

one_open-Serves : IsServing 0 one_open
one_open-Serves =
    (omega arith, record { opened = refl; fitting = (omega arith, tt); counted = refl })

abbrev calls : List Call
calls = sends (2 ∷ []) 6 true ∷ receives 4096 false false ∷ sends (3 ∷ []) 6 false ∷ []

port_delivers_example :
    let h = run 0 calls one_open in
    (h.received ++ bodies (h.ipc.ports 0).queue ≡ (1 ∷ []) ∷ h.sent) × IsServing 0 h.ipc
unfolding bodies
port_delivers_example = port_delivers 0 calls one_open one_open-Serves (omega arith, tt)
