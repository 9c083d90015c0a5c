-- ===== src/Input.antt =====
-- kernel/input.c: the queue of input events behind /dev/input, a ring between `ev_read` and
-- `ev_write`. The address of `ev_waitq` is an argument.
pub mod Events
pub mod Read
mod Tests
use project_lariat.Prelude.{
  Bool, Errno, List, Option, [], eintr, einval, if◌then◌else◌, ltb, none, not, some, suc, zero, ℕ,
  ℤ, ◌%◌, ◌&&◌, ◌+◌, ◌/◌, ◌==◌, ◌∷◌,
}
use project_lariat.ThreadQueue.{update}
use project_lariat.Sched.{Sched, wq_wake_all}

abbrev pub input_qlen : ℕ
input_qlen = 256

-- `sizeof(struct input_event)`
abbrev pub event_size : ℕ
event_size = 12

-- `struct input_event`
pub record Event : Type 0 where
  pub kind : ℕ
  pub code : ℕ
  pub value : ℤ

pub record Input : Type 0 where
  pub ev_ring : ℕ → Event
  pub ev_read : ℕ
  pub ev_write : ℕ

-- `input_push` before it wakes the readers.
unfoldable pub store_event : Event → Input → Input
store_event e s =
    let next = (s.ev_write + 1) % input_qlen in
    if next == s.ev_read
    then s
    else record s { ev_ring = update s.ev_ring s.ev_write e; ev_write = next }

-- With fuel for the readers that wait at `ev_waitq`.
unfoldable pub input_push : ℕ → ℕ → Event → Input → Sched → Option (Input × Sched)
input_push fuel ev_waitq e s sched = elim (wq_wake_all fuel ev_waitq sched) [
  | none ↦ none
  | some sched' ↦ some (store_event e s, sched')
]

abbrev pub input_empty : Input → Bool
input_empty s = s.ev_read == s.ev_write

-- The loop of `input_read` with the room that is left.
unfoldable pub take_events : ℕ → Input → List Event × Input
take_events zero s = ([], s)
take_events (suc n) s =
    let (es, s') = take_events n (record s { ev_read = (s.ev_read + 1) % input_qlen }) in
    if input_empty s then ([], s) else (s.ev_ring s.ev_read ∷ es, s')

-- A pass of `WAIT_EVENT_INTR(ev_waitq, !input_empty(), intr)` in `input_read`, after the test of
-- `count`. Under `sched_lock` it finds an event and gives the lock back, or fails, or waits.
pub data InputWait : Type 0 where
  goes_on : InputWait
  stops : Errno → InputWait
  sleeps : InputWait

-- `signalled` is `sched_signal_pending`.
unfoldable pub input_wait : ℕ → Bool → Input → InputWait
input_wait count signalled s =
    if ltb count event_size
    then stops einval
    else if not (input_empty s)
    then goes_on
    else if signalled
    then stops eintr
    else sleeps

-- The rest of `input_read`, under `ev_lock`. Between the two steps other readers may have emptied the
-- ring.
unfoldable pub input_take : ℕ → Input → List Event × Input
unfolding take_events
input_take count s = take_events (count / event_size) s

-- `waits` is a pass that ends in the wait for an event.
pub data ReadEvents : Type 0 where
  reads : List Event → ReadEvents
  refuses : Errno → ReadEvents
  waits : ReadEvents

-- A read whose wait ends at `s` and that finds the ring as `later` when it takes `ev_lock`: its
-- result and the ring after it. A read that does not go on leaves the ring alone.
unfoldable pub input_read_from : ℕ → Bool → Input → Input → ReadEvents × Input
input_read_from count signalled s later = elim (input_wait count signalled s) [
  | goes_on ↦ let (es, after) = input_take count later in (reads es, after)
  | stops e ↦ (refuses e, later)
  | sleeps ↦ (waits, later)
]

-- A read that no other one comes between.
unfoldable pub input_read : ℕ → Bool → Input → ReadEvents × Input
unfolding input_read_from
input_read count signalled s = input_read_from count signalled s s

-- The bit `POLLIN` of `input_poll`.
unfoldable pub input_poll : Bool → Input → Bool
input_poll wants_in s = wants_in && not (input_empty s)
