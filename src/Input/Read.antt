-- ===== src/Input/Read.antt =====
-- kernel/input.c: what a read takes from the ring.
use project_lariat.Prelude.{
  Bool, Bool-cases, Errno, [], ap, arith, drop, eintr, einval, false, inl, inr, length, ltb, refl,
  subst, suc, take, true, zero, ℕ, ◌%◌, ◌+◌, ◌/◌, ◌<◌, ◌∷◌, ◌≡◌, ◌≢◌, ◌≤◌, ◌⊎◌,
}
use project_lariat.Input.{
  Input, ReadEvents, event_size, input_empty, input_qlen, input_read_from, input_take, input_wait,
  reads, refuses, take_events, waits,
}
use project_lariat.Input.Events.{IsInside, events, length-ring_from, ring_from, size_of}

abbrev advanced : Input → Input
advanced s = record s { ev_read = (s.ev_read + 1) % input_qlen }

take_stop : (n : ℕ) (s : Input) → input_empty s ≡ true → take_events (suc n) s ≡ ([], s)
unfolding take_events
take_stop n s e = ground (arith, e)

take_more :
    (n : ℕ) (s : Input)
    → input_empty s ≡ false
    → let (es, s') = take_events n (advanced s) in
      take_events (suc n) s ≡ (s.ev_ring s.ev_read ∷ es, s')
unfolding take_events
take_more n s e = ground (arith, e)

take_events-ring :
    (n : ℕ) (s : Input) (c : ℕ)
    → size_of s ≡ c
    → IsInside s
    → let (es, s') = take_events n s in
      (es ≡ take n (ring_from s.ev_ring s.ev_read c))
      × (events s' ≡ drop n (ring_from s.ev_ring s.ev_read c))
      × IsInside s'
unfolding take_events
take_events-ring zero s c e v = (refl, ap (ring_from s.ev_ring s.ev_read) e, v)
take_events-ring (suc n) s zero e v =
    rw (take_stop n s (ground (arith, e, v.read_inside, v.write_inside)))
      (refl, ap (ring_from s.ev_ring s.ev_read) e, v)
take_events-ring (suc n) s (suc c) e v =
    let here : s.ev_read ≢ s.ev_write = λ same. omega (arith, e, same, v.read_inside) in
    let (shown, left, inside) =
      take_events-ring n (advanced s) c (omega (arith, e, v.read_inside, v.write_inside))
        (record { read_inside = omega arith; write_inside = v.write_inside }) in
    rw (take_more n s (ground (arith, here))) (ap (◌∷◌ (s.ev_ring s.ev_read)) shown, left, inside)

-- What `input_read` into `count` bytes may do.
pub data ReadOutcome (count : ℕ) (signalled : Bool) (s : Input) : ReadEvents × Input → Type 0 where
  too_small : count < event_size → ReadOutcome count signalled s (refuses einval, s)
  some_events :
      (s' : Input)
      → event_size ≤ count
      → events s ≢ []
      → events s' ≡ drop (count / event_size) (events s)
      → IsInside s'
      → ReadOutcome count signalled s (reads (take (count / event_size) (events s)), s')
  interrupted : events s ≡ [] → signalled ≡ true → ReadOutcome count signalled s (refuses eintr, s)
  no_event : events s ≡ [] → signalled ≡ false → ReadOutcome count signalled s (waits, s)

events_empty : (s : Input) → IsInside s → input_empty s ≡ true → events s ≡ []
events_empty s v e =
    let none_left : size_of s ≡ 0 = ground (arith, e, v.read_inside) in
    ap (ring_from s.ev_ring s.ev_read) none_left

events_some : (s : Input) → IsInside s → input_empty s ≡ false → events s ≢ []
events_some s v e q =
    let differ : s.ev_read ≢ s.ev_write = ground (arith, e) in
    differ (
      omega (
        arith,
        length-ring_from s.ev_ring s.ev_read (size_of s),
        ap length q,
        v.read_inside,
        v.write_inside,
      ))

-- What a read does whose wait ended at `s` and that finds the ring as `later` under `ev_lock`.
pub data InterleavedOutcome (count : ℕ) (signalled : Bool) (s later : Input)
    : ReadEvents × Input → Type 0 where
  oldest :
      (after : Input)
      → event_size ≤ count
      → events s ≢ []
      → events after ≡ drop (count / event_size) (events later)
      → IsInside after
      → InterleavedOutcome count signalled s later
          (reads (take (count / event_size) (events later)), after)
  ends :
      (e : Errno)
      → ((e ≡ einval) × (count < event_size))
        ⊎ ((e ≡ eintr) × (event_size ≤ count) × (events s ≡ []) × (signalled ≡ true))
      → InterleavedOutcome count signalled s later (refuses e, later)
  blocks :
      event_size ≤ count
      → events s ≡ []
      → signalled ≡ false
      → InterleavedOutcome count signalled s later (waits, later)

-- A read whose wait found an event takes the oldest events that are there when it has `ev_lock`, as
-- many as fit whole, and leaves the others in order; if other readers have emptied the ring in
-- between it gives none, which a reader takes for the end of the file. A read that does not come that
-- far is refused or waits, on the conditions of the wait alone, and leaves the ring as it is.
pub input_read_from-Outcome :
    (count : ℕ) (signalled : Bool) (s later : Input)
    → IsInside s
    → IsInside later
    → InterleavedOutcome count signalled s later (input_read_from count signalled s later)
unfolding input_read_from input_wait input_take
input_read_from-Outcome count signalled s later v w = elim (Bool-cases (ltb count event_size)) [
  | inl small ↦
      subst (InterleavedOutcome count signalled s later) (ground (arith, small))
        (ends einval (inl (refl, ground (arith, small))))
  | inr fits ↦ elim (Bool-cases (input_empty s)) [
    | inr some_left ↦
        let (shown, left, inside) =
          take_events-ring (count / event_size) later (size_of later) refl w in
        subst (InterleavedOutcome count signalled s later) (ground (arith, fits, some_left, shown))
          (oldest (take_events (count / event_size) later).1 (ground (arith, fits))
            (events_some s v some_left) left inside)
    | inl empty ↦ elim (Bool-cases signalled) [
      | inl signal ↦
          subst (InterleavedOutcome count signalled s later) (ground (arith, fits, empty, signal))
            (ends eintr (inr (refl, ground (arith, fits), events_empty s v empty, signal)))
      | inr quiet ↦
          subst (InterleavedOutcome count signalled s later) (ground (arith, fits, empty, quiet))
            (blocks (ground (arith, fits)) (events_empty s v empty) quiet)
    ]
  ]
]
