-- ===== src/Input/Tests.antt =====
-- kernel/input.c: a queue with one event, at the end of its ring.
use project_lariat.Prelude.{[], arith, false, pos, refl, ℕ, ◌∷◌, ◌≡◌}
use project_lariat.Input.{
  Event, Input, input_read, input_read_from, input_take, input_wait, reads, take_events,
}
use project_lariat.Input.Events.{IsInside}
use project_lariat.Input.Read.{InterleavedOutcome, input_read_from-Outcome}

abbrev key : ℕ → Event
key code = record { kind = 1; code = code; value = pos 1 }

abbrev one_event : Input
one_event = record { ev_ring = λ i. key i; ev_read = 255; ev_write = 0 }

one_event-IsInside : IsInside one_event
one_event-IsInside = record { read_inside = omega arith; write_inside = omega arith }

read_it : (input_read 30 false one_event).0 ≡ reads (key 255 ∷ [])
unfolding input_read input_read_from input_wait input_take take_events
read_it = refl

-- Another reader has taken the event.
abbrev emptied : Input
emptied = record one_event { ev_read = 0 }

emptied-IsInside : IsInside emptied
emptied-IsInside = record { read_inside = omega arith; write_inside = omega arith }

read_nothing : (input_read_from 30 false one_event emptied).0 ≡ reads []
unfolding input_read_from input_wait input_take take_events
read_nothing = refl

input_read_from-Outcome_example :
    InterleavedOutcome 30 false one_event emptied (input_read_from 30 false one_event emptied)
input_read_from-Outcome_example =
    input_read_from-Outcome 30 false one_event emptied one_event-IsInside emptied-IsInside
