-- ===== src/Input/Events.antt =====
-- kernel/input.c: the ring as a list of events.
use project_lariat.Prelude.{
  List, [], ap, ap₂, arith, if◌then◌else◌, length, refl, suc, zero, ℕ, ℕ_discrete, ◌%◌, ◌++◌, ◌+◌,
  ◌-◌, ◌<◌, ◌==◌, ◌∙◌, ◌∷◌, ◌≡◌, ◌≢◌,
}
use project_lariat.ThreadQueue.{update}
use project_lariat.Input.{Event, Input, input_qlen, store_event}

abbrev pub ring_from : (ℕ → Event) → ℕ → ℕ → List Event
ring_from ring i zero = []
ring_from ring i (suc n) = ring i ∷ ring_from ring ((i + 1) % input_qlen) n

abbrev pub size_of : Input → ℕ
size_of s = (s.ev_write + input_qlen - s.ev_read) % input_qlen

-- The events in the queue, oldest first.
abbrev pub events : Input → List Event
events s = ring_from s.ev_ring s.ev_read (size_of s)

-- The indices lie in the ring.
pub record IsInside (s : Input) : Type 0 where
  pub read_inside : s.ev_read < input_qlen
  pub write_inside : s.ev_write < input_qlen

pub length-ring_from : (ring : ℕ → Event) (i n : ℕ) → length (ring_from ring i n) ≡ n
length-ring_from ring i zero = refl
length-ring_from ring i (suc n) = omega (arith, length-ring_from ring ((i + 1) % input_qlen) n)

ring_from-append_one :
    (ring : ℕ → Event) (i n : ℕ)
    → i < input_qlen
    → ring_from ring i (suc n) ≡ ring_from ring i n ++ ring ((i + n) % input_qlen) ∷ []
ring_from-append_one ring i zero h = ap (λ k. ring k ∷ []) (omega arith)
ring_from-append_one ring i (suc n) h =
    let rest = ring_from-append_one ring ((i + 1) % input_qlen) n (omega arith) in
    ap (◌∷◌ (ring i))
      (rest ∙ ap (λ k. ring_from ring ((i + 1) % input_qlen) n ++ ring k ∷ []) (omega arith))

ring_from-update :
    (ring : ℕ → Event) (i n k : ℕ) (e : Event)
    → i < input_qlen
    → n < input_qlen
    → k ≡ (i + n) % input_qlen
    → ((j : ℕ) → j < n → (i + j) % input_qlen ≢ k)
    → ring_from (update ring k e) i n ≡ ring_from ring i n
ring_from-update ring i zero k e h small at_end out = refl
ring_from-update ring i (suc n) k e h small at_end out = ap₂ ◌∷◌ (ground (arith, out 0)) (
    ring_from-update ring ((i + 1) % input_qlen) n k e (omega arith) (omega (arith, small))
      (omega (arith, at_end)) (λ j lt q. out (j + 1) (omega arith) (omega (arith, q))))

store_full : (e : Event) (s : Input) → IsInside s → size_of s ≡ 255 → store_event e s ≡ s
unfolding store_event
store_full e s v full = ground (arith, v.read_inside, v.write_inside, full)

-- The state after an event was stored.
abbrev stored : Event → Input → Input
stored e s = record s {
  ev_ring = update s.ev_ring s.ev_write e;
  ev_write = (s.ev_write + 1) % input_qlen;
}

store_room : (e : Event) (s : Input) → IsInside s → size_of s ≢ 255 → store_event e s ≡ stored e s
unfolding store_event
store_room e s v room = ground (arith, v.read_inside, v.write_inside, room)

stored-events :
    (e : Event) (s : Input)
    → IsInside s
    → size_of s ≢ 255
    → events (stored e s) ≡ events s ++ e ∷ []
stored-events e s v room =
    let more : size_of (stored e s) ≡ suc (size_of s) =
      omega (arith, v.read_inside, v.write_inside, room) in
    let at_end : s.ev_write ≡ (s.ev_read + size_of s) % input_qlen =
      omega (arith, v.read_inside, v.write_inside) in
    ap (ring_from (update s.ev_ring s.ev_write e) s.ev_read) more
    ∙ (ring_from-append_one (update s.ev_ring s.ev_write e) s.ev_read (size_of s) v.read_inside
        ∙ ap₂ (λ xs x. xs ++ x ∷ [])
            (ring_from-update s.ev_ring s.ev_read (size_of s) s.ev_write e v.read_inside
              (omega arith) at_end (λ j lt q. omega (arith, lt, q, v.read_inside, v.write_inside)))
            (ground (arith, at_end)))

-- `input_push` puts the event behind the others, unless 255 are queued: then it is dropped and
-- nothing has changed.
pub store_event_lem :
    (e : Event) (s : Input)
    → IsInside s
    → let s' = store_event e s in
      IsInside s'
      × (events s' ≡ (if length (events s) == 255 then events s else events s ++ e ∷ []))
store_event_lem e s v = elim (ℕ_discrete (size_of s) 255) [
  | yes full ↦
      rw (store_full e s v full)
        (v, ground (arith, length-ring_from s.ev_ring s.ev_read (size_of s), full))
  | no room ↦ rw (store_room e s v room) (
    record { read_inside = v.read_inside; write_inside = omega arith },
    stored-events e s v room
        ∙ ground (arith, length-ring_from s.ev_ring s.ev_read (size_of s), room),
  )
]
