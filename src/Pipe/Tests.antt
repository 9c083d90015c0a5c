-- ===== src/Pipe/Tests.antt =====
-- kernel/pipe.c: a pipe with two bytes, at the end of its ring.
use project_lariat.Prelude.{[], arith, pos, refl, ◌∷◌, ◌≡◌}
use project_lariat.ThreadQueue.{update}
use project_lariat.Pipe.{
  Pipe, drain, fill, pipe_read, pipe_write, put_byte, reads, write_from, writes,
}
use project_lariat.Pipe.Ring.{IsValid}
use project_lariat.Pipe.Stream.{ReadOutcome, WriteOutcome, pipe_read-Outcome, pipe_write-Outcome}

abbrev two_bytes : Pipe
two_bytes = record {
  buf = update (update (λ i. 0) 4095 7) 0 8;
  head = 4095;
  tail = 1;
  count = 2;
  readers = pos 1;
  writers = pos 1;
}

two_bytes-IsValid : IsValid two_bytes
two_bytes-IsValid = record { head_inside = omega arith; room = omega arith; ends = refl }

read_one : (pipe_read 1 two_bytes).0 ≡ reads (7 ∷ [])
unfolding pipe_read drain
read_one = refl

write_one : (pipe_write (9 ∷ []) two_bytes).0 ≡ writes
unfolding pipe_write write_from fill put_byte
write_one = refl

pipe_read-Outcome_example : ReadOutcome 1 two_bytes (pipe_read 1 two_bytes)
pipe_read-Outcome_example = pipe_read-Outcome 1 two_bytes two_bytes-IsValid

pipe_write-Outcome_example : WriteOutcome (9 ∷ []) two_bytes (pipe_write (9 ∷ []) two_bytes)
pipe_write-Outcome_example = pipe_write-Outcome (9 ∷ []) two_bytes two_bytes-IsValid
