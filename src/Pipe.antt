-- ===== src/Pipe.antt =====
-- kernel/pipe.c: anonymous pipes, a ring of bytes between open read ends and open write ends. A
-- call runs until it returns or yields; after the yield it goes on from the head of the loop, on the
-- pipe as it is then.
pub mod Ring
pub mod Stream
mod Tests
use project_lariat.Prelude.{
  Bool, List, Result, [], enomem, err, false, if◌then◌else◌, ltb, negsuc, not, ok, pos, suc, zero,
  ℕ, ℤ, ◌%◌, ◌&&◌, ◌+◌, ◌-◌, ◌==◌, ◌∷◌,
}
use project_lariat.ThreadQueue.{update}

abbrev pub pipe_size : ℕ
pipe_size = 4096

-- `struct pipe`; `buf` is an array, a function of the index below `pipe_size`.
pub record Pipe : Type 0 where
  pub buf : ℕ → ℕ
  pub head : ℕ
  pub tail : ℕ
  pub count : ℕ
  pub readers : ℤ
  pub writers : ℤ

-- `--n` on an `int`
abbrev pub dec : ℤ → ℤ
dec (pos zero) = negsuc 0
dec (pos (suc n)) = pos n
dec (negsuc n) = negsuc (suc n)

abbrev pub is_zero : ℤ → Bool
is_zero (pos n) = n == 0
is_zero (negsuc n) = false

abbrev pub is_positive : ℤ → Bool
is_positive (pos n) = ltb 0 n
is_positive (negsuc n) = false

pub data ReadStep : Type 0 where
  reads : List ℕ → ReadStep
  read_yields : ReadStep

-- The inner loop of `pipe_read`, with the room that is left.
unfoldable pub drain : ℕ → Pipe → List ℕ × Pipe
drain zero p = ([], p)
drain (suc n) p =
    let (xs, p') = drain n (record p { head = (p.head + 1) % pipe_size; count = p.count - 1 }) in
    if p.count == 0 then ([], p) else (p.buf p.head ∷ xs, p')

unfoldable pub pipe_read : ℕ → Pipe → ReadStep × Pipe
pipe_read count p =
    if p.count == 0
    then (if is_zero p.writers then (reads [], p) else (read_yields, p))
    else (let (xs, p') = drain count p in (reads xs, p'))

-- `p->buf[p->tail] = x` and the steps of `tail` and `count`.
unfoldable pub put_byte : ℕ → Pipe → Pipe
put_byte x p = record p {
  buf = update p.buf p.tail x;
  tail = (p.tail + 1) % pipe_size;
  count = p.count + 1;
}

-- The inner loop of `pipe_write` on the bytes that are left.
unfoldable pub fill : List ℕ → Pipe → List ℕ × Pipe
fill [] p = ([], p)
fill (x ∷ xs) p =
    let rest = fill xs (put_byte x p) in if ltb p.count pipe_size then rest else (x ∷ xs, p)

-- How a call of `pipe_write` ends or pauses: all written, no reader, or a yield with bytes left.
-- `no_fuel` is no outcome of the source's loop.
pub data WriteStep : Type 0 where
  writes : WriteStep
  breaks : WriteStep
  write_yields : List ℕ → WriteStep
  no_fuel : WriteStep

-- The outer loop of `pipe_write`, with fuel for its rounds.
unfoldable pub write_from : ℕ → List ℕ → Pipe → WriteStep × Pipe
write_from zero xs p = (no_fuel, p)
write_from (suc fuel) [] p = (writes, p)
write_from (suc fuel) (x ∷ xs) p =
    let (rest, p') = fill (x ∷ xs) p in
    let next = write_from fuel rest p' in
    if is_zero p.readers
    then (breaks, p)
    else if p.count == pipe_size
    then (write_yields (x ∷ xs), p)
    else next

-- After a round that has filled the pipe a second round returns or yields.
unfoldable pub pipe_write : List ℕ → Pipe → WriteStep × Pipe
pipe_write xs p = write_from 2 xs p

-- The result says whether the pipe is freed.
unfoldable pub pipe_close_read : Pipe → Bool × Pipe
pipe_close_read p =
    let readers = dec p.readers in
    (not (is_positive readers) && not (is_positive p.writers), record p { readers = readers })

unfoldable pub pipe_close_write : Pipe → Bool × Pipe
pipe_close_write p =
    let writers = dec p.writers in
    (not (is_positive writers) && not (is_positive p.readers), record p { writers = writers })

-- The bits of `short` that `pipe_read_poll` and `pipe_write_poll` set.
pub record Ready : Type 0 where
  pub pollin : Bool
  pub pollout : Bool
  pub pollhup : Bool
  pub pollerr : Bool

unfoldable pub pipe_read_poll : Bool → Pipe → Ready
pipe_read_poll wants_in p = record {
  pollin = wants_in && ltb 0 p.count;
  pollout = false;
  pollhup = wants_in && (not (ltb 0 p.count) && is_zero p.writers);
  pollerr = false;
}

unfoldable pub pipe_write_poll : Bool → Pipe → Ready
pipe_write_poll wants_out p = record {
  pollin = false;
  pollout = wants_out && ltb p.count pipe_size;
  pollhup = false;
  pollerr = is_zero p.readers;
}

-- The pipe that `pipe_create` makes when its three allocations succeed.
unfoldable pub pipe_create : Bool → Result Pipe
pipe_create allocated =
    if allocated
    then ok
        (record { buf = λ i. 0; head = 0; tail = 0; count = 0; readers = pos 1; writers = pos 1 })
    else err enomem
