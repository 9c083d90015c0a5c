-- ===== src/Pipe/Stream.antt =====
-- kernel/pipe.c: what one call of a read or a write does to the stream of bytes.
use project_lariat.Prelude.{
  Bool-cases, List, [], ap, append-nil, arith, drop, false, inl, inr, length, refl, subst, sym,
  take, true, ℕ, ℕ_discrete, ◌++◌, ◌||◌, ◌↔◌, ◌∙◌, ◌∷◌, ◌≡◌, ◌≢◌, ◌⊎◌,
}
use project_lariat.Pipe.{
  Pipe, ReadStep, WriteStep, breaks, drain, fill, is_zero, pipe_read, pipe_read_poll, pipe_size,
  pipe_write, read_yields, reads, write_from, write_yields, writes,
}
use project_lariat.Pipe.Ring.{IsValid, bytes, drain-bytes, fill-bytes, length-window, window}

-- What `pipe_read` of `n` bytes may do: the oldest bytes, the end of the stream, or a wait for a
-- writer.
pub data ReadOutcome (n : ℕ) (p : Pipe) : ReadStep × Pipe → Type 0 where
  some_bytes :
      (p' : Pipe)
      → bytes p ≢ []
      → bytes p' ≡ drop n (bytes p)
      → IsValid p'
      → ReadOutcome n p (reads (take n (bytes p)), p')
  end_of_stream : bytes p ≡ [] → is_zero p.writers ≡ true → ReadOutcome n p (reads [], p)
  waits_for_writer : bytes p ≡ [] → is_zero p.writers ≡ false → ReadOutcome n p (read_yields, p)

-- What `pipe_write` of `xs` may do: all bytes, as many as there was room for, or, with a byte to
-- write and no reader, nothing.
pub data WriteOutcome (xs : List ℕ) (p : Pipe) : WriteStep × Pipe → Type 0 where
  whole :
      (p' : Pipe)
      → (xs ≡ []) ⊎ (is_zero p.readers ≡ false)
      → bytes p' ≡ bytes p ++ xs
      → IsValid p'
      → WriteOutcome xs p (writes, p')
  part :
      (rest : List ℕ) (p' : Pipe)
      → is_zero p.readers ≡ false
      → rest ≢ []
      → bytes p' ++ rest ≡ bytes p ++ xs
      → length (bytes p') ≡ pipe_size
      → IsValid p'
      → WriteOutcome xs p (write_yields rest, p')
  no_reader : xs ≢ [] → is_zero p.readers ≡ true → WriteOutcome xs p (breaks, p)

bytes_none : (p : Pipe) → p.count ≡ 0 → bytes p ≡ []
bytes_none p e = ap (window p.buf p.head) e

bytes_some : (p : Pipe) → p.count ≢ 0 → bytes p ≢ []
bytes_some p ne e = ne (omega (arith, length-window p.buf p.head p.count, ap length e))

-- `pipe_read` of `n` bytes gives the oldest `n`, or all if there are fewer, and leaves the rest in
-- order; from an empty pipe it gives no byte if every writer has closed, and waits else.
pub pipe_read-Outcome : (n : ℕ) (p : Pipe) → IsValid p → ReadOutcome n p (pipe_read n p)
unfolding pipe_read
pipe_read-Outcome n p v = elim (ℕ_discrete p.count 0) [
  | yes e ↦ elim (Bool-cases (is_zero p.writers)) [
    | inl gone ↦
        subst (ReadOutcome n p) (ground (arith, e, gone)) (end_of_stream (bytes_none p e) gone)
    | inr there ↦
        subst (ReadOutcome n p) (ground (arith, e, there)) (waits_for_writer (bytes_none p e) there)
  ]
  | no ne ↦
      let (shown, left, valid, _, _) = drain-bytes n p v in
      subst (ReadOutcome n p) (ground (arith, ne, shown))
        (some_bytes (drain n p).1 (bytes_some p ne) left valid)
]

bytes_full : (p : Pipe) → p.count ≡ pipe_size → length (bytes p) ≡ pipe_size
bytes_full p e = omega (arith, length-window p.buf p.head p.count, e)

-- The second round, after the first has filled the pipe or put all bytes.
second_round :
    (rest all : List ℕ) (p p' : Pipe)
    → is_zero p.readers ≡ false
    → is_zero p'.readers ≡ false
    → (rest ≡ []) ⊎ (p'.count ≡ pipe_size)
    → bytes p' ++ rest ≡ bytes p ++ all
    → IsValid p'
    → WriteOutcome all p (write_from 1 rest p')
unfolding write_from
second_round [] all p p' had there ends shown v =
    whole p' (inr had) (sym (append-nil (bytes p')) ∙ shown) v
second_round (y ∷ ys) all p p' had there (inl e) shown v = absurd (ground (arith, e))
second_round (y ∷ ys) all p p' had there (inr full) shown v =
    subst (WriteOutcome all p) (ground (arith, there, full))
      (part (y ∷ ys) p' had (λ e. ground (arith, e)) shown (bytes_full p' full) v)

write_fills :
    (x : ℕ) (xs : List ℕ) (p : Pipe)
    → is_zero p.readers ≡ false
    → p.count ≢ pipe_size
    → let (rest, p') = fill (x ∷ xs) p in pipe_write (x ∷ xs) p ≡ write_from 1 rest p'
unfolding pipe_write write_from
write_fills x xs p there room = ground (arith, there, room)

-- `pipe_write` puts its bytes behind those of the pipe, all of them unless the pipe is full then:
-- it waits with the rest. Where every reader has closed a write of a byte or more fails, and it
-- puts none.
pub pipe_write-Outcome : (xs : List ℕ) (p : Pipe) → IsValid p → WriteOutcome xs p (pipe_write xs p)
unfolding pipe_write write_from
pipe_write-Outcome [] p v = whole p (inl refl) (sym (append-nil (bytes p))) v
pipe_write-Outcome (x ∷ xs) p v = elim (Bool-cases (is_zero p.readers)) [
  | inl gone ↦
      subst (WriteOutcome (x ∷ xs) p) (ground (arith, gone))
        (no_reader (λ e. ground (arith, e)) gone)
  | inr there ↦ elim (ℕ_discrete p.count pipe_size) [
    | yes full ↦
        subst (WriteOutcome (x ∷ xs) p) (ground (arith, there, full))
          (part (x ∷ xs) p there (λ e. ground (arith, e)) refl (bytes_full p full) v)
    | no room ↦
        let (shown, valid, ends, r, w) = fill-bytes (x ∷ xs) p v in
        let (rest, p') = fill (x ∷ xs) p in
        rw (write_fills x xs p there room)
          (second_round rest (x ∷ xs) p p' there (ap is_zero r ∙ there) ends shown valid)
  ]
]

-- `pipe_read_poll` with `POLLIN` answers with an event exactly if a `pipe_read` would not wait.
pub poll-pipe_read :
    (n : ℕ) (p : Pipe)
    → let ready = pipe_read_poll true p in
      (ready.pollin || ready.pollhup ≡ true) ↔ ((pipe_read n p).0 ≢ read_yields)
unfolding pipe_read_poll pipe_read
poll-pipe_read n p = elim (ℕ_discrete p.count 0) [
  | yes e ↦ elim (Bool-cases (is_zero p.writers)) [
    | inl gone ↦ ((λ _ y. ground (arith, e, gone, y)), (λ _. ground (arith, e, gone)))
    | inr there ↦
        ((λ h. ground (arith, e, there, h)), (λ ne. absurd (ne (ground (arith, e, there)))))
  ]
  | no ne ↦ ((λ _ y. ground (arith, ne, y)), (λ _. ground (arith, ne)))
]
