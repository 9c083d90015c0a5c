-- ===== src/Pipe/Ring.antt =====
-- kernel/pipe.c: the bytes in the ring as a list.
use project_lariat.Prelude.{
  Bool-cases, List, [], ap, append_assoc, ap₂, arith, drop, inl, inr, length, ltb, refl, suc, take,
  zero, ℕ, ◌%◌, ◌++◌, ◌+◌, ◌-◌, ◌<◌, ◌∙◌, ◌∷◌, ◌≡◌, ◌≢◌, ◌≤◌, ◌⊎◌,
}
use project_lariat.ThreadQueue.{update}
use project_lariat.Pipe.{Pipe, drain, fill, pipe_size, put_byte}

-- The `n` bytes from `head` on.
abbrev pub window : (ℕ → ℕ) → ℕ → ℕ → List ℕ
window buf head zero = []
window buf head (suc n) = buf head ∷ window buf ((head + 1) % pipe_size) n

-- The bytes in the pipe, oldest first.
abbrev pub bytes : Pipe → List ℕ
bytes p = window p.buf p.head p.count

pub record IsValid (p : Pipe) : Type 0 where
  pub head_inside : p.head < pipe_size
  pub room : p.count ≤ pipe_size
  pub ends : p.tail ≡ (p.head + p.count) % pipe_size

pub length-window : (buf : ℕ → ℕ) (head n : ℕ) → length (window buf head n) ≡ n
length-window buf head zero = refl
length-window buf head (suc n) = omega (arith, length-window buf ((head + 1) % pipe_size) n)

window-append_one :
    (buf : ℕ → ℕ) (head n : ℕ)
    → head < pipe_size
    → window buf head (suc n) ≡ window buf head n ++ buf ((head + n) % pipe_size) ∷ []
window-append_one buf head zero h = ap (λ i. buf i ∷ []) (omega arith)
window-append_one buf head (suc n) h =
    let rest = window-append_one buf ((head + 1) % pipe_size) n (omega arith) in
    ap (◌∷◌ (buf head))
      (rest ∙ ap (λ i. window buf ((head + 1) % pipe_size) n ++ buf i ∷ []) (omega arith))

window-update :
    (buf : ℕ → ℕ) (head n x i : ℕ)
    → ((k : ℕ) → k < n → (head + k) % pipe_size ≢ i)
    → head < pipe_size
    → window (update buf i x) head n ≡ window buf head n
window-update buf head zero x i out h = refl
window-update buf head (suc n) x i out h = ap₂ ◌∷◌ (ground (arith, out 0)) (
    window-update buf ((head + 1) % pipe_size) n x i
      (λ k lt e. out (k + 1) (omega arith) (omega (arith, e))) (omega arith))

-- A byte that is put goes behind the others.
pub put_byte-bytes :
    (x : ℕ) (p : Pipe)
    → IsValid p
    → p.count < pipe_size
    → IsValid (put_byte x p) × (bytes (put_byte x p) ≡ bytes p ++ x ∷ [])
unfolding put_byte
put_byte-bytes x p v room =
    let one_more : p.count + 1 ≡ suc p.count = omega arith in
    let at_end : p.tail ≡ (p.head + p.count) % pipe_size = v.ends in
    (
      record { head_inside = v.head_inside; room = omega arith; ends = omega (arith, v.ends) },
      ap (window (update p.buf p.tail x) p.head) one_more
          ∙ (window-append_one (update p.buf p.tail x) p.head p.count v.head_inside
              ∙ ap₂ (λ xs y. xs ++ y ∷ [])
                  (window-update p.buf p.head p.count x p.tail
                    (λ k lt e. omega (arith, at_end, e, v.head_inside)) v.head_inside)
                  (ground (arith, v.ends))),
    )

abbrev advanced : Pipe → Pipe
advanced p = record p { head = (p.head + 1) % pipe_size; count = p.count - 1 }

drain_stop : (n : ℕ) (p : Pipe) → p.count ≡ 0 → drain (suc n) p ≡ ([], p)
unfolding drain
drain_stop n p e = ground (arith, e)

drain_more :
    (n : ℕ) (p : Pipe)
    → p.count ≢ 0
    → let (xs, p') = drain n (advanced p) in drain (suc n) p ≡ (p.buf p.head ∷ xs, p')
unfolding drain
drain_more n p e = ground (arith, e)

advanced-IsValid : (p : Pipe) → IsValid p → p.count ≢ 0 → IsValid (advanced p)
advanced-IsValid p v ne = record {
  head_inside = omega arith;
  room = omega (arith, v.room);
  ends = omega (arith, v.ends, ne);
}

drain-window :
    (n : ℕ) (p : Pipe) (c : ℕ)
    → p.count ≡ c
    → IsValid p
    → let (xs, p') = drain n p in
      (xs ≡ take n (window p.buf p.head c))
      × (bytes p' ≡ drop n (window p.buf p.head c))
      × IsValid p'
      × (p'.readers ≡ p.readers)
      × (p'.writers ≡ p.writers)
unfolding drain
drain-window zero p c e v = (refl, ap (window p.buf p.head) e, v, refl, refl)
drain-window (suc n) p zero e v =
    rw (drain_stop n p e) (refl, ap (window p.buf p.head) e, v, refl, refl)
drain-window (suc n) p (suc c) e v =
    let (shown, left, valid, r, w) =
      drain-window n (advanced p) c (omega (arith, e)) (advanced-IsValid p v (omega (arith, e))) in
    rw (drain_more n p (omega (arith, e))) (ap (◌∷◌ (p.buf p.head)) shown, left, valid, r, w)

-- The inner loop of `pipe_read` takes the oldest bytes, as many as there is room for.
pub drain-bytes :
    (n : ℕ) (p : Pipe)
    → IsValid p
    → let (xs, p') = drain n p in
      (xs ≡ take n (bytes p))
      × (bytes p' ≡ drop n (bytes p))
      × IsValid p'
      × (p'.readers ≡ p.readers)
      × (p'.writers ≡ p.writers)
unfolding drain
drain-bytes n p v = drain-window n p p.count refl v

-- The inner loop of `pipe_write` puts a part of the bytes behind those of the pipe, and stops
-- before the last of them only at a full pipe.
pub fill-bytes :
    (xs : List ℕ) (p : Pipe)
    → IsValid p
    → let (rest, p') = fill xs p in
      (bytes p' ++ rest ≡ bytes p ++ xs)
      × IsValid p'
      × ((rest ≡ []) ⊎ (p'.count ≡ pipe_size))
      × (p'.readers ≡ p.readers)
      × (p'.writers ≡ p.writers)
unfolding fill put_byte
fill-bytes [] p v = (refl, v, inl refl, refl, refl)
fill-bytes (x ∷ xs) p v = elim (Bool-cases (ltb p.count pipe_size)) [
  | inl room ↦
      let (put_v, put) = put_byte-bytes x p v (ground (arith, room)) in
      let (shown, valid, ends, r, w) = fill-bytes xs (put_byte x p) put_v in
      rw (room, fill)
        (shown ∙ (ap (λ ys. ys ++ xs) put ∙ append_assoc (bytes p) (x ∷ []) xs), valid, ends, r, w)
  | inr full ↦ rw (full, fill) (refl, v, inr (ground (arith, full, v.room)), refl, refl)
]
