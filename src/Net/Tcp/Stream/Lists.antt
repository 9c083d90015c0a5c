-- ===== src/Net/Tcp/Stream/Lists.antt =====
-- Parts of a stream of bytes.
use project_lariat.Prelude.{
  List, [], ap, arith, drop, length, length-drop, min, refl, suc, sym, take, zero, ℕ, ◌++◌, ◌+◌,
  ◌∙◌, ◌∷◌, ◌≡◌, ◌≤◌,
}

pub take-nil : (n : ℕ) → take {A = ℕ} n [] ≡ []
take-nil zero = refl
take-nil (suc n) = refl

pub drop-append : (n : ℕ) (xs ys : List ℕ) → n ≤ length xs → drop n (xs ++ ys) ≡ drop n xs ++ ys
drop-append zero xs ys h = refl
drop-append (suc n) [] ys h = absurd (omega arith)
drop-append (suc n) (x ∷ xs) ys h = drop-append n xs ys (omega arith)

pub take-append : (n : ℕ) (xs ys : List ℕ) → n ≤ length xs → take n (xs ++ ys) ≡ take n xs
take-append zero xs ys h = refl
take-append (suc n) [] ys h = absurd (omega arith)
take-append (suc n) (x ∷ xs) ys h = ap (◌∷◌ x) (take-append n xs ys (omega arith))

-- The next bytes of a stream.
pub take_next : (m n : ℕ) (xs : List ℕ) → take m xs ++ take n (drop m xs) ≡ take (m + n) xs
take_next zero n xs = ap (λ k. take k xs) (omega arith)
take_next (suc m) n [] = take-nil n ∙ sym (take-nil (suc m + n))
take_next (suc m) n (x ∷ xs) =
    ap (◌∷◌ x) (take_next m n xs)
    ∙ ap (λ k. take k (x ∷ xs)) (let e : suc (m + n) ≡ suc m + n = omega arith in e)

pub take-take : (m n : ℕ) (xs : List ℕ) → take m (take n xs) ≡ take (min m n) xs
take-take zero n xs = ap (λ k. take k xs) (let e : 0 ≡ min zero n = omega arith in e)
take-take (suc m) zero xs = ap (λ k. take k xs) (let e : 0 ≡ min (suc m) zero = omega arith in e)
take-take (suc m) (suc n) [] = sym (take-nil (min (suc m) (suc n)))
take-take (suc m) (suc n) (x ∷ xs) =
    ap (◌∷◌ x) (take-take m n xs)
    ∙ ap (λ k. take k (x ∷ xs)) (let e : suc (min m n) ≡ min (suc m) (suc n) = omega arith in e)

pub take_length : (xs : List ℕ) → take (length xs) xs ≡ xs
take_length [] = refl
take_length (x ∷ xs) = ap (◌∷◌ x) (take_length xs)

-- A part that a stream holds, it holds when bytes are added.
pub part-append :
    (start n : ℕ) (xs ys : List ℕ)
    → start + n ≤ length xs
    → take n (drop start (xs ++ ys)) ≡ take n (drop start xs)
part-append start n xs ys h =
    ap (take n) (drop-append start xs ys (omega arith))
    ∙ take-append n (drop start xs) ys (omega (arith, length-drop start xs))

pub take_own : (n : ℕ) (xs : List ℕ) → take n xs ≡ take (length (take n xs)) xs
take_own zero xs = refl
take_own (suc n) [] = refl
take_own (suc n) (x ∷ xs) = ap (◌∷◌ x) (take_own n xs)

pub take-none : (n : ℕ) (xs : List ℕ) → min n (length xs) ≡ 0 → take n xs ≡ []
take-none zero xs h = refl
take-none (suc n) [] h = refl
take-none (suc n) (x ∷ xs) h = absurd (omega (arith, h))

pub take-all : (n : ℕ) (xs : List ℕ) → length xs ≤ n → take n xs ≡ xs
take-all zero [] h = refl
take-all zero (x ∷ xs) h = absurd (omega arith)
take-all (suc n) [] h = refl
take-all (suc n) (x ∷ xs) h = ap (◌∷◌ x) (take-all n xs (omega arith))

pub drop-all : (n : ℕ) (xs : List ℕ) → length xs ≤ n → drop n xs ≡ []
drop-all zero [] h = refl
drop-all zero (x ∷ xs) h = absurd (omega arith)
drop-all (suc n) [] h = refl
drop-all (suc n) (x ∷ xs) h = drop-all n xs (omega arith)
