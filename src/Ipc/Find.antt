-- ===== src/Ipc/Find.antt =====
-- kernel/ipc/port.c: the loops over the table of ports, and what a registration does.
use project_lariat.Prelude.{
  Bool-cases, List, Option-cases, [], ap, ap₂, arith, false, if◌then◌else◌, inl, inr, length, none,
  ok, refl, some, subst, suc, take, true, zero, ℕ, ℕ_discrete, ◌+◌, ◌<◌, ◌==◌, ◌∷◌, ◌≡◌, ◌≤◌,
}
use project_lariat.Ipc.{
  Ipc, Port, find_named, find_unused, install, ipc_port_register, is_named, max_ports, same_name,
}

pub same_name_sound : (xs ys : List ℕ) → same_name xs ys ≡ true → xs ≡ ys
same_name_sound [] [] e = refl
same_name_sound [] (y ∷ ys) e = absurd (ground arith)
same_name_sound (x ∷ xs) [] e = absurd (ground arith)
same_name_sound (x ∷ xs) (y ∷ ys) e = ap₂ ◌∷◌ (ground arith) (same_name_sound xs ys (ground arith))

pub same_name_refl : (xs : List ℕ) → same_name xs xs ≡ true
same_name_refl [] = refl
same_name_refl (x ∷ xs) = ground (arith, same_name_refl xs)

pub take_all : (n : ℕ) (xs : List ℕ) → length xs ≤ n → take n xs ≡ xs
take_all zero [] h = refl
take_all zero (x ∷ xs) h = absurd (omega arith)
take_all (suc n) [] h = refl
take_all (suc n) (x ∷ xs) h = ap (◌∷◌ x) (take_all n xs (omega arith))

module _ (name : List ℕ) (ports : ℕ → Port) where
  pub find_named-some :
      (n i j : ℕ)
      → find_named n i name ports ≡ some j
      → (i ≤ j) × (j < i + n) × (is_named name (ports j) ≡ true)
  unfolding find_named
  find_named-some zero i j e = absurd (ground arith)
  find_named-some (suc n) i j e = elim (Bool-cases (is_named name (ports i))) [
    | inl hit ↦
        let same : i ≡ j = ground (arith, e, hit) in
        (
          omega (arith, same),
          omega (arith, same),
          subst (λ k. is_named name (ports k) ≡ true) same hit,
        )
    | inr miss ↦
        let (a, b, m) = find_named-some n (i + 1) j (ground (arith, e, miss)) in
        (omega (arith, a), omega (arith, b), m)
  ]

  pub find_named-none :
      (n i j : ℕ)
      → find_named n i name ports ≡ none
      → i ≤ j
      → j < i + n
      → is_named name (ports j) ≡ false
  unfolding find_named
  find_named-none zero i j e a b = absurd (omega arith)
  find_named-none (suc n) i j e a b = elim (ℕ_discrete i j) [
    | yes same ↦ ground (arith, e)
    | no other ↦ find_named-none n (i + 1) j (ground (arith, e)) (omega arith) (omega arith)
  ]

  find_unused-some :
      (n i j : ℕ)
      → find_unused n i ports ≡ some j
      → (i ≤ j) × (j < i + n) × ((ports j).is_open ≡ false)
  unfolding find_unused
  find_unused-some zero i j e = absurd (ground arith)
  find_unused-some (suc n) i j e = elim (Bool-cases (ports i).is_open) [
    | inl hit ↦
        let (a, b, m) = find_unused-some n (i + 1) j (ground (arith, e, hit)) in
        (omega (arith, a), omega (arith, b), m)
    | inr miss ↦
        let same : i ≡ j = ground (arith, e, miss) in
        (omega (arith, same), omega (arith, same), subst (λ k. (ports k).is_open ≡ false) same miss)
  ]

-- What a registration that succeeds has seen and done.
pub record Registered (name : List ℕ) (owner : ℕ) (s : Ipc) (i : ℕ) (s' : Ipc) : Type 0 where
  pub slot : i < max_ports
  pub was_closed : (s.ports i).is_open ≡ false
  pub new_name : (j : ℕ) → j < max_ports → is_named name (s.ports j) ≡ false
  pub after : s' ≡ install i name owner s

pub register-Registered :
    (c : ℕ) (cs : List ℕ) (owner : ℕ) (s : Ipc) (i : ℕ) (s' : Ipc)
    → ipc_port_register (some (c ∷ cs)) owner s ≡ (ok i, s')
    → Registered (c ∷ cs) owner s i s'
unfolding ipc_port_register
register-Registered c cs owner s i s' e =
    elim (Option-cases (find_named max_ports 0 (c ∷ cs) s.ports)) [
      | inr (j, taken) ↦ absurd (ground (arith, e, taken))
      | inl fresh ↦ elim (Option-cases (find_unused max_ports 0 s.ports)) [
        | inl full ↦ absurd (ground (arith, e, fresh, full))
        | inr (j, spare) ↦
            let same : j ≡ i = ground (arith, e, fresh, spare) in
            let (a, b, closed) = find_unused-some (c ∷ cs) s.ports max_ports 0 j spare in
            record {
              slot = omega (arith, same, b);
              was_closed = rw (← same) closed;
              new_name = λ k h.
                  find_named-none (c ∷ cs) s.ports max_ports 0 k fresh (omega arith) (omega arith);
              after = ground (arith, e, fresh, spare);
            }
      ]
    ]

pub named-install :
    (i : ℕ) (name : List ℕ) (owner : ℕ) (s : Ipc) (q : List ℕ) (j : ℕ)
    → is_named q ((install i name owner s).ports j)
      ≡ (if i == j then same_name (take 31 name) q else is_named q (s.ports j))
unfolding install
named-install i name owner s q j = ground arith
