-- ===== src/Ipc/Names.antt =====
-- kernel/ipc/port.c: registered names are found again.
use project_lariat.Prelude.{
  List, Option-cases, [], ap, arith, inl, inr, length, ok, some, sym, take, true, ℕ, ◌<◌, ◌∷◌, ◌≡◌,
}
use project_lariat.Ipc.{
  Ipc, find_named, install, ipc_init, ipc_port_lookup, ipc_port_register, is_named, max_ports,
  name_max,
}
use project_lariat.Ipc.Find.{
  find_named-none, find_named-some, named-install, register-Registered, same_name_refl,
  same_name_sound, take_all,
}

-- No two open ports have one name.
abbrev pub HasUniqueNames : Ipc → Type 0
HasUniqueNames s =
    (i j : ℕ) (name : List ℕ)
    → i < max_ports
    → j < max_ports
    → is_named name (s.ports i) ≡ true
    → is_named name (s.ports j) ≡ true
    → i ≡ j

-- A lookup answers with the port of that name, if only one index can have it.
lookup_only :
    (name : List ℕ) (s : Ipc) (i : ℕ)
    → i < max_ports
    → is_named name (s.ports i) ≡ true
    → ((j : ℕ) → j < max_ports → is_named name (s.ports j) ≡ true → i ≡ j)
    → ipc_port_lookup (some name) s ≡ ok i
unfolding ipc_port_lookup
lookup_only name s i lt named only = elim (Option-cases (find_named max_ports 0 name s.ports)) [
  | inl e ↦ absurd (
      ground
        (arith, find_named-none name s.ports max_ports 0 i e (omega arith) (omega arith), named))
  | inr (j, e) ↦
      let (a, b, hit) = find_named-some name s.ports max_ports 0 j e in
      rw (e, ipc_port_lookup) (ap ok (sym (only j (omega arith) hit)))
]

-- A name of at most 31 bytes that was registered is found again at the same port, and a table
-- without two ports of one name stays so.
pub register-lookup :
    (name : List ℕ) (owner : ℕ) (s s' : Ipc) (i : ℕ)
    → length name < name_max
    → HasUniqueNames s
    → ipc_port_register (some name) owner s ≡ (ok i, s')
    → (ipc_port_lookup (some name) s' ≡ ok i) × HasUniqueNames s'
unfolding ipc_port_register
register-lookup [] owner s s' i short unique e = absurd (ground arith)
register-lookup (c ∷ cs) owner s s' i short unique e =
    let name = c ∷ cs in
    let r = register-Registered c cs owner s i s' e in
    let whole = take_all 31 name (omega arith) in
    let named = named-install i name owner s in
    rw r.after (
      lookup_only name (install i name owner s) i r.slot
          (ground (arith, named name i, whole, same_name_refl name))
          (λ j lt hit. ground (arith, named name j, r.new_name j)),
      λ a b q la lb ha hb. ground (
        arith,
        named q a,
        named q b,
        unique a b q,
        r.new_name a,
        r.new_name b,
        whole,
        same_name_sound (take 31 name) q,
      ),
    )

-- After `ipc_init` no port is open.
ipc_init-HasUniqueNames : (s : Ipc) → HasUniqueNames (ipc_init s)
unfolding ipc_init
ipc_init-HasUniqueNames s i j name a b e g = absurd (ground (arith, a, e))
