-- ===== src/Ipc/LongNames.antt =====
-- kernel/ipc/port.c: names that are longer than a port can store.
use project_lariat.Prelude.{
  Bool-cases, List, Option-cases, [], ap, arith, eexist, enoent, err, false, inl, inr, length,
  length-take, none, refl, some, take, ℕ, ◌<◌, ◌∷◌, ◌≡◌, ◌≢◌, ◌≤◌,
}
use project_lariat.Ipc.{
  Ipc, Port, find_named, find_unused, install, ipc_port_lookup, ipc_port_register, is_named,
  max_ports, name_max, register_named, same_name,
}
use project_lariat.Ipc.Find.{find_named-some, same_name_sound}

-- The stored names leave room for the NUL.
abbrev pub HasShortNames : Ipc → Type 0
HasShortNames s = (i : ℕ) → i < max_ports → length (s.ports i).name < name_max

long_not_named :
    (name : List ℕ) (p : Port)
    → name_max ≤ length name
    → length p.name < name_max
    → is_named name p ≡ false
long_not_named name p long short = elim (Bool-cases (same_name p.name name)) [
  | inl e ↦ absurd (omega (arith, ap length (same_name_sound p.name name e)))
  | inr e ↦ ground (arith, e)
]

length-take_31 : (name : List ℕ) → length (take 31 name) < name_max
length-take_31 name = omega (arith, length-take 31 name)

long_not_found :
    (name : List ℕ) (s : Ipc)
    → name_max ≤ length name
    → HasShortNames s
    → find_named max_ports 0 name s.ports ≡ none
long_not_found name s long short = elim (Option-cases (find_named max_ports 0 name s.ports)) [
  | inl e ↦ e
  | inr (j, e) ↦
      let (a, b, hit) = find_named-some name s.ports max_ports 0 j e in
      absurd (ground (arith, hit, long_not_named name (s.ports j) long (short j (omega arith))))
]

lookup_long :
    (name : List ℕ) (s : Ipc)
    → name_max ≤ length name
    → HasShortNames s
    → ipc_port_lookup (some name) s ≡ err enoent
unfolding ipc_port_lookup
lookup_long name s long short = rw (long_not_found name s long short, ipc_port_lookup) refl

install-HasShortNames :
    (i : ℕ) (name : List ℕ) (owner : ℕ) (s : Ipc)
    → HasShortNames s
    → HasShortNames (install i name owner s)
unfolding install
install-HasShortNames i name owner s short j lt = ground (arith, short j, length-take_31 name)

-- A name of 32 bytes or more is cut when it is stored and compared whole: its registration never
-- answers that the name is taken, and after it has succeeded a lookup of the name finds nothing.
pub long_name_lost :
    (name : List ℕ) (owner : ℕ) (s : Ipc)
    → name_max ≤ length name
    → HasShortNames s
    → let (r, s') = ipc_port_register (some name) owner s in
      (r ≢ err eexist) × HasShortNames s' × (ipc_port_lookup (some name) s' ≡ err enoent)
unfolding ipc_port_register
long_name_lost [] owner s long short = absurd (omega arith)
long_name_lost (c ∷ cs) owner s long short =
    let name = c ∷ cs in
    elim (Option-cases (find_unused max_ports 0 s.ports)) [
      | inl full ↦
          rw (long_not_found name s long short, full, register_named)
            ((λ e'. cc), short, lookup_long name s long short)
      | inr (i, spare) ↦
          let after : HasShortNames (install i name owner s) =
            install-HasShortNames i name owner s short in
          rw (long_not_found name s long short, spare, register_named)
            ((λ e'. cc), after, lookup_long name (install i name owner s) long after)
    ]
