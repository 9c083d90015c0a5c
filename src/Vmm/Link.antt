-- ===== src/Vmm/Link.antt =====
-- kernel/vmm.c: a page for a new table, and its entry.
use project_lariat.Prelude.{
  Bool, Bool-cases, List, Option, Option-cases, [], ap, ap₂, arith, false, if-both, if◌then◌else◌,
  inl, inr, length, none, refl, some, sym, true, ℕ, ℕ_discrete, ◌&&◌, ◌*◌, ◌/◌, ◌<◌, ◌==◌, ◌∙◌, ◌∷◌,
  ◌≡◌, ◌≢◌,
}
use project_lariat.Pmm.{Pmm}
use project_lariat.Pmm.Valid.{used}
use project_lariat.Vmm.{
  Vmm, alloc_pt_page, linked, or64, pt_get_addr, pt_is_huge, pt_is_present, put_word, table_flags,
  vmm_virt_to_phys_in, zero_page,
}
use project_lariat.Vmm.Entries.{IsEntryOf, entry-IsEntryOf}
use project_lariat.Vmm.Tree.{IsFull, IsTree, Label, virt_to_phys-lookup}
use project_lariat.Vmm.Walk.{cleared, label-same, label-some, lookup-linked, written, written-same}
use project_lariat.Vmm.Taken.{Grows, Taken, alloc_pt_page-Taken, none_taken, page_taken}

-- What `linked` does to a tree: the entry was there; or there is no memory, and no word changes; or
-- a new table stands at the entry, and no translation changes.
pub data Joined (label : Label) (root : ℕ) (s : Vmm) (a i : ℕ) : Bool × Vmm → Type 0 where
  stands : pt_is_present (s.store a i) ≡ true → Joined label root s a i (true, s)
  fails :
      (after : Vmm)
      → after.store ≡ s.store
      → IsFull after.pmm
      → IsTree label root after
      → Joined label root s a i (false, after)
  joins :
      (label' : Label) (after : Vmm)
      → IsTree label' root after
      → ((t : ℕ) (ps : List ℕ) → label t ≡ some ps → label' t ≡ some ps)
      → pt_is_present (s.store a i) ≡ false
      → pt_is_present (after.store a i) ≡ true
      → pt_is_huge (after.store a i) ≡ false
      → ((t j : ℕ) (ps : List ℕ)
          → label t ≡ some ps
          → t == a && j == i ≡ false
          → after.store t j ≡ s.store t j)
      → ((v : ℕ) → vmm_virt_to_phys_in root v after ≡ vmm_virt_to_phys_in root v s)
      → Joined label root s a i (true, after)

IsTree-grown :
    (label : Label) (root : ℕ) (s : Vmm) (pmm : Pmm)
    → Grows s.pmm pmm
    → IsTree label root s
    → IsTree label root (record s { pmm = pmm })
IsTree-grown label root s pmm g tree = record {
  valid = g.valid;
  small = omega (arith, g.total, tree.small);
  low_page = g.more 0 tree.low_page;
  root_label = tree.root_label;
  child = tree.child;
  in_use = λ t ps h. g.more (t / 4096) (tree.in_use t ps h);
}

-- The tree with a new table.
abbrev labelled : ℕ → List ℕ → Label → Label
labelled phys ps label = λ t. if t == phys then some ps else label t

module _ (label : Label) (root : ℕ) (s : Vmm) (tree : IsTree label root s) (a i : ℕ) (pa : List ℕ)
    (la : label a ≡ some pa) (high : length pa < 3) (low : i < 512)
    (absent : pt_is_present (s.store a i) ≡ false) (q : ℕ) (pmm : Pmm) (g : Grows s.pmm pmm)
    (inside : q < s.pmm.total_pages) (unused : used s.pmm q ≡ false)
    (now_used : used pmm q ≡ true) where
  abbrev phys : ℕ
  phys = q * 4096

  abbrev word : ℕ
  word = or64 phys table_flags

  abbrev after : Vmm
  after = record { store = written a i word (cleared phys s.store); pmm = pmm }

  fresh : label phys ≡ none
  fresh = elim (Option-cases (label phys)) [
    | inl e ↦ e
    | inr (ps, e) ↦
        let at : phys / 4096 ≡ q = omega arith in
        absurd (ground (arith, tree.in_use phys ps e, ap (used s.pmm) at, unused))
  ]

  entry : IsEntryOf phys word
  entry = entry-IsEntryOf q (omega (arith, tree.small))

  joined-child :
      (t j : ℕ) (ps : List ℕ)
      → labelled phys (i ∷ pa) label t ≡ some ps
      → length ps < 3
      → j < 512
      → pt_is_present (after.store t j) ≡ true
      → (length ps ≡ 2 → pt_is_huge (after.store t j) ≡ false)
      → labelled phys (i ∷ pa) label (pt_get_addr (after.store t j)) ≡ some (j ∷ ps)
  unfolding pt_is_present
  joined-child t j ps lt deep lo here flat =
      let apart : a ≢ phys = label-some label a phys pa la fresh in
      let w = after.store t j in
      let found : ℕ → Option (List ℕ) = labelled phys (i ∷ pa) label in
      elim (ℕ_discrete t phys) [
        | yes e ↦
            let nothing : w ≡ 0 = ground (arith, e, apart) in
            absurd (ground (arith, ap pt_is_present nothing, here))
        | no ne ↦
            let l0 : label t ≡ some ps = ground (arith, lt, ne) in
            elim (Bool-cases (t == a && j == i)) [
              | inl e ↦
                  let linked_word : w ≡ word = ground (arith, e) in
                  let whole : ps ≡ pa = label-same label t a ps pa l0 la (ground (arith, e)) in
                  let place : j ≡ i = ground (arith, e) in
                  let here_label : found phys ≡ some (i ∷ pa) = ground arith in
                  ap found (ap pt_get_addr linked_word ∙ entry.addr)
                  ∙ here_label
                  ∙ ap₂ (λ (x : ℕ) (xs : List ℕ). some (x ∷ xs)) (sym place) (sym whole)
              | inr e ↦
                  let same : w ≡ s.store t j = ground (arith, e, ne) in
                  let below : label (pt_get_addr (s.store t j)) ≡ some (j ∷ ps) =
                    tree.child t j ps l0 deep lo (ap pt_is_present (sym same) ∙ here)
                      (λ two. ap pt_is_huge (sym same) ∙ flat two) in
                  let other : pt_get_addr (s.store t j) ≢ phys =
                    label-some label (pt_get_addr (s.store t j)) phys (j ∷ ps) below fresh in
                  let kept : found (pt_get_addr (s.store t j)) ≡ label (pt_get_addr (s.store t j)) =
                    ground (arith, other) in
                  ap (λ x. found (pt_get_addr x)) same ∙ kept ∙ below
            ]
      ]

  joined-in_use :
      (t : ℕ) (ps : List ℕ) → labelled phys (i ∷ pa) label t ≡ some ps → used pmm (t / 4096) ≡ true
  joined-in_use t ps h = elim (ℕ_discrete t phys) [
    | yes e ↦ let at : t / 4096 ≡ q = omega (arith, e) in ap (used pmm) at ∙ now_used
    | no ne ↦ g.more (t / 4096) (tree.in_use t ps (ground (arith, h, ne)))
  ]

  joined-IsTree : IsTree (labelled phys (i ∷ pa) label) root after
  joined-IsTree = record {
    valid = g.valid;
    small = omega (arith, g.total, tree.small);
    low_page = g.more 0 tree.low_page;
    root_label =
        ground (arith, label-some label root phys [] tree.root_label fresh, tree.root_label);
    child = joined-child;
    in_use = joined-in_use;
  }

  new_table-Joined : Joined label root s a i (true, after)
  new_table-Joined =
      joins (labelled phys (i ∷ pa) label) after joined-IsTree
        (λ t ps h. ground (arith, h, label-some label t phys ps h fresh)) absent
        (ap pt_is_present (written-same a i word (cleared phys s.store)) ∙ entry.present)
        (ap pt_is_huge (written-same a i word (cleared phys s.store)) ∙ entry.not_huge)
        (λ t j ps h e. ground (arith, e, label-some label t phys ps h fresh))
        (λ v.
          virt_to_phys-lookup root v after
          ∙ lookup-linked label root s tree a i phys word pa la high low absent fresh entry 3 root v
              (omega arith) tree.root_label
          ∙ sym (virt_to_phys-lookup root v s))

Taken-Joined :
    (label : Label) (root : ℕ) (s : Vmm) (a i : ℕ) (pa : List ℕ)
    → IsTree label root s
    → label a ≡ some pa
    → length pa < 3
    → i < 512
    → pt_is_present (s.store a i) ≡ false
    → (r : ℕ × Vmm) → Taken s r
    → Joined label root s a i
        (if r.0 == 0 then (false, r.1) else (true, put_word a i (or64 r.0 table_flags) r.1))
unfolding put_word zero_page
Taken-Joined label root s a i pa tree la high low absent _ (none_taken pmm g full) =
    fails (record s { pmm = pmm }) refl full (IsTree-grown label root s pmm g tree)
Taken-Joined label root s a i pa tree la high low absent _
      (page_taken q pmm g inside unused now_used nz) =
    if-both (Joined label root s a i) (q * 4096 == 0) (λ e. absurd (nz (ground (arith, e))))
      (λ e.
        new_table-Joined label root s tree a i pa la high low absent q pmm g inside unused now_used)

pub linked-Joined :
    (label : Label) (root : ℕ) (s : Vmm) (a i : ℕ) (pa : List ℕ)
    → IsTree label root s
    → label a ≡ some pa
    → length pa < 3
    → i < 512
    → Joined label root s a i (linked a i s)
unfolding linked
linked-Joined label root s a i pa tree la high low =
    if-both (Joined label root s a i) (pt_is_present (s.store a i)) (λ e. stands e)
      (λ e.
        Taken-Joined label root s a i pa tree la high low e (alloc_pt_page s)
          (alloc_pt_page-Taken s tree.valid tree.low_page))
