-- ===== src/Vmm/Map.antt =====
-- kernel/vmm.c: `vmm_map_page_in` and `vmm_unmap_page_in` against the translation of all addresses.
use project_lariat.Prelude.{
  Bool, List, [], ap, arith, false, if-both, if◌then◌else◌, inl, inr, length, refl, some, sym, true,
  ℕ, ◌%◌, ◌&&◌, ◌+◌, ◌<◌, ◌∙◌, ◌≡◌, ◌⊎◌,
}
use project_lariat.Vmm.{
  Vmm, linked, map_in_pd, next_table, pt_get_addr, pt_index, pt_is_huge, pt_is_present, put_page,
  put_word, vmm_map_page_in, vmm_virt_to_phys_in,
}
use project_lariat.Vmm.Entries.{entry_page, entry_page-addr, entry_page-present, pt_get_addr_offset}
use project_lariat.Vmm.Tree.{IsFull, IsTree, Label, lookup, pt_index-lt, trail, virt_to_phys-lookup}
use project_lariat.Vmm.Walk.{Store, written}
use project_lariat.Vmm.Way.{Leads, SamePage, apart_by, lookup-own, lookup-written, written-IsTree}
use project_lariat.Vmm.Enter.{Entered, Entering, entered, full, linked-Entering}

-- The address lies in a page of 2 MiB.
abbrev pub in_huge_page : ℕ → ℕ → Vmm → Bool
in_huge_page root v s =
    let pdpt = next_table root (pt_index v 3) s in
    let pd = next_table pdpt (pt_index v 2) s in
    pt_is_present (s.store root (pt_index v 3))
    && (pt_is_present (s.store pdpt (pt_index v 2))
        && (pt_is_present (s.store pd (pt_index v 1)) && pt_is_huge (s.store pd (pt_index v 1))))

-- What a call that maps a page comes to. It fails only where no page of memory is free or the address
-- lies in a page of 2 MiB, and then every address keeps its translation.
pub data MapOutcome (root virt phys : ℕ) (s : Vmm) : Bool × Vmm → Type 0 where
  refused :
      (label : Label) (after : Vmm)
      → IsTree label root after
      → IsFull after.pmm ⊎ in_huge_page root virt after ≡ true
      → ((v : ℕ) → vmm_virt_to_phys_in root v after ≡ vmm_virt_to_phys_in root v s)
      → MapOutcome root virt phys s (false, after)
  mapped :
      (label : Label) (after : Vmm)
      → IsTree label root after
      → ((v : ℕ) → SamePage v virt → vmm_virt_to_phys_in root v after ≡ pt_get_addr phys + v % 4096)
      → ((v : ℕ)
          → ¬ (SamePage v virt)
          → vmm_virt_to_phys_in root v after ≡ vmm_virt_to_phys_in root v s)
      → MapOutcome root virt phys s (true, after)

same_words :
    (root : ℕ) (s after : Vmm)
    → after.store ≡ s.store
    → (v : ℕ) → vmm_virt_to_phys_in root v after ≡ vmm_virt_to_phys_in root v s
same_words root s after e v =
    virt_to_phys-lookup root v after ∙ ap (lookup 3 root v) e ∙ sym (virt_to_phys-lookup root v s)

put_page-MapOutcome :
    (label : Label) (root virt phys flags pdpt pd pt : ℕ) (s : Vmm)
    → flags < 4096
    → IsTree label root s
    → Leads label root virt s.store pdpt pd pt
    → MapOutcome root virt phys s (true, put_page pt virt phys flags s)
unfolding put_page put_word entry_page
put_page-MapOutcome label root virt phys flags pdpt pd pt s plain tree way =
    let word = entry_page phys flags in
    let new = written pt (pt_index virt 0) word s.store in
    let after = record s { store = new } in
    mapped label after (written-IsTree label root virt pt word s tree way.label0)
      (λ v e.
        virt_to_phys-lookup root v after
        ∙ lookup-own label root v virt s.store pdpt pd pt word e way
        ∙ ground (
          arith,
          entry_page-present phys flags plain,
          entry_page-addr phys flags plain,
          pt_get_addr_offset phys (v % 4096) (omega arith),
        ))
      (λ v far.
        virt_to_phys-lookup root v after
        ∙ lookup-written label root s tree pt virt word way.label0 3 root v (omega arith)
            tree.root_label far
        ∙ sym (virt_to_phys-lookup root v s))

-- An outcome for a state with the same translations.
before :
    (root virt phys : ℕ) (s mid : Vmm) (r : Bool × Vmm)
    → ((v : ℕ) → vmm_virt_to_phys_in root v mid ≡ vmm_virt_to_phys_in root v s)
    → MapOutcome root virt phys mid r
    → MapOutcome root virt phys s r
before root virt phys s mid _ same (refused label after tree why kept) =
    refused label after tree why (λ v. kept v ∙ same v)
before root virt phys s mid _ same (mapped label after tree own far) =
    mapped label after tree own (λ v h. far v h ∙ same v)

-- The way of an address to its table of level 1.
record Upper (label : Label) (root v : ℕ) (m : Store) (pdpt pd : ℕ) : Type 0 where
  at3 : pt_is_present (m root (pt_index v 3)) ≡ true
  to3 : pt_get_addr (m root (pt_index v 3)) ≡ pdpt
  at2 : pt_is_present (m pdpt (pt_index v 2)) ≡ true
  to2 : pt_get_addr (m pdpt (pt_index v 2)) ≡ pd
  label3 : label root ≡ some []
  label2 : label pdpt ≡ some (trail 2 v)
  label1 : label pd ≡ some (trail 1 v)

-- An entry of another table than the one that was entered.
elsewhere :
    {label : Label} {root a i : ℕ} {s after : Vmm} (g : Entered label root s a i after) (t j : ℕ)
    (ps qs : List ℕ)
    → label t ≡ some ps
    → label a ≡ some qs
    → length ps < length qs
    → after.store t j ≡ s.store t j
elsewhere {label} {a} g t j ps qs lt la h =
    g.others t j ps lt (ground (arith, apart_by label t a ps qs lt la h))

module _ (root virt phys flags : ℕ) (plain : flags < 4096) where
  pd_step :
      (label : Label) (pdpt pd : ℕ) (s : Vmm)
      → IsTree label root s
      → Upper label root virt s.store pdpt pd
      → pt_is_present (s.store pd (pt_index virt 1)) && pt_is_huge (s.store pd (pt_index virt 1))
        ≡ false
      → (r : Bool × Vmm) → Entering label root s pd (pt_index virt 1) r
      → MapOutcome root virt phys s (
          if r.0
          then (true, put_page (next_table pd (pt_index virt 1) r.1) virt phys flags r.1)
          else (false, r.1))
  pd_step label pdpt pd s tree up small_page _ (full after e f t) =
      refused label after t (inl f) (same_words root s after e)
  pd_step label pdpt pd s tree up small_page _ (entered after g) =
      let i1 = pt_index virt 1 in
      let pt = pt_get_addr (after.store pd i1) in
      let e3 : after.store root (pt_index virt 3) ≡ s.store root (pt_index virt 3) =
        elsewhere g root (pt_index virt 3) [] (trail 1 virt) up.label3 up.label1 (omega arith) in
      let e2 : after.store pdpt (pt_index virt 2) ≡ s.store pdpt (pt_index virt 2) =
        elsewhere g pdpt (pt_index virt 2) (trail 2 virt) (trail 1 virt) up.label2 up.label1
          (omega arith) in
      let way : Leads g.names root virt after.store pdpt pd pt = record {
        at3 = ap pt_is_present e3 ∙ up.at3;
        to3 = ap pt_get_addr e3 ∙ up.to3;
        at2 = ap pt_is_present e2 ∙ up.at2;
        to2 = ap pt_get_addr e2 ∙ up.to2;
        at1 = g.here;
        to1 = refl;
        flat = g.flat small_page;
        label3 = g.keeps root [] up.label3;
        label2 = g.keeps pdpt (trail 2 virt) up.label2;
        label1 = g.keeps pd (trail 1 virt) up.label1;
        label0 =
            g.tree.child pd i1 (trail 1 virt) (g.keeps pd (trail 1 virt) up.label1) (omega arith)
              (pt_index-lt virt 1) g.here (λ two. g.flat small_page);
      } in
      before root virt phys s after _ g.same
        (put_page-MapOutcome g.names root virt phys flags pdpt pd pt after plain g.tree way)

  map_in_pd-MapOutcome :
      (label : Label) (pdpt pd : ℕ) (s : Vmm)
      → IsTree label root s
      → Upper label root virt s.store pdpt pd
      → MapOutcome root virt phys s (map_in_pd pd virt phys flags s)
  unfolding map_in_pd
  map_in_pd-MapOutcome label pdpt pd s tree up =
      if-both (MapOutcome root virt phys s)
        (pt_is_present (s.store pd (pt_index virt 1)) && pt_is_huge (s.store pd (pt_index virt 1)))
        (λ e.
          refused label s tree (inr (ground (arith, e, up.at3, up.to3, up.at2, up.to2)))
            (λ v. refl))
        (λ e. pd_step label pdpt pd s tree up e (linked pd (pt_index virt 1) s) (
          linked-Entering label root s pd (pt_index virt 1) (trail 1 virt) tree up.label1
            (omega arith) (pt_index-lt virt 1)))

  pdpt_step :
      (label : Label) (pdpt : ℕ) (s : Vmm)
      → IsTree label root s
      → pt_is_present (s.store root (pt_index virt 3)) ≡ true
      → pt_get_addr (s.store root (pt_index virt 3)) ≡ pdpt
      → label pdpt ≡ some (trail 2 virt)
      → (r : Bool × Vmm) → Entering label root s pdpt (pt_index virt 2) r
      → MapOutcome root virt phys s (
          if r.0
          then map_in_pd (next_table pdpt (pt_index virt 2) r.1) virt phys flags r.1
          else (false, r.1))
  pdpt_step label pdpt s tree at3 to3 l2 _ (full after e f t) =
      refused label after t (inl f) (same_words root s after e)
  pdpt_step label pdpt s tree at3 to3 l2 _ (entered after g) =
      let i2 = pt_index virt 2 in
      let pd = pt_get_addr (after.store pdpt i2) in
      let e3 : after.store root (pt_index virt 3) ≡ s.store root (pt_index virt 3) =
        elsewhere g root (pt_index virt 3) [] (trail 2 virt) tree.root_label l2 (omega arith) in
      before root virt phys s after _ g.same (
        map_in_pd-MapOutcome g.names pdpt pd after g.tree (record {
          at3 = ap pt_is_present e3 ∙ at3;
          to3 = ap pt_get_addr e3 ∙ to3;
          at2 = g.here;
          to2 = refl;
          label3 = g.tree.root_label;
          label2 = g.keeps pdpt (trail 2 virt) l2;
          label1 =
              g.tree.child pdpt i2 (trail 2 virt) (g.keeps pdpt (trail 2 virt) l2) (omega arith)
                (pt_index-lt virt 2) g.here (λ two. absurd (omega arith));
        }))

  root_step :
      (label : Label) (s : Vmm)
      → IsTree label root s
      → (r : Bool × Vmm) → Entering label root s root (pt_index virt 3) r
      → (let pdpt = next_table root (pt_index virt 3) r.1 in
          let r2 = linked pdpt (pt_index virt 2) r.1 in
          MapOutcome root virt phys s (
            if r.0
            then (if r2.0
                then map_in_pd (next_table pdpt (pt_index virt 2) r2.1) virt phys flags r2.1
                else (false, r2.1))
            else (false, r.1)))
  root_step label s tree _ (full after e f t) =
      refused label after t (inl f) (same_words root s after e)
  root_step label s tree _ (entered after g) =
      let i3 = pt_index virt 3 in
      let pdpt = pt_get_addr (after.store root i3) in
      let l2 : g.names pdpt ≡ some (trail 2 virt) =
        g.tree.child root i3 [] g.tree.root_label (omega arith) (pt_index-lt virt 3) g.here
          (λ two. absurd (omega arith)) in
      before root virt phys s after _ g.same (
        pdpt_step g.names pdpt after g.tree g.here refl l2 (linked pdpt (pt_index virt 2) after) (
          linked-Entering g.names root after pdpt (pt_index virt 2) (trail 2 virt) g.tree l2
            (omega arith) (pt_index-lt virt 2)))

-- In a tree of page tables, and with flags in the low 12 bits, `vmm_map_page_in` either succeeds: then
-- every address of the page translates to the frame with its offset, and every other address
-- translates as before. Or it fails, where no page of memory is free or a page of 2 MiB is in the
-- way, and no translation changes. The tables are a tree afterwards.
pub vmm_map_page_in-MapOutcome :
    (label : Label) (root virt phys flags : ℕ) (s : Vmm)
    → flags < 4096
    → IsTree label root s
    → MapOutcome root virt phys s (vmm_map_page_in root virt phys flags s)
unfolding vmm_map_page_in
vmm_map_page_in-MapOutcome label root virt phys flags s plain tree =
    root_step root virt phys flags plain label s tree (linked root (pt_index virt 3) s) (
      linked-Entering label root s root (pt_index virt 3) [] tree tree.root_label (omega arith)
        (pt_index-lt virt 3))
