-- ===== src/Vmm/Unmap.antt =====
-- kernel/vmm.c: `vmm_unmap_page_in` against the translation of all addresses.
use project_lariat.Prelude.{[], arith, false, if-both, inl, inr, refl, some, sym, ℕ, ◌∙◌, ◌≡◌, ◌⊎◌}
use project_lariat.Vmm.{
  Vmm, next_table, pt_index, pt_is_huge, pt_is_present, put_word, vmm_unmap_page_in,
  vmm_virt_to_phys_in,
}
use project_lariat.Vmm.Tree.{IsTree, Label, pt_index-lt, trail, virt_to_phys-lookup}
use project_lariat.Vmm.Walk.{written}
use project_lariat.Vmm.Way.{
  Leads, SamePage, lookup-own, lookup-written, pt_index-same, written-IsTree,
}
use project_lariat.Vmm.Map.{in_huge_page}

-- What a call that unmaps a page comes to.
pub record Unmapped (label : Label) (root virt : ℕ) (s after : Vmm) : Type 0 where
  pub tree : IsTree label root after
  pub gone :
      (v : ℕ)
      → SamePage v virt
      → in_huge_page root virt s ≡ false
      → vmm_virt_to_phys_in root v after ≡ 0
  pub far :
      (v : ℕ)
      → ¬ (SamePage v virt)
      → vmm_virt_to_phys_in root v after ≡ vmm_virt_to_phys_in root v s

-- Where an entry of the way is not there, the page has no translation.
absent-Unmapped :
    (label : Label) (root virt : ℕ) (s : Vmm)
    → IsTree label root s
    → ((v : ℕ) → SamePage v virt → vmm_virt_to_phys_in root v s ≡ 0)
    → Unmapped label root virt s s
absent-Unmapped label root virt s tree nothing = record {
  tree = tree;
  gone = λ v e h. nothing v e;
  far = λ v h. refl;
}

-- An address of a page whose way has an entry that is not there.
no_entry :
    (root v w : ℕ) (s : Vmm)
    → SamePage v w
    → (let pdpt = next_table root (pt_index w 3) s in
        let pd = next_table pdpt (pt_index w 2) s in
        (pt_is_present (s.store root (pt_index w 3)) ≡ false)
        ⊎ ((pt_is_present (s.store pdpt (pt_index w 2)) ≡ false)
            ⊎ (pt_is_present (s.store pd (pt_index w 1)) ≡ false)))
    → vmm_virt_to_phys_in root v s ≡ 0
unfolding vmm_virt_to_phys_in
no_entry root v w s e why =
    let (e0, e1, e2, e3) = pt_index-same v w e in rw (e3, e2, e1) (ground (arith, why))

emptied-Unmapped :
    (label : Label) (root virt pdpt pd pt : ℕ) (s : Vmm)
    → IsTree label root s
    → Leads label root virt s.store pdpt pd pt
    → Unmapped label root virt s (put_word pt (pt_index virt 0) 0 s)
unfolding put_word pt_is_present
emptied-Unmapped label root virt pdpt pd pt s tree way =
    let after = record s { store = written pt (pt_index virt 0) 0 s.store } in
    record {
      tree = written-IsTree label root virt pt 0 s tree way.label0;
      gone = λ v e h.
          virt_to_phys-lookup root v after
          ∙ lookup-own label root v virt s.store pdpt pd pt 0 e way;
      far = λ v h.
          virt_to_phys-lookup root v after
          ∙ lookup-written label root s tree pt virt 0 way.label0 3 root v (omega arith)
              tree.root_label h
          ∙ sym (virt_to_phys-lookup root v s);
    }

-- `vmm_unmap_page_in` takes the translation from every address of the page, unless it lies in a page
-- of 2 MiB, and from no other address.
pub vmm_unmap_page_in-Unmapped :
    (label : Label) (root virt : ℕ) (s : Vmm)
    → IsTree label root s
    → Unmapped label root virt s (vmm_unmap_page_in root virt s)
unfolding vmm_unmap_page_in
vmm_unmap_page_in-Unmapped label root virt s tree =
    let i3 = pt_index virt 3 in
    let i2 = pt_index virt 2 in
    let i1 = pt_index virt 1 in
    let pdpt = next_table root i3 s in
    let pd = next_table pdpt i2 s in
    let pt = next_table pd i1 s in
    let U : Vmm → Type 0 = Unmapped label root virt s in
    if-both U (pt_is_present (s.store root i3))
      (λ here3.
        if-both U (pt_is_present (s.store pdpt i2))
          (λ here2.
            if-both U (pt_is_present (s.store pd i1))
              (λ here1.
                if-both U (pt_is_huge (s.store pd i1))
                  (λ huge. record {
                    tree = tree;
                    gone = λ v e h. absurd (ground (arith, h, here3, here2, here1, huge));
                    far = λ v h. refl;
                  })
                  (λ flat.
                    let l2 : label pdpt ≡ some (trail 2 virt) =
                      tree.child root i3 [] tree.root_label (omega arith) (pt_index-lt virt 3) here3
                        (λ two. absurd (omega arith)) in
                    let l1 : label pd ≡ some (trail 1 virt) =
                      tree.child pdpt i2 (trail 2 virt) l2 (omega arith) (pt_index-lt virt 2) here2
                        (λ two. absurd (omega arith)) in
                    emptied-Unmapped label root virt pdpt pd pt s tree (record {
                      at3 = here3;
                      to3 = refl;
                      at2 = here2;
                      to2 = refl;
                      at1 = here1;
                      to1 = refl;
                      flat = flat;
                      label3 = tree.root_label;
                      label2 = l2;
                      label1 = l1;
                      label0 =
                          tree.child pd i1 (trail 1 virt) l1 (omega arith) (pt_index-lt virt 1)
                            here1 (λ two. flat);
                    })))
              (λ gone.
                absent-Unmapped label root virt s tree
                  (λ v e. no_entry root v virt s e (inr (inr gone)))))
          (λ gone.
            absent-Unmapped label root virt s tree
              (λ v e. no_entry root v virt s e (inr (inl gone)))))
      (λ gone. absent-Unmapped label root virt s tree (λ v e. no_entry root v virt s e (inl gone)))
