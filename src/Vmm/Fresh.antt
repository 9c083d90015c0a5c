-- ===== src/Vmm/Fresh.antt =====
-- kernel/vmm.c: `vmm_new_pagetable` gives a tree that maps nothing.
use project_lariat.Prelude.{
  [], ap, arith, false, if◌then◌else◌, none, refl, some, true, ℕ, ◌*◌, ◌/◌, ◌<◌, ◌==◌, ◌^◌, ◌∙◌,
  ◌≡◌, ◌≤◌,
}
use project_lariat.Pmm.Valid.{IsValid, used}
use project_lariat.Vmm.{
  Vmm, alloc_pt_page, pt_is_present, vmm_new_pagetable, vmm_virt_to_phys_in, zero_page,
}
use project_lariat.Vmm.Tree.{IsFull, IsTree, Label, virt_to_phys-lookup}
use project_lariat.Vmm.Walk.{cleared, lookup-empty}
use project_lariat.Vmm.Taken.{Taken, alloc_pt_page-Taken, none_taken, page_taken}

-- The label of a table that stands alone.
abbrev pub alone : ℕ → Label
alone root = λ t. if t == root then some [] else none

-- Memory ran out, or the table maps nothing.
pub data NewTable (s : Vmm) : ℕ × Vmm → Type 0 where
  no_table : (after : Vmm) → after.store ≡ s.store → IsFull after.pmm → NewTable s (0, after)
  new_table :
      (root : ℕ) (after : Vmm)
      → IsTree (alone root) root after
      → used s.pmm (root / 4096) ≡ false
      → ((v : ℕ) → vmm_virt_to_phys_in root v after ≡ 0)
      → NewTable s (root, after)

pub alone-IsTree :
    (root : ℕ) (s : Vmm)
    → IsValid s.pmm
    → s.pmm.total_pages ≤ 2 ^ 51
    → used s.pmm 0 ≡ true
    → used s.pmm (root / 4096) ≡ true
    → ((j : ℕ) → j < 512 → s.store root j ≡ 0)
    → IsTree (alone root) root s
unfolding pt_is_present
alone-IsTree root s valid small low own nothing = record {
  valid = valid;
  small = small;
  low_page = low;
  root_label = ground arith;
  child = λ t i ps lt deep lo here flat.
      let at : t ≡ root = ground (arith, lt) in
      let word : s.store t i ≡ 0 = ap (λ t. s.store t i) at ∙ nothing i lo in
      absurd (ground (arith, here, word));
  in_use =
      λ t ps lt. let at : t ≡ root = ground (arith, lt) in ap (λ t. used s.pmm (t / 4096)) at ∙ own;
}

Taken-NewTable :
    (s : Vmm)
    → s.pmm.total_pages ≤ 2 ^ 51
    → used s.pmm 0 ≡ true
    → (r : ℕ × Vmm) → Taken s r
    → NewTable s r
unfolding zero_page
Taken-NewTable s small low _ (none_taken pmm g full) = no_table (record s { pmm = pmm }) refl full
Taken-NewTable s small low _ (page_taken q pmm g inside unused now_used nz) =
    let root = q * 4096 in
    let at : root / 4096 ≡ q = omega arith in
    let after : Vmm = record { store = cleared root s.store; pmm = pmm } in
    let zeros : (j : ℕ) → j < 512 → cleared root s.store root j ≡ 0 = λ j lo. ground arith in
    new_table root after
      (alone-IsTree root after g.valid (omega (arith, g.total)) (g.more 0 low)
        (ap (used pmm) at ∙ now_used) zeros)
      (ap (used s.pmm) at ∙ unused)
      (λ v. virt_to_phys-lookup root v after ∙ lookup-empty 3 root v (cleared root s.store) zeros)

-- `vmm_new_pagetable` fails only where no page of memory is free. Otherwise it gives a page that was
-- free, as the top of a tree of tables in which no address has a translation.
pub vmm_new_pagetable-NewTable :
    (s : Vmm)
    → IsValid s.pmm
    → s.pmm.total_pages ≤ 2 ^ 51
    → used s.pmm 0 ≡ true
    → NewTable s (vmm_new_pagetable s)
unfolding vmm_new_pagetable
vmm_new_pagetable-NewTable s valid small low =
    Taken-NewTable s small low (alloc_pt_page s) (alloc_pt_page-Taken s valid low)
