-- ===== src/Vmm/Tree.antt =====
-- kernel/vmm.c: the tables of an address space as a tree.
use project_lariat.Prelude.{
  List, Option, [], arith, false, if◌then◌else◌, length, refl, some, suc, true, zero, ℕ, ◌%◌, ◌&&◌,
  ◌-◌, ◌/◌, ◌<◌, ◌==◌, ◌^◌, ◌∷◌, ◌≡◌, ◌≤◌,
}
use project_lariat.Pmm.Valid.{IsValid, used}
use project_lariat.Vmm.{
  Vmm, or64, pt_get_addr, pt_index, pt_is_huge, pt_is_present, vmm_virt_to_phys_in,
}
use project_lariat.Pmm.{Pmm}

-- Which table stands where: the indices that lead to it from the PML4, the last one first.
abbrev pub Label : Type 0
Label = ℕ → Option (List ℕ)

-- Every entry above the last level that is there, and is no page of 2 MiB, leads to the table with
-- that label, so that no table is entered twice; and every table is a page in use. So is page 0, and
-- the addresses of all pages fit an entry.
pub record IsTree (label : Label) (root : ℕ) (s : Vmm) : Type 0 where
  pub valid : IsValid s.pmm
  pub small : s.pmm.total_pages ≤ 2 ^ 51
  pub low_page : used s.pmm 0 ≡ true
  pub root_label : label root ≡ some []
  pub child :
      (t i : ℕ) (ps : List ℕ)
      → label t ≡ some ps
      → length ps < 3
      → i < 512
      → pt_is_present (s.store t i) ≡ true
      → (length ps ≡ 2 → pt_is_huge (s.store t i) ≡ false)
      → label (pt_get_addr (s.store t i)) ≡ some (i ∷ ps)
  pub in_use : (t : ℕ) (ps : List ℕ) → label t ≡ some ps → used s.pmm (t / 4096) ≡ true

-- No page is free.
abbrev pub IsFull : Pmm → Type 0
IsFull p = (page : ℕ) → page < p.total_pages → used p page ≡ true

-- The indices of an address above a level.
abbrev pub trail : ℕ → ℕ → List ℕ
trail zero v = pt_index v 1 ∷ pt_index v 2 ∷ pt_index v 3 ∷ []
trail (suc zero) v = pt_index v 2 ∷ pt_index v 3 ∷ []
trail (suc (suc zero)) v = pt_index v 3 ∷ []
trail (suc (suc (suc l))) v = []

pub length-trail : (l v : ℕ) → length (trail l v) ≡ 3 - l
length-trail zero v = refl
length-trail (suc zero) v = refl
length-trail (suc (suc zero)) v = refl
length-trail (suc (suc (suc l))) v = omega arith

pub trail_step : (l v : ℕ) → l < 3 → trail l v ≡ pt_index v (suc l) ∷ trail (suc l) v
trail_step zero v h = refl
trail_step (suc zero) v h = refl
trail_step (suc (suc zero)) v h = refl
trail_step (suc (suc (suc l))) v h = absurd (omega arith)

pub pt_index-lt : (v l : ℕ) → pt_index v l < 512
unfolding pt_index
pt_index-lt v l = omega arith

-- The translation as a walk down the levels.
unfoldable pub lookup : ℕ → ℕ → ℕ → (ℕ → ℕ → ℕ) → ℕ
lookup zero t v m =
    if pt_is_present (m t (pt_index v 0))
    then or64 (pt_get_addr (m t (pt_index v 0))) (v % 4096)
    else 0
lookup (suc l) t v m =
    let e = m t (pt_index v (suc l)) in
    let below = lookup l (pt_get_addr e) v m in
    if pt_is_present e
    then (if l == 0 && pt_is_huge e then or64 (pt_get_addr e) (v % 2 ^ 21) else below)
    else 0

pub virt_to_phys-lookup :
    (root v : ℕ) (s : Vmm) → vmm_virt_to_phys_in root v s ≡ lookup 3 root v s.store
unfolding vmm_virt_to_phys_in lookup
virt_to_phys-lookup root v s = refl
