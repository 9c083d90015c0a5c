-- ===== src/Vmm/Enter.antt =====
-- kernel/vmm.c: the table at an entry, where it is there afterwards.
use project_lariat.Prelude.{
  Bool, List, arith, false, length, refl, some, true, ℕ, ◌&&◌, ◌<◌, ◌==◌, ◌≡◌,
}
use project_lariat.Vmm.{Vmm, linked, pt_is_huge, pt_is_present, vmm_virt_to_phys_in}
use project_lariat.Vmm.Tree.{IsFull, IsTree, Label}
use project_lariat.Vmm.Link.{Joined, fails, joins, linked-Joined, stands}

-- A table whose entry is there now, in a tree of which nothing else is to be seen.
pub record Entered (label : Label) (root : ℕ) (s : Vmm) (a i : ℕ) (after : Vmm) : Type 0 where
  pub names : Label
  pub tree : IsTree names root after
  pub keeps : (t : ℕ) (ps : List ℕ) → label t ≡ some ps → names t ≡ some ps
  pub here : pt_is_present (after.store a i) ≡ true
  pub flat :
      (pt_is_present (s.store a i) && pt_is_huge (s.store a i) ≡ false)
      → pt_is_huge (after.store a i) ≡ false
  pub others :
      (t j : ℕ) (ps : List ℕ)
      → label t ≡ some ps
      → t == a && j == i ≡ false
      → after.store t j ≡ s.store t j
  pub same : (v : ℕ) → vmm_virt_to_phys_in root v after ≡ vmm_virt_to_phys_in root v s

-- The failed and the fine results of `linked`.
pub data Entering (label : Label) (root : ℕ) (s : Vmm) (a i : ℕ) : Bool × Vmm → Type 0 where
  full :
      (after : Vmm)
      → after.store ≡ s.store
      → IsFull after.pmm
      → IsTree label root after
      → Entering label root s a i (false, after)
  entered : (after : Vmm) → Entered label root s a i after → Entering label root s a i (true, after)

Joined-Entering :
    (label : Label) (root : ℕ) (s : Vmm) (a i : ℕ) (r : Bool × Vmm)
    → IsTree label root s
    → Joined label root s a i r
    → Entering label root s a i r
Joined-Entering label root s a i _ tree (stands here) = entered s (record {
  names = label;
  tree = tree;
  keeps = λ t ps h. h;
  here = here;
  flat = λ h. ground (arith, h, here);
  others = λ t j ps h e. refl;
  same = λ v. refl;
})
Joined-Entering label root s a i _ tree (fails after e f t) = full after e f t
Joined-Entering label root s a i _ tree (joins names after t keeps gone here flat others same) =
    entered after (record {
      names = names;
      tree = t;
      keeps = keeps;
      here = here;
      flat = λ h. flat;
      others = others;
      same = same;
    })

pub linked-Entering :
    (label : Label) (root : ℕ) (s : Vmm) (a i : ℕ) (pa : List ℕ)
    → IsTree label root s
    → label a ≡ some pa
    → length pa < 3
    → i < 512
    → Entering label root s a i (linked a i s)
linked-Entering label root s a i pa tree la high low =
    Joined-Entering label root s a i (linked a i s) tree
      (linked-Joined label root s a i pa tree la high low)
