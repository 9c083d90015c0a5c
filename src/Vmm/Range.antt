-- ===== src/Vmm/Range.antt =====
-- kernel/vmm.c: `vmm_map_range_in` against the translation of all addresses.
use project_lariat.Prelude.{Bool, false, true, ℕ, ◌%◌, ◌*◌, ◌+◌, ◌<◌, ◌^◌, ◌≡◌, ◌≤◌}
use project_lariat.Vmm.{Vmm, pt_get_addr, vmm_virt_to_phys_in}
use project_lariat.Vmm.Tree.{IsTree, Label}
use project_lariat.Vmm.Way.{SamePage}

-- The address of a page of a range, and of its frame.
abbrev pub page_of : ℕ → ℕ → ℕ
page_of virt i = (virt + i * 4096) % 2 ^ 64

-- The address lies in the pages `i`, …, `i + n - 1` of the range.
abbrev pub Within : ℕ → ℕ → ℕ → ℕ → Type 0
Within virt i n v = (j : ℕ) × i ≤ j × j < i + n × SamePage v (page_of virt j)

-- What mapping the pages from `i` on comes to.
pub data RangeOutcome (root virt phys i n : ℕ) (s : Vmm) : Bool × Vmm → Type 0 where
  range_mapped :
      (label : Label) (after : Vmm)
      → IsTree label root after
      → ((j v : ℕ)
          → i ≤ j
          → j < i + n
          → SamePage v (page_of virt j)
          → vmm_virt_to_phys_in root v after ≡ pt_get_addr (page_of phys j) + v % 4096)
      → ((v : ℕ)
          → ¬ (Within virt i n v)
          → vmm_virt_to_phys_in root v after ≡ vmm_virt_to_phys_in root v s)
      → RangeOutcome root virt phys i n s (true, after)
  range_refused :
      (label : Label) (after : Vmm)
      → IsTree label root after
      → ((v : ℕ)
          → ¬ (Within virt 0 (i + n) v)
          → vmm_virt_to_phys_in root v after ≡ vmm_virt_to_phys_in root v s)
      → RangeOutcome root virt phys i n s (false, after)

-- Taking the pages back touches no other address.
record Untouched (root virt i n : ℕ) (s after : Vmm) : Type 0 where
  label : Label
  tree : IsTree label root after
  far :
      (v : ℕ)
      → ¬ (Within virt i n v)
      → vmm_virt_to_phys_in root v after ≡ vmm_virt_to_phys_in root v s
