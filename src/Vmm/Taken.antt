-- ===== src/Vmm/Taken.antt =====
-- kernel/vmm.c: `alloc_pt_page` on the allocator of pages.
use project_lariat.Prelude.{
  Bool-cases, ap, arith, false, if-both, if◌then◌else◌, inl, inr, refl, subst, sym, true, ℕ, ◌*◌,
  ◌+◌, ◌<◌, ◌==◌, ◌∙◌, ◌≡◌, ◌≢◌, ◌≤◌,
}
use project_lariat.Pmm.{Pmm, alloc_pages, page_to_phys}
use project_lariat.Pmm.Valid.{IsValid, used}
use project_lariat.Pmm.Run.{IsFreeRun, Outcome, alloc_pages-Outcome, granted, none_free}
use project_lariat.Pmm.Alloc.{alloc_page-alloc_pages, page_to_phys_exact}
use project_lariat.Vmm.{Vmm, alloc_pt_page, zero_page}
use project_lariat.Vmm.Tree.{IsFull}

-- The allocator is valid and has no page given back.
pub record Grows (s after : Pmm) : Type 0 where
  pub valid : IsValid after
  pub total : after.total_pages ≡ s.total_pages
  pub more : (q : ℕ) → used s q ≡ true → used after q ≡ true

-- What `alloc_pt_page` does: it fails with no word changed, or clears a page that was not in use.
pub data Taken (s : Vmm) : ℕ × Vmm → Type 0 where
  none_taken : (pmm : Pmm) → Grows s.pmm pmm → IsFull pmm → Taken s (0, record s { pmm = pmm })
  page_taken :
      (q : ℕ) (pmm : Pmm)
      → Grows s.pmm pmm
      → q < s.pmm.total_pages
      → used s.pmm q ≡ false
      → used pmm q ≡ true
      → q * 4096 ≢ 0
      → Taken s (q * 4096, zero_page (q * 4096) (record s { pmm = pmm }))

no_free : (s : Pmm) → ((a : ℕ) → a + 1 ≤ s.total_pages → ¬ IsFreeRun s a 1) → IsFull s
no_free s f page h = elim (Bool-cases (used s page)) [
  | inl e ↦ e
  | inr e ↦
      absurd (
        f page (omega arith) (λ q le lt. let same : q ≡ page = omega arith in ap (used s) same ∙ e))
]

cleared_after : Vmm → ℕ × Pmm → ℕ × Vmm
cleared_after s (phys, pmm) =
    let after = record s { pmm = pmm } in
    if phys == 0 then (0, after) else (phys, zero_page phys after)

Outcome-Taken :
    (s : Vmm) (r : ℕ × Pmm)
    → IsValid s.pmm
    → used s.pmm 0 ≡ true
    → Outcome s.pmm 1 r
    → Taken s (cleared_after s r)
unfolding cleared_after
Outcome-Taken s _ v low (none_free f) =
    none_taken s.pmm (record { valid = v; total = refl; more = λ q h. h }) (no_free s.pmm f)
Outcome-Taken s _ v low (granted start after g x) =
    let at : page_to_phys start ≡ start * 4096 =
      page_to_phys_exact start (omega (arith, g.inside, v.small)) in
    let grows : Grows s.pmm after = record {
      valid = g.valid;
      total = g.total;
      more = λ q h. ground (arith, g.changed q, h);
    } in
    if-both (Taken s) (page_to_phys start == 0)
      (λ e. absurd (ground (arith, e, at, low, g.free_before 0)))
      (λ e.
        subst (λ p. Taken s (p, zero_page p (record s { pmm = after }))) (sym at)
          (page_taken start after grows (omega (arith, g.inside))
            (g.free_before start (omega arith) (omega arith)) (ground (arith, g.changed start))
            (λ z. ground (arith, z, at, e))))

pub alloc_pt_page-Taken :
    (s : Vmm) → IsValid s.pmm → used s.pmm 0 ≡ true → Taken s (alloc_pt_page s)
unfolding alloc_pt_page cleared_after
alloc_pt_page-Taken s v low =
    subst (λ (r : ℕ × Pmm). Taken s (cleared_after s r)) (sym (alloc_page-alloc_pages s.pmm))
      (Outcome-Taken s (alloc_pages 1 s.pmm) v low (alloc_pages-Outcome 1 s.pmm (omega arith) v))
