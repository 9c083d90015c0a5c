-- ===== src/Fd/Clone.antt =====
-- kernel/fd.c: a table that is copied for a new process, and freed when the process ends.
use project_lariat.Prelude.{
  List, Option, [], arith, if◌then◌else◌, none, refl, some, subst, sym, true, ℕ, ◌+◌, ◌-◌, ◌∙◌, ◌∷◌,
  ◌≡◌, ◌≤◌,
}
use project_lariat.Fd.{
  FdTable, Store, close_all, close_entry, fd_table_clone, fd_table_free, retain, retain_all,
}
use project_lariat.Fd.Count.{
  IsCounted, IsCounted-ext, close_entry-IsCounted, refers, retain-IsCounted, uses,
}
use project_lariat.Fd.Balance.{IsBalanced}

retain_all-IsCounted :
    (ts : List (Option ℕ)) (h : ℕ → ℕ) (s : Store)
    → IsCounted h s
    → ((f : ℕ) → uses ts f ≤ h f)
    → IsCounted (λ f. h f + uses ts f) (retain_all ts s)
unfolding retain_all
retain_all-IsCounted [] h s c le = IsCounted-ext h _ s (λ f. omega arith) c
retain_all-IsCounted (none ∷ ts) h s c le =
    IsCounted-ext (λ f. h f + uses ts f) _ _ (λ f. omega arith)
      (retain_all-IsCounted ts h s c (λ f. omega (arith, le f)))
retain_all-IsCounted (some g ∷ ts) h s c le =
    IsCounted-ext (λ f. h f + refers (some g) f + uses ts f) _ _ (λ f. omega arith)
      (retain_all-IsCounted ts (λ f. h f + refers (some g) f) (retain g s)
        (retain-IsCounted g h s c (ground (arith, le g))) (λ f. omega (arith, le f)))

close_all-IsCounted :
    (ts : List (Option ℕ)) (h : ℕ → ℕ) (s : Store)
    → IsCounted h s
    → ((f : ℕ) → uses ts f ≤ h f)
    → IsCounted (λ f. h f - uses ts f) (close_all ts s)
unfolding close_all
close_all-IsCounted [] h s c le = IsCounted-ext h _ s (λ f. omega arith) c
close_all-IsCounted (e ∷ ts) h s c le =
    IsCounted-ext (λ f. h f - refers e f - uses ts f) _ _ (λ f. omega arith)
      (close_all-IsCounted ts (λ f. h f - refers e f) (close_entry e s)
        (close_entry-IsCounted e h s c (λ f. omega (arith, le f))) (λ f. omega (arith, le f)))

-- The copy of a table, which has its references beside those of the table.
abbrev pub copy_of : FdTable → FdTable
copy_of t = record { files = t.files; ref_count = 1 }

-- When `fd_table_clone` succeeds, the counts are right for the two tables together, and the copy
-- has the same files at the same descriptors.
pub fd_table_clone-IsBalanced :
    (others : ℕ → ℕ) (t : FdTable) (s : Store)
    → IsBalanced others t.files s
    → let (r, s') = fd_table_clone true t s in
      (r ≡ some (copy_of t)) × IsBalanced (λ f. uses t.files f + others f) (copy_of t).files s'
unfolding fd_table_clone
fd_table_clone-IsBalanced others t s b = (
  refl,
  record {
    size = b.size;
    counted =
        IsCounted-ext _ _ _ (λ f. omega arith)
          (retain_all-IsCounted t.files (λ f. uses t.files f + others f) s b.counted
            (λ f. omega arith));
  },
)

-- A table whose last reference is dropped gives up its references to the files and no others: what
-- only it referred to is freed, and the counts of the rest are right.
pub fd_table_free-IsCounted :
    (others : ℕ → ℕ) (t : FdTable) (s : Store)
    → IsBalanced others t.files s
    → t.ref_count ≡ 1
    → let (freed, t', s') = fd_table_free t s in (freed ≡ true) × IsCounted others s'
unfolding fd_table_free
fd_table_free-IsCounted others t s b last =
    let closed =
      close_all-IsCounted t.files (λ f. uses t.files f + others f) s b.counted (λ f. omega arith) in
    (
      ground (arith, last),
      subst (IsCounted others) (ground (arith, last))
          (IsCounted-ext _ others (close_all t.files s) (λ f. omega arith) closed),
    )

-- A process that is forked and exits without touching its table leaves every open file as it was.
pub fd_table_clone-fd_table_free :
    (others : ℕ → ℕ) (t : FdTable) (s : Store) (f : ℕ)
    → IsBalanced others t.files s
    → let (_, s') = fd_table_clone true t s in
      let (_, _, s'') = fd_table_free (copy_of t) s' in
      (s''.live f ≡ s.live f)
      × ((if s''.live f then s''.refs f else 0) ≡ (if s.live f then s.refs f else 0))
fd_table_clone-fd_table_free others t s f b =
    let (_, both) = fd_table_clone-IsBalanced others t s b in
    let s' = (fd_table_clone true t s).1 in
    let (_, back) =
      fd_table_free-IsCounted (λ g. uses t.files g + others g) (copy_of t) s' both refl in
    (back.kept f ∙ sym (b.counted.kept f), back.exact f ∙ sym (b.counted.exact f))
