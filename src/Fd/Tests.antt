-- ===== src/Fd/Tests.antt =====
-- kernel/fd.c: a table with one open file.
use project_lariat.Prelude.{
  List, Option, [], arith, if◌then◌else◌, none, pos, refl, replicate, some, suc, true, zero, ℕ,
  ◌==◌, ◌∷◌, ◌≡◌,
}
use project_lariat.Fd.{
  FdTable, Store, dup_file, fd_alloc, fd_dup, fd_table_clone, fd_table_free, first_unused,
}
use project_lariat.Fd.Count.{uses}
use project_lariat.Fd.Balance.{IsBalanced, calls, calls-IsBalanced, closes, dups, dups2}
use project_lariat.Fd.Clone.{copy_of, fd_table_clone-fd_table_free}

-- The descriptor 0 refers to the file 7.
abbrev entries : List (Option ℕ)
entries = some 7 ∷ replicate 255 none

abbrev one_file : FdTable
one_file = record { files = entries; ref_count = 1 }

abbrev store : Store
store = record { refs = λ f. if 7 == f then 1 else 0; live = λ f. 7 == f }

uses-replicate : (n f : ℕ) → uses (replicate n none) f ≡ 0
uses-replicate zero f = refl
uses-replicate (suc n) f = omega (arith, uses-replicate n f)

entries-IsBalanced : IsBalanced (λ f. 0) entries store
entries-IsBalanced = record {
  size = refl;
  counted = record {
    exact = λ f. ground (arith, uses-replicate 255 f);
    kept = λ f. ground (arith, uses-replicate 255 f);
  };
}

duplicated : (fd_dup entries (pos 0) store).0 ≡ some 1
unfolding fd_dup dup_file fd_alloc first_unused
duplicated = refl

calls-IsBalanced_example :
    let (t', s') =
      calls (dups (pos 0) ∷ dups2 (pos 1) (pos 9) ∷ closes (pos 0) ∷ []) (entries, store) in
    IsBalanced (λ f. 0) t' s'
calls-IsBalanced_example =
    calls-IsBalanced (dups (pos 0) ∷ dups2 (pos 1) (pos 9) ∷ closes (pos 0) ∷ []) (λ f. 0) entries
      store entries-IsBalanced

fd_table_clone-fd_table_free_example :
    let (_, s') = fd_table_clone true one_file store in
    let (_, _, s'') = fd_table_free (copy_of one_file) s' in
    (s''.live 7 ≡ true) × ((if s''.live 7 then s''.refs 7 else 0) ≡ 1)
fd_table_clone-fd_table_free_example =
    fd_table_clone-fd_table_free (λ f. 0) one_file store 7 entries-IsBalanced
