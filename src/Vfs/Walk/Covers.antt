-- ===== src/Vfs/Walk/Covers.antt =====
-- kernel/vfs.c: what a walk ends at.
use project_lariat.Prelude.{
  Option, Option-cases, ap, arith, inl, inr, none, some, subst, suc, sym, zero, ℕ, ◌<◌, ◌∙◌, ◌≡◌,
  ◌≤◌,
}
use project_lariat.Vfs.{Dentry, FilePath, Vfs}
use project_lariat.Vfs.Names.{split_path}
use project_lariat.Vfs.Walk.{Ops, crossed, vfs_walk, walk_from}

-- What goes on from the entry that was found; nothing goes on from a walk that failed.
abbrev goes_on : Option ℕ × Vfs → (ℕ → Vfs → Option ℕ × Vfs) → Option ℕ × Vfs
goes_on r k = elim r.0 [ none ↦ (none, r.1) | some d ↦ k d r.1 ]

-- The last step of a walk.
abbrev landed : ℕ → Option ℕ × Vfs → Option ℕ × Vfs
landed fuel r = goes_on r (λ d t. (some (crossed fuel t.dentries d), t))

-- Mounted file systems lie over one another in finitely many layers: `rank` counts them down.
pub record IsLayered (entries : ℕ → Dentry) (rank : ℕ → ℕ) : Type 0 where
  pub descends : (d root : ℕ) → (entries d).mount ≡ some root → rank root < rank d

crossed_uncovered :
    (fuel : ℕ) (entries : ℕ → Dentry) (rank : ℕ → ℕ) (d : ℕ)
    → IsLayered entries rank
    → rank d ≤ fuel
    → (entries (crossed fuel entries d)).mount ≡ none
unfolding crossed
crossed_uncovered zero entries rank d l h = elim (Option-cases (entries d).mount) [
  | inl e ↦ e
  | inr (root, e) ↦ absurd (omega (arith, l.descends d root e, h))
]
crossed_uncovered (suc fuel) entries rank d l h = elim (Option-cases (entries d).mount) [
  | inl e ↦ rw (e, crossed) e
  | inr (root, e) ↦
      rw (e, crossed)
        (crossed_uncovered fuel entries rank root l (omega (arith, l.descends d root e, h)))
]

landed_uncovered :
    (fuel d : ℕ) (r : Option ℕ × Vfs) (t : Vfs) (rank : ℕ → ℕ)
    → landed fuel r ≡ (some d, t)
    → IsLayered t.dentries rank
    → ((c : ℕ) → rank c ≤ fuel)
    → (t.dentries d).mount ≡ none
landed_uncovered fuel d (none, u) t rank e l enough = ground (arith, ap (λ x. x.0) e)
landed_uncovered fuel d (some c, u) t rank e l enough =
    let same : u ≡ t = ap (λ (x : Option ℕ × Vfs). x.1) e in
    let target : some (crossed fuel u.dentries c) ≡ some d = ap (λ (x : Option ℕ × Vfs). x.0) e in
    let there : crossed fuel t.dentries c ≡ d =
      ap (λ (u : Vfs). crossed fuel u.dentries c) (sym same) ∙ ground (arith, target) in
    subst (λ c. (t.dentries c).mount ≡ none) there
      (crossed_uncovered fuel t.dentries rank c l (enough c))

-- The entry that a walk comes to is not covered by a mounted file system, where the layers of
-- mounted file systems are finite and no more than the fuel.
pub vfs_walk_uncovered :
    (ops : Ops) (fuel depth start d : ℕ) (path : FilePath) (s t : Vfs) (rank : ℕ → ℕ)
    → vfs_walk ops fuel depth start path s ≡ (some d, t)
    → IsLayered t.dentries rank
    → ((c : ℕ) → rank c ≤ fuel)
    → (t.dentries d).mount ≡ none
unfolding vfs_walk
vfs_walk_uncovered ops fuel zero start d path s t rank e l enough =
    ground (arith, ap (λ (x : Option ℕ × Vfs). x.0) e)
vfs_walk_uncovered ops fuel (suc depth) start d path s t rank e l enough =
    let r = walk_from ops fuel (vfs_walk ops fuel depth) (split_path path) start s in
    landed_uncovered fuel d r t rank e l enough
