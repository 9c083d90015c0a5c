-- ===== src/Ramfs/Dirs/Search.antt =====
-- kernel/fs/ramfs.c: the search of the tree for the entry of a directory.
use project_lariat.Prelude.{
  All, Bool-cases, List, Option, Option-cases, [], ap, arith, if◌then◌else◌, inl, inr, none, refl,
  some, subst, suc, sym, true, zero, ℕ, ℕ_discrete, ◌∙◌, ◌∷◌, ◌≡◌, ◌≢◌,
}
use project_lariat.Vfs.{Dentry}
use project_lariat.Ramfs.Dirs.{first_some, ramfs_dentry_for, refers_to}

-- The address of a new entry is in no directory.
abbrev pub IsFresh : ℕ → (ℕ → Dentry) → Type 0
IsFresh new entries = (d : ℕ) → All (λ c. c ≢ new) (entries d).child_list

-- Entries that agree but for a new one at the front of a directory that refers to the inode.
pub record Grows (inode parent new : ℕ) (old grown : ℕ → Dentry) : Type 0 where
  pub here : (old parent).inode ≡ some inode
  pub here_too : (grown parent).inode ≡ some inode
  pub elsewhere : (d : ℕ) → d ≢ parent → d ≢ new → grown d ≡ old d

first_some-same :
    (f g : ℕ → Option ℕ) (P : ℕ → Type 0) (cs : List ℕ)
    → All P cs
    → ((c : ℕ) → P c → f c ≡ g c)
    → first_some f cs ≡ first_some g cs
unfolding first_some
first_some-same f g P [] h same = refl
first_some-same f g P (c ∷ cs) h same =
    let rest = first_some-same f g P cs h.1 same in
    elim (Option-cases (g c)) [
      | inl e ↦ rw (same c h.0 ∙ e, first_some) (rw (e, first_some) rest)
      | inr (d, e) ↦ rw (same c h.0 ∙ e, first_some) (rw (e, first_some) refl)
    ]

refers_to-some : (o : Option ℕ) (inode : ℕ) → refers_to o inode ≡ true → o ≡ some inode
refers_to-some none inode h = ground (arith, h)
refers_to-some (some i) inode h = ground (arith, h)

found_at_once :
    (depth inode : ℕ) (entries : ℕ → Dentry) (d : ℕ)
    → (entries d).inode ≡ some inode
    → ramfs_dentry_for (suc depth) inode entries d ≡ some d
unfolding ramfs_dentry_for
found_at_once depth inode entries d i =
    let here : refers_to (entries d).inode inode ≡ true =
      ap (λ o. refers_to o inode) i ∙ ground arith in
    rw here refl

-- The search finds the same entry as before.
pub dentry_for_same :
    (depth inode parent new : ℕ) (old grown : ℕ → Dentry) (d : ℕ)
    → Grows inode parent new old grown
    → IsFresh new old
    → d ≢ new
    → ramfs_dentry_for depth inode grown d ≡ ramfs_dentry_for depth inode old d
unfolding ramfs_dentry_for
dentry_for_same zero inode parent new old grown d g fresh ne = refl
dentry_for_same (suc depth) inode parent new old grown d g fresh ne = elim (ℕ_discrete d parent) [
  | yes e ↦
      let found : (entries : ℕ → Dentry)
          → (entries parent).inode ≡ some inode
          → ramfs_dentry_for (suc depth) inode entries d ≡ some d =
        λ entries i. found_at_once depth inode entries d (ap (λ c. (entries c).inode) e ∙ i) in
      found grown g.here_too ∙ sym (found old g.here)
  | no other ↦
      let same : grown d ≡ old d = g.elsewhere d other ne in
      let below =
        first_some-same (ramfs_dentry_for depth inode grown) (ramfs_dentry_for depth inode old)
          (λ c. c ≢ new) (old d).child_list (fresh d)
          (λ c h. dentry_for_same depth inode parent new old grown c g fresh h) in
      ap
        (λ (x : Dentry).
          if refers_to x.inode inode
          then some d
          else first_some (ramfs_dentry_for depth inode grown) x.child_list)
        same
      ∙ ap (λ r. if refers_to (old d).inode inode then some d else r) below
]

first_some_found :
    (f : ℕ → Option ℕ) (cs : List ℕ) (p : ℕ) → first_some f cs ≡ some p → (c : ℕ) × (f c ≡ some p)
unfolding first_some
first_some_found f [] p e = absurd (ground (arith, e))
first_some_found f (c ∷ cs) p e = elim (Option-cases (f c)) [
  | inl none_here ↦ first_some_found f cs p (sym (rw (none_here, first_some) refl) ∙ e)
  | inr (d, here) ↦ (c, here ∙ (sym (rw (here, first_some) refl) ∙ e))
]

-- The entry that is found refers to the inode.
pub dentry_for_refers :
    (depth inode : ℕ) (entries : ℕ → Dentry) (d p : ℕ)
    → ramfs_dentry_for depth inode entries d ≡ some p
    → (entries p).inode ≡ some inode
unfolding ramfs_dentry_for
dentry_for_refers zero inode entries d p e = absurd (ground (arith, e))
dentry_for_refers (suc depth) inode entries d p e =
    elim (Bool-cases (refers_to (entries d).inode inode)) [
      | inl yes_here ↦
          let i = refers_to-some (entries d).inode inode yes_here in
          let same : d ≡ p = ground (arith, sym (found_at_once depth inode entries d i) ∙ e) in
          subst (λ c. (entries c).inode ≡ some inode) same i
      | inr not_here ↦
          let (c, f) =
            first_some_found (ramfs_dentry_for depth inode entries) (entries d).child_list p
              (sym (rw not_here refl) ∙ e) in
          dentry_for_refers depth inode entries c p f
    ]
