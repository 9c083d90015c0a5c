-- ===== src/Ramfs/Dirs/Create.antt =====
-- kernel/fs/ramfs.c: a name that was created is found.
use project_lariat.Prelude.{
  All, List, [], ap, arith, length, none, pos, refl, some, suc, sym, take, true, zero, ℕ, ◌%◌, ◌+◌,
  ◌^◌, ◌∙◌, ◌∷◌, ◌≡◌, ◌≢◌, ◌≤◌,
}
use project_lariat.Vfs.{FilePath, Inode, Vfs, is_dir}
use project_lariat.Ramfs.Dirs.{
  Memories, RamSb, create_in, linked_into, parent_or_root, ramfs_create, ramfs_create_vinode,
  ramfs_dentry_for, ramfs_lookup, ramfs_parent_dentry,
}
use project_lariat.ThreadQueue.{update}
use project_lariat.Vfs.Dentries.{
  find_named, has_dir, same_name, vfs_dentry_add_child, vfs_dentry_create, vfs_dentry_find_child,
}
use project_lariat.Ramfs.Dirs.Search.{Grows, dentry_for_refers, dentry_for_same}

same_name_self : (name : FilePath) → same_name name name ≡ true
unfolding same_name
same_name_self [] = refl
same_name_self (c ∷ name) = ground (arith, same_name_self name)

take_whole : (n : ℕ) (name : FilePath) → length name ≤ n → take n name ≡ name
take_whole zero [] h = refl
take_whole zero (c ∷ name) h = absurd (omega arith)
take_whole (suc n) [] h = refl
take_whole (suc n) (c ∷ name) h = ap (◌∷◌ c) (take_whole n name (omega arith))

find_in_directory :
    (parent d : ℕ) (name : FilePath) (ds : List ℕ) (t : Vfs)
    → has_dir parent t ≡ true
    → (t.dentries parent).child_list ≡ d ∷ ds
    → (t.dentries d).name ≡ name
    → vfs_dentry_find_child parent name t ≡ some d
unfolding vfs_dentry_find_child find_named
find_in_directory parent d name ds t directory front named =
    let same : same_name (t.dentries d).name name ≡ true =
      ap (λ n. same_name n name) named ∙ same_name_self name in
    rw (directory, vfs_dentry_find_child) (rw front (rw same refl))

-- The state after a directory entry was created.
abbrev with_entry : ℕ → ℕ → ℕ → FilePath → Inode → Vfs → Vfs
with_entry parent i d name made s = vfs_dentry_add_child parent d (record s {
  inodes = update s.inodes i made;
  dentries = update s.dentries d (record {
    name = take 63 name;
    inode = some i;
    parent = some parent;
    child_list = [];
    mount = none;
  });
})

module _ (parent dir i d : ℕ) (name : FilePath) (made : Inode) (s : Vfs)
    (holds : (s.dentries parent).inode ≡ some dir) (is_new : parent ≢ d) (other : i ≢ dir)
    (short : length name ≤ 63) where
  with_entry-Grows : Grows dir parent d s.dentries (with_entry parent i d name made s).dentries
  unfolding vfs_dentry_add_child
  with_entry-Grows = record {
    here = holds;
    here_too = ground (arith, holds, is_new);
    elsewhere = λ c a b. ground (arith, a, b);
  }

  with_entry_dir :
      has_dir parent s ≡ true → has_dir parent (with_entry parent i d name made s) ≡ true
  unfolding vfs_dentry_add_child has_dir
  with_entry_dir directory =
      let still : ((with_entry parent i d name made s).dentries parent).inode ≡ some dir =
        ground (arith, holds, is_new) in
      let before : is_dir (s.inodes dir).mode ≡ true = sym (rw (holds, has_dir) refl) ∙ directory in
      let kept : (with_entry parent i d name made s).inodes dir ≡ s.inodes dir =
        ground (arith, other) in
      rw (still, has_dir) (ap (λ (x : Inode). is_dir x.mode) kept ∙ before)

  with_entry_found :
      has_dir parent s ≡ true
      → vfs_dentry_find_child parent name (with_entry parent i d name made s) ≡ some d
  unfolding vfs_dentry_add_child
  with_entry_found directory =
      find_in_directory parent d name (s.dentries parent).child_list
        (with_entry parent i d name made s) (with_entry_dir directory) (ground (arith, is_new))
        (ground (arith, take_whole 63 name short))

-- The address of a new entry is used nowhere.
pub record IsUnused (d : ℕ) (sb : RamSb) (s : Vfs) : Type 0 where
  pub no_child : (c : ℕ) → All (λ e. e ≢ d) (s.dentries c).child_list
  pub no_inode : (s.dentries d).inode ≡ none
  pub no_root : sb.root ≢ d

create_linked :
    (depth dir parent i d mode : ℕ) (name : FilePath) (sb : RamSb) (s : Vfs)
    → ramfs_parent_dentry depth sb dir s ≡ some parent
    → vfs_dentry_find_child parent name s ≡ none
    → let made : Inode = record {
      inode_no = sb.next_inode_no;
      mode = mode;
      size = 0;
      uid = 0;
      gid = 0;
    } in
      let memory : Memories = record {
        ramfs_part = true;
        inode_memory = some i;
        dentry_memory = some d;
      } in
      ramfs_create depth memory dir name mode sb s ≡ (
        pos 0,
        record sb { next_inode_no = (sb.next_inode_no + 1) % 2 ^ 32 },
        with_entry parent i d name made s,
      )
unfolding ramfs_create create_in linked_into ramfs_create_vinode vfs_dentry_create
create_linked depth dir parent i d mode name sb s e untaken =
    let memory : Memories = record {
      ramfs_part = true;
      inode_memory = some i;
      dentry_memory = some d;
    } in
    let at_parent : parent_or_root depth sb dir s ≡ parent = rw (e, parent_or_root) refl in
    ap (λ q. create_in depth q memory name mode sb s) at_parent ∙ rw (untaken, create_in) refl

-- A name of at most 63 bytes that a directory does not have is created where there is memory for
-- it, and is then found at the new entry, with an inode of the mode that was asked for.
pub ramfs_create-ramfs_lookup :
    (depth dir parent i d mode : ℕ) (name : FilePath) (sb : RamSb) (s : Vfs)
    → ramfs_parent_dentry depth sb dir s ≡ some parent
    → has_dir parent s ≡ true
    → vfs_dentry_find_child parent name s ≡ none
    → length name ≤ 63
    → IsUnused d sb s
    → i ≢ dir
    → let memory : Memories = record {
      ramfs_part = true;
      inode_memory = some i;
      dentry_memory = some d;
    } in
      let (answer, sb', t) = ramfs_create depth memory dir name mode sb s in
      (answer ≡ pos 0)
      × (ramfs_lookup depth sb' dir name t ≡ some d)
      × ((t.dentries d).inode ≡ some i)
      × ((t.inodes i).mode ≡ mode)
unfolding ramfs_lookup ramfs_parent_dentry vfs_dentry_add_child
ramfs_create-ramfs_lookup depth dir parent i d mode name sb s e directory untaken short fresh
      other =
    let made : Inode = record {
      inode_no = sb.next_inode_no;
      mode = mode;
      size = 0;
      uid = 0;
      gid = 0;
    } in
    let holds = dentry_for_refers depth dir s.dentries sb.root parent e in
    let is_new : parent ≢ d =
      λ same. ground (arith, ap (λ c. (s.dentries c).inode) same, holds, fresh.no_inode) in
    let t = with_entry parent i d name made s in
    let g = with_entry-Grows parent dir i d name made s holds is_new other short in
    let found : ramfs_dentry_for depth dir t.dentries sb.root ≡ some parent =
      dentry_for_same depth dir parent d s.dentries t.dentries sb.root g fresh.no_child
        fresh.no_root
      ∙ e in
    let there = with_entry_found parent dir i d name made s holds is_new other short directory in
    rw (create_linked depth dir parent i d mode name sb s e untaken)
      (refl, rw (found, ramfs_lookup) there, ground arith, ground arith)
