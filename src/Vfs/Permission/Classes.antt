-- ===== src/Vfs/Permission/Classes.antt =====
-- kernel/vfs.c: the permission check against the owner, group and other bits of a mode.
use project_lariat.Prelude.{
  Bool, Bool-cases, List, [], ap, arith, bit_and, bit_at, bool_eq, bool_eq_sound, each, each-true,
  false, get_elem?, if◌then◌else◌, inl, inr, not, ok, refl, some, suc, sym, true, zero, ℕ,
  ℕ_discrete, ◌%◌, ◌&&◌, ◌+◌, ◌/◌, ◌<◌, ◌==◌, ◌^◌, ◌||◌, ◌↔◌, ◌∙◌, ◌∷◌, ◌≡◌, ◌≢◌, ◌⊎◌,
}
use project_lariat.Vfs.{Inode}
use project_lariat.Vfs.Permission.{
  Cred, allowed, in_groups, perms_for, user_permission, vfs_permission, wanted,
}

abbrev Listed : ℕ → List ℕ → Type 0
Listed gid gs = (n : ℕ) × (get_elem? gs n ≡ some gid)

abbrev pub InGroup : Cred → Inode → Type 0
InGroup t i = (t.egid ≡ i.gid) ⊎ Listed i.gid t.groups

-- The bits of a mode that count for a thread begin at `k`.
pub data IsClass (t : Cred) (i : Inode) (k : ℕ) : Type 0 where
  owner : t.euid ≡ i.uid → k ≡ 6 → IsClass t i k
  group : t.euid ≢ i.uid → InGroup t i → k ≡ 3 → IsClass t i k
  others : t.euid ≢ i.uid → ¬ InGroup t i → k ≡ 0 → IsClass t i k

abbrev implies : Bool → Bool → Bool
implies a b = not a || b

abbrev covers : ℕ → ℕ → Bool
covers p w =
    implies (bit_at w 0) (bit_at p 0)
    && (implies (bit_at w 1) (bit_at p 1) && implies (bit_at w 2) (bit_at p 2))

abbrev covers_row : ℕ → ℕ → Bool
covers_row p w = bool_eq (bit_and p w == w) (covers p w)

covers_table : each (λ p. each (covers_row p) 8) 8 ≡ true
unfolding each bit_at
covers_table = refl

-- The masked comparison of the source, bit by bit.
bit_and-covers : (p w : ℕ) → p < 8 → w < 8 → (bit_and p w == w) ≡ covers p w
bit_and-covers p w hp hw =
    bool_eq_sound _ _
      (each-true (covers_row p) 8 w hw (each-true (λ p. each (covers_row p) 8) 8 p hp covers_table))

in_groups-Listed : (gid : ℕ) (gs : List ℕ) → in_groups gid gs ≡ true → Listed gid gs
unfolding in_groups
in_groups-Listed gid [] h = ground arith
in_groups-Listed gid (g ∷ gs) h = elim (ℕ_discrete g gid) [
  | yes e ↦ (0, ap some e)
  | no ne ↦ let (n, e) = in_groups-Listed gid gs (ground (arith, h, ne)) in (suc n, e)
]

Listed-in_groups :
    (gid : ℕ) (gs : List ℕ) (n : ℕ) → get_elem? gs n ≡ some gid → in_groups gid gs ≡ true
unfolding in_groups
Listed-in_groups gid [] n e = ground arith
Listed-in_groups gid (g ∷ gs) zero e = ground (arith, e)
Listed-in_groups gid (g ∷ gs) (suc n) e = ground (arith, Listed-in_groups gid gs n e)

-- The bits of the number that is built from three tests.
abbrev built : Bool → Bool → Bool → ℕ
built a b c = (if a then 4 else 0) + (if b then 2 else 0) + (if c then 1 else 0)

built_bits :
    (a b c : Bool)
    → (bit_at (built a b c) 0 ≡ c) × (bit_at (built a b c) 1 ≡ b) × (bit_at (built a b c) 2 ≡ a)
unfolding bit_at
built_bits true true true = (refl, refl, refl)
built_bits true true false = (refl, refl, refl)
built_bits true false true = (refl, refl, refl)
built_bits true false false = (refl, refl, refl)
built_bits false true true = (refl, refl, refl)
built_bits false true false = (refl, refl, refl)
built_bits false false true = (refl, refl, refl)
built_bits false false false = (refl, refl, refl)

wanted_bit : (mask r : ℕ) → r < 3 → bit_at (wanted mask) r ≡ bit_at mask r
unfolding wanted
wanted_bit mask (suc (suc (suc r))) h = absurd (omega arith)
wanted_bit mask zero h = (built_bits (bit_at mask 2) (bit_at mask 1) (bit_at mask 0)).0
wanted_bit mask (suc zero) h = (built_bits (bit_at mask 2) (bit_at mask 1) (bit_at mask 0)).1
wanted_bit mask (suc (suc zero)) h = (built_bits (bit_at mask 2) (bit_at mask 1) (bit_at mask 0)).2

wanted-lt : (mask : ℕ) → wanted mask < 8
unfolding wanted
wanted-lt mask = ground arith

perms_of_class : (t : Cred) (i : Inode) (k : ℕ) → IsClass t i k → perms_for t i ≡ i.mode / 2 ^ k % 8
unfolding perms_for
perms_of_class t i k (owner e c) =
    let same : (t.euid == i.uid) ≡ true = ground (arith, e) in rw (same, c) refl
perms_of_class t i k (group ne (inl e) c) =
    let other : (t.euid == i.uid) ≡ false = ground (arith, ne) in
    let same : (t.egid == i.gid) ≡ true = ground (arith, e) in rw (other, same, c) refl
perms_of_class t i k (group ne (inr (n, e)) c) =
    let other : (t.euid == i.uid) ≡ false = ground (arith, ne) in
    let member = Listed-in_groups i.gid t.groups n e in rw (other, member, c) (ground arith)
perms_of_class t i k (others ne out c) =
    let other : (t.euid == i.uid) ≡ false = ground (arith, ne) in
    let differs : (t.egid == i.gid) ≡ false = ground (arith, λ (e : t.egid ≡ i.gid). out (inl e)) in
    let absent : in_groups i.gid t.groups ≡ false = elim (Bool-cases (in_groups i.gid t.groups)) [
      | inl e ↦ absurd (out (inr (in_groups-Listed i.gid t.groups e)))
      | inr e ↦ e
    ] in
    rw (other, differs, absent, c) (ground arith)

slice_bit :
    (m r : ℕ)
    → r < 3
    → (bit_at (m / 2 ^ 6 % 8) r ≡ bit_at m (6 + r))
      × (bit_at (m / 2 ^ 3 % 8) r ≡ bit_at m (3 + r))
      × (bit_at (m / 2 ^ 0 % 8) r ≡ bit_at m (0 + r))
unfolding bit_at
slice_bit m zero h = (ground arith, ground arith, ground arith)
slice_bit m (suc zero) h = (ground arith, ground arith, ground arith)
slice_bit m (suc (suc zero)) h = (ground arith, ground arith, ground arith)
slice_bit m (suc (suc (suc r))) h = absurd (omega arith)

class_bit :
    (t : Cred) (i : Inode) (k r : ℕ)
    → IsClass t i k
    → r < 3
    → bit_at (i.mode / 2 ^ k % 8) r ≡ bit_at i.mode (k + r)
class_bit t i k r (owner e c) h = rw c (slice_bit i.mode r h).0
class_bit t i k r (group ne e c) h = rw c (slice_bit i.mode r h).1
class_bit t i k r (others ne e c) h = rw c (slice_bit i.mode r h).2

covers_iff :
    (p w : ℕ) → (covers p w ≡ true) ↔ ((r : ℕ) → r < 3 → bit_at w r ≡ true → bit_at p r ≡ true)
covers_iff p w =
    (covered, λ all. ground (arith, all 0 (omega arith), all 1 (omega arith), all 2 (omega arith)))
  where
    covered : covers p w ≡ true → (r : ℕ) → r < 3 → bit_at w r ≡ true → bit_at p r ≡ true
    covered h zero lt b = ground (arith, h, b)
    covered h (suc zero) lt b = ground (arith, h, b)
    covered h (suc (suc zero)) lt b = ground (arith, h, b)
    covered h (suc (suc (suc r))) lt b = absurd (omega arith)

allowed_iff : (b : Bool) → (allowed b ≡ ok 0) ↔ (b ≡ true)
unfolding allowed
allowed_iff true = (λ h. refl, λ h. refl)
allowed_iff false = (λ h. ground arith, λ h. ground arith)

user_permission_iff :
    (t : Cred) (i : Inode) (mask k : ℕ)
    → IsClass t i k
    → (user_permission t i mask ≡ ok 0) ↔ (covers (i.mode / 2 ^ k % 8) (wanted mask) ≡ true)
unfolding user_permission
user_permission_iff t i mask k c = rw (perms_of_class t i k c) (
    rw (bit_and-covers (i.mode / 2 ^ k % 8) (wanted mask) (omega arith) (wanted-lt mask))
      (allowed_iff (covers (i.mode / 2 ^ k % 8) (wanted mask))))

user_permission_bits :
    (t : Cred) (i : Inode) (mask k : ℕ)
    → IsClass t i k
    → (user_permission t i mask ≡ ok 0)
      ↔ ((r : ℕ) → r < 3 → bit_at mask r ≡ true → bit_at i.mode (k + r) ≡ true)
user_permission_bits t i mask k c =
    let checks = user_permission_iff t i mask k c in
    let bits = covers_iff (i.mode / 2 ^ k % 8) (wanted mask) in
    (
      λ h r lt b.
          sym (class_bit t i k r c lt) ∙ bits.0 (checks.0 h) r lt (wanted_bit mask r lt ∙ b),
      λ all.
          checks.1
            (bits.1 (λ r lt b. class_bit t i k r c lt ∙ all r lt (sym (wanted_bit mask r lt) ∙ b))),
    )

no_bit : (r : ℕ) → bit_at 0 r ≢ true
unfolding bit_at
no_bit r h = ground arith

-- Any thread but one of the root user is allowed exactly the accesses whose bits the class of the
-- thread has in the mode: execute, write and read are the bits 0, 1 and 2 of the mask.
pub vfs_permission_lem :
    (t : Cred) (i : Inode) (mask k : ℕ)
    → t.euid ≢ 0
    → IsClass t i k
    → (vfs_permission (some t) (some i) mask ≡ ok 0)
      ↔ ((r : ℕ) → r < 3 → bit_at mask r ≡ true → bit_at i.mode (k + r) ≡ true)
unfolding vfs_permission
vfs_permission_lem t i mask k ne c =
    let user : (t.euid == 0) ≡ false = ground (arith, ne) in
    elim (ℕ_discrete mask 0) [
      | yes e ↦ rw e (λ h r lt b. absurd (no_bit r b), λ all. refl)
      | no some_bit ↦
          let nonzero : (mask == 0) ≡ false = ground (arith, some_bit) in
          rw (nonzero, user) (user_permission_bits t i mask k c)
    ]
