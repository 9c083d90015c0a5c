-- ===== src/Vmm/Walk.antt =====
-- kernel/vmm.c: translations over writes to the tables.
use project_lariat.Prelude.{
  Bool, Bool-cases, List, Option, [], ap, arith, false, if◌then◌else◌, inl, inr, length, ltb, none,
  refl, some, suc, sym, true, zero, ℕ, ◌%◌, ◌&&◌, ◌<◌, ◌==◌, ◌^◌, ◌∙◌, ◌≡◌, ◌≢◌, ◌≤◌,
}
use project_lariat.Vmm.{Vmm, or64, pt_get_addr, pt_index, pt_is_huge, pt_is_present}
use project_lariat.Vmm.Tree.{IsTree, Label, length-trail, lookup, pt_index-lt, trail, trail_step}
use project_lariat.Vmm.Entries.{IsEntryOf}

abbrev pub Store : Type 0
Store = ℕ → ℕ → ℕ

-- The words with one of them written, and with a page cleared.
abbrev pub written : ℕ → ℕ → ℕ → Store → Store
written a i word m = λ t j. if t == a && j == i then word else m t j

abbrev pub cleared : ℕ → Store → Store
cleared phys m = λ t j. if t == phys && ltb j 512 then 0 else m t j

pub written-same : (a i word : ℕ) (m : Store) → written a i word m a i ≡ word
written-same a i word m = ground arith

-- A page of zeros maps nothing.
pub lookup-empty : (l t v : ℕ) (m : Store) → ((j : ℕ) → j < 512 → m t j ≡ 0) → lookup l t v m ≡ 0
unfolding lookup pt_is_present
lookup-empty zero t v m h = ground (arith, h (pt_index v 0) (pt_index-lt v 0))
lookup-empty (suc l) t v m h = ground (arith, h (pt_index v (suc l)) (pt_index-lt v (suc l)))

then-same :
    (b : Bool) (z : ℕ) {x y : ℕ} → (b ≡ true → x ≡ y) → (if b then x else z) ≡ (if b then y else z)
then-same true z h = h refl
then-same false z h = refl

else-same :
    (b : Bool) (z : ℕ) {x y : ℕ} → (b ≡ false → x ≡ y) → (if b then z else x) ≡ (if b then z else y)
else-same true z h = refl
else-same false z h = h refl

-- Where the entry is the same and the tables below give the same, a table gives the same.
pub lookup-suc :
    (l t u v : ℕ) (m k : Store)
    → k u (pt_index v (suc l)) ≡ m t (pt_index v (suc l))
    → (let e = m t (pt_index v (suc l)) in
        pt_is_present e ≡ true
        → (l ≡ 0 → pt_is_huge e ≡ false)
        → lookup l (pt_get_addr e) v k ≡ lookup l (pt_get_addr e) v m)
    → lookup (suc l) u v k ≡ lookup (suc l) t v m
unfolding lookup
lookup-suc l t u v m k same below =
    let e = m t (pt_index v (suc l)) in
    let step : ℕ → ℕ = λ w.
      if pt_is_present w
      then (if l == 0 && pt_is_huge w
          then or64 (pt_get_addr w) (v % 2 ^ 21)
          else lookup l (pt_get_addr w) v k)
      else 0 in
    ap step same
    ∙ then-same (pt_is_present e) 0 (λ here.
      else-same (l == 0 && pt_is_huge e) (or64 (pt_get_addr e) (v % 2 ^ 21))
        (λ low. below here (λ z. ground arith)))

pub label-some :
    (label : Label) (t u : ℕ) (ps : List ℕ) → label t ≡ some ps → label u ≡ none → t ≢ u
label-some label t u ps h k e = ground (arith, ap label e)

abbrev indices : Option (List ℕ) → List ℕ
indices none = []
indices (some ps) = ps

pub label-same :
    (label : Label) (t u : ℕ) (ps qs : List ℕ)
    → label t ≡ some ps
    → label u ≡ some qs
    → t ≡ u
    → ps ≡ qs
label-same label t u ps qs h k e = ap indices (sym h ∙ ap label e ∙ k)

module _ (label : Label) (root : ℕ) (s : Vmm) (tree : IsTree label root s) where
  -- A table that is new, at an entry that was not there, changes no translation.
  pub lookup-linked :
      (a i phys word : ℕ) (pa : List ℕ)
      → label a ≡ some pa
      → length pa < 3
      → i < 512
      → pt_is_present (s.store a i) ≡ false
      → label phys ≡ none
      → IsEntryOf phys word
      → (l t v : ℕ) → l ≤ 3
      → label t ≡ some (trail l v)
      → lookup l t v (written a i word (cleared phys s.store)) ≡ lookup l t v s.store
  unfolding lookup
  lookup-linked a i phys word pa la high low absent fresh w zero t v bound lt =
      let new = written a i word (cleared phys s.store) in
      let other : t ≢ a = λ e.
        absurd (omega (arith, high, ap length (label-same label t a (trail 0 v) pa lt la e))) in
      let same : new t (pt_index v 0) ≡ s.store t (pt_index v 0) =
        ground (arith, label-some label t phys (trail 0 v) lt fresh) in
      ap (λ w. if pt_is_present w then or64 (pt_get_addr w) (v % 4096) else 0) same
  lookup-linked a i phys word pa la high low absent fresh w (suc l) t v bound lt =
      let new = written a i word (cleared phys s.store) in
      let idx = pt_index v (suc l) in
      let old : t ≢ phys = label-some label t phys (trail (suc l) v) lt fresh in
      let apart : a ≢ phys = label-some label a phys pa la fresh in
      elim (Bool-cases (t == a && pt_index v (suc l) == i)) [
        | inl e ↦
            let entry : new t idx ≡ word = ground (arith, e) in
            let gone : pt_is_present (s.store t idx) ≡ false = ground (arith, e, absent) in
            let nothing : lookup l phys v new ≡ 0 =
              lookup-empty l phys v new (λ j lo. ground (arith, apart)) in
            ground (arith, entry, gone, w.present, w.not_huge, w.addr, nothing)
        | inr e ↦ lookup-suc l t t v s.store new (ground (arith, e, old)) (λ here flat.
            lookup-linked a i phys word pa la high low absent fresh w l
              (pt_get_addr (s.store t idx)) v (omega arith)
              (tree.child t idx (trail (suc l) v) lt (omega (arith, length-trail (suc l) v))
                  (pt_index-lt v (suc l)) here
                  (λ deep. flat (omega (arith, length-trail (suc l) v)))
                ∙ ap some (sym (trail_step l v (omega arith)))))
      ]
