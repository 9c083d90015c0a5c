-- ===== src/Vmm/Way.antt =====
-- kernel/vmm.c: the way of an address down the tables, and writes to the last one.
use project_lariat.Prelude.{
  Bool-cases, List, [], ap, ap₂, arith, false, get_or, if◌then◌else◌, inl, inr, length, some, suc,
  sym, true, zero, ℕ, ◌%◌, ◌&&◌, ◌/◌, ◌<◌, ◌==◌, ◌^◌, ◌∙◌, ◌∷◌, ◌≡◌, ◌≢◌, ◌≤◌,
}
use project_lariat.Vmm.{Vmm, or64, pt_get_addr, pt_index, pt_is_huge, pt_is_present}
use project_lariat.Vmm.Tree.{IsTree, Label, length-trail, lookup, pt_index-lt, trail, trail_step}
use project_lariat.Vmm.Walk.{Store, label-same, lookup-suc, written}

-- Two addresses of one page; the upper 16 bits do not count.
abbrev pub SamePage : ℕ → ℕ → Type 0
SamePage v w = v / 4096 % 2 ^ 36 ≡ w / 4096 % 2 ^ 36

same_page : (v w : ℕ) → trail 0 v ≡ trail 0 w → pt_index v 0 ≡ pt_index w 0 → SamePage v w
unfolding pt_index
same_page v w e f =
    let at : (k : ℕ) → get_or (trail 0 v) k 0 ≡ get_or (trail 0 w) k 0 =
      λ k. ap (λ xs. get_or xs k 0) e in
    omega (arith, f, at 0, at 1, at 2)

pub pt_index-same :
    (v w : ℕ)
    → SamePage v w
    → (pt_index v 0 ≡ pt_index w 0)
      × (pt_index v 1 ≡ pt_index w 1)
      × (pt_index v 2 ≡ pt_index w 2)
      × (pt_index v 3 ≡ pt_index w 3)
unfolding pt_index
pt_index-same v w e = (omega (arith, e), omega (arith, e), omega (arith, e), omega (arith, e))

-- A word of the last table changes the translation of its page alone.
pub lookup-written :
    (label : Label) (root : ℕ) (s : Vmm)
    → IsTree label root s
    → (pt w word : ℕ) → label pt ≡ some (trail 0 w)
    → (l t v : ℕ) → l ≤ 3
    → label t ≡ some (trail l v)
    → ¬ (SamePage v w)
    → lookup l t v (written pt (pt_index w 0) word s.store) ≡ lookup l t v s.store
unfolding lookup
lookup-written label root s tree pt w word lp zero t v bound lt far =
    elim (Bool-cases (t == pt && pt_index v 0 == pt_index w 0)) [
      | inl e ↦ absurd (
          far (
            same_page v w (label-same label t pt (trail 0 v) (trail 0 w) lt lp (ground (arith, e)))
              (ground (arith, e))))
      | inr e ↦
          let same : written pt (pt_index w 0) word s.store t (pt_index v 0)
              ≡ s.store t (pt_index v 0) =
            ground (arith, e) in
          ap (λ w. if pt_is_present w then or64 (pt_get_addr w) (v % 4096) else 0) same
    ]
lookup-written label root s tree pt w word lp (suc l) t v bound lt far =
    let idx = pt_index v (suc l) in
    let other : t ≢ pt = λ e. absurd (
      omega (
        arith,
        length-trail (suc l) v,
        length-trail 0 w,
        ap length (label-same label t pt (trail (suc l) v) (trail 0 w) lt lp e),
      )) in
    lookup-suc l t t v s.store (written pt (pt_index w 0) word s.store) (ground (arith, other))
      (λ here flat.
        lookup-written label root s tree pt w word lp l (pt_get_addr (s.store t idx)) v
          (omega arith)
          (tree.child t idx (trail (suc l) v) lt (omega (arith, length-trail (suc l) v))
              (pt_index-lt v (suc l)) here (λ deep. flat (omega (arith, length-trail (suc l) v)))
            ∙ ap some (sym (trail_step l v (omega arith))))
          far)

-- The way of an address to its last table.
pub record Leads (label : Label) (root v : ℕ) (m : Store) (pdpt pd pt : ℕ) : Type 0 where
  pub at3 : pt_is_present (m root (pt_index v 3)) ≡ true
  pub to3 : pt_get_addr (m root (pt_index v 3)) ≡ pdpt
  pub at2 : pt_is_present (m pdpt (pt_index v 2)) ≡ true
  pub to2 : pt_get_addr (m pdpt (pt_index v 2)) ≡ pd
  pub at1 : pt_is_present (m pd (pt_index v 1)) ≡ true
  pub to1 : pt_get_addr (m pd (pt_index v 1)) ≡ pt
  pub flat : pt_is_huge (m pd (pt_index v 1)) ≡ false
  pub label3 : label root ≡ some []
  pub label2 : label pdpt ≡ some (trail 2 v)
  pub label1 : label pd ≡ some (trail 1 v)
  pub label0 : label pt ≡ some (trail 0 v)

pub lookup-Leads :
    (label : Label) (root v : ℕ) (m : Store) (pdpt pd pt : ℕ)
    → Leads label root v m pdpt pd pt
    → lookup 3 root v m ≡ lookup 0 pt v m
unfolding lookup
lookup-Leads label root v m pdpt pd pt w =
    ground (arith, w.at3, w.to3, w.at2, w.to2, w.at1, w.to1, w.flat)

-- The way stays where its three words do.
pub kept-Leads :
    (label label' : Label) (root v : ℕ) (m k : Store) (pdpt pd pt : ℕ)
    → Leads label root v m pdpt pd pt
    → ((t : ℕ) (ps : List ℕ) → label t ≡ some ps → label' t ≡ some ps)
    → k root (pt_index v 3) ≡ m root (pt_index v 3)
    → k pdpt (pt_index v 2) ≡ m pdpt (pt_index v 2)
    → k pd (pt_index v 1) ≡ m pd (pt_index v 1)
    → Leads label' root v k pdpt pd pt
kept-Leads label label' root v m k pdpt pd pt w keeps e3 e2 e1 = record {
  at3 = ap pt_is_present e3 ∙ w.at3;
  to3 = ap pt_get_addr e3 ∙ w.to3;
  at2 = ap pt_is_present e2 ∙ w.at2;
  to2 = ap pt_get_addr e2 ∙ w.to2;
  at1 = ap pt_is_present e1 ∙ w.at1;
  to1 = ap pt_get_addr e1 ∙ w.to1;
  flat = ap pt_is_huge e1 ∙ w.flat;
  label3 = keeps root [] w.label3;
  label2 = keeps pdpt _ w.label2;
  label1 = keeps pd _ w.label1;
  label0 = keeps pt _ w.label0;
}

-- A table that has fewer indices than another is another.
pub apart_by :
    (label : Label) (t u : ℕ) (ps qs : List ℕ)
    → label t ≡ some ps
    → label u ≡ some qs
    → length ps < length qs
    → t ≢ u
apart_by label t u ps qs h k lt e =
    absurd (omega (arith, ap length (label-same label t u ps qs h k e)))

pub written-other : (pt i word t j : ℕ) (m : Store) → t ≢ pt → written pt i word m t j ≡ m t j
written-other pt i word t j m h = ground (arith, h)

pub written-Leads :
    (label : Label) (root v : ℕ) (m : Store) (pdpt pd pt i word : ℕ)
    → Leads label root v m pdpt pd pt
    → Leads label root v (written pt i word m) pdpt pd pt
written-Leads label root v m pdpt pd pt i word w =
    kept-Leads label label root v m (written pt i word m) pdpt pd pt w (λ t ps h. h)
      (written-other pt i word root (pt_index v 3) m
        (apart_by label root pt [] (trail 0 v) w.label3 w.label0 (omega arith)))
      (written-other pt i word pdpt (pt_index v 2) m
        (apart_by label pdpt pt (trail 2 v) (trail 0 v) w.label2 w.label0 (omega arith)))
      (written-other pt i word pd (pt_index v 1) m
        (apart_by label pd pt (trail 1 v) (trail 0 v) w.label1 w.label0 (omega arith)))

-- A word of a last table keeps the tree.
pub written-IsTree :
    (label : Label) (root v pt word : ℕ) (s : Vmm)
    → IsTree label root s
    → label pt ≡ some (trail 0 v)
    → IsTree label root (record s { store = written pt (pt_index v 0) word s.store })
written-IsTree label root v pt word s tree lp = record {
  valid = tree.valid;
  small = tree.small;
  low_page = tree.low_page;
  root_label = tree.root_label;
  child = λ t j ps lt deep lo here flat.
      let same =
        written-other pt (pt_index v 0) word t j s.store
          (apart_by label t pt ps (trail 0 v) lt lp deep) in
      ap (λ x. label (pt_get_addr x)) same
      ∙ tree.child t j ps lt deep lo (ap pt_is_present (sym same) ∙ here)
          (λ two. ap pt_is_huge (sym same) ∙ flat two);
  in_use = tree.in_use;
}

-- Addresses of one page have one way.
same-Leads :
    (label : Label) (root v w : ℕ) (m : Store) (pdpt pd pt : ℕ)
    → SamePage v w
    → Leads label root w m pdpt pd pt
    → Leads label root v m pdpt pd pt
same-Leads label root v w m pdpt pd pt e h =
    let (e0, e1, e2, e3) = pt_index-same v w e in
    record {
      at3 = ap (λ i. pt_is_present (m root i)) e3 ∙ h.at3;
      to3 = ap (λ i. pt_get_addr (m root i)) e3 ∙ h.to3;
      at2 = ap (λ i. pt_is_present (m pdpt i)) e2 ∙ h.at2;
      to2 = ap (λ i. pt_get_addr (m pdpt i)) e2 ∙ h.to2;
      at1 = ap (λ i. pt_is_present (m pd i)) e1 ∙ h.at1;
      to1 = ap (λ i. pt_get_addr (m pd i)) e1 ∙ h.to1;
      flat = ap (λ i. pt_is_huge (m pd i)) e1 ∙ h.flat;
      label3 = h.label3;
      label2 = h.label2 ∙ ap (λ i. some (i ∷ [])) (sym e3);
      label1 = h.label1 ∙ ap₂ (λ i j. some (i ∷ j ∷ [])) (sym e2) (sym e3);
      label0 =
          h.label0
          ∙ ap (λ i. some (i ∷ pt_index w 2 ∷ pt_index w 3 ∷ [])) (sym e1)
          ∙ ap₂ (λ i j. some (pt_index v 1 ∷ i ∷ j ∷ [])) (sym e2) (sym e3);
    }

-- What a written word makes of an address of its page.
pub lookup-own :
    (label : Label) (root v w : ℕ) (m : Store) (pdpt pd pt word : ℕ)
    → SamePage v w
    → Leads label root w m pdpt pd pt
    → lookup 3 root v (written pt (pt_index w 0) word m)
      ≡ (if pt_is_present word then or64 (pt_get_addr word) (v % 4096) else 0)
unfolding lookup
lookup-own label root v w m pdpt pd pt word e h =
    let way =
      same-Leads label root v w (written pt (pt_index w 0) word m) pdpt pd pt e
        (written-Leads label root w m pdpt pd pt (pt_index w 0) word h) in
    let own : written pt (pt_index w 0) word m pt (pt_index v 0) ≡ word =
      ground (arith, (pt_index-same v w e).0) in
    lookup-Leads label root v _ pdpt pd pt way
    ∙ ap (λ x. if pt_is_present x then or64 (pt_get_addr x) (v % 4096) else 0) own
