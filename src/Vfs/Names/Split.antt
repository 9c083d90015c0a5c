-- ===== src/Vfs/Names/Split.antt =====
-- kernel/vfs.c: how a path is split.
use project_lariat.Prelude.{
  [], ap, ap₂, arith, false, length, length-append, none, refl, some, subst, suc, sym, zero, ℕ,
  ℕ_discrete, ◌++◌, ◌+◌, ◌<◌, ◌==◌, ◌∙◌, ◌∷◌, ◌≡◌, ◌≢◌, ◌≤◌,
}
use project_lariat.Vfs.{FilePath, slash}
use project_lariat.Vfs.Names.{
  components, name_size, path_component, skip_slashes, split_path, take_component,
}

length-skip_slashes : (p : FilePath) → length (skip_slashes p) ≤ length p
unfolding skip_slashes
length-skip_slashes [] = omega arith
length-skip_slashes (c ∷ p) = ground (arith, length-skip_slashes p)

length-take_component : (room : ℕ) (p : FilePath) → length (take_component room p).1 ≤ length p
unfolding take_component
length-take_component zero p = omega arith
length-take_component (suc room) [] = omega arith
length-take_component (suc room) (c ∷ p) = ground (arith, length-take_component room p)

-- A component takes at least one byte.
take_component_shorter :
    (room c : ℕ) (p : FilePath)
    → c ≢ slash
    → length (take_component (suc room) (c ∷ p)).1 < length (c ∷ p)
unfolding take_component
take_component_shorter room c p ne =
    let inside : (c == slash) ≡ false = ground (arith, ne) in
    rw inside (omega (arith, length-take_component room p))

skip_slashes-head : (p r : FilePath) (c : ℕ) → skip_slashes p ≡ c ∷ r → c ≢ slash
unfolding skip_slashes
skip_slashes-head [] r c e = ground (arith, e)
skip_slashes-head (d ∷ p) r c e = elim (ℕ_discrete d slash) [
  | yes same ↦ skip_slashes-head p r c (ground (arith, same, e))
  | no ne ↦ ground (arith, ne, e)
]

-- What the first call of `path_component` finds.
data FirstFound (p : FilePath) : Type 0 where
  at_end : skip_slashes p ≡ [] → path_component p name_size ≡ none → FirstFound p
  found :
      (c : ℕ) (r : FilePath)
      → skip_slashes p ≡ c ∷ r
      → path_component p name_size ≡ some (take_component 63 (c ∷ r))
      → length (take_component 63 (c ∷ r)).1 < length p
      → FirstFound p

path_component-FirstFound : (p r : FilePath) → skip_slashes p ≡ r → FirstFound p
unfolding path_component
path_component-FirstFound p [] e = at_end e (rw (e, path_component) refl)
path_component-FirstFound p (c ∷ r) e =
    let shorter = take_component_shorter 62 c r (skip_slashes-head p r c e) in
    let inside : length (c ∷ r) ≤ length p =
      subst (λ t. length t ≤ length p) e (length-skip_slashes p) in
    found c r e (rw (e, path_component) refl) (omega (arith, shorter, inside))

-- A component and the rest of a path that goes on with a slash and another path.
take_component_append :
    (room : ℕ) (p q : FilePath)
    → take_component room (p ++ slash ∷ q)
      ≡ ((take_component room p).0, (take_component room p).1 ++ slash ∷ q)
unfolding take_component
take_component_append zero p q = refl
take_component_append (suc room) [] q = refl
take_component_append (suc room) (c ∷ p) q = ground (arith, take_component_append room p q)

skip_slashes_append :
    (p q : FilePath)
    → skip_slashes (p ++ slash ∷ q)
      ≡ (elim (skip_slashes p) [ [] ↦ skip_slashes q | c ∷ r ↦ c ∷ r ++ slash ∷ q ])
unfolding skip_slashes
skip_slashes_append [] q = refl
skip_slashes_append (c ∷ p) q = ground (arith, skip_slashes_append p q)

components_end :
    (fuel : ℕ) (p : FilePath) → path_component p name_size ≡ none → components fuel p ≡ []
unfolding components
components_end zero p e = refl
components_end (suc fuel) p e = rw (e, components) refl

components_step :
    (fuel : ℕ) (p name rest : FilePath)
    → path_component p name_size ≡ some (name, rest)
    → components (suc fuel) p ≡ name ∷ components fuel rest
unfolding components
components_step fuel p name rest e = rw (e, components) refl

components_nil : (fuel : ℕ) → components fuel [] ≡ []
unfolding components path_component skip_slashes
components_nil zero = refl
components_nil (suc fuel) = refl

-- Fuel for the length of the path is enough, and more changes nothing.
components_enough :
    (n m : ℕ) (p : FilePath) → length p ≤ n → length p ≤ m → components n p ≡ components m p
unfolding components
components_enough zero m [] a b = sym (components_nil m)
components_enough zero m (c ∷ p) a b = absurd (omega arith)
components_enough (suc n) zero [] a b = components_nil (suc n)
components_enough (suc n) zero (c ∷ p) a b = absurd (omega arith)
components_enough (suc n) (suc m) p a b = elim (path_component-FirstFound p (skip_slashes p) refl) [
  | at_end s e ↦ components_end (suc n) p e ∙ sym (components_end (suc m) p e)
  | found c r s e shorter ↦
      let (name, rest) = take_component 63 (c ∷ r) in
      components_step n p name rest e
      ∙ (ap (◌∷◌ name)
            (components_enough n m rest (omega (arith, shorter)) (omega (arith, shorter)))
          ∙ sym (components_step m p name rest e))
]

path_component_same :
    (p q : FilePath)
    → skip_slashes p ≡ []
    → path_component (p ++ slash ∷ q) name_size ≡ path_component q name_size
unfolding path_component
path_component_same p q s =
    let e : skip_slashes (p ++ slash ∷ q) ≡ skip_slashes q = skip_slashes_append p q ∙ rw s refl in
    rw (e, path_component) refl

path_component_append :
    (p q : FilePath) (c : ℕ) (r : FilePath)
    → skip_slashes p ≡ c ∷ r
    → path_component (p ++ slash ∷ q) name_size
      ≡ some ((take_component 63 (c ∷ r)).0, (take_component 63 (c ∷ r)).1 ++ slash ∷ q)
unfolding path_component
path_component_append p q c r s =
    let e : skip_slashes (p ++ slash ∷ q) ≡ c ∷ r ++ slash ∷ q =
      skip_slashes_append p q ∙ rw s refl in
    rw (e, path_component) (ap some (take_component_append 63 (c ∷ r) q))

components_same :
    (fuel : ℕ) (p q : FilePath)
    → path_component p name_size ≡ path_component q name_size
    → components fuel p ≡ components fuel q
unfolding components
components_same zero p q e = refl
components_same (suc fuel) p q e = rw (e, components) refl

components_append :
    (fuel : ℕ) (p q : FilePath)
    → length p + length q < fuel
    → components fuel (p ++ slash ∷ q) ≡ components fuel p ++ components fuel q
components_append zero p q h = absurd (omega arith)
components_append (suc fuel) p q h = elim (path_component-FirstFound p (skip_slashes p) refl) [
  | at_end s e ↦
      components_same (suc fuel) (p ++ slash ∷ q) q (path_component_same p q s)
      ∙ ap (λ cs. cs ++ components (suc fuel) q) (sym (components_end (suc fuel) p e))
  | found c r s e shorter ↦
      let (name, rest) = take_component 63 (c ∷ r) in
      components_step fuel (p ++ slash ∷ q) name (rest ++ slash ∷ q)
        (path_component_append p q c r s)
      ∙ (ap (◌∷◌ name) (
            components_append fuel rest q (omega (arith, shorter))
            ∙ ap (λ cs. components fuel rest ++ cs)
                (components_enough fuel (suc fuel) q (omega arith) (omega arith)))
          ∙ ap (λ cs. cs ++ components (suc fuel) q) (sym (components_step fuel p name rest e)))
]

-- The components of a path that is joined of two by a slash are those of the one, then those of
-- the other.
split_path_append : (p q : FilePath) → split_path (p ++ slash ∷ q) ≡ split_path p ++ split_path q
unfolding split_path
split_path_append p q =
    let whole : length (p ++ slash ∷ q) ≡ suc (length p + length q) =
      length-append p (slash ∷ q) ∙ omega arith in
    ap (λ n. components n (p ++ slash ∷ q)) whole
    ∙ (components_append (suc (length p + length q)) p q (omega arith)
        ∙ ap₂ ◌++◌
            (components_enough (suc (length p + length q)) (length p) p (omega arith) (omega arith))
            (components_enough (suc (length p + length q)) (length q) q (omega arith)
              (omega arith)))
