-- ===== src/Fd/Count.antt =====
-- kernel/fd.c: how often a table refers to a file, and what one reference more or less does.
use project_lariat.Prelude.{
  List, Option, [], arith, fun_ext, get_or, if◌then◌else◌, length, ltb, none, set, some, subst, suc,
  zero, ℕ, ◌+◌, ◌-◌, ◌<◌, ◌==◌, ◌∷◌, ◌≡◌, ◌≤◌,
}
use project_lariat.Fd.{Store, close_entry, retain, vfs_close}

-- 1 if the entry refers to the file.
abbrev pub refers : Option ℕ → ℕ → ℕ
refers none f = 0
refers (some g) f = if g == f then 1 else 0

abbrev pub uses : List (Option ℕ) → ℕ → ℕ
uses [] f = 0
uses (e ∷ ts) f = refers e f + uses ts f

-- Each file has the references that `held` counts, and is not freed exactly if it has one.
pub record IsCounted (held : ℕ → ℕ) (s : Store) : Type 0 where
  pub exact : (f : ℕ) → (if s.live f then s.refs f else 0) ≡ held f
  pub kept : (f : ℕ) → s.live f ≡ ltb 0 (held f)

pub IsCounted-ext :
    (h k : ℕ → ℕ) (s : Store) → ((f : ℕ) → h f ≡ k f) → IsCounted h s → IsCounted k s
IsCounted-ext h k s e c = subst (λ g. IsCounted g s) (fun_ext e) c

pub uses-set :
    (t : List (Option ℕ)) (i : ℕ) (e : Option ℕ) (f : ℕ)
    → i < length t
    → uses (set t i e) f + refers (get_or t i none) f ≡ uses t f + refers e f
uses-set [] i e f h = absurd (omega arith)
uses-set (x ∷ ts) zero e f h = omega arith
uses-set (x ∷ ts) (suc i) e f h = omega (arith, uses-set ts i e f (omega arith))

pub uses-get_or : (t : List (Option ℕ)) (i f : ℕ) → refers (get_or t i none) f ≤ uses t f
uses-get_or [] i f = omega arith
uses-get_or (x ∷ ts) zero f = omega arith
uses-get_or (x ∷ ts) (suc i) f = omega (arith, uses-get_or ts i f)

-- One reference more to a file that has one.
pub retain-IsCounted :
    (g : ℕ) (h : ℕ → ℕ) (s : Store)
    → IsCounted h s
    → 0 < h g
    → IsCounted (λ f. h f + refers (some g) f) (retain g s)
unfolding retain
retain-IsCounted g h s c lt = record {
  exact = λ f. ground (arith, c.exact f, c.kept f);
  kept = λ f. ground (arith, c.kept f);
}

-- One reference fewer: the file is freed exactly if it was the last.
pub close_entry-IsCounted :
    (e : Option ℕ) (h : ℕ → ℕ) (s : Store)
    → IsCounted h s
    → ((f : ℕ) → refers e f ≤ h f)
    → IsCounted (λ f. h f - refers e f) (close_entry e s)
unfolding close_entry vfs_close
close_entry-IsCounted none h s c le = IsCounted-ext h _ s (λ f. omega arith) c
close_entry-IsCounted (some g) h s c le = record {
  exact = λ f. ground (arith, c.exact f, c.kept f, le f, c.exact g, c.kept g, le g);
  kept = λ f. ground (arith, c.exact f, c.kept f, le f, c.exact g, c.kept g, le g);
}
