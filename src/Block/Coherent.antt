-- ===== src/Block/Coherent.antt =====
-- kernel/block.c: the cache agrees with the device, and holds a sector at most once.
use project_lariat.Prelude.{
  List, [], arith, if◌then◌else◌, true, ℕ, ◌&&◌, ◌+◌, ◌<◌, ◌==◌, ◌∙◌, ◌∷◌, ◌≡◌,
}
use project_lariat.Block.{
  Cache, add64, bcache_entries, bcache_put, block_init, is_for, is_used, put_from, touch,
}
use project_lariat.Block.Find.{slot_for_only}

-- Every entry in use holds what `f` has at its device and sector, and no two are for one sector.
pub record IsCoherent {Sector : Type 0} (f : ℕ → ℕ → Sector) (c : Cache Sector) : Type 0 where
  pub agrees :
      (i : ℕ)
      → i < bcache_entries
      → is_used (c.bcache i) ≡ true
      → (c.bcache i).contents ≡ f (c.bcache i).dev (c.bcache i).lba
  pub unique :
      (i j a b : ℕ)
      → i < bcache_entries
      → j < bcache_entries
      → is_for a b (c.bcache i) ≡ true
      → is_for a b (c.bcache j) ≡ true
      → i ≡ j

module _ {Sector : Type 0} where
  -- One sector written, and several.
  abbrev pub store : (ℕ → ℕ → Sector) → ℕ → ℕ → Sector → ℕ → ℕ → Sector
  store f dev lba x e a = if dev == e && lba == a then x else f e a

  abbrev pub store_all : (ℕ → ℕ → Sector) → ℕ → ℕ → ℕ → List Sector → ℕ → ℕ → Sector
  store_all f dev lba k [] = f
  store_all f dev lba k (x ∷ xs) = store_all (store f dev (add64 lba k) x) dev lba (k + 1) xs

  pub IsCoherent-ext :
      (f g : ℕ → ℕ → Sector) (c : Cache Sector)
      → ((e a : ℕ) → f e a ≡ g e a)
      → IsCoherent f c
      → IsCoherent g c
  IsCoherent-ext f g c h v = record {
    agrees = λ i lt u. v.agrees i lt u ∙ h _ _;
    unique = v.unique;
  }

  pub bcache_put-IsCoherent :
      (f : ℕ → ℕ → Sector) (dev lba : ℕ) (x : Sector) (c : Cache Sector)
      → IsCoherent f c
      → IsCoherent (store f dev lba x) (bcache_put dev lba x c)
  unfolding bcache_put
  bcache_put-IsCoherent f dev lba x c v =
      let only = slot_for_only dev lba c v.unique in
      record {
        agrees = λ i lt u. ground (arith, v.agrees i, only i);
        unique = λ i j a b li lj hi hj. ground (arith, v.unique i j a b, only i, only j);
      }

  pub put_from-IsCoherent :
      (f : ℕ → ℕ → Sector) (dev lba k : ℕ) (xs : List Sector) (c : Cache Sector)
      → IsCoherent f c
      → IsCoherent (store_all f dev lba k xs) (put_from dev lba k xs c)
  unfolding put_from
  put_from-IsCoherent f dev lba k [] c v = v
  put_from-IsCoherent f dev lba k (x ∷ xs) c v =
      put_from-IsCoherent (store f dev (add64 lba k) x) dev lba (k + 1) xs _
        (bcache_put-IsCoherent f dev (add64 lba k) x c v)

  pub touch-IsCoherent :
      (f : ℕ → ℕ → Sector) (slot : ℕ) (c : Cache Sector)
      → slot < bcache_entries
      → is_used (c.bcache slot) ≡ true
      → IsCoherent f c
      → IsCoherent f (touch slot c)
  unfolding touch
  touch-IsCoherent f slot c lt u v = record {
    agrees = λ i li ui. ground (arith, v.agrees i, v.agrees slot);
    unique = λ i j a b li lj hi hj. ground (arith, v.unique i j a b);
  }

-- The empty cache agrees with every device.
block_init-IsCoherent :
    {Sector : Type 0} (f : ℕ → ℕ → Sector) (c : Cache Sector) → IsCoherent f (block_init c)
unfolding block_init
block_init-IsCoherent f c = record {
  agrees = λ i lt u. absurd (ground (arith, lt, u));
  unique = λ i j a b lt lu h k. absurd (ground (arith, lt, h));
}
