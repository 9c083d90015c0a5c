-- ===== src/Vmm/Entries.antt =====
-- include/vmm.h: the fields of a word that is put together by or.
use project_lariat.Prelude.{
  ap, ap₂, arith, false, suc, sym, true, zero, ℕ, ◌%◌, ◌*◌, ◌+◌, ◌/◌, ◌<◌, ◌^◌, ◌∙◌, ◌≡◌,
}
use native.Mathlib.Nat.{pow-suc}
use project_lariat.Vmm.{
  or64, or_bits, pt_get_addr, pt_is_huge, pt_is_present, pt_present, table_flags,
}

abbrev halved : ℕ → ℕ → ℕ
halved zero a = a
halved (suc k) a = halved k (a / 2)

abbrev doubled_by : ℕ → ℕ → ℕ
doubled_by zero a = a
doubled_by (suc k) a = 2 * doubled_by k a

or_bits_zero : (n a : ℕ) → halved n a ≡ 0 → or_bits n a 0 ≡ a
unfolding or_bits
or_bits_zero zero a h = omega (arith, h)
or_bits_zero (suc n) a h = omega (arith, or_bits_zero n (a / 2) h)

halved-lt : (n a : ℕ) → a < 2 ^ n → halved n a ≡ 0
halved-lt zero a h = omega arith
halved-lt (suc n) a h = halved-lt n (a / 2) (omega (arith, pow-suc 2 n))

or_bits_sum :
    (k n q f : ℕ)
    → halved k f ≡ 0
    → halved n q ≡ 0
    → or_bits (n + k) (doubled_by k q) f ≡ doubled_by k q + f
unfolding or_bits
or_bits_sum zero n q f h g =
    ap₂ (λ m b. or_bits m q b) (let e : n + 0 ≡ n = omega arith in e) h
    ∙ or_bits_zero n q g
    ∙ omega (arith, h)
or_bits_sum (suc k) n q f h g =
    let half : 2 * doubled_by k q / 2 ≡ doubled_by k q = omega arith in
    ap (λ m. or_bits m (2 * doubled_by k q) f) (let e : n + suc k ≡ suc (n + k) = omega arith in e)
    ∙ omega (arith, or_bits_sum k n q (f / 2) h g, ap (λ a. or_bits (n + k) a (f / 2)) half)

-- An address of a page with flags.
pub or64_page : (q f : ℕ) → q < 2 ^ 51 → f < 4096 → or64 (q * 4096) f ≡ q * 4096 + f
or64_page q f h g =
    let scaled : doubled_by 12 q ≡ q * 4096 = omega arith in
    ap (λ a. or64 a f) (sym scaled)
    ∙ or_bits_sum 12 52 q f (halved-lt 12 f g) (halved-lt 52 q (omega (arith, h)))
    ∙ omega (arith, scaled)

or_bits_one : (n x : ℕ) → or_bits (suc n) x 1 ≡ 1 + 2 * or_bits n (x / 2) 0
unfolding or_bits
or_bits_one n x = omega arith

pub or64_one : (x : ℕ) → x < 2 ^ 64 → or64 x 1 ≡ 1 + 2 * (x / 2)
or64_one x h =
    or_bits_one 63 x
    ∙ ap (λ y. 1 + 2 * y) (or_bits_zero 63 (x / 2) (halved-lt 63 (x / 2) (omega (arith, h))))

-- A page with flags and the present bit.
unfoldable pub entry_page : ℕ → ℕ → ℕ
entry_page phys flags = or64 (or64 (pt_get_addr phys) flags) pt_present

pub entry_page-addr :
    (phys flags : ℕ) → flags < 4096 → pt_get_addr (entry_page phys flags) ≡ pt_get_addr phys
unfolding pt_get_addr entry_page
entry_page-addr phys flags h =
    let q = phys / 4096 % 2 ^ 51 in
    let sum : or64 (q * 4096) flags ≡ q * 4096 + flags = or64_page q flags (omega arith) h in
    omega (arith, sum, or64_one (or64 (q * 4096) flags) (omega (arith, sum)))

pub entry_page-present :
    (phys flags : ℕ) → flags < 4096 → pt_is_present (entry_page phys flags) ≡ true
unfolding pt_get_addr pt_is_present entry_page
entry_page-present phys flags h =
    let q = phys / 4096 % 2 ^ 51 in
    let sum : or64 (q * 4096) flags ≡ q * 4096 + flags = or64_page q flags (omega arith) h in
    ground (arith, or64_one (or64 (q * 4096) flags) (omega (arith, sum)))

-- A table: its address, and that it is there and no page.
pub record IsEntryOf (phys word : ℕ) : Type 0 where
  pub addr : pt_get_addr word ≡ phys
  pub present : pt_is_present word ≡ true
  pub not_huge : pt_is_huge word ≡ false

pub entry-IsEntryOf : (q : ℕ) → q < 2 ^ 51 → IsEntryOf (q * 4096) (or64 (q * 4096) table_flags)
unfolding pt_get_addr pt_is_present pt_is_huge
entry-IsEntryOf q h =
    let sum : or64 (q * 4096) 7 ≡ q * 4096 + 7 = or64_page q 7 h (omega arith) in
    record {
      addr = omega (arith, sum);
      present = ground (arith, sum);
      not_huge = ground (arith, sum);
    }

pub pt_get_addr_offset :
    (entry off : ℕ) → off < 4096 → or64 (pt_get_addr entry) off ≡ pt_get_addr entry + off
unfolding pt_get_addr
pt_get_addr_offset entry off h = or64_page (entry / 4096 % 2 ^ 51) off (omega arith) h
