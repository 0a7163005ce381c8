-- ===== src/Desc/Fields.antt =====
-- Laws of the packed words and links of libsmm/mig.h.
use memif_user_release.Base.{ℕ, ◌+◌, ◌*◌, ◌%◌, ◌^◌, ◌<◌, ◌≤◌, ◌≡◌, ap, ◌∙◌, arith}
use native.Mathlib.Nat.{mod-eq_of_lt}
use memif_user_release.Desc.{
  DescPtr, raw, Desc, virt_base, order, node, huge_page, flag, set_virt_base, set_order, set_flag,
  virt_to_base, base_to_virt, block_round_down, block_round_up,
}

-- The members of a link lie in their C types.
pub record InRange (p : DescPtr) : Type 0 where
  pub index : p.index < 2 ^ 16
  pub count : p.count < 2 ^ 16
  pub color : p.color < 2 ^ 16

-- A compare-and-swap on raw values compares index, count and color: two links whose members lie in
-- their C types and whose raw values are equal are equal.
pub raw-injective : (p q : DescPtr) → InRange p → InRange q → raw p ≡ raw q → p ≡ q
unfolding raw
raw-injective p q hp hq e = ground arith

-- The bit fields of the first word.
abbrev pub Word0 : ℕ → ℕ → ℕ → ℕ → ℕ → Desc → Type 0
Word0 b o n h f d =
    (virt_base d ≡ b) × (order d ≡ o) × (node d ≡ n) × (huge_page d ≡ h) × (flag d ≡ f)

pub set_virt_base_lem :
    (x : ℕ) (d : Desc)
    → Word0 (x % 2 ^ 52) (order d) (node d) (huge_page d) (flag d) (set_virt_base x d)
unfolding order set_virt_base virt_base node huge_page flag
set_virt_base_lem x d = (omega arith, omega arith, omega arith, omega arith, omega arith)

pub set_order_lem :
    (x : ℕ) (d : Desc) → Word0 (virt_base d) (x % 8) (node d) (huge_page d) (flag d) (set_order x d)
unfolding order set_order virt_base node huge_page flag
set_order_lem x d = (omega arith, omega arith, omega arith, omega arith, omega arith)

pub set_flag_lem :
    (x : ℕ) (d : Desc)
    → Word0 (virt_base d) (order d) (node d) (huge_page d) (x % 128) (set_flag x d)
unfolding order set_flag virt_base node huge_page flag
set_flag_lem x d = (omega arith, omega arith, omega arith, omega arith, omega arith)

-- An address below 2^52 comes back from a descriptor rounded down to its 4K page, whether the
-- compiler shifts the 52-bit field in 52 bits or in more.
pub base_to_virt-virt_to_base :
    (modulus addr : ℕ) (d : Desc)
    → 2 ^ 52 ≤ modulus
    → addr < 2 ^ 52
    → base_to_virt modulus (virt_base (set_virt_base (virt_to_base addr) d)) ≡ block_round_down addr
unfolding base_to_virt virt_to_base virt_base set_virt_base block_round_down
base_to_virt-virt_to_base modulus addr d wide fits =
    ap (λ x. x * 2 ^ 12 % modulus) (omega arith) ∙ mod-eq_of_lt (omega arith)

-- Rounding up gives the least multiple of 4K that is not below the address, while it does not wrap.
pub block_round_up_least :
    (addr m : ℕ)
    → addr + 4096 ≤ 2 ^ 64
    → addr ≤ m * 4096
    → (addr ≤ block_round_up addr)
      × (block_round_up addr % 4096 ≡ 0)
      × (block_round_up addr ≤ m * 4096)
unfolding block_round_up
block_round_up_least addr m fits above = omega arith
