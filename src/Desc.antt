-- ===== src/Desc.antt =====
-- The structs `desc_ptr_x86` and `_mig_desc` of libsmm/mig.h: a link with its ABA count and color,
-- and a descriptor of two packed words. Sixteen-bit values are their bit patterns.
pub mod Fields
use memif_user_release.Base.{ℕ, ◌+◌, ◌*◌, ◌/◌, ◌%◌, ◌^◌, Bool, leb, ◌-◌}

-- BADINDEX
abbrev pub bad_index : ℕ
bad_index = 0xffff

-- COLOR_NONE, COLOR_USR, COLOR_KER; `color_t` is int16_t, so -1 has the pattern 0xffff.
abbrev pub color_none : ℕ
color_none = 0

abbrev pub color_usr : ℕ
color_usr = 1

abbrev pub color_ker : ℕ
color_ker = 2

abbrev pub color_fail : ℕ
color_fail = 0xffff

-- `c < 0` for a color_t.
abbrev pub is_negative : ℕ → Bool
is_negative c = leb (2 ^ 15) c

-- A uint16_t count, one further on.
abbrev pub next_count : ℕ → ℕ
next_count c = (c + 1) % 2 ^ 16

pub record DescPtr : Type 0 where
  pub index : ℕ
  pub count : ℕ
  pub color : ℕ

-- The member `raw` of the union. The two bytes behind `color` are no member of the struct, and are
-- the same on both sides of each comparison: a checkpoint copies the whole union.
unfoldable pub raw : DescPtr → ℕ
raw p = p.index + 2 ^ 16 * p.count + 2 ^ 32 * p.color

pub record Desc : Type 0 where
  pub word0 : ℕ
  pub word1 : ℕ
  pub refcnt : ℕ
  pub next : DescPtr

-- The bit fields of `word0`, from the low end: virt_base:52, order:3, node:1, huge_page:1, flag:7.
unfoldable pub virt_base : Desc → ℕ
virt_base d = d.word0 % 2 ^ 52

unfoldable pub order : Desc → ℕ
order d = d.word0 / 2 ^ 52 % 8

unfoldable pub node : Desc → ℕ
node d = d.word0 / 2 ^ 55 % 2

unfoldable pub huge_page : Desc → ℕ
huge_page d = d.word0 / 2 ^ 56 % 2

unfoldable pub flag : Desc → ℕ
flag d = d.word0 / 2 ^ 57 % 128

-- The one bit field of `word1`: virt_base_dest:52.
unfoldable pub virt_base_dest : Desc → ℕ
virt_base_dest d = d.word1 % 2 ^ 52

-- A store to a bit field keeps the low bits of the value, and the other fields of the word.
unfoldable pub set_virt_base : ℕ → Desc → Desc
set_virt_base x d = record d { word0 = d.word0 / 2 ^ 52 * 2 ^ 52 + x % 2 ^ 52 }

unfoldable pub set_order : ℕ → Desc → Desc
set_order x d = record d { word0 = d.word0 / 2 ^ 55 * 2 ^ 55 + x % 8 * 2 ^ 52 + d.word0 % 2 ^ 52 }

unfoldable pub set_flag : ℕ → Desc → Desc
set_flag x d = record d { word0 = d.word0 / 2 ^ 64 * 2 ^ 64 + x % 128 * 2 ^ 57 + d.word0 % 2 ^ 57 }

unfoldable pub set_virt_base_dest : ℕ → Desc → Desc
set_virt_base_dest x d = record d { word1 = d.word1 / 2 ^ 52 * 2 ^ 52 + x % 2 ^ 52 }

-- `virt_to_base` and `base_to_virt`. `modulus` is two to the width in which the compiler shifts
-- a 52-bit field: 64 bits, or the 52 bits of the field itself.
unfoldable pub virt_to_base : ℕ → ℕ
virt_to_base x = x / 2 ^ 12

unfoldable pub base_to_virt : ℕ → ℕ → ℕ
base_to_virt modulus x = x * 2 ^ 12 % modulus

-- `MIG_BLOCK_ROUND_DOWN` and `MIG_BLOCK_ROUND_UP` on an unsigned long.
unfoldable pub block_round_down : ℕ → ℕ
block_round_down x = x / 2 ^ 12 * 2 ^ 12

unfoldable pub block_round_up : ℕ → ℕ
block_round_up x = (x + 2 ^ 12 - 1) % 2 ^ 64 / 2 ^ 12 * 2 ^ 12
