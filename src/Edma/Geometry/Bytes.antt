-- ===== src/Edma/Geometry/Bytes.antt =====
-- Which bytes a PSET moves: its addresses, its counts and its indices.
use memif_user_release.Base.{ℕ, ◌*◌, ◌%◌, ◌^◌, ◌<◌, ◌≡◌, ◌∙◌, ap, ap₂, arith}
use memif_user_release.Edma.{Pset}
use memif_user_release.Edma.Geometry.{Geometry}
use memif_user_release.Edma.Geometry.Fits.{Fits}

-- One frame of arrays, one behind the other on both sides, that hold so many bytes; the counts are
-- within 16 bits.
abbrev pub Moves : Pset → (size : ℕ) → Type 0
Moves p size =
    (p.a_cnt * p.b_cnt ≡ size)
    × (p.a_cnt < 2 ^ 16)
    × (p.b_cnt < 2 ^ 16)
    × (p.c_cnt ≡ 1)
    × (p.b_cnt_reload ≡ p.b_cnt)
    × (p.src_b_idx ≡ p.a_cnt)
    × (p.dest_b_idx ≡ p.a_cnt)

-- So many bytes from one address on the bus to another.
abbrev pub Carries : Pset → (src dest size : ℕ) → Type 0
Carries p src dest size = (p.src_addr ≡ src % 2 ^ 32) × (p.dest_addr ≡ dest % 2 ^ 32) × Moves p size

-- The geometry as a PSET holds it, where counts and indices have 16 bits.
abbrev pub holding : Geometry → Pset
holding g = record {
  opt = 0;
  src_addr = 0;
  a_cnt = g.acnt % 2 ^ 16;
  b_cnt = g.bcnt % 2 ^ 16;
  dest_addr = 0;
  src_b_idx = g.bidx % 2 ^ 16;
  dest_b_idx = g.bidx % 2 ^ 16;
  link_addr = 0;
  b_cnt_reload = g.brcnt % 2 ^ 16;
  src_c_idx = g.cidx % 2 ^ 16;
  dest_c_idx = g.cidx % 2 ^ 16;
  c_cnt = g.ccnt % 2 ^ 16;
}

-- A geometry for the size whose number of arrays fits.
pub holding-Moves :
    (g : Geometry) (size : ℕ) → Fits size g → g.bcnt < 2 ^ 16 → Moves (holding g) size
holding-Moves g size f few =
    let a : g.acnt % 2 ^ 16 ≡ g.acnt = omega (arith, f.narrow) in
    let b : g.bcnt % 2 ^ 16 ≡ g.bcnt = omega (arith, few) in
    (
      ap₂ ◌*◌ a b ∙ f.all,
      omega arith,
      omega arith,
      omega (arith, f.frames),
      ap (λ x. x % 2 ^ 16) f.reload,
      ap (λ x. x % 2 ^ 16) f.index,
      ap (λ x. x % 2 ^ 16) f.index,
    )
