-- ===== src/Edma/Selfchain/Whole.antt =====
-- All of `edma3_start_xfer_multiple_selfchaining`.
use memif_user_release.Base.{ℕ, zero, suc, ◌+◌, ◌*◌, ◌≡◌}
use memif_user_release.Edma.{Pset}
use memif_user_release.Edma.Geometry.{Geometry}
use memif_user_release.Edma.Geometry.Fits.{Fits}
use memif_user_release.Edma.Geometry.Bytes.{Carries}
use memif_user_release.Edma.Gather.{OptBits}
use memif_user_release.Edma.Repeat.{filled}
use memif_user_release.Edma.Selfchain.{first_opt, next_opt}

module _ (b : OptBits) (src dest size count ch tcc : ℕ) (g : Geometry) where
  abbrev pub opt_at : ℕ → ℕ
  opt_at zero = first_opt b tcc g.sync
  opt_at (suc j) = next_opt b ch count j (opt_at j)

  -- Part `j` of the transfer.
  abbrev pub part : ℕ → Pset
  part j = filled (src + j * size) (dest + j * size) (opt_at j) g

  -- What the PSET of part `j` says.
  abbrev pub IsPart : ℕ → Pset → Type 0
  IsPart j p = Carries p (src + j * size) (dest + j * size) size × (p.opt ≡ opt_at j)
