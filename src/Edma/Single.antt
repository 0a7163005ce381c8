-- ===== src/Edma/Single.antt =====
-- Single transfers of libsmm/edma3.c: `edma3_start_xfer_once`, `edma3_start_xfer_once1`,
-- `edma3_wait_xfer`, `edma3_wait_xfer1` and `edma3_check_xfer`.
pub mod Whole
use memif_user_release.Base.{ℕ, Bool, if◌then◌else◌}
use memif_user_release.Region.Run.{ok, bug, Code, pure, ◌>>=◌, ◌>>◌}
use memif_user_release.Edma.{Drv, ChInfo, checked}
use memif_user_release.Edma.Geometry.{Geometry, get_xfer_geometry}
use memif_user_release.Edma.Channel.{request}
use memif_user_release.Edma.Gather.{OptBits}
use memif_user_release.Edma.Repeat.{repeat_pset}

-- `edma_xfer`
pub record Xfer : Type 0 where
  pub ch : ℕ
  pub tcc : ℕ

module _ {S : Type 0} (d : Drv S) where
  -- From the PSET on, the same in both functions.
  unfoldable pub launch : OptBits → (src dest : ℕ) → Geometry → (ch tcc : ℕ) → Code S Xfer
  launch b src dest g ch tcc = do
    checked (d.set_param ch (repeat_pset b src dest tcc g))
    checked (d.enable_transfer ch)
    pure (record { ch = ch; tcc = tcc })

  -- The search for a geometry is written out in it as in `get_xfer_geometry`.
  unfoldable pub start_xfer_once : OptBits → (fuel src dest size : ℕ) → Code S Xfer
  start_xfer_once b fuel src dest size = do
    checked d.malloc
    g ← get_xfer_geometry fuel size
    got ← request d d.dma_channel_any d.tcc_any
    launch b src dest g got.0 got.1

  -- On a channel that is there.
  unfoldable pub start_xfer_once1 : OptBits → ChInfo → (fuel src dest size : ℕ) → Code S Xfer
  start_xfer_once1 b chinfo fuel src dest size = do
    checked d.malloc
    g ← get_xfer_geometry fuel size
    launch b src dest g chinfo.ch chinfo.tcc

  unfoldable pub wait_xfer : Xfer → Code S (Unit {0})
  wait_xfer x = do checked (d.wait_and_clear_tcc x.tcc); checked (d.free_channel x.ch)

  unfoldable pub wait_xfer1 : Xfer → Code S (Unit {0})
  wait_xfer1 x = checked (d.wait_and_clear_tcc x.tcc)

-- `check_and_clear` is EDMA3_DRV_checkAndClearTcc.
pub check_xfer : {S : Type 0} → (check_and_clear : ℕ → S → Bool × ℕ × S) → Xfer → Code S ℕ
check_xfer check_and_clear x s =
    let (done, status, s') = check_and_clear x.ch s in if done then ok status s' else bug
