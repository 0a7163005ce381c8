-- ===== src/Driver/Batch/Callback.antt =====
-- What runs when a transfer of the older flushing is complete: `dma_callback_noremap`, and the work
-- that it schedules, `dma_complete_work_noremap`, of migrate-x86/migrate-x86.c.
pub mod Returned
pub mod Cycle
pub mod Work
use memif_user_release.Base.{ℕ, Bool, false, Option, none, some, if◌then◌else◌, ◌==◌}
use memif_user_release.Desc.{DescPtr, color_usr, color_ker, set_flag}
use memif_user_release.Region.{req, issued, comp, Op, modify, write_desc}
use memif_user_release.Region.Run.{pure, ◌>>=◌, ◌>>◌, Code, Turn, again, finish, loop}
use memif_user_release.Queue.{mig_enqueue, mig_dequeue, migqueue_color}
use memif_user_release.Driver.Copy.{Machine}
use memif_user_release.Driver.Batch.{
  BatchTable, woken, scheduled, table_freed, State, in_region, emit,
}
use memif_user_release.Driver.Batch.Copying.{flush_single_qreq_noremap2}

-- MIG_DESC_COMPLETED
abbrev pub desc_completed : ℕ
desc_completed = 2

-- `mark_mig_desc_comp`, and on to the completion queue.
unfoldable pub complete_desc : (fuel : ℕ) → (link : DescPtr) → (desc : ℕ) → Op ℕ
complete_desc fuel link desc = do
  modify (λ r. write_desc desc (set_flag desc_completed (r.desc desc)) r)
  mig_enqueue fuel link comp desc

abbrev pub complete_next :
    (fuel : ℕ) → (link : DescPtr) → Option ℕ → Op (Turn (Unit {0}) (Unit {0}))
complete_next fuel link none = pure (finish tt)
complete_next fuel link (some desc) = do complete_desc fuel link desc; pure (again tt)

unfoldable pub complete_turn :
    (fuel junk : ℕ) → (link : DescPtr) → Unit {0} → Op (Turn (Unit {0}) (Unit {0}))
complete_turn fuel junk link _ = do
  desc ← mig_dequeue fuel junk issued
  complete_next fuel link desc

unfoldable pub dma_callback_noremap :
    (fuel junk : ℕ) → (link : DescPtr) → BatchTable → Code State (Unit {0})
dma_callback_noremap fuel junk link table = do
  in_region (loop fuel (complete_turn fuel junk link) tt)
  emit woken
  emit (scheduled table)

-- A queue in the user's color is left alone.
unfoldable pub dma_complete_work_noremap :
    Machine → (has_memory : Bool) → (fuel junk : ℕ) → (link : DescPtr) → Code State (Unit {0})
dma_complete_work_noremap m has_memory fuel junk link = do
  clr ← in_region (migqueue_color req)
  (if clr == color_usr
      then pure tt
      else if clr == color_ker
      then (do flush_single_qreq_noremap2 m has_memory fuel junk link false; pure tt)
      else pure tt)
  emit table_freed
