-- ===== src/Tests/Batching.antt =====
-- A request of one page that the older flushing copies.
use memif_user_release.Base.{ℕ, ◌+◌, refl, ◌≤◌, true, [], ◌∷◌, arith}
use memif_user_release.Desc.{order}
use memif_user_release.Region.Run.{◌>>◌, Yields}
use memif_user_release.Region.View.{View, Payload}
use memif_user_release.Driver.Batch.{State}
use memif_user_release.Driver.Batch.Copying.{flush_single_qreq_noremap2}
use memif_user_release.Driver.Batch.Copying.Lists.{IsCopyable, pages}
use memif_user_release.Driver.Batch.Copying.Flushed.{table_of, Flushed, flush-Flushed}
use memif_user_release.Driver.Batch.Callback.{dma_callback_noremap, dma_complete_work_noremap}
use memif_user_release.Driver.Batch.Callback.Cycle.{Served, batch-Served}
use memif_user_release.Tests.{to, region, view, region-IsWellFormed}
use memif_user_release.Tests.Issuing.{open_vma, open_machine}

abbrev page : Payload → ℕ → ℕ
page p j = j

every-IsCopyable : (p : Payload) → IsCopyable open_machine p (page p) (page p)
every-IsCopyable p = record {
  vma = open_vma;
  vma1 = open_vma;
  at = refl;
  at1 = refl;
  inside = omega arith;
  inside1 = omega arith;
  free = refl;
  free1 = refl;
  old = record { here = λ j lt. refl; single = λ j lt. omega arith };
  new = record { here = λ j lt. refl; single = λ j lt. omega arith };
}

abbrev start : State
start = record { region = region 1; events = [] }

one_page : pages (20, 21) + 0 ≤ 128
unfolding order
one_page = omega arith

batch_flush_example :
    Yields
      (Flushed open_machine page page true (view 1) start)
      (flush_single_qreq_noremap2 open_machine true 9 0 (to 0 0) true start)
batch_flush_example =
    flush-Flushed open_machine page page 9 0 (to 0 0) true start (omega arith)
      (region-IsWellFormed 1 (omega arith)) (omega arith) (omega arith) (omega arith) refl
      (every-IsCopyable (20, 21), tt) one_page (λ some. refl)

batch_example :
    Yields
      (λ _ s. (v : View) × Served open_machine page page (view 1) start v s)
      ((do
        flush_single_qreq_noremap2 open_machine true 9 0 (to 0 0) true
        dma_callback_noremap 9 0 (to 0 0) (table_of open_machine page page ((20, 21) ∷ []))
        dma_complete_work_noremap open_machine true 9 0 (to 0 0))
        start)
batch_example =
    batch-Served 9 0 (to 0 0) (omega arith) open_machine page page start
      (region-IsWellFormed 1 (omega arith)) (omega arith) (omega arith) (omega arith) refl (λ e. cc)
      (every-IsCopyable (20, 21), tt) one_page refl
