-- ===== src/Driver/Flush.antt =====
-- `user_flush`, which runs in the system call of a user whose request found the queue in the user's
-- color, and `dma_callback_kthread`, which runs when the transfer that it issued is complete.
use memif_user_release.Base.{ℕ, zero, suc, ◌+◌, true, Option, none, some, if◌then◌else◌, ◌==◌}
use memif_user_release.Desc.{DescPtr, color_ker, color_fail}
use memif_user_release.Region.{req, issued, comp, Op}
use memif_user_release.Region.Run.{pure, ◌>>=◌, ◌>>◌, Code, Turn, again, finish, loop}
use memif_user_release.Queue.{or_bug, mig_enqueue, mig_dequeue, migqueue_set_color_if_empty}
use memif_user_release.Driver.{
  IssueFunc, copy, mig, Table, Kernel, Calls, on_region, emit, woken, scheduled,
}

-- `junk` and `link` are what the uninitialised locals of the queue's functions hold.
abbrev pub move_issued : (fuel : ℕ) → (link : DescPtr) → Option ℕ → Op (Turn (Unit {0}) (Unit {0}))
move_issued fuel link none = pure (finish tt)
move_issued fuel link (some desc) = do mig_enqueue fuel link issued desc; pure (again tt)

-- The body of the inner loop: one request moves on to the issued queue.
unfoldable pub move_turn :
    (fuel junk : ℕ) → (link : DescPtr) → Unit {0} → Op (Turn (Unit {0}) (Unit {0}))
move_turn fuel junk link _ = do desc ← mig_dequeue fuel junk req; move_issued fuel link desc

-- From the label `again`: empty the queue, then try to color it.
unfoldable pub empty_turn : (fuel junk : ℕ) → (link : DescPtr) → Unit {0} → Op (Turn (Unit {0}) ℕ)
empty_turn fuel junk link _ = do
  loop fuel (move_turn fuel junk link) tt
  c ← migqueue_set_color_if_empty fuel req color_ker
  pure (if c == color_fail then again tt else finish c)

-- `migrate_prep`, which works on the page lists of Linux, is left out.
unfoldable pub user_flush : (fuel junk : ℕ) → (link : DescPtr) → Calls → IssueFunc → Code Kernel ℕ
user_flush fuel junk link calls func = do
  c ← on_region (loop fuel (empty_turn fuel junk link) tt)
  if c == color_ker then pure 0 else do
    deq ← on_region (mig_dequeue fuel junk issued)
    desc ← on_region (or_bug deq)
    calls.issue_one_desc func desc true
    pure 0

-- `dma_complete_one_mig` on the pages of a table, with the rounds left and the next page.
unfoldable pub complete_pages : Calls → Table → (rounds i : ℕ) → Code Kernel (Unit {0})
complete_pages calls table zero i = pure tt
complete_pages calls table (suc rounds) i = do
  calls.dma_complete_one_mig table i
  complete_pages calls table rounds (i + 1)

-- Only a migration has to clean up.
abbrev pub clean_up : Calls → Table → IssueFunc → Code Kernel (Unit {0})
clean_up calls table copy = pure tt
clean_up calls table mig = complete_pages calls table table.num_pages 0

-- The region, the descriptor and the function of a table are never NULL here.
unfoldable pub dma_callback_kthread :
    (fuel : ℕ) → (link : DescPtr) → Calls → Table → Code Kernel (Unit {0})
dma_callback_kthread fuel link calls table = do
  clean_up calls table table.func
  on_region (mig_enqueue fuel link comp table.migdesc)
  emit woken
  emit (scheduled table.user_cpu)
