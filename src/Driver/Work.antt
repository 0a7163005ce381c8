-- ===== src/Driver/Work.antt =====
-- `kernel_flush_work`, the work of the kernel thread: it issues the queued descriptors one by one,
-- sleeps until each transfer is complete, and gives the queue back to the user when all is done.
use memif_user_release.Base.{ℕ, zero, suc, false, Option, none, some, if◌then◌else◌, ◌==◌}
use memif_user_release.Desc.{DescPtr, order, color_usr, color_fail}
use memif_user_release.Region.{req, issued, comp, Op}
use memif_user_release.Region.Run.{ok, bug, pure, ◌>>=◌, ◌>>◌, Code, Turn, again, finish, loop}
use memif_user_release.Queue.{mig_enqueue, mig_dequeue, migqueue_color, migqueue_set_color_if_empty}
use memif_user_release.Driver.{IssueFunc, Kernel, Calls, on_region, emit, slept, table_freed, woken}
use memif_user_release.Driver.Flush.{clean_up}

-- What a round finds: nothing more to do, a queue that filled up meanwhile, or a descriptor.
pub data Next : Type 0 where
  stop : Next
  retry : Next
  serve : ℕ → Next

abbrev pub give_back : (fuel : ℕ) → Option ℕ → Op Next
give_back fuel (some desc) = pure (serve desc)
give_back fuel none = do
  c ← migqueue_set_color_if_empty fuel req color_usr
  pure (if c == color_fail then retry else stop)

abbrev pub next_request : (fuel junk : ℕ) → Option ℕ → Op Next
next_request fuel junk (some desc) = pure (serve desc)
next_request fuel junk none = do
  c ← migqueue_color req
  if c == color_usr then pure stop else do desc ← mig_dequeue fuel junk req; give_back fuel desc

-- The first half of a round, up to "have a desc to work on".
unfoldable pub next_desc : (fuel junk : ℕ) → Op Next
next_desc fuel junk = do desc ← mig_dequeue fuel junk issued; next_request fuel junk desc

-- The first sleep in microseconds, from `sleep_low` to `sleep_high`, by the order of the request.
unfoldable pub sleep_range : ℕ → ℕ × ℕ
sleep_range o =
    if o == 0
    then (10, 10)
    else if o == 3
    then (20, 30)
    else if o == 4
    then (30, 40)
    else if o == 5
    then (30, 50)
    else if o == 6
    then (70, 90)
    else if o == 7
    then (140, 170)
    else (100, 150)

-- Sleep and check, with the checks left; the later sleeps are from 30 to 60.
unfoldable pub await : Calls → (left : ℕ) → ℕ × ℕ → Code Kernel (Unit {0})
await calls zero range = λ k. bug
await calls (suc left) (low, high) = do
  emit (slept low high)
  λ k. if calls.is_complete k then ok tt k else await calls left (30, 60) k

abbrev pub order_of : ℕ → Op ℕ
order_of desc r = ok (order (r.desc desc)) r

-- The second half of a round.
unfoldable pub serve_desc :
    (fuel : ℕ) → (link : DescPtr) → Calls → IssueFunc → (desc : ℕ) → Code Kernel (Unit {0})
serve_desc fuel link calls func desc = do
  table ← calls.issue_one_desc func desc false
  o ← on_region (order_of desc)
  await calls 10 (sleep_range o)
  clean_up calls table table.func
  emit table_freed
  on_region (mig_enqueue fuel link comp desc)
  emit woken

abbrev pub work_on :
    (fuel : ℕ)
    → (link : DescPtr) → Calls
    → IssueFunc
    → Next
    → Code Kernel (Turn (Unit {0}) (Unit {0}))
work_on fuel link calls func stop = pure (finish tt)
work_on fuel link calls func retry = pure (again tt)
work_on fuel link calls func (serve desc) = do serve_desc fuel link calls func desc; pure (again tt)

unfoldable pub work_turn :
    (fuel junk : ℕ)
    → (link : DescPtr) → Calls
    → IssueFunc
    → Unit {0}
    → Code Kernel (Turn (Unit {0}) (Unit {0}))
work_turn fuel junk link calls func _ = do
  next ← on_region (next_desc fuel junk)
  work_on fuel link calls func next

-- The table that scheduled the work is freed first; `func` is what its member held.
unfoldable pub kernel_flush_work :
    (fuel junk : ℕ) → (link : DescPtr) → Calls → IssueFunc → Code Kernel (Unit {0})
kernel_flush_work fuel junk link calls func = do
  emit table_freed
  loop fuel (work_turn fuel junk link calls func) tt
