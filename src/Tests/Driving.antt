-- ===== src/Tests/Driving.antt =====
-- Concrete inputs on which the theorems of the driver and of the user's side apply, with a DMA
-- engine that is done at the third check.
use memif_user_release.Base.{
  ℕ, ◌≡◌, refl, ◌+◌, ◌*◌, ◌%◌, ◌^◌, Bool, true, false, leb, ltb, ◌==◌, if◌then◌else◌, some, [], ◌∷◌,
  arith,
}
use memif_user_release.Desc.{color_usr}
use memif_user_release.Region.{Region}
use memif_user_release.Region.Run.{ok, bug, pure, ◌>>◌, Code, Yields, yields}
use memif_user_release.Region.View.{View}
use memif_user_release.Driver.{
  IssueFunc, copy, mig, Table, submitted, page_done, checks, Kernel, Calls, Behaves,
}
use memif_user_release.Driver.Flush.{user_flush, dma_callback_kthread}
use memif_user_release.Driver.Work.{kernel_flush_work}
use memif_user_release.Driver.Submit.{
  Submitting, Flushed, user_flush-Submitting, user_flush-Flushed, user_flush-bug,
}
use memif_user_release.Driver.Next.{Finished}
use memif_user_release.Driver.Finish.{kernel_flush_work-Finished}
use memif_user_release.Driver.Cycle.{Cycled, cycle-Completed}
use memif_user_release.Driver.Files.{
  mmap_fault, served, refused, region_to_mmap_info, if_write, wrote,
}
use memif_user_release.Driver.Files.Mapping.{mmap_fault_lem, if_write-IsNewRegion}
use memif_user_release.Init.Fresh.{IsNewRegion}
use memif_user_release.User.{memif_start_replication, move_single_noremap}
use memif_user_release.User.Request.{Requested, memif_start_replication-Requested}
use memif_user_release.Tests.{to, region, view, region-IsWellFormed}
use memif_user_release.Tests.Idle.{idle_region, idle-IsWellFormed}

abbrev table_of : IssueFunc → ℕ → Table
table_of func desc = record { func = func; num_pages = 2; migdesc = desc; user_cpu = 0 }

abbrev pub calls : Calls
calls = record {
  issue_one_desc = λ func desc irq k.
      ok (table_of func desc) (record k { trace = submitted desc irq ∷ k.trace });
  dma_complete_one_mig = λ table page k. ok tt (record k { trace = page_done page ∷ k.trace });
  is_complete = λ k. leb 3 (checks k.trace);
}

pub calls-Behaves : Behaves calls
calls-Behaves = record {
  issues = λ func desc irq k. yields (refl, refl);
  completes = λ table page k. yields (refl, refl);
  punctual = λ k h. ground (arith, h);
}

abbrev at_rest : Region → Kernel
at_rest r = record { region = r; trace = [] }

flushed :
    (desc : ℕ) × (v : View) × (k : Kernel) × Submitting desc (view 1) (at_rest (region 1)) v k
    × (user_flush 9 0 (to 0 0) calls copy (at_rest (region 1))
        ≡ (do calls.issue_one_desc copy desc true; pure 0) k)
flushed =
    user_flush-Submitting 9 0 (to 0 0) (omega arith) (region-IsWellFormed 1 (omega arith))
      (omega arith) (omega arith) (omega arith) calls copy [] (λ e. omega (arith, e)) (λ e. cc)

flush_example :
    (desc : ℕ) × (v : View) × (k : Kernel) × Submitting desc (view 1) (at_rest (region 1)) v k
    × (user_flush 9 0 (to 0 0) calls copy (at_rest (region 1))
        ≡ (do calls.issue_one_desc copy desc true; pure 0) k)
flush_example =
    user_flush-Submitting 9 0 (to 0 0) (omega arith) (region-IsWellFormed 1 (omega arith))
      (omega arith) (omega arith) (omega arith) calls copy [] (λ e. omega (arith, e)) (λ e. cc)

kernel_color_example :
    Yields
      (λ c k. (c ≡ 0) × (k.trace ≡ []) × (v : View) × Flushed (view 2) (region 2) v k.region)
      (user_flush 9 0 (to 0 0) calls copy (at_rest (region 2)))
kernel_color_example =
    user_flush-Flushed 9 0 (to 0 0) (omega arith) (region-IsWellFormed 2 (omega arith))
      (omega arith) (omega arith) (omega arith) calls copy [] refl

idle_flush_example : user_flush 9 0 (to 0 0) calls copy (at_rest idle_region) ≡ bug
idle_flush_example =
    user_flush-bug 9 0 (to 0 0) (omega arith) idle-IsWellFormed (omega arith) (omega arith)
      (omega arith) calls copy [] (λ e. omega (arith, e)) refl

work_example :
    Yields
      (λ _ k. (v : View) × Finished (view 2) (at_rest (region 2)) v k)
      (kernel_flush_work 9 0 (to 0 0) calls mig (at_rest (region 2)))
work_example =
    kernel_flush_work-Finished 9 0 (to 0 0) calls mig calls-Behaves (omega arith)
      (region-IsWellFormed 2 (omega arith)) (omega arith) (omega arith) (omega arith)

cycle_example :
    Yields
      (λ _ k. (v : View) × Cycled (view 1) v k.region)
      ((do
        dma_callback_kthread 9 (to 0 0) calls (table_of copy flushed.0)
        kernel_flush_work 9 0 (to 0 0) calls copy)
        flushed.2)
cycle_example =
    cycle-Completed 9 (to 0 0) calls calls-Behaves 0 (table_of copy flushed.0) copy (omega arith)
      flushed.3 (omega arith) (omega arith) (omega arith)

abbrev no_write : (fd cmd : ℕ) → Code Kernel Bool
no_write fd cmd k = ok false k

request_example :
    (desc : ℕ) × (v : View) × (r : Region) × Requested 8200 16384 3 desc (view 1) (region 1) v r
    × (memif_start_replication 9 (to 0 0) no_write 5 8200 16384 3 (at_rest (region 1))
        ≡ (if 1 == color_usr then (do no_write 5 move_single_noremap; pure desc) else pure desc)
            (at_rest r))
request_example =
    memif_start_replication-Requested 9 (to 0 0) 8200 16384 3 no_write 5 (at_rest (region 1))
      (omega arith) (region-IsWellFormed 1 (omega arith)) (omega arith) (omega arith) (omega arith)

fault_example :
    (mmap_fault (λ a. some a) (some 65536) 2
      ≡ (if ltb 2 4 then served ((65536 + 2 * 4096) % 2 ^ 64) else refused))
    × (mmap_fault (λ a. some a) (some 65536) 3 ≡ served (region_to_mmap_info 65536))
fault_example = mmap_fault_lem (λ a. some a) (λ a. a) 65536 2 (λ a. refl)

init_region_example :
    Yields
      (λ out k. (out ≡ wrote 4) × (v : View) × IsNewRegion 379 v k.region)
      (if_write 1 0 (to 0 0) calls (pure tt) (some 0) 4 (at_rest (region 1)))
init_region_example =
    if_write-IsNewRegion 0 0 (to 0 0) calls (pure tt) 4 (at_rest (region 1)) (omega arith)
